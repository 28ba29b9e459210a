-- ===== src/Anthropic/Stream/Begun.antt =====
-- The protocol is before its start only when no event was accepted.
use foxrouters.Anthropic.Stream.{
  message_start, message_stop, content_block_delta, message_delta, SseEvent, content_block_stop,
  content_block_start,
}
use foxrouters.Anthropic.Stream.Grammar.{
  finished, accept, enter, before_start, fresh, and_then, leave, Phase, fill_block, stop_block,
  opened, Status, accepts, Protocol, start_block, stop_message, ending, complete, inside,
}
use foxrouters.Prelude.{
  ℕ, ◌≡◌, refl, sym, ap, ◌∙◌, Bool, true, false, Option, none, some, List, [], ◌∷◌, arith,
}

is_begun : Phase → Bool
is_begun before_start = false
is_begun inside = true
is_begun ending = true
is_begun complete = true

begun : Option Protocol → Bool
begun none = true
begun (some p) = is_begun p.phase

start_block-begun :
    (ph : Phase) (st : Status) (i : ℕ) (s : Protocol)
    → s.phase ≡ ph
    → begun (start_block ph st i s) ≡ true
unfolding begun is_begun
start_block-begun inside fresh i s h = ap is_begun h
start_block-begun inside opened i s h = refl
start_block-begun inside finished i s h = refl
start_block-begun before_start st i s h = refl
start_block-begun ending st i s h = refl
start_block-begun complete st i s h = refl

fill_block-begun :
    (ph : Phase) (st : Status) (s : Protocol) → s.phase ≡ ph → begun (fill_block ph st s) ≡ true
unfolding begun is_begun
fill_block-begun inside opened s h = ap is_begun h
fill_block-begun inside fresh s h = refl
fill_block-begun inside finished s h = refl
fill_block-begun before_start st s h = refl
fill_block-begun ending st s h = refl
fill_block-begun complete st s h = refl

stop_block-begun :
    (ph : Phase) (st : Status) (i : ℕ) (s : Protocol)
    → s.phase ≡ ph
    → begun (stop_block ph st i s) ≡ true
unfolding begun is_begun
stop_block-begun inside opened i s h = ap is_begun h
stop_block-begun inside fresh i s h = refl
stop_block-begun inside finished i s h = refl
stop_block-begun before_start st i s h = refl
stop_block-begun ending st i s h = refl
stop_block-begun complete st i s h = refl

enter-begun : (ph : Phase) (s : Protocol) → begun (enter ph s) ≡ true
unfolding begun is_begun
enter-begun before_start s = refl
enter-begun inside s = refl
enter-begun ending s = refl
enter-begun complete s = refl

leave-begun : (ph : Phase) (s : Protocol) → begun (leave ph s) ≡ true
unfolding begun is_begun
leave-begun before_start s = refl
leave-begun inside s = ground arith
leave-begun ending s = refl
leave-begun complete s = refl

stop_message-begun : (ph : Phase) (s : Protocol) → begun (stop_message ph s) ≡ true
unfolding begun is_begun
stop_message-begun before_start s = refl
stop_message-begun inside s = refl
stop_message-begun ending s = refl
stop_message-begun complete s = refl

accept-begun : (e : SseEvent) (s : Protocol) → begun (accept e s) ≡ true
accept-begun message_start s = enter-begun s.phase s
accept-begun (content_block_start i k) s = start_block-begun s.phase (s.status i) i s refl
accept-begun (content_block_delta i d) s = fill_block-begun s.phase (s.status i) s refl
accept-begun (content_block_stop i) s = stop_block-begun s.phase (s.status i) i s refl
accept-begun (message_delta r n) s = leave-begun s.phase s
accept-begun message_stop s = stop_message-begun s.phase s

and_then-begun :
    (es : List SseEvent) (o : Option Protocol)
    → ((s : Protocol) → is_begun s.phase ≡ true → begun (accepts es s) ≡ true)
    → begun o ≡ true
    → begun (and_then (accepts es) o) ≡ true
unfolding begun
and_then-begun es none k h = refl
and_then-begun es (some s) k h = k s h

accepts-begun :
    (es : List SseEvent) (s : Protocol) → is_begun s.phase ≡ true → begun (accepts es s) ≡ true
unfolding accepts begun
accepts-begun [] s h = h
accepts-begun (e ∷ es) s h =
    and_then-begun es (accept e s) (λ t. accepts-begun es t) (accept-begun e s)

pub unstarted_sent :
    (es : List SseEvent) (s p : Protocol) → accepts es s ≡ some p → p.phase ≡ before_start → es ≡ []
unfolding accepts begun is_begun
unstarted_sent [] s p h b = refl
unstarted_sent (e ∷ es) s p h b =
    let yes : is_begun p.phase ≡ true =
      sym (ap begun h)
      ∙ and_then-begun es (accept e s) (λ t. accepts-begun es t) (accept-begun e s) in
    absurd (ground (arith, yes, ap is_begun b))
