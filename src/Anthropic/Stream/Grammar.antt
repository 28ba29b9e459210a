-- ===== src/Anthropic/Stream/Grammar.antt =====
-- The protocol of the events, on its own: message_start first, each block started once, filled while
-- it is open and stopped once, and message_delta and message_stop at the end with no block open.
use foxrouters.Anthropic.Stream.{
  message_delta, content_block_stop, message_stop, content_block_start, SseEvent,
  content_block_delta, message_start,
}
use foxrouters.Prelude.{
  nat_beq, if◌then◌else◌, ℕ, ◌+◌, ◌-◌, ◌≡◌, refl, ap, ◌∙◌, Option, none, some, List, [], ◌∷◌, ◌++◌,
}

pub data Phase : Type 0 where
  before_start : Phase
  inside : Phase
  ending : Phase
  complete : Phase

pub data Status : Type 0 where
  fresh : Status
  opened : Status
  finished : Status

pub record Protocol : Type 0 where
  pub phase : Phase
  pub status : ℕ → Status
  pub open_blocks : ℕ

abbrev pub initial : Protocol
initial = record { phase = before_start; status = λ i. fresh; open_blocks = 0 }

abbrev pub set_status : ℕ → Status → (ℕ → Status) → ℕ → Status
set_status i new f j = if nat_beq i j then new else f j

abbrev pub enter : Phase → Protocol → Option Protocol
enter before_start s = some (record s { phase = inside })
enter inside s = none
enter ending s = none
enter complete s = none

abbrev pub start_block : Phase → Status → ℕ → Protocol → Option Protocol
start_block inside fresh i s =
    some (record s { status = set_status i opened s.status; open_blocks = s.open_blocks + 1 })
start_block inside opened i s = none
start_block inside finished i s = none
start_block before_start _ i s = none
start_block ending _ i s = none
start_block complete _ i s = none

abbrev pub fill_block : Phase → Status → Protocol → Option Protocol
fill_block inside opened s = some s
fill_block inside fresh s = none
fill_block inside finished s = none
fill_block before_start _ s = none
fill_block ending _ s = none
fill_block complete _ s = none

abbrev pub stop_block : Phase → Status → ℕ → Protocol → Option Protocol
stop_block inside opened i s =
    some (record s { status = set_status i finished s.status; open_blocks = s.open_blocks - 1 })
stop_block inside fresh i s = none
stop_block inside finished i s = none
stop_block before_start _ i s = none
stop_block ending _ i s = none
stop_block complete _ i s = none

abbrev pub leave : Phase → Protocol → Option Protocol
leave inside s = if nat_beq s.open_blocks 0 then some (record s { phase = ending }) else none
leave before_start s = none
leave ending s = none
leave complete s = none

abbrev pub stop_message : Phase → Protocol → Option Protocol
stop_message ending s = some (record s { phase = complete })
stop_message before_start s = none
stop_message inside s = none
stop_message complete s = none

abbrev pub accept : SseEvent → Protocol → Option Protocol
accept message_start s = enter s.phase s
accept (content_block_start i kind) s = start_block s.phase (s.status i) i s
accept (content_block_delta i d) s = fill_block s.phase (s.status i) s
accept (content_block_stop i) s = stop_block s.phase (s.status i) i s
accept (message_delta reason toks) s = leave s.phase s
accept message_stop s = stop_message s.phase s

abbrev pub and_then : (Protocol → Option Protocol) → Option Protocol → Option Protocol
and_then f none = none
and_then f (some s) = f s

unfoldable pub accepts : List SseEvent → Protocol → Option Protocol
accepts [] s = some s
accepts (e ∷ es) s = and_then (accepts es) (accept e s)

and_then-snoc :
    (f g : Protocol → Option Protocol) (e : SseEvent) (o : Option Protocol) (s' : Protocol)
    → ((t : Protocol) → f t ≡ some s' → g t ≡ accept e s')
    → and_then f o ≡ some s'
    → and_then g o ≡ accept e s'
and_then-snoc f g e none s' k h = cc
and_then-snoc f g e (some t) s' k h = k t h

and_then-some : (o : Option Protocol) → and_then some o ≡ o
and_then-some none = refl
and_then-some (some t) = refl

pub accepts-snoc :
    (es : List SseEvent) (e : SseEvent) (s s' : Protocol)
    → accepts es s ≡ some s'
    → accepts (es ++ (e ∷ [])) s ≡ accept e s'
unfolding accepts
accepts-snoc [] e s s' h = let same : s ≡ s' = cc in and_then-some (accept e s) ∙ ap (accept e) same
accepts-snoc (x ∷ es) e s s' h =
    and_then-snoc (accepts es) (accepts (es ++ (e ∷ []))) e (accept x s) s'
      (λ t. accepts-snoc es e t s') h
