-- ===== src/Anthropic/Stream/Steps.antt =====
-- The writer follows the protocol: what holds of it while the stream runs, and that each step of it
-- keeps that.
use foxrouters.Anthropic.Stream.{
  StreamWriter, new_stream_writer, StreamToolBlock, ensure_start, emit_event, ensure_text_block,
  text_block, message_start, content_block_start, SseEvent, content_block_stop, close_text_block,
}
use foxrouters.Anthropic.Stream.Grammar.{
  finished, initial, Phase, fresh, Status, accepts, opened, Protocol, before_start, inside, accept,
  accepts-snoc, enter, set_status, start_block, stop_block,
}
use foxrouters.Anthropic.Stream.Blocks.{Unique, open_tools, status_at, Numbered, is_open}
use foxrouters.Prelude.{
  if◌then◌else◌, nat_beq, Bool-cases, length, ℕ, ◌+◌, ◌≡◌, refl, ◌⊎◌, inl, inr, Bool, true, false,
  some, arith, sym, ap, ◌∙◌, subst, List, [], ◌∷◌, ◌++◌, ◌-◌, not, ◌||◌,
}

abbrev pub text_status : Bool → Bool → Status
text_status text_open text_closed =
    if text_open then (if text_closed then finished else opened) else fresh

abbrev pub status_of : StreamWriter → ℕ → Status
status_of w i =
    if nat_beq i 0 then text_status w.text_open w.text_closed else status_at i w.tool_blocks

abbrev pub phase_of : Bool → Phase
phase_of started = if started then inside else before_start

abbrev pub Unclosed : StreamToolBlock → Type 0
Unclosed tb = tb.closed ≡ false

-- The protocol accepts what was sent and is where the writer takes it to be.
pub record Follows (w : StreamWriter) : Type 0 where
  pub protocol : Protocol
  pub accepted : accepts w.sent initial ≡ some protocol
  pub phase : protocol.phase ≡ phase_of w.started
  pub statuses : (i : ℕ) → protocol.status i ≡ status_of w i
  pub count :
      protocol.open_blocks
      ≡ is_open (text_status w.text_open w.text_closed) + open_tools w.tool_blocks
  pub unique : Unique w.tool_blocks
  pub numbered : Numbered 1 w.tool_blocks
  pub numbering : w.next_block_idx ≡ 1 + length w.tool_blocks
  pub text_order : (w.text_open ≡ true) ⊎ (w.text_closed ≡ false)

pub new_stream_writer-Follows : Follows new_stream_writer
unfolding new_stream_writer accepts
new_stream_writer-Follows = record {
  protocol = initial;
  accepted = refl;
  phase = refl;
  statuses = λ i. elim (Bool-cases (nat_beq i 0)) [ inl y ↦ rw y refl | inr y ↦ rw y refl ];
  count = omega arith;
  unique = tt;
  numbered = tt;
  numbering = omega arith;
  text_order = inr refl;
}

-- One more event that the protocol accepts.
pub sends :
    (es : List SseEvent) (e : SseEvent) (p p' : Protocol)
    → accepts es initial ≡ some p
    → accept e p ≡ some p'
    → accepts (es ++ (e ∷ [])) initial ≡ some p'
sends es e p p' h a = accepts-snoc es e initial p h ∙ a

pub start_on : (w : StreamWriter) → w.started ≡ true → ensure_start w ≡ w
unfolding ensure_start
start_on w y = ground arith

start_off :
    (w : StreamWriter)
    → w.started ≡ false
    → ensure_start w ≡ emit_event message_start (record w { started = true })
unfolding ensure_start
start_off w y = ground arith

pub ensure_start-started : (w : StreamWriter) → (ensure_start w).started ≡ true
unfolding ensure_start emit_event
ensure_start-started w = ground arith

started-Follows :
    (w : StreamWriter)
    → Follows w
    → w.started ≡ false
    → Follows (emit_event message_start (record w { started = true }))
unfolding emit_event
started-Follows w f n =
    let before : f.protocol.phase ≡ before_start = f.phase ∙ ap phase_of n in
    record {
      protocol = record f.protocol { phase = inside };
      accepted =
          sends w.sent message_start f.protocol (record f.protocol { phase = inside }) f.accepted
            (ap (λ ph. enter ph f.protocol) before);
      phase = refl;
      statuses = f.statuses;
      count = f.count;
      unique = f.unique;
      numbered = f.numbered;
      numbering = f.numbering;
      text_order = f.text_order;
    }

pub ensure_start-Follows : (w : StreamWriter) → Follows w → Follows (ensure_start w)
ensure_start-Follows w f = elim (Bool-cases w.started) [
  | inl y ↦ subst Follows (sym (start_on w y)) f
  | inr n ↦ subst Follows (sym (start_off w n)) (started-Follows w f n)
]

-- What holds of the protocol once the writer has started.
pub inside_of : (w : StreamWriter) (f : Follows w) → w.started ≡ true → f.protocol.phase ≡ inside
inside_of w f y = f.phase ∙ ap phase_of y

-- The text block.
pub text_on : (w : StreamWriter) → w.text_open ≡ true → ensure_text_block w ≡ w
unfolding ensure_text_block
text_on w y = ground arith

text_off :
    (w : StreamWriter)
    → w.text_open ≡ false
    → ensure_text_block w
      ≡ emit_event (content_block_start 0 text_block) (record w { text_open = true })
unfolding ensure_text_block
text_off w y = ground arith

text_opened-Follows :
    (w : StreamWriter)
    → Follows w
    → w.started ≡ true
    → w.text_open ≡ false
    → Follows (emit_event (content_block_start 0 text_block) (record w { text_open = true }))
unfolding emit_event
text_opened-Follows w f y n =
    let unclosed : w.text_closed ≡ false = ground (arith, f.text_order, n) in
    let p' : Protocol = record f.protocol {
      status = set_status 0 opened f.protocol.status;
      open_blocks = f.protocol.open_blocks + 1;
    } in
    let free : f.protocol.status 0 ≡ fresh =
      f.statuses 0 ∙ ap (λ b. text_status b w.text_closed) n in
    record {
      protocol = p';
      accepted = sends w.sent (content_block_start 0 text_block) f.protocol p' f.accepted (
          ap (λ ph. start_block ph (f.protocol.status 0) 0 f.protocol) (inside_of w f y)
          ∙ ap (λ st. start_block inside st 0 f.protocol) free);
      phase = f.phase;
      statuses = λ i. ground (arith, f.statuses i, unclosed);
      count = ground (arith, f.count, unclosed, n);
      unique = f.unique;
      numbered = f.numbered;
      numbering = f.numbering;
      text_order = inl refl;
    }

pub ensure_text_block-Follows :
    (w : StreamWriter) → Follows w → w.started ≡ true → Follows (ensure_text_block w)
ensure_text_block-Follows w f y = elim (Bool-cases w.text_open) [
  | inl t ↦ subst Follows (sym (text_on w t)) f
  | inr n ↦ subst Follows (sym (text_off w n)) (text_opened-Follows w f y n)
]

close_idle : (w : StreamWriter) → (not w.text_open || w.text_closed) ≡ true → close_text_block w ≡ w
unfolding close_text_block
close_idle w h = ground (arith, h)

close_open :
    (w : StreamWriter)
    → (not w.text_open || w.text_closed) ≡ false
    → close_text_block w ≡ emit_event (content_block_stop 0) (record w { text_closed = true })
unfolding close_text_block
close_open w h = ground (arith, h)

text_finished-Follows :
    (w : StreamWriter)
    → Follows w
    → w.started ≡ true
    → w.text_open ≡ true
    → w.text_closed ≡ false
    → Follows (emit_event (content_block_stop 0) (record w { text_closed = true }))
unfolding emit_event
text_finished-Follows w f y t n =
    let p' : Protocol = record f.protocol {
      status = set_status 0 finished f.protocol.status;
      open_blocks = f.protocol.open_blocks - 1;
    } in
    let live : f.protocol.status 0 ≡ opened =
      f.statuses 0 ∙ ap (λ b. text_status b w.text_closed) t ∙ ap (text_status true) n in
    record {
      protocol = p';
      accepted = sends w.sent (content_block_stop 0) f.protocol p' f.accepted (
          ap (λ ph. stop_block ph (f.protocol.status 0) 0 f.protocol) (inside_of w f y)
          ∙ ap (λ st. stop_block inside st 0 f.protocol) live);
      phase = f.phase;
      statuses = λ i. ground (arith, f.statuses i, t);
      count = ground (arith, f.count, t, n);
      unique = f.unique;
      numbered = f.numbered;
      numbering = f.numbering;
      text_order = inl t;
    }

pub close_text_block-Follows :
    (w : StreamWriter) → Follows w → w.started ≡ true → Follows (close_text_block w)
close_text_block-Follows w f y = elim (Bool-cases (not w.text_open || w.text_closed)) [
  | inl h ↦ subst Follows (sym (close_idle w h)) f
  | inr h ↦
      subst Follows (sym (close_open w h))
        (text_finished-Follows w f y (ground (arith, h)) (ground (arith, h)))
]
