-- ===== src/Anthropic/Stream/Texts.antt =====
-- The text that is sent: the text deltas, put together, against the contents of the chunks.
use foxrouters.Anthropic.Stream.{
  input_json_delta, open_tool, tool_use, close_text_block, ensure_tool_block, content_block_start,
  text_block, message_delta, SseEvent, text_delta, StreamWriter, content_block_stop, create_tool,
  store_tool, ensure_text_block, name_tool, Delta, find_tool, content_block_delta, message_stop,
  ensure_start, StreamToolBlock, message_start, emit_event,
}
use foxrouters.Anthropic.Stream.Chunks.{Chunk, ToolDelta, on_tool}
use foxrouters.Anthropic.Stream.Contents.{choice_content}
use foxrouters.Prelude.{
  if_either, str_eq, Str, ◌≡◌, refl, sym, ap, ◌∙◌, subst, true, not, ◌&&◌, ◌||◌, Option, none, some,
  List, [], ◌∷◌, ◌++◌,
}
use foxrouters.Prelude.Int.{ℤ}

abbrev pub delta_text : Delta → Str
delta_text (text_delta s) = s
delta_text (input_json_delta s) = []

abbrev pub event_text : SseEvent → Str
event_text message_start = []
event_text (content_block_start i k) = []
event_text (content_block_delta i d) = delta_text d
event_text (content_block_stop i) = []
event_text (message_delta r n) = []
event_text message_stop = []

-- What a client reads as the text of the message.
abbrev pub text_of : List SseEvent → Str
text_of [] = []
text_of (e ∷ es) = event_text e ++ text_of es

abbrev pub contents : List Chunk → Str
contents [] = []
contents (c ∷ cs) = choice_content c.choice ++ contents cs

pub str_append-nil : (s : Str) → s ++ [] ≡ s
str_append-nil [] = refl
str_append-nil (b ∷ s) = ap (λ t. b ∷ t) (str_append-nil s)

pub str_append_assoc : (s t u : Str) → (s ++ t) ++ u ≡ s ++ (t ++ u)
str_append_assoc [] t u = refl
str_append_assoc (b ∷ s) t u = ap (λ v. b ∷ v) (str_append_assoc s t u)

pub text_of-snoc :
    (es : List SseEvent) (e : SseEvent) → text_of (es ++ (e ∷ [])) ≡ text_of es ++ event_text e
text_of-snoc [] e = str_append-nil (event_text e)
text_of-snoc (x ∷ es) e =
    ap (λ t. event_text x ++ t) (text_of-snoc es e)
    ∙ sym (str_append_assoc (event_text x) (text_of es) (event_text e))

-- A step that sends `s` as text, and neither stops the writer nor takes its start back.
pub record Onward (s : Str) (w w' : StreamWriter) : Type 0 where
  pub stopped : w'.stopped ≡ w.stopped
  pub started : w.started ≡ true → w'.started ≡ true
  pub text : text_of w'.sent ≡ text_of w.sent ++ s
  pub buffer : w'.text_buf ≡ w.text_buf ++ s

pub Onward-refl : (w : StreamWriter) → Onward [] w w
Onward-refl w = record {
  stopped = refl;
  started = λ y. y;
  text = sym (str_append-nil (text_of w.sent));
  buffer = sym (str_append-nil w.text_buf);
}

pub Onward-trans :
    (s t : Str) (u v w : StreamWriter) → Onward s u v → Onward t v w → Onward (s ++ t) u w
Onward-trans s t u v w a b = record {
  stopped = b.stopped ∙ a.stopped;
  started = λ y. b.started (a.started y);
  text = b.text ∙ ap (λ x. x ++ t) a.text ∙ str_append_assoc (text_of u.sent) s t;
  buffer = b.buffer ∙ ap (λ x. x ++ t) a.buffer ∙ str_append_assoc u.text_buf s t;
}

-- A silent step first.
pub quiet_first : (t : Str) (u v w : StreamWriter) → Onward [] u v → Onward t v w → Onward t u w
quiet_first t u v w = Onward-trans [] t u v w

pub quiet_last : (s : Str) (u v w : StreamWriter) → Onward s u v → Onward [] v w → Onward s u w
quiet_last s u v w a b = subst (λ x. Onward x u w) (str_append-nil s) (Onward-trans s [] u v w a b)

pub emit_event-Onward :
    (e : SseEvent) (w : StreamWriter) → event_text e ≡ [] → Onward [] w (emit_event e w)
unfolding emit_event
emit_event-Onward e w h = record {
  stopped = refl;
  started = λ y. y;
  text = text_of-snoc w.sent e ∙ ap (λ s. text_of w.sent ++ s) h;
  buffer = sym (str_append-nil w.text_buf);
}

pub ensure_start-Onward : (w : StreamWriter) → Onward [] w (ensure_start w)
unfolding ensure_start emit_event
ensure_start-Onward w = if_either (Onward [] w) w.started w _ (Onward-refl w) (record {
  stopped = refl;
  started = λ y. refl;
  text = text_of-snoc w.sent message_start;
  buffer = sym (str_append-nil w.text_buf);
})

pub ensure_text_block-Onward : (w : StreamWriter) → Onward [] w (ensure_text_block w)
unfolding ensure_text_block emit_event
ensure_text_block-Onward w = if_either (Onward [] w) w.text_open w _ (Onward-refl w) (record {
  stopped = refl;
  started = λ y. y;
  text = text_of-snoc w.sent (content_block_start 0 text_block);
  buffer = sym (str_append-nil w.text_buf);
})

pub close_text_block-Onward : (w : StreamWriter) → Onward [] w (close_text_block w)
unfolding close_text_block emit_event
close_text_block-Onward w =
    if_either (Onward [] w) (not w.text_open || w.text_closed) w _ (Onward-refl w) (record {
      stopped = refl;
      started = λ y. y;
      text = text_of-snoc w.sent (content_block_stop 0);
      buffer = sym (str_append-nil w.text_buf);
    })

pub store_tool-Onward : (tb : StreamToolBlock) (w : StreamWriter) → Onward [] w (store_tool tb w)
unfolding store_tool
store_tool-Onward tb w = record {
  stopped = refl;
  started = λ y. y;
  text = sym (str_append-nil (text_of w.sent));
  buffer = sym (str_append-nil w.text_buf);
}

create_tool-Onward :
    (idx : ℤ) (o : Option StreamToolBlock) (w : StreamWriter) → Onward [] w (create_tool idx o w).0
unfolding create_tool
create_tool-Onward idx (some tb) w = Onward-refl w
create_tool-Onward idx none w = record {
  stopped = refl;
  started = λ y. y;
  text = sym (str_append-nil (text_of w.sent));
  buffer = sym (str_append-nil w.text_buf);
}

open_tool-Onward : (tb : StreamToolBlock) (w : StreamWriter) → Onward [] w (open_tool tb w).0
unfolding open_tool
open_tool-Onward tb w =
    let new : StreamToolBlock = record tb { started = true } in
    let w1 = close_text_block w in
    let w2 = store_tool new w1 in
    let e = content_block_start tb.anthropic_idx (tool_use tb.id tb.name) in
    if_either (λ (p : StreamWriter × StreamToolBlock). Onward [] w p.0)
      (not tb.started && not (str_eq tb.name [])) (emit_event e w2, new) (store_tool tb w, tb)
      (quiet_first [] w w1 (emit_event e w2) (close_text_block-Onward w) (
        quiet_first [] w1 w2 (emit_event e w2) (store_tool-Onward new w1)
          (emit_event-Onward e w2 refl)))
      (store_tool-Onward tb w)

ensure_tool_block-Onward :
    (idx : ℤ) (id name : Str) (w : StreamWriter) → Onward [] w (ensure_tool_block idx id name w).0
unfolding ensure_tool_block
ensure_tool_block-Onward idx id name w =
    let p = create_tool idx (find_tool idx w.tool_blocks) w in
    let tb = name_tool id name p.1 in
    quiet_first [] w p.0 (open_tool tb p.0).0
      (create_tool-Onward idx (find_tool idx w.tool_blocks) w) (open_tool-Onward tb p.0)

pub on_tool-Onward : (tc : ToolDelta) (w : StreamWriter) → Onward [] w (on_tool tc w)
unfolding on_tool
on_tool-Onward tc w =
    let p = ensure_tool_block tc.index tc.id tc.name (ensure_start w) in
    let e = content_block_delta p.1.anthropic_idx (input_json_delta tc.arguments) in
    quiet_first [] w (ensure_start w) (on_tool tc w) (ensure_start-Onward w) (
      if_either (Onward [] (ensure_start w)) (not (str_eq tc.arguments []) && p.1.started)
        (emit_event e p.0) p.0
        (quiet_first [] (ensure_start w) p.0 (emit_event e p.0)
          (ensure_tool_block-Onward tc.index tc.id tc.name (ensure_start w))
          (emit_event-Onward e p.0 refl))
        (ensure_tool_block-Onward tc.index tc.id tc.name (ensure_start w)))
