-- ===== src/Anthropic/Stream/Contents.antt =====
-- The chunks of a stream whose content comes before its tool calls.
use foxrouters.Anthropic.Stream.{
  content_block_delta, text_delta, StreamWriter, ensure_start, emit_event, ensure_text_block,
}
use foxrouters.Anthropic.Stream.Grammar.{fill_block, opened, inside}
use foxrouters.Anthropic.Stream.Steps.{
  text_status, phase_of, Follows, ensure_text_block-Follows, Unclosed,
}
use foxrouters.Anthropic.Stream.ToolBlocks.{Streaming}
use foxrouters.Anthropic.Stream.Chunks.{
  on_content, on_tools, on_choice, on_usage, on_finish, Chunk, on_chunk, ToolDelta, Choice,
}
use foxrouters.Anthropic.Stream.ToolCalls.{
  on_tools-Streaming, Running, quiet-Follows, filled-Follows, ensure_start-Running,
}
use foxrouters.Prelude.{
  Bool-cases, if_either, All, is_empty, Str, str_iff, str_eq, ◌≡◌, refl, sym, ap, ◌∙◌, subst, ◌⊎◌,
  inl, inr, Bool, true, false, not, ◌||◌, Option, none, some, List, [], ◌∷◌, ◌++◌, arith,
}
use foxrouters.Prelude.Int.{ℤ}

abbrev pub on_chunks : List Chunk → StreamWriter → StreamWriter
on_chunks [] w = w
on_chunks (c ∷ cs) w = on_chunks cs (on_chunk c w)

abbrev pub choice_content : Option Choice → Str
choice_content none = []
choice_content (some ch) = ch.content

abbrev pub choice_calls : Option Choice → List ToolDelta
choice_calls none = []
choice_calls (some ch) = ch.tool_calls

-- No content in a chunk after one with a tool call; `seen` says there was one.
abbrev pub Orderly : Bool → List Chunk → Type 0
Orderly seen [] = Unit
Orderly seen (c ∷ cs) =
    ((seen ≡ true) → choice_content c.choice ≡ [])
    × Orderly (seen || not (is_empty (choice_calls c.choice))) cs

pub is_empty-nil : (xs : List ToolDelta) → is_empty xs ≡ true → xs ≡ []
is_empty-nil [] h = refl
is_empty-nil (x ∷ xs) h = cc

ensure_text_block-open : (w : StreamWriter) → (ensure_text_block w).text_open ≡ true
unfolding ensure_text_block emit_event
ensure_text_block-open w = ground arith

ensure_text_block-started : (w : StreamWriter) → (ensure_text_block w).started ≡ w.started
unfolding ensure_text_block emit_event
ensure_text_block-started w = ground arith

pub ensure_text_block-tool_blocks :
    (w : StreamWriter) → (ensure_text_block w).tool_blocks ≡ w.tool_blocks
unfolding ensure_text_block emit_event
ensure_text_block-tool_blocks w = ground arith

text_ready-closed :
    (w : StreamWriter) → (ensure_text_block (ensure_start w)).text_closed ≡ w.text_closed
unfolding ensure_text_block ensure_start emit_event
text_ready-closed w = ground arith

pub ensure_text_block-Running : (w : StreamWriter) → Running w → Running (ensure_text_block w)
ensure_text_block-Running w r = record {
  streaming = record {
    follows = ensure_text_block-Follows w r.streaming.follows r.running;
    unclosed = subst (All Unclosed) (sym (ensure_text_block-tool_blocks w)) r.streaming.unclosed;
  };
  running = ensure_text_block-started w ∙ r.running;
}

-- Text goes to the block of the text while that is open.
text_sent-Follows :
    (w : StreamWriter) (s : Str)
    → Running w
    → w.text_open ≡ true
    → w.text_closed ≡ false
    → Follows (
        emit_event (content_block_delta 0 (text_delta s)) (record w { text_buf = w.text_buf ++ s }))
text_sent-Follows w s r y n =
    let f =
      quiet-Follows w w.stopped w.finish (w.text_buf ++ s) w.input_toks w.output_toks
        r.streaming.follows in
    let live : f.protocol.status 0 ≡ opened =
      f.statuses 0 ∙ ap (λ b. text_status b w.text_closed) y ∙ ap (text_status true) n in
    filled-Follows (record w { text_buf = w.text_buf ++ s }) (content_block_delta 0 (text_delta s))
      f
      (ap (λ ph. fill_block ph (f.protocol.status 0) f.protocol) (f.phase ∙ ap phase_of r.running)
        ∙ ap (λ st. fill_block inside st f.protocol) live)

pub content_idle : (w : StreamWriter) → on_content [] w ≡ w
unfolding on_content str_eq
content_idle w = refl

pub content_sent :
    (s : Str) (w : StreamWriter)
    → str_eq s [] ≡ false
    → on_content s w
      ≡ emit_event
          (content_block_delta 0 (text_delta s))
          (record (ensure_text_block (ensure_start w)) {
            text_buf = (ensure_text_block (ensure_start w)).text_buf ++ s;
          })
unfolding on_content
content_sent s w h = ground (arith, h)

pub on_content-Streaming :
    (s : Str) (w : StreamWriter)
    → Streaming w
    → (s ≡ []) ⊎ (w.text_closed ≡ false)
    → Streaming (on_content s w)
unfolding emit_event
on_content-Streaming s w st (inl e) =
    subst Streaming (sym (ap (λ x. on_content x w) e ∙ content_idle w)) st
on_content-Streaming s w st (inr n) = elim (Bool-cases (str_eq s [])) [
  | inl y ↦
      subst Streaming (sym (ap (λ x. on_content x w) ((str_iff s []).0 y) ∙ content_idle w)) st
  | inr y ↦
      let r = ensure_text_block-Running (ensure_start w) (ensure_start-Running w st) in
      let w' = ensure_text_block (ensure_start w) in
      let done : Streaming (
          emit_event (content_block_delta 0 (text_delta s))
            (record w' { text_buf = w'.text_buf ++ s })) =
        record {
          follows =
              text_sent-Follows w' s r (ensure_text_block-open (ensure_start w))
                (text_ready-closed w ∙ n);
          unclosed = r.streaming.unclosed;
        } in
      subst Streaming (sym (content_sent s w y)) done
]

pub on_content-text_closed :
    (s : Str) (w : StreamWriter) → (on_content s w).text_closed ≡ w.text_closed
unfolding on_content emit_event
on_content-text_closed s w = ground (arith, text_ready-closed w)

pub on_usage-Streaming :
    (u : Option (ℤ × ℤ)) (w : StreamWriter) → Streaming w → Streaming (on_usage u w)
unfolding on_usage
on_usage-Streaming none w s = s
on_usage-Streaming (some (p, c)) w s = record {
  follows = quiet-Follows w w.stopped w.finish w.text_buf p c s.follows;
  unclosed = s.unclosed;
}

pub on_finish-Streaming :
    (r : Option Str) (w : StreamWriter) → Streaming w → Streaming (on_finish r w)
unfolding on_finish
on_finish-Streaming none w s = s
on_finish-Streaming (some r) w s =
    if_either Streaming (str_eq r []) w (record w { finish = r }) s
      (record {
        follows = quiet-Follows w w.stopped r w.text_buf w.input_toks w.output_toks s.follows;
        unclosed = s.unclosed;
      })

on_usage-text_closed :
    (u : Option (ℤ × ℤ)) (w : StreamWriter) → (on_usage u w).text_closed ≡ w.text_closed
unfolding on_usage
on_usage-text_closed none w = refl
on_usage-text_closed (some (p, c)) w = refl

on_finish-text_closed :
    (r : Option Str) (w : StreamWriter) → (on_finish r w).text_closed ≡ w.text_closed
unfolding on_finish
on_finish-text_closed none w = refl
on_finish-text_closed (some r) w = ground arith

on_choice-Streaming :
    (o : Option Choice) (w : StreamWriter)
    → Streaming w
    → (choice_content o ≡ []) ⊎ (w.text_closed ≡ false)
    → Streaming (on_choice o w)
unfolding on_choice
on_choice-Streaming none w s h = s
on_choice-Streaming (some ch) w s h =
    on_finish-Streaming ch.finish_reason (on_tools ch.tool_calls (on_content ch.content w)) (
      on_tools-Streaming ch.tool_calls (on_content ch.content w)
        (on_content-Streaming ch.content w s h))

pub on_chunk-Streaming :
    (c : Chunk) (w : StreamWriter)
    → Streaming w
    → (choice_content c.choice ≡ []) ⊎ (w.text_closed ≡ false)
    → Streaming (on_chunk c w)
unfolding on_chunk
on_chunk-Streaming c w s h =
    on_choice-Streaming c.choice (on_usage c.usage w) (on_usage-Streaming c.usage w s)
      (ground (arith, h, on_usage-text_closed c.usage w))

on_choice-text_closed :
    (o : Option Choice) (w : StreamWriter)
    → choice_calls o ≡ []
    → (on_choice o w).text_closed ≡ w.text_closed
unfolding on_choice on_tools
on_choice-text_closed none w h = refl
on_choice-text_closed (some ch) w h =
    on_finish-text_closed ch.finish_reason (on_tools ch.tool_calls (on_content ch.content w))
    ∙ ap (λ tcs. (on_tools tcs (on_content ch.content w)).text_closed) h
    ∙ on_content-text_closed ch.content w

-- Without a tool call, a chunk does not close the text block.
pub on_chunk-text_closed :
    (c : Chunk) (w : StreamWriter)
    → choice_calls c.choice ≡ []
    → (on_chunk c w).text_closed ≡ w.text_closed
unfolding on_chunk
on_chunk-text_closed c w h =
    on_choice-text_closed c.choice (on_usage c.usage w) h ∙ on_usage-text_closed c.usage w

pub on_chunks-Streaming :
    (seen : Bool) (cs : List Chunk) (w : StreamWriter)
    → Streaming w
    → ((seen ≡ false) → w.text_closed ≡ false)
    → Orderly seen cs
    → Streaming (on_chunks cs w)
on_chunks-Streaming seen [] w s n o = s
on_chunks-Streaming seen (c ∷ cs) w s n o =
    on_chunks-Streaming (seen || not (is_empty (choice_calls c.choice))) cs (on_chunk c w)
      (on_chunk-Streaming c w s
        (elim (Bool-cases seen) [ inl y ↦ inl (o.0 y) | inr y ↦ inr (n y) ]))
      (λ y.
        on_chunk-text_closed c w (is_empty-nil (choice_calls c.choice) (ground (arith, y)))
        ∙ n (ground (arith, y)))
      o.1
