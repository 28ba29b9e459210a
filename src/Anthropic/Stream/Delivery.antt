-- ===== src/Anthropic/Stream/Delivery.antt =====
-- The contents of the chunks are the text that is sent.
use foxrouters.Anthropic.Stream.{
  content_block_delta, ensure_text_block, close_tool_block, StreamToolBlock, StreamWriter,
  message_stop, store_tool, ensure_start, emit_event, content_block_stop, text_delta, message_delta,
  new_stream_writer,
}
use foxrouters.Anthropic.Stream.Chunks.{
  on_tools, on_finish, on_choice, on_tool, finalize, ToolDelta, sort_blocks, on_content, Choice,
  Chunk, on_usage, close_tools, on_chunk, map_stop_reason,
}
use foxrouters.Anthropic.Stream.Contents.{on_chunks, content_idle, content_sent, choice_content}
use foxrouters.Anthropic.Stream.Complete.{ending_of}
use foxrouters.Anthropic.Stream.Texts.{
  text_of-snoc, on_tool-Onward, quiet_first, ensure_start-Onward, Onward-refl, contents,
  emit_event-Onward, ensure_text_block-Onward, close_text_block-Onward, Onward-trans,
  str_append-nil, text_of, Onward, quiet_last, store_tool-Onward,
}
use foxrouters.Prelude.{
  if◌then◌else◌, Bool-cases, if_either, is_empty, str_eq, Str, str_iff, ◌≡◌, refl, sym, ◌∙◌, subst,
  inl, inr, true, not, ◌&&◌, ◌||◌, Option, none, some, List, [], ◌∷◌, ◌++◌,
}
use foxrouters.Prelude.Int.{ℤ}

on_tools-Onward : (tcs : List ToolDelta) (w : StreamWriter) → Onward [] w (on_tools tcs w)
unfolding on_tools
on_tools-Onward [] w = Onward-refl w
on_tools-Onward (tc ∷ tcs) w =
    quiet_first [] w (on_tool tc w) (on_tools tcs (on_tool tc w)) (on_tool-Onward tc w)
      (on_tools-Onward tcs (on_tool tc w))

on_usage-Onward : (u : Option (ℤ × ℤ)) (w : StreamWriter) → Onward [] w (on_usage u w)
unfolding on_usage
on_usage-Onward none w = Onward-refl w
on_usage-Onward (some (p, c)) w = record {
  stopped = refl;
  started = λ y. y;
  text = sym (str_append-nil (text_of w.sent));
  buffer = sym (str_append-nil w.text_buf);
}

on_finish-Onward : (r : Option Str) (w : StreamWriter) → Onward [] w (on_finish r w)
unfolding on_finish
on_finish-Onward none w = Onward-refl w
on_finish-Onward (some r) w = if_either (Onward [] w) (str_eq r []) w _ (Onward-refl w) (record {
  stopped = refl;
  started = λ y. y;
  text = sym (str_append-nil (text_of w.sent));
  buffer = sym (str_append-nil w.text_buf);
})

-- The text and its event.
text_sent-Onward :
    (s : Str) (w : StreamWriter)
    → Onward s w (
        emit_event (content_block_delta 0 (text_delta s)) (record w { text_buf = w.text_buf ++ s }))
unfolding emit_event
text_sent-Onward s w = record {
  stopped = refl;
  started = λ y. y;
  text = text_of-snoc w.sent (content_block_delta 0 (text_delta s));
  buffer = refl;
}

pub on_content-Onward : (s : Str) (w : StreamWriter) → Onward s w (on_content s w)
on_content-Onward s w = elim (Bool-cases (str_eq s [])) [
  | inl y ↦
      let empty : s ≡ [] = (str_iff s []).0 y in
      subst (λ x. Onward x w (on_content x w)) (sym empty)
        (subst (Onward [] w) (sym (content_idle w)) (Onward-refl w))
  | inr n ↦
      let w1 = ensure_start w in
      let w2 = ensure_text_block w1 in
      subst (Onward s w) (sym (content_sent s w n)) (
        quiet_first s w w1 _ (ensure_start-Onward w)
          (quiet_first s w1 w2 _ (ensure_text_block-Onward w1) (text_sent-Onward s w2)))
]

on_choice-Onward :
    (o : Option Choice) (w : StreamWriter) → Onward (choice_content o) w (on_choice o w)
unfolding on_choice
on_choice-Onward none w = Onward-refl w
on_choice-Onward (some ch) w =
    let w1 = on_content ch.content w in
    let w2 = on_tools ch.tool_calls w1 in
    quiet_last ch.content w w2 (on_finish ch.finish_reason w2)
      (quiet_last ch.content w w1 w2 (on_content-Onward ch.content w)
        (on_tools-Onward ch.tool_calls w1))
      (on_finish-Onward ch.finish_reason w2)

pub on_chunk-Onward :
    (c : Chunk) (w : StreamWriter) → Onward (choice_content c.choice) w (on_chunk c w)
unfolding on_chunk
on_chunk-Onward c w =
    quiet_first (choice_content c.choice) w (on_usage c.usage w) (on_chunk c w)
      (on_usage-Onward c.usage w) (on_choice-Onward c.choice (on_usage c.usage w))

pub on_chunks-Onward :
    (cs : List Chunk) (w : StreamWriter) → Onward (contents cs) w (on_chunks cs w)
on_chunks-Onward [] w = Onward-refl w
on_chunks-Onward (c ∷ cs) w =
    Onward-trans (choice_content c.choice) (contents cs) w (on_chunk c w)
      (on_chunks cs (on_chunk c w)) (on_chunk-Onward c w) (on_chunks-Onward cs (on_chunk c w))

-- The end of the stream sends no text.
close_tool_block-Onward :
    (tb : StreamToolBlock) (w : StreamWriter) → Onward [] w (close_tool_block tb w)
unfolding close_tool_block
close_tool_block-Onward tb w =
    let w1 = store_tool (record tb { closed = true }) w in
    let e = content_block_stop tb.anthropic_idx in
    if_either (Onward [] w) (not tb.started || tb.closed) w (emit_event e w1) (Onward-refl w) (
      quiet_first [] w w1 (emit_event e w1) (store_tool-Onward (record tb { closed = true }) w)
        (emit_event-Onward e w1 refl))

pub close_tools-Onward :
    (bs : List StreamToolBlock) (w : StreamWriter) → Onward [] w (close_tools bs w)
unfolding close_tools
close_tools-Onward [] w = Onward-refl w
close_tools-Onward (tb ∷ bs) w =
    quiet_first [] w (close_tool_block tb w) (close_tools bs (close_tool_block tb w))
      (close_tool_block-Onward tb w) (close_tools-Onward bs (close_tool_block tb w))

last_text :
    (w : StreamWriter) (reason : Str) (toks : ℤ)
    → text_of (emit_event message_stop (emit_event (message_delta reason toks) w)).sent
      ≡ text_of w.sent
unfolding emit_event
last_text w reason toks =
    text_of-snoc (w.sent ++ (message_delta reason toks ∷ [])) message_stop
    ∙ str_append-nil (text_of (w.sent ++ (message_delta reason toks ∷ [])))
    ∙ text_of-snoc w.sent (message_delta reason toks)
    ∙ str_append-nil (text_of w.sent)

ending_of-text : (w : StreamWriter) → text_of (ending_of w).sent ≡ text_of w.sent
unfolding ending_of
ending_of-text w =
    let w1 = ensure_start w in
    let w2 = if not w1.text_open && is_empty w1.tool_blocks then ensure_text_block w1 else w1 in
    let w3 : StreamWriter = record w2 { stopped = true } in
    let step : Onward [] w1 w2 =
      if_either (Onward [] w1) (not w1.text_open && is_empty w1.tool_blocks) (ensure_text_block w1)
        w1 (ensure_text_block-Onward w1) (Onward-refl w1) in
    (close_text_block-Onward w3).text
    ∙ str_append-nil (text_of w3.sent)
    ∙ (quiet_first [] w w1 w2 (ensure_start-Onward w) step).text
    ∙ str_append-nil (text_of w.sent)

pub finalize-text : (w : StreamWriter) → text_of (finalize w).sent ≡ text_of w.sent
unfolding finalize ending_of
finalize-text w =
    let w3 = ending_of w in
    let w4 = close_tools (sort_blocks [] w3.tool_blocks) w3 in
    if_either (λ (v : StreamWriter). text_of v.sent ≡ text_of w.sent) w.stopped w
      (emit_event message_stop
        (emit_event (message_delta (map_stop_reason w4.finish) w4.output_toks) w4))
      refl
      (last_text w4 (map_stop_reason w4.finish) w4.output_toks
        ∙ (close_tools-Onward (sort_blocks [] w3.tool_blocks) w3).text
        ∙ str_append-nil (text_of w3.sent)
        ∙ ending_of-text w)

-- What a client reads as the text, and what the writer keeps of it, are the contents of the chunks
-- one after the other, whatever the chunks are.
pub streamed_text :
    (cs : List Chunk)
    → (text_of (finalize (on_chunks cs new_stream_writer)).sent ≡ contents cs)
      × ((on_chunks cs new_stream_writer).text_buf ≡ contents cs)
unfolding new_stream_writer
streamed_text cs =
    let o = on_chunks-Onward cs new_stream_writer in
    (finalize-text (on_chunks cs new_stream_writer) ∙ o.text, o.buffer)
