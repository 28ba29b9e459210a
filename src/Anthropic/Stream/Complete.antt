-- ===== src/Anthropic/Stream/Complete.antt =====
-- What a whole stream sends: the protocol from message_start to message_stop.
use foxrouters.Anthropic.Stream.{
  emit_event, SseEvent, message_delta, close_text_block, ensure_start, message_stop,
  new_stream_writer, ensure_text_block, StreamToolBlock, StreamWriter,
}
use foxrouters.Anthropic.Stream.Grammar.{accepts, complete, leave, Protocol, ending, initial}
use foxrouters.Anthropic.Stream.Blocks.{open_tools}
use foxrouters.Anthropic.Stream.Steps.{
  Unclosed, inside_of, Follows, sends, close_text_block-Follows, new_stream_writer-Follows,
}
use foxrouters.Anthropic.Stream.ToolBlocks.{Streaming}
use foxrouters.Anthropic.Stream.Chunks.{close_tools, map_stop_reason, sort_blocks, finalize}
use foxrouters.Anthropic.Stream.ToolCalls.{
  Running, ensure_start-Running, close_text_block-tool_blocks, quiet-Follows,
  close_text_block-started,
}
use foxrouters.Anthropic.Stream.Contents.{ensure_text_block-Running}
use foxrouters.Anthropic.Stream.Sorting.{sort_blocks-same}
use foxrouters.Anthropic.Stream.Ending.{close_tools-Closing, Closing, text_live}
use foxrouters.Prelude.{
  if_either, nat_beq, if◌then◌else◌, is_empty, All, Str, ◌≡◌, refl, sym, ap, ◌∙◌, subst, true,
  false, not, ◌&&◌, none, some, List, [], ◌∷◌, ◌++◌, arith,
}
use foxrouters.Prelude.Int.{ℤ}

-- The events of a whole message: accepted, at the end, with no block open.
pub record Whole (es : List SseEvent) : Type 0 where
  pub protocol : Protocol
  pub accepted : accepts es initial ≡ some protocol
  pub ended : protocol.phase ≡ complete
  pub closed : protocol.open_blocks ≡ 0

last_events :
    (w : StreamWriter) (f : Follows w) (reason : Str) (toks : ℤ)
    → w.started ≡ true
    → f.protocol.open_blocks ≡ 0
    → Whole (emit_event message_stop (emit_event (message_delta reason toks) w)).sent
unfolding emit_event
last_events w f reason toks r z =
    let p1 : Protocol = record f.protocol { phase = ending } in
    let p2 : Protocol = record f.protocol { phase = complete } in
    record {
      protocol = p2;
      accepted =
          sends (w.sent ++ (message_delta reason toks ∷ [])) message_stop p1 p2
            (sends w.sent (message_delta reason toks) f.protocol p1 f.accepted (
              ap (λ ph. leave ph f.protocol) (inside_of w f r)
              ∙ ap (λ n. if nat_beq n 0 then some p1 else none) z))
            refl;
      ended = refl;
      closed = z;
    }

close_text_block-done : (w : StreamWriter) → text_live (close_text_block w) ≡ 0
unfolding close_text_block emit_event
close_text_block-done w = ground arith

open_tools-append_nil : (bs : List StreamToolBlock) → open_tools (bs ++ []) ≡ open_tools bs
open_tools-append_nil [] = refl
open_tools-append_nil (b ∷ bs) = omega (arith, open_tools-append_nil bs)

-- The close of every block, then the two last events.
finish_off :
    (w : StreamWriter)
    → Streaming w
    → w.started ≡ true
    → text_live w ≡ 0
    → let w4 = close_tools (sort_blocks [] w.tool_blocks) w in
      Whole
        (emit_event message_stop
          (emit_event (message_delta (map_stop_reason w4.finish) w4.output_toks) w4)).sent
finish_off w s r t =
    let w4 = close_tools (sort_blocks [] w.tool_blocks) w in
    let sorted = sort_blocks-same w.tool_blocks 1 s.follows.numbered in
    let closing = close_tools-Closing w.tool_blocks [] w (record {
      follows = s.follows;
      running = r;
      text_done = t;
      blocks = refl;
      front_done = refl;
    }) in
    let c : Closing closing.0 [] w4 =
      subst (λ bs. Closing closing.0 [] (close_tools bs w)) (sym sorted) closing.1 in
    last_events w4 c.follows (map_stop_reason w4.finish) w4.output_toks c.running (
      c.follows.count
      ∙ ground (
        arith,
        c.text_done,
        c.front_done,
        ap open_tools c.blocks,
        open_tools-append_nil closing.0,
      ))

-- What finalize closes and ends.
unfoldable pub ending_of : StreamWriter → StreamWriter
ending_of w =
    let w1 = ensure_start w in
    let w2 = if not w1.text_open && is_empty w1.tool_blocks then ensure_text_block w1 else w1 in
    close_text_block (record w2 { stopped = true })

ending_of-Running :
    (w : StreamWriter) → Streaming w → Running (ending_of w) × (text_live (ending_of w) ≡ 0)
unfolding ending_of
ending_of-Running w s =
    let w1 = ensure_start w in
    let r1 = ensure_start-Running w s in
    let w2 = if not w1.text_open && is_empty w1.tool_blocks then ensure_text_block w1 else w1 in
    let r2 : Running w2 =
      if_either Running (not w1.text_open && is_empty w1.tool_blocks) (ensure_text_block w1) w1
        (ensure_text_block-Running w1 r1) r1 in
    let f =
      quiet-Follows w2 true w2.finish w2.text_buf w2.input_toks w2.output_toks
        r2.streaming.follows in
    let w3 : StreamWriter = record w2 { stopped = true } in
    (
      record {
        streaming = record {
          follows = close_text_block-Follows w3 f r2.running;
          unclosed =
              subst (All Unclosed) (sym (close_text_block-tool_blocks w3)) r2.streaming.unclosed;
        };
        running = close_text_block-started w3 ∙ r2.running;
      },
      close_text_block-done w3,
    )

pub finalize-Whole : (w : StreamWriter) → Streaming w → w.stopped ≡ false → Whole (finalize w).sent
unfolding finalize ending_of
finalize-Whole w s n =
    let e = ending_of-Running w s in
    let w4 = close_tools (sort_blocks [] (ending_of w).tool_blocks) (ending_of w) in
    let last =
      emit_event message_stop
        (emit_event (message_delta (map_stop_reason w4.finish) w4.output_toks) w4) in
    let is_last : finalize w ≡ last = ap (λ b. if b then w else last) n in
    subst (λ v. Whole v.sent) (sym is_last) (finish_off (ending_of w) e.0.streaming e.0.running e.1)

pub new_stream_writer-Streaming : Streaming new_stream_writer
unfolding new_stream_writer
new_stream_writer-Streaming = record { follows = new_stream_writer-Follows; unclosed = tt }
