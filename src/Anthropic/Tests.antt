-- ===== src/Anthropic/Tests.antt =====
-- Concrete runs of the Messages interface.
use foxrouters.Anthropic.Stream.{
  new_stream_writer, store_tool, ensure_text_block, find_tool, emit_event, StreamWriter,
  close_text_block, open_tool, name_tool, create_tool, ensure_tool_block, ensure_start,
}
use foxrouters.Anthropic.Stream.Chunks.{Chunk, finalize, on_content, on_tool}
use foxrouters.Anthropic.Stream.Contents.{on_chunks, on_content-Streaming}
use foxrouters.Anthropic.Stream.Texts.{text_of, contents}
use foxrouters.Anthropic.Stream.Delivery.{streamed_text}
use foxrouters.Anthropic.Stream.Bytes.{
  new_pipe, write, split_lines, extend_first, line_data, trim_right_cr,
}
use foxrouters.Anthropic.Stream.Writes.{write-append}
use foxrouters.Anthropic.Stream.Response.{frames_of, OrderlyFrames, frame_of, data_frame}
use foxrouters.Prelude.{
  codes, Str, ◌≡◌, false, Option, none, some, List, [], ◌∷◌, ◌++◌, has_prefix, trim_prefix, str_eq,
  refl, inr, true, sym, subst, ◌≢◌, map, All, is_empty,
}
use foxrouters.Anthropic.Stream.Grammar.{accepts, initial}
use foxrouters.Anthropic.Stream.Late.{late_content}
use foxrouters.Prelude.Space.{trim_space}
use foxrouters.Anthropic.Stream.Steps.{Follows}
use foxrouters.Anthropic.Stream.ToolCalls.{on_tool-Running}
use foxrouters.Anthropic.Stream.Complete.{new_stream_writer-Streaming}
use foxrouters.Prelude.Int.{pos}
use foxrouters.Anthropic.Request.{
  plain, AnthropicMessage, ContentBlock, absent, blocks, as_text, text_parts, translate_messages,
}
use foxrouters.Anthropic.Request.Messages.{
  answered, translate_messages_ids, result_ids, call_ids, used, use_ids, WellPlaced,
}
use foxrouters.Anthropic.Captured.{new_scan, CapturedChoice}
use foxrouters.Anthropic.Captured.Reassembly.{scan_choices, captured_text, as_chunk}
use foxrouters.Anthropic.Handler.{answer_stream, Proxied, captured, Json}
use foxrouters.Anthropic.Handler.Answers.{answer_stream_whole, StreamAnswer}
use foxrouters.Anthropic.Request.Order.{results_behind_text, is_ordered}

abbrev text_chunk : Str → Chunk
text_chunk s = record {
  choice = some (record { content = s; tool_calls = []; finish_reason = none });
  usage = none;
}

abbrev two_chunks : List Chunk
two_chunks = text_chunk (codes "Hel") ∷ text_chunk (codes "lo") ∷ []

abbrev sample_parse : Str → Option Chunk
sample_parse s = some (text_chunk s)

abbrev sample_bytes : Str
sample_bytes = codes "data: Hel" ++ (10 ∷ 10 ∷ codes "data: lo" ++ (13 ∷ 10 ∷ codes "data: [DONE]"))

streamed_text_example :
    (text_of (finalize (on_chunks two_chunks new_stream_writer)).sent ≡ contents two_chunks)
    × ((on_chunks two_chunks new_stream_writer).text_buf ≡ contents two_chunks)
streamed_text_example = streamed_text two_chunks

write-append_example :
    write sample_parse (codes "data: H" ++ codes "el") new_pipe
    ≡ write sample_parse (codes "el") (write sample_parse (codes "data: H") new_pipe)
write-append_example = write-append sample_parse (codes "data: H") (codes "el") new_pipe

sample_orderly : OrderlyFrames false (frames_of sample_parse sample_bytes)
unfolding frames_of frame_of data_frame split_lines extend_first trim_right_cr line_data trim_space
    has_prefix trim_prefix str_eq
sample_orderly = (λ y. absurd (cc), (λ y. absurd (cc), tt))

new_open : new_stream_writer.text_closed ≡ false
unfolding new_stream_writer
new_open = refl

-- A writer that has sent text, and then opened a tool block.
abbrev spoken : StreamWriter
spoken =
    on_tool (record { index = pos 0; id = codes "a"; name = codes "f"; arguments = [] })
      (on_content (codes "Hel") new_stream_writer)

spoken-Follows : Follows spoken
spoken-Follows =
    let begun =
      on_content-Streaming (codes "Hel") new_stream_writer new_stream_writer-Streaming
        (inr new_open) in
    let running =
      on_tool-Running (record { index = pos 0; id = codes "a"; name = codes "f"; arguments = [] })
        (on_content (codes "Hel") new_stream_writer) begun in
    running.streaming.follows

spoken_state : (spoken.started ≡ true) × (spoken.text_open ≡ true) × (spoken.text_closed ≡ true)
unfolding on_tool on_content ensure_tool_block ensure_start ensure_text_block emit_event str_eq
    new_stream_writer create_tool open_tool name_tool store_tool close_text_block find_tool
spoken_state = (refl, refl, refl)

lo_full : str_eq (codes "lo") [] ≡ false
unfolding str_eq
lo_full = refl

late_content_example : accepts (on_content (codes "lo") spoken).sent initial ≡ none
late_content_example =
    late_content (codes "lo") spoken spoken-Follows spoken_state.0 spoken_state.1 spoken_state.2
      lo_full

-- A reader of JSON that takes every text for the content of a chunk.
abbrev sample_choice : Str → Option CapturedChoice
sample_choice s =
    some (record { content = s; tool_calls = []; message = none; finish_reason = none })

abbrev sample_json : Json
sample_json = record {
  chunk = sample_parse;
  choice = sample_choice;
  completion = λ s. none;
  error = λ s. none;
  valid = λ s. true;
}

abbrev sample_out : Proxied
sample_out = record {
  status = 200;
  writes = sample_bytes ∷ [];
  response_body = [];
  output_text = codes "Hello";
  tokens_in = pos 3;
  tokens_out = pos 2;
}

one_piece : captured sample_out.writes ≡ sample_bytes
unfolding captured
one_piece = refl

answer_stream_whole_example : StreamAnswer (answer_stream sample_json sample_out)
answer_stream_whole_example =
    answer_stream_whole sample_json sample_out
      (subst (λ b. OrderlyFrames false (frames_of sample_parse b)) (sym one_piece) sample_orderly)

abbrev two_choices : List CapturedChoice
two_choices =
    record { content = codes "Hel"; tool_calls = []; message = none; finish_reason = none }
    ∷ record { content = codes "lo"; tool_calls = []; message = none; finish_reason = none }
    ∷ []

captured_text_example :
    (scan_choices two_choices new_scan).text
    ≡ text_of (finalize (on_chunks (map as_chunk two_choices) new_stream_writer)).sent
captured_text_example = captured_text two_choices (refl, (refl, tt))

abbrev call_block : ContentBlock
call_block = record {
  type = codes "tool_use";
  text = [];
  id = codes "a";
  name = codes "f";
  input = codes "{}";
  tool_use_id = [];
  tool_content = absent;
}

abbrev result_block : ContentBlock
result_block = record {
  type = codes "tool_result";
  text = [];
  id = [];
  name = [];
  input = [];
  tool_use_id = codes "a";
  tool_content = plain (codes "42");
}

abbrev note_block : ContentBlock
note_block = record {
  type = codes "text";
  text = codes "and now?";
  id = [];
  name = [];
  input = [];
  tool_use_id = [];
  tool_content = absent;
}

abbrev dialogue : List AnthropicMessage
dialogue =
    record { role = codes "assistant"; content = blocks (call_block ∷ []) }
    ∷ record { role = codes "user"; content = blocks (result_block ∷ note_block ∷ []) }
    ∷ []

translate_messages_ids_example :
    (call_ids (translate_messages dialogue) ≡ used dialogue)
    × (result_ids (translate_messages dialogue) ≡ answered dialogue)
    × All WellPlaced (translate_messages dialogue)
translate_messages_ids_example = translate_messages_ids dialogue

one_call : use_ids (call_block ∷ []) ≢ []
unfolding str_eq
one_call e = cc

results_behind_text_example :
    is_ordered (translate_messages dialogue)
    ≡ is_empty (text_parts (map as_text (result_block ∷ note_block ∷ [])))
unfolding str_eq
results_behind_text_example =
    results_behind_text (call_block ∷ []) (result_block ∷ note_block ∷ []) one_call refl
