-- ===== src/Anthropic/Stream/Chunks.antt =====
-- internal/handlers/anthropic.go, streamWriter: what a chunk does, and the end of the stream.
use foxrouters.Anthropic.Stream.{
  ensure_tool_block, content_block_delta, text_delta, close_tool_block, emit_event, message_delta,
  ensure_text_block, StreamWriter, StreamToolBlock, message_stop, input_json_delta, ensure_start,
  close_text_block,
}
use foxrouters.Prelude.{
  if◌then◌else◌, ltb, is_empty, Str, str_eq, codes, true, not, ◌&&◌, ◌||◌, Option, none, some, List,
  [], ◌∷◌, ◌++◌,
}
use foxrouters.Prelude.Int.{ℤ}

-- What a chunk has that is read: the first choice, and the usage.
pub record ToolDelta : Type 0 where
  pub index : ℤ
  pub id : Str
  pub name : Str
  pub arguments : Str

pub record Choice : Type 0 where
  pub content : Str
  pub tool_calls : List ToolDelta
  pub finish_reason : Option Str

pub record Chunk : Type 0 where
  pub choice : Option Choice
  pub usage : Option (ℤ × ℤ)

unfoldable pub on_content : Str → StreamWriter → StreamWriter
unfolding emit_event
on_content s w =
    let w' = ensure_text_block (ensure_start w) in
    if str_eq s []
    then w
    else emit_event (content_block_delta 0 (text_delta s))
        (record w' { text_buf = w'.text_buf ++ s })

unfoldable pub on_tool : ToolDelta → StreamWriter → StreamWriter
unfolding emit_event
on_tool tc w =
    let (w', tb) = ensure_tool_block tc.index tc.id tc.name (ensure_start w) in
    if not (str_eq tc.arguments []) && tb.started
    then emit_event (content_block_delta tb.anthropic_idx (input_json_delta tc.arguments)) w'
    else w'

unfoldable pub on_tools : List ToolDelta → StreamWriter → StreamWriter
on_tools [] w = w
on_tools (tc ∷ tcs) w = on_tools tcs (on_tool tc w)

unfoldable pub on_finish : Option Str → StreamWriter → StreamWriter
on_finish none w = w
on_finish (some r) w = if str_eq r [] then w else record w { finish = r }

unfoldable pub on_usage : Option (ℤ × ℤ) → StreamWriter → StreamWriter
on_usage none w = w
on_usage (some (prompt, completion)) w = record w { input_toks = prompt; output_toks = completion }

unfoldable pub on_choice : Option Choice → StreamWriter → StreamWriter
on_choice none w = w
on_choice (some ch) w =
    on_finish ch.finish_reason (on_tools ch.tool_calls (on_content ch.content w))

unfoldable pub on_chunk : Chunk → StreamWriter → StreamWriter
on_chunk c w = on_choice c.choice (on_usage c.usage w)

unfoldable pub map_stop_reason : Str → Str
map_stop_reason r =
    if str_eq r (codes "stop")
    then codes "end_turn"
    else if str_eq r (codes "length")
    then codes "max_tokens"
    else if str_eq r (codes "content_filter")
    then codes "stop_sequence"
    else if str_eq r (codes "tool_calls") || str_eq r (codes "function_call")
    then codes "tool_use"
    else codes "end_turn"

-- The insertion sort of finalize, by the index of the block.
unfoldable pub insert_block : StreamToolBlock → List StreamToolBlock → List StreamToolBlock
insert_block tb [] = tb ∷ []
insert_block tb (b ∷ bs) =
    let rest = insert_block tb bs in
    if ltb tb.anthropic_idx b.anthropic_idx then tb ∷ b ∷ bs else b ∷ rest

unfoldable pub sort_blocks : List StreamToolBlock → List StreamToolBlock → List StreamToolBlock
sort_blocks done [] = done
sort_blocks done (tb ∷ bs) = sort_blocks (insert_block tb done) bs

unfoldable pub close_tools : List StreamToolBlock → StreamWriter → StreamWriter
close_tools [] w = w
close_tools (tb ∷ bs) w = close_tools bs (close_tool_block tb w)

unfoldable pub finalize : StreamWriter → StreamWriter
unfolding emit_event
finalize w =
    let w1 = ensure_start w in
    let w2 = if not w1.text_open && is_empty w1.tool_blocks then ensure_text_block w1 else w1 in
    let w3 = close_text_block (record w2 { stopped = true }) in
    let w4 = close_tools (sort_blocks [] w3.tool_blocks) w3 in
    if w.stopped
    then w
    else emit_event message_stop
        (emit_event (message_delta (map_stop_reason w4.finish) w4.output_toks) w4)
