-- ===== src/Anthropic/Stream.antt =====
-- internal/handlers/anthropic.go, streamWriter: chat completion chunks in, Anthropic events out. The
-- Go struct is two records here: what the frames change, and what the bytes change.
pub mod Chunks
pub mod Grammar
pub mod Begun
pub mod Blocks
pub mod Steps
pub mod ToolSteps
pub mod ToolBlocks
pub mod ToolCalls
pub mod Contents
pub mod Sorting
pub mod Ending
pub mod Complete
pub mod Bytes
pub mod Texts
pub mod Delivery
pub mod Writes
pub mod Response
pub mod Late
use foxrouters.Prelude.{
  if◌then◌else◌, ltb, nat_beq, is_empty, codes, Str, str_eq, ℕ, ◌+◌, Bool, true, false, not, ◌&&◌,
  ◌||◌, Option, none, some, List, [], ◌∷◌, ◌++◌,
}
use foxrouters.Prelude.Int.{ℤ, negsuc, pos}

-- A text block, or a tool_use block with its id and name.
pub data BlockKind : Type 0 where
  text_block : BlockKind
  tool_use : Str → Str → BlockKind

-- A text_delta or an input_json_delta.
pub data Delta : Type 0 where
  text_delta : Str → Delta
  input_json_delta : Str → Delta

-- What emitEvent sends. The id, the model and the constants of message_start are left out.
pub data SseEvent : Type 0 where
  message_start : SseEvent
  content_block_start : ℕ → BlockKind → SseEvent
  content_block_delta : ℕ → Delta → SseEvent
  content_block_stop : ℕ → SseEvent
  message_delta : Str → ℤ → SseEvent
  message_stop : SseEvent

-- streamToolBlock, with the index that is its key in `toolBlocks`.
pub record StreamToolBlock : Type 0 where
  pub openai_idx : ℤ
  pub anthropic_idx : ℕ
  pub id : Str
  pub name : Str
  pub started : Bool
  pub closed : Bool

-- `sent` are the events on the wire.
pub record StreamWriter : Type 0 where
  pub started : Bool
  pub text_open : Bool
  pub text_closed : Bool
  pub stopped : Bool
  pub finish : Str
  pub input_toks : ℤ
  pub output_toks : ℤ
  pub text_buf : Str
  pub tool_blocks : List StreamToolBlock
  pub next_block_idx : ℕ
  pub sent : List SseEvent

unfoldable pub new_stream_writer : StreamWriter
new_stream_writer = record {
  started = false;
  text_open = false;
  text_closed = false;
  stopped = false;
  finish = [];
  input_toks = pos 0;
  output_toks = pos 0;
  text_buf = [];
  tool_blocks = [];
  next_block_idx = 1;
  sent = [];
}

unfoldable pub emit_event : SseEvent → StreamWriter → StreamWriter
emit_event e w = record w { sent = w.sent ++ (e ∷ []) }

unfoldable pub ensure_start : StreamWriter → StreamWriter
unfolding emit_event
ensure_start w = if w.started then w else emit_event message_start (record w { started = true })

unfoldable pub ensure_text_block : StreamWriter → StreamWriter
unfolding emit_event
ensure_text_block w =
    if w.text_open
    then w
    else emit_event (content_block_start 0 text_block) (record w { text_open = true })

unfoldable pub close_text_block : StreamWriter → StreamWriter
unfolding emit_event
close_text_block w =
    if not w.text_open || w.text_closed
    then w
    else emit_event (content_block_stop 0) (record w { text_closed = true })

unfoldable pub int_beq : ℤ → ℤ → Bool
int_beq (pos a) (pos b) = nat_beq a b
int_beq (pos a) (negsuc b) = false
int_beq (negsuc a) (pos b) = false
int_beq (negsuc a) (negsuc b) = nat_beq a b

-- `w.toolBlocks[idx]`, and a write through the pointer that is there.
unfoldable pub find_tool : ℤ → List StreamToolBlock → Option StreamToolBlock
find_tool idx [] = none
find_tool idx (tb ∷ bs) =
    let rest = find_tool idx bs in if int_beq tb.openai_idx idx then some tb else rest

unfoldable pub set_tool : StreamToolBlock → List StreamToolBlock → List StreamToolBlock
set_tool new [] = []
set_tool new (tb ∷ bs) =
    let rest = set_tool new bs in
    if int_beq tb.openai_idx new.openai_idx then new ∷ bs else tb ∷ rest

-- The block of an index, which is made if there is none.
unfoldable pub create_tool :
    ℤ → Option StreamToolBlock → StreamWriter → StreamWriter × StreamToolBlock
create_tool idx (some tb) w = (w, tb)
create_tool idx none w =
    let tb : StreamToolBlock = record {
      openai_idx = idx;
      anthropic_idx = w.next_block_idx;
      id = [];
      name = [];
      started = false;
      closed = false;
    } in
    (
      record w { tool_blocks = w.tool_blocks ++ (tb ∷ []); next_block_idx = w.next_block_idx + 1 },
      tb,
    )

-- The id and the name are taken once.
unfoldable pub name_tool : Str → Str → StreamToolBlock → StreamToolBlock
name_tool id name tb = record tb {
  id = if not (str_eq id []) && str_eq tb.id [] then id else tb.id;
  name = if not (str_eq name []) && str_eq tb.name [] then name else tb.name;
}

unfoldable pub store_tool : StreamToolBlock → StreamWriter → StreamWriter
store_tool tb w = record w { tool_blocks = set_tool tb w.tool_blocks }

-- Opens the block once it has a name; the text block is closed before.
unfoldable pub open_tool : StreamToolBlock → StreamWriter → StreamWriter × StreamToolBlock
unfolding emit_event store_tool
open_tool tb w =
    let tb' : StreamToolBlock = record tb { started = true } in
    if not tb.started && not (str_eq tb.name [])
    then (
      emit_event (content_block_start tb.anthropic_idx (tool_use tb.id tb.name))
          (store_tool tb' (close_text_block w)),
      tb',
    )
    else (store_tool tb w, tb)

unfoldable pub ensure_tool_block : ℤ → Str → Str → StreamWriter → StreamWriter × StreamToolBlock
ensure_tool_block idx id name w =
    let (w', tb) = create_tool idx (find_tool idx w.tool_blocks) w in
    open_tool (name_tool id name tb) w'

unfoldable pub close_tool_block : StreamToolBlock → StreamWriter → StreamWriter
unfolding emit_event store_tool
close_tool_block tb w =
    if not tb.started || tb.closed
    then w
    else emit_event (content_block_stop tb.anthropic_idx)
        (store_tool (record tb { closed = true }) w)
