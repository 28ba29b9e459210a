-- ===== src/Anthropic/Handler.antt =====
-- internal/handlers/anthropic.go, HandleMessages: POST /v1/messages. What the inner handler
-- ProxyRequest does with the writer and the context is an argument, and so is what package json reads
-- from a text. `F` is the type of the floating point numbers.
pub mod Answers
use foxrouters.Anthropic.Captured.{
  extract_from_captured_body, CapturedChoice, ErrorValue, extract_upstream_error_message, Extract,
}
use foxrouters.Anthropic.Request.{OpenaiToolCall, blocks}
use foxrouters.Anthropic.Request.Body.{build_openai_body, OpenaiBody, AnthropicRequest}
use foxrouters.Anthropic.Stream.{SseEvent, int_beq}
use foxrouters.Anthropic.Stream.Chunks.{map_stop_reason, Chunk}
use foxrouters.Anthropic.Stream.Bytes.{Pipe, new_pipe, write_header, drain, write}
use foxrouters.Custom.{CustomRegistry}
use foxrouters.Prelude.{
  if◌then◌else◌, ltb, leb, is_empty, str_eq, has_suffix, codes, Str, ℕ, Bool, not, ◌&&◌, ◌||◌,
  Option, List, [], ◌∷◌, ◌++◌,
}
use foxrouters.Prelude.Int.{ℤ, pos}
use foxrouters.Prelude.Assoc.{Assoc}
use foxrouters.Prelude.Space.{trim_space}

-- The body of the request, read and decoded; an error of the decoder comes with its text.
pub data ReadBody (F : Type 0) : Type 0 where
  too_large : ReadBody F
  read_failed : ReadBody F
  undecoded : Str → ReadBody F
  decoded : AnthropicRequest F → ReadBody F

-- What ProxyRequest did: the status and the writes, and what it left in the context.
pub record Proxied : Type 0 where
  pub status : ℕ
  pub writes : List Str
  pub response_body : Str
  pub output_text : Str
  pub tokens_in : ℤ
  pub tokens_out : ℤ

-- The readers of package json.
pub record Json : Type 0 where
  pub chunk : Str → Option Chunk
  pub choice : Str → Option CapturedChoice
  pub completion : Str → Option Extract
  pub error : Str → Option (Assoc ErrorValue)
  pub valid : Str → Bool

-- The input of a tool_use block: JSON as it is, or a string.
pub data ToolInput : Type 0 where
  raw_input : Str → ToolInput
  string_input : Str → ToolInput

pub data OutBlock : Type 0 where
  text_out : Str → OutBlock
  tool_out : Str → Str → ToolInput → OutBlock

pub record AnthropicResponse : Type 0 where
  pub model : Str
  pub content : List OutBlock
  pub stop_reason : Str
  pub input_tokens : ℤ
  pub output_tokens : ℤ

-- An error with its status, type and message; the events of a stream; or a message.
pub data Answer : Type 0 where
  failed : ℕ → Str → Str → Answer
  events : List SseEvent → Answer
  message : AnthropicResponse → Answer

unfoldable pub run_writes : (Str → Option Chunk) → List Str → Pipe → Pipe
run_writes parse [] p = p
run_writes parse (s ∷ ss) p = run_writes parse ss (write parse s p)

unfoldable pub error_body : Str → Str → Str
error_body err_buf response_body = if str_eq err_buf [] then response_body else err_buf

unfoldable pub stream_failed : Json → Proxied → Pipe → Answer
stream_failed js out p =
    let body = error_body p.err_buf out.response_body in
    failed (if ltb p.status_code 400 then 502 else p.status_code) (codes "api_error")
      (extract_upstream_error_message (js.error body) body)

unfoldable pub answer_stream : Json → Proxied → Answer
answer_stream js out =
    let p = drain js.chunk (run_writes js.chunk out.writes (write_header out.status new_pipe)) in
    if p.writer.started then events p.writer.sent else stream_failed js out p

-- captureWriter: all that was written.
unfoldable pub captured : List Str → Str
captured [] = []
captured (s ∷ ss) = s ++ captured ss

-- The ellipsis that ends a shortened text.
abbrev pub ellipsis : Str
ellipsis = 0xe2 ∷ 0x80 ∷ 0xa6 ∷ []

unfoldable pub output_text_of : Str → Str → Str
output_text_of output_text extracted =
    if (str_eq output_text [] || has_suffix output_text ellipsis) && not (str_eq extracted [])
    then extracted
    else output_text

unfoldable pub tool_input : (Str → Bool) → Str → ToolInput
tool_input valid arguments =
    let args = trim_space arguments in
    if str_eq args []
    then raw_input (codes "{}")
    else if valid args
    then raw_input args
    else string_input args

unfoldable pub tool_blocks_out : (Str → Bool) → List OpenaiToolCall → List OutBlock
tool_blocks_out valid [] = []
tool_blocks_out valid (tc ∷ tcs) =
    tool_out tc.id tc.name (tool_input valid tc.arguments) ∷ tool_blocks_out valid tcs

unfoldable pub content_blocks : (Str → Bool) → Str → List OpenaiToolCall → List OutBlock
content_blocks valid text tcs =
    let tools = tool_blocks_out valid tcs in
    let blocks = if str_eq text [] then tools else text_out text ∷ tools in
    if is_empty blocks then text_out [] ∷ [] else blocks

unfoldable pub answer_captured : Json → Str → Proxied → Answer
answer_captured js model out =
    let body = captured out.writes in
    let e = extract_from_captured_body js.completion js.choice body in
    let finish =
      if not (is_empty e.tool_calls) && str_eq e.finish [] then codes "tool_calls" else e.finish in
    if leb 400 out.status
    then failed out.status (codes "api_error") (extract_upstream_error_message (js.error body) body)
    else message (record {
      model = model;
      content = content_blocks js.valid (output_text_of out.output_text e.text) e.tool_calls;
      stop_reason = map_stop_reason finish;
      input_tokens = out.tokens_in;
      output_tokens = out.tokens_out;
    })

-- The model that is named in the answer.
unfoldable pub client_model : Str → Str → Str
client_model model upstream = if str_eq model [] then upstream else model

module _ {F : Type 0} where
  unfoldable pub with_max_tokens : AnthropicRequest F → AnthropicRequest F
  unfolding int_beq
  with_max_tokens req = record req {
    max_tokens = if int_beq req.max_tokens (pos 0) then pos 4096 else req.max_tokens;
  }

  unfoldable pub handle_decoded :
      Json → Str → Option CustomRegistry → (OpenaiBody F → Proxied) → AnthropicRequest F → Answer
  handle_decoded js env reg inner req =
      let body = build_openai_body env reg (with_max_tokens req) in
      let out = inner body in
      if is_empty req.messages
      then failed 400 (codes "invalid_request_error") (codes "messages is required")
      else if req.stream
      then answer_stream js out
      else answer_captured js (client_model req.model body.model) out

  unfoldable pub handle_messages :
      Json → Str → Option CustomRegistry → (OpenaiBody F → Proxied) → ReadBody F → Answer
  handle_messages js env reg inner too_large =
      failed 413 (codes "request_too_large") (codes "request body too large")
  handle_messages js env reg inner read_failed =
      failed 400 (codes "invalid_request_error") (codes "read body failed")
  handle_messages js env reg inner (undecoded err) =
      failed 400 (codes "invalid_request_error") (codes "invalid JSON: " ++ err)
  handle_messages js env reg inner (decoded req) = handle_decoded js env reg inner req
