-- ===== src/Anthropic/Request.antt =====
-- internal/handlers/anthropic.go: the request, from the Messages interface to chat completions. A
-- json.RawMessage is what json.Unmarshal reads from it; JSON that is read as it is, is its text.
pub mod Messages
pub mod Order
pub mod Body
pub mod Keys
use foxrouters.Prelude.{
  if◌then◌else◌, Str, codes, str_eq, not, ◌&&◌, Option, none, some, List, [], ◌∷◌, ◌++◌, map,
}

-- A field that may hold a string or a list of blocks, or something else, with its text.
pub data Raw (B : Type 0) : Type 0 where
  absent : Raw B
  plain : Str → Raw B
  blocks : List B → Raw B
  other : Str → Raw B

-- A block inside the content of a tool_result: contentBlockIn, as far as it is read there.
pub record TextBlock : Type 0 where
  pub type : Str
  pub text : Str

pub record ContentBlock : Type 0 where
  pub type : Str
  pub text : Str
  pub id : Str
  pub name : Str
  pub input : Str
  pub tool_use_id : Str
  pub tool_content : Raw TextBlock

pub record AnthropicMessage : Type 0 where
  pub role : Str
  pub content : Raw ContentBlock

pub record OpenaiToolCall : Type 0 where
  pub id : Str
  pub name : Str
  pub arguments : Str

-- A message of chat completions; a content of `none` is null, and an empty list of calls is absent.
pub record OpenaiMessage : Type 0 where
  pub role : Str
  pub content : Option Str
  pub tool_call_id : Option Str
  pub tool_calls : List OpenaiToolCall

-- strings.Join with line feeds
unfoldable pub join_lines : List Str → Str
join_lines [] = []
join_lines (s ∷ []) = s
join_lines (s ∷ t ∷ ss) = s ++ (10 ∷ join_lines (t ∷ ss))

-- The texts of the blocks of text.
unfoldable pub text_parts : List TextBlock → List Str
text_parts [] = []
text_parts (b ∷ bs) =
    let rest = text_parts bs in
    if str_eq b.type (codes "text") && not (str_eq b.text []) then b.text ∷ rest else rest

abbrev pub as_text : ContentBlock → TextBlock
as_text b = record { type = b.type; text = b.text }

unfoldable pub extract_text : Raw ContentBlock → Str
extract_text absent = []
extract_text (plain s) = s
extract_text (blocks bs) = join_lines (text_parts (map as_text bs))
extract_text (other raw) = []

unfoldable pub extract_tool_result_content : Raw TextBlock → Str
extract_tool_result_content absent = []
extract_tool_result_content (plain s) = s
extract_tool_result_content (blocks bs) = join_lines (text_parts bs)
extract_tool_result_content (other raw) = raw

abbrev pub said : Str → Str → OpenaiMessage
said role content = record {
  role = role;
  content = some content;
  tool_call_id = none;
  tool_calls = [];
}

unfoldable pub tool_results : List ContentBlock → List OpenaiMessage
tool_results [] = []
tool_results (b ∷ bs) =
    let rest = tool_results bs in
    if str_eq b.type (codes "tool_result")
    then record {
      role = codes "tool";
      content = some (extract_tool_result_content b.tool_content);
      tool_call_id = some b.tool_use_id;
      tool_calls = [];
    }
      ∷ rest
    else rest

unfoldable pub tool_calls_in : List ContentBlock → List OpenaiToolCall
tool_calls_in [] = []
tool_calls_in (b ∷ bs) =
    let rest = tool_calls_in bs in
    if str_eq b.type (codes "tool_use")
    then record {
      id = b.id;
      name = b.name;
      arguments = if str_eq b.input [] then codes "{}" else b.input;
    }
      ∷ rest
    else rest

unfoldable pub user_messages : List Str → List OpenaiMessage → List OpenaiMessage
user_messages [] results = results
user_messages (s ∷ ss) results = said (codes "user") (join_lines (s ∷ ss)) ∷ results

unfoldable pub assistant_content : List Str → Option Str
assistant_content [] = none
assistant_content (s ∷ ss) = some (join_lines (s ∷ ss))

unfoldable pub assistant_message : List ContentBlock → OpenaiMessage
assistant_message bs = record {
  role = codes "assistant";
  content = assistant_content (text_parts (map as_text bs));
  tool_call_id = none;
  tool_calls = tool_calls_in bs;
}

unfoldable pub translate_blocks : Str → List ContentBlock → List OpenaiMessage
translate_blocks role bs =
    if str_eq role (codes "user")
    then user_messages (text_parts (map as_text bs)) (tool_results bs)
    else if str_eq role (codes "assistant")
    then assistant_message bs ∷ []
    else said role (extract_text (blocks bs)) ∷ []

unfoldable pub translate_message : Str → Raw ContentBlock → List OpenaiMessage
translate_message role absent = said role (extract_text absent) ∷ []
translate_message role (plain s) = said role s ∷ []
translate_message role (blocks bs) = translate_blocks role bs
translate_message role (other raw) = said role (extract_text (other raw)) ∷ []

unfoldable pub translate_messages : List AnthropicMessage → List OpenaiMessage
translate_messages [] = []
translate_messages (m ∷ ms) = translate_message m.role m.content ++ translate_messages ms
