-- ===== src/Anthropic/Captured.antt =====
-- internal/handlers/anthropic.go, extractFromCapturedBody and extractUpstreamErrorMessage: what is
-- read from a whole body. What json.Unmarshal reads is an argument or a data type.
pub mod Reassembly
use foxrouters.Anthropic.Request.{OpenaiToolCall}
use foxrouters.Anthropic.Stream.{int_beq}
use foxrouters.Anthropic.Stream.Chunks.{ToolDelta}
use foxrouters.Anthropic.Stream.Bytes.{split_lines}
use foxrouters.Prelude.{
  leb, if◌then◌else◌, length, is_empty, has_prefix, index, trim_suffix, str_eq, trim_prefix, Str,
  codes, ◌||◌, Option, none, some, List, [], ◌∷◌, ◌++◌,
}
use foxrouters.Prelude.Int.{ℤ, pos}
use foxrouters.Prelude.Assoc.{Assoc, lookup}
use foxrouters.Prelude.Space.{trim_space}

-- A chunk of a captured stream: the first choice.
pub record CapturedMessage : Type 0 where
  pub content : Str
  pub tool_calls : List OpenaiToolCall

pub record CapturedChoice : Type 0 where
  pub content : Str
  pub tool_calls : List ToolDelta
  pub message : Option CapturedMessage
  pub finish_reason : Option Str

-- The accumulator of a tool call, and what the loop changes.
pub record ToolAcc : Type 0 where
  pub id : Str
  pub name : Str
  pub args : Str

pub record Scan : Type 0 where
  pub text : Str
  pub finish : Str
  pub tc_map : List (ℤ × ToolAcc)
  pub tc_order : List ℤ

abbrev pub new_scan : Scan
new_scan = record { text = []; finish = []; tc_map = []; tc_order = [] }

unfoldable pub find_acc : ℤ → List (ℤ × ToolAcc) → Option ToolAcc
unfolding int_beq
find_acc k [] = none
find_acc k ((k', acc) ∷ m) = let rest = find_acc k m in if int_beq k' k then some acc else rest

unfoldable pub put_acc : ℤ → ToolAcc → List (ℤ × ToolAcc) → List (ℤ × ToolAcc)
unfolding int_beq
put_acc k new [] = (k, new) ∷ []
put_acc k new ((k', acc) ∷ m) =
    let rest = put_acc k new m in if int_beq k' k then (k', new) ∷ m else (k', acc) ∷ rest

unfoldable pub scan_message_call : OpenaiToolCall → Scan → Scan
scan_message_call tc s =
    let idx = pos (length s.tc_order) in
    record s {
      tc_map = put_acc idx (record { id = tc.id; name = tc.name; args = tc.arguments }) s.tc_map;
      tc_order = s.tc_order ++ (idx ∷ []);
    }

unfoldable pub scan_message_calls : List OpenaiToolCall → Scan → Scan
scan_message_calls [] s = s
scan_message_calls (tc ∷ tcs) s = scan_message_calls tcs (scan_message_call tc s)

unfoldable pub scan_message : Option CapturedMessage → Scan → Scan
scan_message none s = s
scan_message (some m) s = scan_message_calls m.tool_calls (record s { text = s.text ++ m.content })

unfoldable pub add_delta : ToolDelta → ToolAcc → ToolAcc
add_delta tc acc = record {
  id = if str_eq tc.id [] then acc.id else tc.id;
  name = if str_eq tc.name [] then acc.name else tc.name;
  args = acc.args ++ tc.arguments;
}

unfoldable pub scan_delta : ToolDelta → Option ToolAcc → Scan → Scan
scan_delta tc (some acc) s = record s { tc_map = put_acc tc.index (add_delta tc acc) s.tc_map }
scan_delta tc none s = record s {
  tc_map = put_acc tc.index (add_delta tc (record { id = []; name = []; args = [] })) s.tc_map;
  tc_order = s.tc_order ++ (tc.index ∷ []);
}

unfoldable pub scan_deltas : List ToolDelta → Scan → Scan
scan_deltas [] s = s
scan_deltas (tc ∷ tcs) s = scan_deltas tcs (scan_delta tc (find_acc tc.index s.tc_map) s)

abbrev pub or_finish : Option Str → Str → Str
or_finish none old = old
or_finish (some r) old = r

unfoldable pub scan_choice : CapturedChoice → Scan → Scan
scan_choice ch s =
    let s' =
      if str_eq ch.content []
      then scan_message ch.message s
      else record s { text = s.text ++ ch.content } in
    let s'' = scan_deltas ch.tool_calls s' in
    record s'' { finish = or_finish ch.finish_reason s''.finish }

-- `parse` reads the first choice of the data of a line.
unfoldable pub scan_data : (Str → Option CapturedChoice) → Str → Scan → Scan
scan_data parse payload s =
    if str_eq payload [] || str_eq payload (codes "[DONE]")
    then s
    else elim (parse payload) [ none ↦ s | some ch ↦ scan_choice ch s ]

unfoldable pub scan_line : (Str → Option CapturedChoice) → Str → Scan → Scan
scan_line parse line s =
    if has_prefix line (codes "data:")
    then scan_data parse (trim_space (trim_prefix line (codes "data:"))) s
    else s

-- bufio.Scanner cuts one carriage return off a line, and stops at a line of 4 MiB.
unfoldable pub drop_cr : Str → Str
drop_cr line = trim_suffix line (13 ∷ [])

unfoldable pub scan_lines : (Str → Option CapturedChoice) → List Str → Scan → Scan
scan_lines parse [] s = s
scan_lines parse (l ∷ ls) s =
    let rest = scan_lines parse ls (scan_line parse (drop_cr l) s) in
    if leb 4194304 (length l) then s else rest

unfoldable pub scanner_lines : Str → List Str
scanner_lines b =
    let (lines, last) = split_lines b in if is_empty last then lines else lines ++ (last ∷ [])

unfoldable pub collect_calls : List (ℤ × ToolAcc) → List ℤ → List OpenaiToolCall
collect_calls m [] = []
collect_calls m (k ∷ ks) =
    let rest = collect_calls m ks in
    elim (find_acc k m) [
      | none ↦ rest
      | some acc ↦ record { id = acc.id; name = acc.name; arguments = acc.args } ∷ rest
    ]

-- The text, the finish reason and the tool calls.
pub record Extract : Type 0 where
  pub text : Str
  pub finish : Str
  pub tool_calls : List OpenaiToolCall

unfoldable pub extract_stream : (Str → Option CapturedChoice) → Str → Extract
extract_stream parse b =
    let s = scan_lines parse (scanner_lines b) new_scan in
    record { text = s.text; finish = s.finish; tool_calls = collect_calls s.tc_map s.tc_order }

-- `parse_whole` reads the first choice of a chat.completion.
unfoldable pub extract_from_captured_body :
    (Str → Option Extract) → (Str → Option CapturedChoice) → Str → Extract
extract_from_captured_body parse_whole parse b =
    let trimmed = trim_space b in
    if str_eq b []
    then record { text = []; finish = []; tool_calls = [] }
    else elim (if has_prefix trimmed (codes "{") then parse_whole trimmed else none) [
      | some e ↦ e
      | none ↦ extract_stream parse b
    ]

-- A value of the body of an error: a string, an object with its `message`, or something else.
pub data ErrorValue : Type 0 where
  text_value : Str → ErrorValue
  object_value : Option Str → ErrorValue
  other_value : ErrorValue

abbrev pub full_text : Str → Option Str
full_text s = if str_eq s [] then none else some s

unfoldable pub value_message : ErrorValue → Option Str
value_message (text_value s) = full_text s
value_message (object_value none) = none
value_message (object_value (some s)) = full_text s
value_message other_value = none

abbrev pub error_keys : List Str
error_keys =
    codes "message"
    ∷ codes "msg"
    ∷ codes "error"
    ∷ codes "detail"
    ∷ codes "detail.message"
    ∷ codes "error.message"
    ∷ []

unfoldable pub first_message : List Str → Assoc ErrorValue → Option Str
first_message [] m = none
first_message (k ∷ ks) m =
    let rest = first_message ks m in
    elim (lookup k m) [
      | none ↦ rest
      | some v ↦ elim (value_message v) [ none ↦ rest | some s ↦ some s ]
    ]

-- `raw` is the body as a JSON object, if it is one.
unfoldable pub extract_upstream_error_message : Option (Assoc ErrorValue) → Str → Str
extract_upstream_error_message raw body =
    let trimmed = trim_space body in
    let fallback = if str_eq trimmed [] then codes "upstream error" else trimmed in
    elim raw [
      | none ↦ fallback
      | some m ↦ elim (first_message error_keys m) [ none ↦ fallback | some s ↦ s ]
    ]
