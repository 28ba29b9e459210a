-- ===== src/Anthropic/Request/Messages.antt =====
-- The ids of the tools that are called and answered go through the translation of the messages.
use foxrouters.Anthropic.Request.{
  translate_messages, OpenaiMessage, plain, Raw, tool_results, tool_calls_in, user_messages, said,
  other, as_text, AnthropicMessage, translate_message, ContentBlock, text_parts, assistant_message,
  absent, blocks, OpenaiToolCall, translate_blocks, extract_text,
}
use foxrouters.Prelude.{
  if◌then◌else◌, Bool-cases, Str, str_eq, codes, str_iff, ◌≡◌, refl, sym, ap, ◌∙◌, inl, inr, true,
  false, Option, none, some, List, [], ◌∷◌, ◌++◌, map, arith, if_either, All, ◌⊎◌,
}

-- The ids of the calls, and of the results, in messages of chat completions.
abbrev pub ids_of : List OpenaiToolCall → List Str
ids_of [] = []
ids_of (c ∷ cs) = c.id ∷ ids_of cs

-- Only the assistant calls tools, and only a message with the role "tool" has a result.
abbrev pub called_by : OpenaiMessage → List Str
called_by m = if str_eq m.role (codes "assistant") then ids_of m.tool_calls else []

abbrev pub call_ids : List OpenaiMessage → List Str
call_ids [] = []
call_ids (m ∷ ms) = called_by m ++ call_ids ms

abbrev pub listed : Option Str → List Str
listed none = []
listed (some s) = s ∷ []

abbrev pub resulting_in : OpenaiMessage → List Str
resulting_in m = if str_eq m.role (codes "tool") then listed m.tool_call_id else []

abbrev pub result_ids : List OpenaiMessage → List Str
result_ids [] = []
result_ids (m ∷ ms) = resulting_in m ++ result_ids ms

-- No other message has a call or names the call that it answers.
abbrev pub WellPlaced : OpenaiMessage → Type 0
WellPlaced m =
    ((m.tool_calls ≡ []) ⊎ (m.role ≡ codes "assistant"))
    × ((m.tool_call_id ≡ none) ⊎ (m.role ≡ codes "tool"))

-- The ids of the blocks of a type.
abbrev pub use_ids : List ContentBlock → List Str
use_ids [] = []
use_ids (b ∷ bs) =
    let rest = use_ids bs in if str_eq b.type (codes "tool_use") then b.id ∷ rest else rest

abbrev pub answer_ids : List ContentBlock → List Str
answer_ids [] = []
answer_ids (b ∷ bs) =
    let rest = answer_ids bs in
    if str_eq b.type (codes "tool_result") then b.tool_use_id ∷ rest else rest

abbrev pub blocks_of : Raw ContentBlock → List ContentBlock
blocks_of absent = []
blocks_of (plain s) = []
blocks_of (blocks bs) = bs
blocks_of (other raw) = []

abbrev pub used : List AnthropicMessage → List Str
used [] = []
used (m ∷ ms) =
    let rest = used ms in
    if str_eq m.role (codes "assistant") then use_ids (blocks_of m.content) ++ rest else rest

abbrev pub answered : List AnthropicMessage → List Str
answered [] = []
answered (m ∷ ms) =
    let rest = answered ms in
    if str_eq m.role (codes "user") then answer_ids (blocks_of m.content) ++ rest else rest

strs_assoc : (xs ys zs : List Str) → (xs ++ ys) ++ zs ≡ xs ++ (ys ++ zs)
strs_assoc [] ys zs = refl
strs_assoc (x ∷ xs) ys zs = ap (λ l. x ∷ l) (strs_assoc xs ys zs)

strs_nil : (xs : List Str) → xs ++ [] ≡ xs
strs_nil [] = refl
strs_nil (x ∷ xs) = ap (λ l. x ∷ l) (strs_nil xs)

pub messages_nil : (ms : List OpenaiMessage) → ms ++ [] ≡ ms
messages_nil [] = refl
messages_nil (m ∷ ms) = ap (λ l. m ∷ l) (messages_nil ms)

call_ids-append : (ms ns : List OpenaiMessage) → call_ids (ms ++ ns) ≡ call_ids ms ++ call_ids ns
call_ids-append [] ns = refl
call_ids-append (m ∷ ms) ns =
    ap (λ l. called_by m ++ l) (call_ids-append ms ns)
    ∙ sym (strs_assoc (called_by m) (call_ids ms) (call_ids ns))

result_ids-append :
    (ms ns : List OpenaiMessage) → result_ids (ms ++ ns) ≡ result_ids ms ++ result_ids ns
result_ids-append [] ns = refl
result_ids-append (m ∷ ms) ns =
    ap (λ l. resulting_in m ++ l) (result_ids-append ms ns)
    ∙ sym (strs_assoc (resulting_in m) (result_ids ms) (result_ids ns))

pub calls_kept : (bs : List ContentBlock) → ids_of (tool_calls_in bs) ≡ use_ids bs
unfolding tool_calls_in
calls_kept [] = refl
calls_kept (b ∷ bs) = ground (arith, calls_kept bs)

results_kept :
    (bs : List ContentBlock)
    → (result_ids (tool_results bs) ≡ answer_ids bs) × (call_ids (tool_results bs) ≡ [])
unfolding tool_results str_eq
results_kept [] = (refl, refl)
results_kept (b ∷ bs) = (ground (arith, (results_kept bs).0), ground (arith, (results_kept bs).1))

-- What one message calls and answers, by its role.
abbrev pub used_by : Str → Raw ContentBlock → List Str
used_by role c = if str_eq role (codes "assistant") then use_ids (blocks_of c) else []

abbrev pub answered_by : Str → Raw ContentBlock → List Str
answered_by role c = if str_eq role (codes "user") then answer_ids (blocks_of c) else []

user_ids :
    (ss : List Str) (rs : List OpenaiMessage)
    → (call_ids (user_messages ss rs) ≡ call_ids rs)
      × (result_ids (user_messages ss rs) ≡ result_ids rs)
unfolding user_messages str_eq
user_ids [] rs = (refl, refl)
user_ids (s ∷ ss) rs = (refl, refl)

user_or_assistant :
    (role : Str) → str_eq role (codes "user") ≡ true → str_eq role (codes "assistant") ≡ false
unfolding str_eq
user_or_assistant role h =
    ap (λ r. str_eq r (codes "assistant")) ((str_iff role (codes "user")).0 h)

said_ids :
    (role s : Str) → (call_ids (said role s ∷ []) ≡ []) × (result_ids (said role s ∷ []) ≡ [])
said_ids role s = (ground arith, ground arith)

blocks_ids :
    (role : Str) (bs : List ContentBlock)
    → (call_ids (translate_blocks role bs) ≡ used_by role (blocks bs))
      × (result_ids (translate_blocks role bs) ≡ answered_by role (blocks bs))
unfolding translate_blocks assistant_message str_eq
blocks_ids role bs = elim (Bool-cases (str_eq role (codes "user"))) [
  | inl y ↦
      let u = user_ids (text_parts (map as_text bs)) (tool_results bs) in
      (
        rw (y, user_or_assistant role y) (u.0 ∙ (results_kept bs).1),
        rw y (u.1 ∙ (results_kept bs).0),
      )
  | inr n ↦ elim (Bool-cases (str_eq role (codes "assistant"))) [
    | inl y ↦ (rw (n, y) (strs_nil (ids_of (tool_calls_in bs)) ∙ calls_kept bs), rw (n, y) refl)
    | inr m ↦
        let none_in = said_ids role (extract_text (blocks bs)) in
        (rw (n, m) none_in.0, rw (n, m) none_in.1)
  ]
]

message_ids :
    (role : Str) (c : Raw ContentBlock)
    → (call_ids (translate_message role c) ≡ used_by role c)
      × (result_ids (translate_message role c) ≡ answered_by role c)
unfolding translate_message
message_ids role absent = (ground arith, ground arith)
message_ids role (plain s) = (ground arith, ground arith)
message_ids role (blocks bs) = blocks_ids role bs
message_ids role (other raw) = (ground arith, ground arith)

All-append_messages :
    (ms ns : List OpenaiMessage) → All WellPlaced ms → All WellPlaced ns → All WellPlaced (ms ++ ns)
All-append_messages [] ns a b = b
All-append_messages (m ∷ ms) ns a b = (a.0, All-append_messages ms ns a.1 b)

tool_results-WellPlaced : (bs : List ContentBlock) → All WellPlaced (tool_results bs)
unfolding tool_results
tool_results-WellPlaced [] = tt
tool_results-WellPlaced (b ∷ bs) = elim (Bool-cases (str_eq b.type (codes "tool_result"))) [
  | inl y ↦ rw y ((inl refl, inr refl), tool_results-WellPlaced bs)
  | inr y ↦ rw y (tool_results-WellPlaced bs)
]

user_messages-WellPlaced :
    (ss : List Str) (rs : List OpenaiMessage)
    → All WellPlaced rs
    → All WellPlaced (user_messages ss rs)
unfolding user_messages
user_messages-WellPlaced [] rs h = h
user_messages-WellPlaced (s ∷ ss) rs h = ((inl refl, inl refl), h)

translate_message-WellPlaced :
    (role : Str) (c : Raw ContentBlock) → All WellPlaced (translate_message role c)
unfolding translate_message translate_blocks assistant_message
translate_message-WellPlaced role absent = ((inl refl, inl refl), tt)
translate_message-WellPlaced role (plain s) = ((inl refl, inl refl), tt)
translate_message-WellPlaced role (blocks bs) =
    if_either (All WellPlaced) (str_eq role (codes "user"))
      (user_messages (text_parts (map as_text bs)) (tool_results bs))
      (if str_eq role (codes "assistant")
        then assistant_message bs ∷ []
        else said role (extract_text (blocks bs)) ∷ [])
      (user_messages-WellPlaced _ _ (tool_results-WellPlaced bs))
      (if_either (All WellPlaced) (str_eq role (codes "assistant")) (assistant_message bs ∷ [])
        (said role (extract_text (blocks bs)) ∷ []) ((inr refl, inl refl), tt)
        ((inl refl, inl refl), tt))
translate_message-WellPlaced role (other raw) = ((inl refl, inl refl), tt)

-- In the translated messages, the ids of the tools that messages of the role "assistant" call are
-- those of the tool_use blocks of the assistant, and the ids that messages of the role "tool" answer
-- are those of the tool_result blocks of the user, each in the order of the request. No message of
-- another role has a call, or the id of one: no call is lost, doubled or moved to another role.
pub translate_messages_ids :
    (ms : List AnthropicMessage)
    → (call_ids (translate_messages ms) ≡ used ms)
      × (result_ids (translate_messages ms) ≡ answered ms)
      × All WellPlaced (translate_messages ms)
unfolding translate_messages
translate_messages_ids [] = (refl, refl, tt)
translate_messages_ids (m ∷ ms) =
    let h = message_ids m.role m.content in
    let t = translate_messages_ids ms in
    (
      call_ids-append (translate_message m.role m.content) (translate_messages ms)
          ∙ ground (arith, h.0, t.0),
      result_ids-append (translate_message m.role m.content) (translate_messages ms)
          ∙ ground (arith, h.1, t.1),
      All-append_messages (translate_message m.role m.content) (translate_messages ms)
          (translate_message-WellPlaced m.role m.content) t.2,
    )
