-- ===== src/Anthropic/Request/Order.antt =====
-- The order of the translated messages, against the order that chat completions ask for.
use foxrouters.Anthropic.Request.{
  OpenaiMessage, tool_results, user_messages, text_parts, translate_messages, tool_calls_in,
  translate_blocks, translate_message, blocks, assistant_message, ContentBlock, as_text,
}
use foxrouters.Anthropic.Request.Messages.{
  called_by, resulting_in, use_ids, answer_ids, ids_of, answered, calls_kept, messages_nil,
}
use foxrouters.Prelude.{
  if◌then◌else◌, is_empty, any, all, codes, str_eq, str_iff, Str, ◌≡◌, refl, sym, ◌∙◌, ◌≢◌, Bool,
  true, false, ◌&&◌, List, [], ◌∷◌, ◌++◌, map, arith,
}

-- The ids that the messages of the role "tool" at the head of a list answer.
abbrev pub answered_at_once : List OpenaiMessage → List Str
answered_at_once [] = []
answered_at_once (m ∷ ms) =
    let rest = answered_at_once ms in
    if str_eq m.role (codes "tool") then resulting_in m ++ rest else []

-- Each id is one of the answered ones.
abbrev pub all_in : List Str → List Str → Bool
all_in ids answered = all (λ id. any (λ other. str_eq other id) answered) ids

-- The rule of chat completions: right behind a message that calls tools stand messages of the role
-- "tool" that answer every call.
abbrev pub is_ordered : List OpenaiMessage → Bool
is_ordered [] = true
is_ordered (m ∷ ms) = let rest = is_ordered ms in all_in (called_by m) (answered_at_once ms) && rest

all_in-cons : (x : Str) (ids ys : List Str) → all_in ids ys ≡ true → all_in ids (x ∷ ys) ≡ true
all_in-cons x [] ys h = refl
all_in-cons x (id ∷ ids) ys h = ground (arith, all_in-cons x ids ys)

all_in_self : (xs : List Str) → all_in xs xs ≡ true
all_in_self [] = refl
all_in_self (x ∷ xs) = ground (arith, str_iff x x, all_in-cons x xs xs (all_in_self xs))

tool_results-answered_at_once :
    (bs : List ContentBlock) → answered_at_once (tool_results bs) ≡ answer_ids bs
unfolding tool_results str_eq
tool_results-answered_at_once [] = refl
tool_results-answered_at_once (b ∷ bs) = ground (arith, tool_results-answered_at_once bs)

tool_results-ordered : (bs : List ContentBlock) → is_ordered (tool_results bs) ≡ true
unfolding tool_results str_eq
tool_results-ordered [] = refl
tool_results-ordered (b ∷ bs) = ground (arith, tool_results-ordered bs)

behind_calls :
    (a u : List ContentBlock) (ss : List Str)
    → use_ids a ≢ []
    → answer_ids u ≡ use_ids a
    → is_ordered (assistant_message a ∷ user_messages ss (tool_results u)) ≡ is_empty ss
unfolding user_messages assistant_message str_eq
behind_calls a u [] some_calls e = ground (
  arith,
  calls_kept a,
  tool_results-ordered u,
  tool_results-answered_at_once u,
  all_in_self (use_ids a),
)
behind_calls a u (s ∷ ss) some_calls e =
    unanswered (ids_of (tool_calls_in a)) _ (λ h. some_calls (sym (calls_kept a) ∙ h))
  where
    unanswered : (ids : List Str) (b : Bool) → ids ≢ [] → (all_in ids [] && b) ≡ false
    unanswered [] b h = absurd (h refl)
    unanswered (id ∷ ids) b h = refl

-- Let the assistant call tools, and let the user's next message answer all these calls, in their
-- order. Then the translation is in the order that chat completions ask for exactly if the user says
-- no text in that message: a text is put between the calls and their results.
pub results_behind_text :
    (a u : List ContentBlock)
    → use_ids a ≢ []
    → answer_ids u ≡ use_ids a
    → is_ordered (
        translate_messages (
          record { role = codes "assistant"; content = blocks a }
          ∷ record { role = codes "user"; content = blocks u }
          ∷ []))
      ≡ is_empty (text_parts (map as_text u))
unfolding translate_messages translate_message translate_blocks str_eq
results_behind_text a u some_calls e =
    rw (messages_nil (user_messages (text_parts (map as_text u)) (tool_results u)))
      (behind_calls a u (text_parts (map as_text u)) some_calls e)
