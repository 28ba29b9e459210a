-- ===== src/Route.antt =====
-- The request handler of internal/proxy/proxy.go, with the model names of internal/upstream/grok.go:
-- how a chat completion gets from its JSON body to the calls of the upstreams.
pub mod Handler
pub mod Retry
pub mod Whitelist
pub mod Effort
pub mod Charges
mod Tests
use foxrouters.Combo.{Combo, ComboRegistry, Resolved, miss, hit, panic, get_combo}
use foxrouters.Custom.{CustomRegistry, Resolution, resolve}
use foxrouters.Prelude.{
  if◌then◌else◌, ltb, Str, has_prefix, trim_prefix, codes, str_eq, ℕ, ◌+◌, Bool, true, false, ◌||◌,
  Option, none, some, List, [], ◌∷◌, ◌++◌,
}
use foxrouters.Prelude.Int.{ℤ}
use foxrouters.Prelude.Assoc.{insert, Assoc, lookup}
use foxrouters.Combo
use foxrouters.Custom

-- What the handler reads of a JSON value: a text, a truth value, or something else, with a number
-- that tells such values apart.
pub data Value : Type 0 where
  text : Str → Value
  flag : Bool → Value
  other : ℕ → Value

-- `bodyMap`, and a marshalled body.
abbrev pub Body : Type 0
Body = Assoc Value

abbrev pub set_model : Str → Body → Body
set_model model body = insert (codes "model") (text model) body

abbrev pub text_of : Option Value → Str
text_of none = []
text_of (some (text s)) = s
text_of (some (flag b)) = []
text_of (some (other n)) = []

abbrev pub is_true : Option Value → Bool
is_true none = false
is_true (some (text s)) = false
is_true (some (flag b)) = b
is_true (some (other n)) = false

abbrev pub has : Str → Body → Bool
has key body = elim (lookup key body) [ none ↦ false | some v ↦ true ]

unfoldable pub expand_grok_alias : Str → Option Str
expand_grok_alias model =
    if str_eq model (codes "grok-4.5-high") || str_eq model (codes "grok-4.5-xhigh")
    then some (codes "high")
    else if str_eq model (codes "grok-4.5-medium")
    then some (codes "medium")
    else if str_eq model (codes "grok-4.5-low")
    then some (codes "low")
    else if str_eq model (codes "grok-4.5-auto")
    then some (codes "auto")
    else if str_eq model (codes "grok-4.5-none")
    then some (codes "none")
    else none

unfoldable pub is_grok_model : Str → Bool
is_grok_model model = has_prefix model (codes "grok-")

-- The variables of the handler up to the dispatch.
pub record Route : Type 0 where
  pub model : Str
  pub body : Body
  pub custom_upstream : Str
  pub custom_model_name : Str
  pub combo_name : Str
  pub combo_strategy : Str

-- `model, _ := bodyMap["model"].(string)`, and the default.
unfoldable pub start : Body → Route
start body =
    let asked = text_of (lookup (codes "model") body) in
    let empty = str_eq asked [] in
    record {
      model = if empty then codes "grok-4.5" else asked;
      body = if empty then set_model (codes "grok-4.5") body else body;
      custom_upstream = [];
      custom_model_name = [];
      combo_name = [];
      combo_strategy = [];
    }

-- A registry that is not there leaves the model as it is.
unfoldable pub resolve_custom : Option CustomRegistry → Str → Resolution
resolve_custom none model = record { resolved_model = model; upstream = []; model_name = [] }
resolve_custom (some r) model = Custom.resolve r model

-- `if registry != nil { resolved, up, mn := registry.Resolve(model) … }`
unfoldable pub apply_custom : Option CustomRegistry → Route → Route
apply_custom none t = t
apply_custom (some r) t =
    let a = resolve_custom (some r) t.model in
    record t {
      model = a.resolved_model;
      body = if str_eq a.resolved_model t.model then t.body else set_model a.resolved_model t.body;
      custom_upstream = a.upstream;
      custom_model_name = a.model_name;
    }

abbrev pub strategy_of : Option Combo → Str
strategy_of none = []
strategy_of (some c) = c.strategy

-- What is done with the answer of ComboRegistry.Resolve; `none` is an index out of range.
unfoldable pub take_combo : Option CustomRegistry → ComboRegistry → Route → Resolved → Option Route
take_combo registry combos t miss = some t
take_combo registry combos t panic = none
take_combo registry combos t (hit next) =
    let prefixed = has_prefix t.model (codes "combo/") in
    let name = if prefixed then trim_prefix t.model (codes "combo/") else t.combo_name in
    some (
      apply_custom registry (record t {
        model = next;
        body = set_model next t.body;
        combo_name = name;
        combo_strategy = if prefixed then strategy_of (get_combo combos name) else t.combo_strategy;
      }))

-- `incr` is the answer of INCR if Resolve asks for it.
unfoldable pub apply_combo :
    Option CustomRegistry
    → Option ComboRegistry
    → Option ℤ
    → Route
    → Option ComboRegistry × Option Route
apply_combo registry none incr t = (none, some t)
apply_combo registry (some combos) incr t =
    let (combos', answer) = Combo.resolve combos t.model incr in
    (some combos', take_combo registry combos' t answer)

-- `if _, has := …["reasoning_effort"]; !has { if _, has2 := …["reasoning"]; !has2 { … } }`
unfoldable pub add_effort : Str → Body → Body
add_effort effort body =
    if has (codes "reasoning_effort") body || has (codes "reasoning") body
    then body
    else insert (codes "reasoning_effort") (text effort) body

abbrev pub expand_body : Option Str → Body → Body
expand_body none body = body
expand_body (some effort) body = add_effort effort (set_model (codes "grok-4.5") body)

abbrev pub expand_model : Option Str → Str → Str
expand_model none model = model
expand_model (some effort) model = codes "grok-4.5"

-- The alias is expanded only if no custom model has routed the request.
unfoldable pub alias_of : Str → Str → Option Str
alias_of custom_upstream model = if str_eq custom_upstream [] then expand_grok_alias model else none

unfoldable pub expand : Route → Route
expand t =
    let alias = alias_of t.custom_upstream t.model in
    record t { model = expand_model alias t.model; body = expand_body alias t.body }

-- A call of ProxyGrok, with the body and the model, or of ProxyCodeBuddy, with the body and `bodyMap`.
pub data UpstreamCall : Type 0 where
  to_grok : Body → Str → UpstreamCall
  to_codebuddy : Body → Body → UpstreamCall

-- The closure `dispatch`: the call that it makes, and `bodyMap` after it.
unfoldable pub dispatch : Str → Str → Str → Body → Body → UpstreamCall × Body
dispatch custom_upstream custom_model_name m b bm =
    if str_eq custom_upstream (codes "grok")
    then (if str_eq custom_model_name []
        then (to_grok b m, bm)
        else (let bm' = set_model custom_model_name bm in (to_grok bm' custom_model_name, bm')))
    else if str_eq custom_upstream (codes "codebuddy")
    then (if str_eq custom_model_name []
        then (to_codebuddy b bm, bm)
        else (let bm' = set_model (codes "cb/" ++ custom_model_name) bm in
            (to_codebuddy bm' bm', bm')))
    else if is_grok_model m
    then (to_grok b m, bm)
    else (to_codebuddy b bm, bm)

-- One turn of the fallback loop: the call, the model as tried, and `bodyMap` behind it.
pub record Attempt : Type 0 where
  pub call : UpstreamCall
  pub tried : Str
  pub body_after : Body

unfoldable pub attempt : Option CustomRegistry → Str → Body → Attempt
attempt registry candidate bm =
    let a = resolve_custom registry candidate in
    let alias = alias_of a.upstream a.resolved_model in
    let m = expand_model alias a.resolved_model in
    let bm' = set_model m (expand_body alias bm) in
    let (call, after) = dispatch a.upstream a.model_name m bm' bm' in
    record { call = call; tried = m; body_after = after }

-- What the loop leaves: the calls in their order, the status that is flushed (`none` if there was no
-- candidate), and the last model tried.
pub record Retried : Type 0 where
  pub calls : List UpstreamCall
  pub status : Option ℕ
  pub model : Str

abbrev pub or_status : Option ℕ → ℕ → Option ℕ
or_status none s = some s
or_status (some t) s = some t

-- `for _, candidate := range cb.Models`. The upstream answers call number `n` with a status.
unfoldable pub fallback_loop :
    Option CustomRegistry → (ℕ → UpstreamCall → ℕ) → ℕ → Str → List Str → Body → Retried
fallback_loop registry respond n model [] bm = record { calls = []; status = none; model = model }
fallback_loop registry respond n model (candidate ∷ candidates) bm =
    let a = attempt registry candidate bm in
    let s = respond n a.call in
    let rest = fallback_loop registry respond (n + 1) a.tried candidates a.body_after in
    if ltb s 500 then record { calls = a.call ∷ []; status = some s; model = a.tried } else record {
      calls = a.call ∷ rest.calls;
      status = or_status rest.status s;
      model = rest.model;
    }
