-- ===== src/Route/Retry.antt =====
-- The retry chain of proxy.go: which calls are made, and which status is answered.
use foxrouters.Route.{
  Route, attempt, Body, fallback_loop, UpstreamCall, or_status, dispatch, is_grok_model,
  resolve_custom, alias_of, expand_body, to_grok, set_model, expand_model, to_codebuddy, text,
}
use foxrouters.Route.Handler.{Env, combo_models, retries, client_stream, run_route}
use foxrouters.Combo.{ComboRegistry}
use foxrouters.Custom.{CustomRegistry, Resolution}
use foxrouters.Prelude.{
  ltb→lt, ltb, Bool-cases, Str, codes, ℕ, ◌+◌, ◌≤◌, ◌<◌, ◌≡◌, ◌≢◌, ◌⊎◌, inl, inr, true, Option,
  some, List, [], ◌∷◌, arith, str_iff, ap, false, if◌then◌else◌, str_eq, Bool, not, ◌&&◌, ◌||◌,
  ◌++◌,
}
use foxrouters.Prelude.Assoc.{lookup, lookup-insert_self}
use foxrouters.Route.Effort.{body_of}

-- The model that a body must ask for on behalf of a candidate: the name that the custom registry gives
-- it at its upstream, or else the model that the candidate stands for.
abbrev pub sent_model : Resolution → Str
sent_model r =
    let own = expand_model (alias_of r.upstream r.resolved_model) r.resolved_model in
    if str_eq r.model_name []
    then own
    else if str_eq r.upstream (codes "grok")
    then r.model_name
    else if str_eq r.upstream (codes "codebuddy")
    then codes "cb/" ++ r.model_name
    else own

-- The custom upstream decides, and without one the name of the model.
abbrev pub belongs_to_grok : Resolution → Bool
belongs_to_grok r =
    str_eq r.upstream (codes "grok")
    || (not (str_eq r.upstream (codes "codebuddy"))
        && is_grok_model (expand_model (alias_of r.upstream r.resolved_model) r.resolved_model))

abbrev pub goes_to_grok : UpstreamCall → Bool
goes_to_grok (to_grok b model) = true
goes_to_grok (to_codebuddy b bm) = false

-- The call asks for the candidate: its body names that model, and it goes to the upstream of it.
abbrev pub AsksFor : Option CustomRegistry → Str → UpstreamCall → Type 0
AsksFor registry candidate c =
    let r = resolve_custom registry candidate in
    (lookup (codes "model") (body_of c) ≡ some (text (sent_model r)))
    × (goes_to_grok c ≡ belongs_to_grok r)

-- A chain of calls from call number n on, over the candidates that are left, that ends with status s:
-- each call asks for the next candidate. It goes on behind an answer of 500 or more, and stops at the
-- first other answer or at the last candidate.
pub data Chain (registry : Option CustomRegistry) (respond : ℕ → UpstreamCall → ℕ)
    : ℕ → List Str → List UpstreamCall → ℕ → Type 0 where
  answered :
      (n : ℕ) (m : Str) (ms : List Str) (c : UpstreamCall)
      → AsksFor registry m c
      → respond n c < 500
      → Chain registry respond n (m ∷ ms) (c ∷ []) (respond n c)
  gave_up :
      (n : ℕ) (m : Str) (c : UpstreamCall)
      → AsksFor registry m c
      → 500 ≤ respond n c
      → Chain registry respond n (m ∷ []) (c ∷ []) (respond n c)
  failed :
      (n s : ℕ) (m : Str) (ms : List Str) (c : UpstreamCall) (cs : List UpstreamCall)
      → AsksFor registry m c
      → 500 ≤ respond n c
      → Chain registry respond (n + 1) ms cs s
      → Chain registry respond n (m ∷ ms) (c ∷ cs) s

dispatch-AsksFor :
    (r : Resolution) (b : Body)
    → let m = expand_model (alias_of r.upstream r.resolved_model) r.resolved_model in
      let c = (dispatch r.upstream r.model_name m (set_model m b) (set_model m b)).0 in
      (lookup (codes "model") (body_of c) ≡ some (text (sent_model r)))
      × (goes_to_grok c ≡ belongs_to_grok r)
unfolding dispatch
dispatch-AsksFor r b =
    let m = expand_model (alias_of r.upstream r.resolved_model) r.resolved_model in
    ground (
      arith,
      str_iff r.upstream (codes "grok"),
      str_iff r.upstream (codes "codebuddy"),
      lookup-insert_self (codes "model") (text m) b,
      lookup-insert_self (codes "model") (text r.model_name) (set_model m b),
      lookup-insert_self (codes "model") (text (codes "cb/" ++ r.model_name)) (set_model m b),
    )

attempt-AsksFor :
    (registry : Option CustomRegistry) (m : Str) (bm : Body)
    → AsksFor registry m (attempt registry m bm).call
unfolding attempt
attempt-AsksFor registry m bm =
    let r = resolve_custom registry m in
    dispatch-AsksFor r (expand_body (alias_of r.upstream r.resolved_model) bm)

module _ (registry : Option CustomRegistry) (respond : ℕ → UpstreamCall → ℕ) where
  pub fallback_loop-Chain :
      (n : ℕ) (model m : Str) (ms : List Str) (bm : Body)
      → (s : ℕ) × ((fallback_loop registry respond n model (m ∷ ms) bm).status ≡ some s)
        × Chain registry respond n
            (m ∷ ms)
            (fallback_loop registry respond n model (m ∷ ms) bm).calls
            s
  unfolding fallback_loop
  fallback_loop-Chain n model m [] bm =
      let c = (attempt registry m bm).call in
      let asks = attempt-AsksFor registry m bm in
      elim (Bool-cases (ltb (respond n c) 500)) [
        | inl ok ↦ (respond n c, rw ok, rw ok (answered n m [] c asks (ltb→lt _ 500 ok)))
        | inr bad ↦ (respond n c, rw bad, rw bad (gave_up n m c asks (ground arith)))
      ]
  fallback_loop-Chain n model m (m' ∷ ms) bm =
      let a = attempt registry m bm in
      let asks = attempt-AsksFor registry m bm in
      let (s, e, rest) = fallback_loop-Chain (n + 1) a.tried m' ms a.body_after in
      elim (Bool-cases (ltb (respond n a.call) 500)) [
        | inl ok ↦
            (respond n a.call, rw ok, rw ok (answered n m (m' ∷ ms) a.call asks (ltb→lt _ 500 ok)))
        | inr bad ↦ (
          s,
          rw bad (ap (λ o. or_status o (respond n a.call)) e),
          rw bad (failed n s m (m' ∷ ms) a.call _ asks (ground arith) rest),
        )
      ]

-- Let a route be one that retries, and let its combo have models. Then the handler answers with a
-- status, and its calls are a chain over these models in their order: the body of call number i names
-- model number i, as the custom registry and the Grok aliases spell it, and goes to the upstream of that
-- model. Each call is made only because the one before was answered with 500 or more, the chain
-- stops at the first answer below 500 or when every model was asked once, and the status that the
-- client gets is that of the last call.
pub run_route-Chain :
    (env : Env) (combos : Option ComboRegistry) (t : Route) (m : Str) (ms : List Str)
    → retries env.accept t ≡ true
    → combo_models combos t.combo_name ≡ m ∷ ms
    → (s : ℕ) × ((run_route env combos t).status ≡ some s)
      × Chain env.registry env.respond 0 (m ∷ ms) (run_route env combos t).calls s
unfolding run_route
run_route-Chain env combos t m ms r e =
    rw (r, e) (fallback_loop-Chain env.registry env.respond 0 t.model m ms t.body)

not_retries :
    (accept : Str) (t : Route)
    → (client_stream accept t.body ≡ true) ⊎ (t.combo_strategy ≢ codes "fallback")
    → retries accept t ≡ false
unfolding retries
not_retries accept t h = ground (arith, str_iff t.combo_strategy (codes "fallback"))

-- A client that streams, or whose model is no fallback combo, gets the answer of exactly one call,
-- whatever its status is.
pub run_route_once :
    (env : Env) (combos : Option ComboRegistry) (t : Route)
    → (client_stream env.accept t.body ≡ true) ⊎ (t.combo_strategy ≢ codes "fallback")
    → (c : UpstreamCall) × ((run_route env combos t).calls ≡ c ∷ [])
      × ((run_route env combos t).status ≡ some (env.respond 0 c))
unfolding run_route
run_route_once env combos t h =
    let (call, after) = dispatch t.custom_upstream t.custom_model_name t.model t.body t.body in
    (call, rw (not_retries env.accept t h), rw (not_retries env.accept t h))
