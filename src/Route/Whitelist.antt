-- ===== src/Route/Whitelist.antt =====
-- The whitelist of a key against the calls that proxy.go makes.
use foxrouters.Route.{Body, Route, UpstreamCall, attempt, fallback_loop}
use foxrouters.Route.Handler.{
  is_chat_path, proxy_request, whitelisted, route, retries, account, combo_models, object,
  run_route, status, proxied, is_models_path, Env, with_body, finish,
}
use foxrouters.Combo.{ComboRegistry}
use foxrouters.Auth.{GatewayKey, Keys, is_model_allowed}
use foxrouters.Auth.Manager.{get}
use foxrouters.Prelude.{
  str_eq, codes, str_iff, Str, ℕ, ◌≤◌, ◌≡◌, ◌∙◌, ◌≢◌, true, false, Option, some, List, [], ◌∷◌,
  arith, ltb, Bool-cases, drop, ◌+◌, ap, inl, inr,
}
use foxrouters.Prelude.Assoc.{lookup}
use foxrouters.Custom.{CustomRegistry}

-- What the handler does for a chat completion whose route is known.
chat :
    (env : Env) (body : Body) (combos : Option ComboRegistry) (t : Route)
    → route env body ≡ (combos, some t)
    → proxy_request env (codes "/v1/chat/completions") (object body) ≡ finish env combos (some t)
unfolding proxy_request is_models_path is_chat_path str_eq
chat env body combos t e = rw (e, with_body)

pub whitelisted_is :
    (env : Env) (am : Keys) (info : GatewayKey) (model : Str)
    → env.keys ≡ some am
    → env.client_key ≢ []
    → lookup env.client_key am ≡ some info
    → whitelisted env.keys env.client_key model ≡ is_model_allowed info model
unfolding whitelisted get
whitelisted_is env am info model ke ne found = rw ke (ground (arith, str_iff env.client_key []))

-- A key with a whitelist that does not admit the model of the route gets the status 403: no upstream
-- is called and the table of keys stays. If the whitelist admits it, the upstreams are asked as the
-- route says, the status is theirs, and the table is that of `account`.
proxy_request_whitelist :
    (env : Env) (am : Keys) (info : GatewayKey) (body : Body) (combos : Option ComboRegistry)
    (t : Route)
    → env.keys ≡ some am
    → env.client_key ≢ []
    → lookup env.client_key am ≡ some info
    → route env body ≡ (combos, some t)
    → (is_model_allowed info t.model ≡ false
        → proxy_request env (codes "/v1/chat/completions") (object body)
          ≡ record { outcome = status 403; combos = combos; keys = some am })
      × (is_model_allowed info t.model ≡ true
          → proxy_request env (codes "/v1/chat/completions") (object body) ≡ record {
            outcome = proxied (run_route env combos t).calls (run_route env combos t).status;
            combos = combos;
            keys = account (some am) env.client_key env.tokens;
          })
unfolding finish
proxy_request_whitelist env am info body combos t ke ne found e =
    let pass : whitelisted env.keys env.client_key t.model ≡ is_model_allowed info t.model =
      whitelisted_is env am info t.model ke ne found in
    (
      λ refused. chat env body combos t e ∙ rw (pass, refused, ke),
      λ ok. chat env body combos t e ∙ rw (pass, ok, ke),
    )

fallback_loop_first :
    (registry : Option CustomRegistry) (respond : ℕ → UpstreamCall → ℕ) (n : ℕ) (model m : Str)
    (ms : List Str) (bm : Body)
    → (fallback_loop registry respond n model (m ∷ ms) bm).calls
      ≡ (attempt registry m bm).call
        ∷ drop 1 (fallback_loop registry respond n model (m ∷ ms) bm).calls
unfolding fallback_loop
fallback_loop_first registry respond n model m ms bm =
    elim (Bool-cases (ltb (respond n (attempt registry m bm).call) 500)) [
      | inl ok ↦ rw ok
      | inr bad ↦ rw bad
    ]

fallback_loop_failed :
    (registry : Option CustomRegistry) (respond : ℕ → UpstreamCall → ℕ) (n : ℕ) (model m : Str)
    (ms : List Str) (bm : Body)
    → 500 ≤ respond n (attempt registry m bm).call
    → (fallback_loop registry respond n model (m ∷ ms) bm).calls
      ≡ (attempt registry m bm).call
        ∷ (fallback_loop registry respond
            (n + 1)
            (attempt registry m bm).tried
            ms
            (attempt registry m bm).body_after).calls
unfolding fallback_loop
fallback_loop_failed registry respond n model m ms bm bad =
    let slow : ltb (respond n (attempt registry m bm).call) 500 ≡ false = ground arith in rw slow

pub run_route_second :
    (env : Env) (combos : Option ComboRegistry) (t : Route) (m m' : Str) (ms : List Str)
    → retries env.accept t ≡ true
    → combo_models combos t.combo_name ≡ m ∷ m' ∷ ms
    → 500 ≤ env.respond 0 (attempt env.registry m t.body).call
    → (run_route env combos t).calls
      ≡ (attempt env.registry m t.body).call
        ∷ (attempt env.registry m' (attempt env.registry m t.body).body_after).call
        ∷ drop 1
            (fallback_loop env.registry env.respond 1
              (attempt env.registry m t.body).tried
              (m' ∷ ms)
              (attempt env.registry m t.body).body_after).calls
unfolding run_route
run_route_second env combos t m m' ms r models bad =
    let a = attempt env.registry m t.body in
    rw (r, models)
      (fallback_loop_failed env.registry env.respond 0 t.model m (m' ∷ ms) t.body bad
        ∙ ap (λ cs. a.call ∷ cs)
            (fallback_loop_first env.registry env.respond 1 a.tried m' ms a.body_after))

-- The whitelist is checked for the first model of a fallback combo only. Let a key's whitelist admit
-- that one, and let the first call be answered with 500 or more: then the second call goes to the
-- second model of the combo, and this is so for a model that the whitelist does not admit, too.
pub fallback_skips_whitelist :
    (env : Env) (am : Keys) (info : GatewayKey) (body : Body) (combos : Option ComboRegistry)
    (t : Route) (m m' : Str) (ms : List Str)
    → env.keys ≡ some am
    → env.client_key ≢ []
    → lookup env.client_key am ≡ some info
    → route env body ≡ (combos, some t)
    → is_model_allowed info t.model ≡ true
    → retries env.accept t ≡ true
    → combo_models combos t.combo_name ≡ m ∷ m' ∷ ms
    → 500 ≤ env.respond 0 (attempt env.registry m t.body).call
    → (cs : List UpstreamCall) × (s : Option ℕ) × ((proxy_request env
          (codes "/v1/chat/completions")
          (object body)).outcome
        ≡ proxied
            ((attempt env.registry m t.body).call
              ∷ (attempt env.registry m' (attempt env.registry m t.body).body_after).call
              ∷ cs)
            s)
fallback_skips_whitelist env am info body combos t m m' ms ke ne found e ok r models bad =
    let a = attempt env.registry m t.body in
    let next = fallback_loop env.registry env.respond 1 a.tried (m' ∷ ms) a.body_after in
    (
      drop 1 next.calls,
      (run_route env combos t).status,
      ap (λ o. o.outcome) ((proxy_request_whitelist env am info body combos t ke ne found e).1 ok)
          ∙ ap (λ cs. proxied cs (run_route env combos t).status)
              (run_route_second env combos t m m' ms r models bad),
    )
