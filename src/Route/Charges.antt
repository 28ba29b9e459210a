-- ===== src/Route/Charges.antt =====
-- What a request to proxy.go costs the key that it came with.
use foxrouters.Route.{Route, UpstreamCall, Body}
use foxrouters.Auth.{Keys, GatewayKey, is_model_allowed}
use foxrouters.Route.Handler.{
  account, route, is_models_path, model_list, unreadable, object, status, too_large, bad_json,
  null_json, ReadBody, proxied, Outcome, proxy_request, panicked, finish, stopped, After,
  is_chat_path, Env, with_body,
}
use foxrouters.Route.Whitelist.{whitelisted_is}
use foxrouters.Auth.Manager.{increment_requests, spend, increment_tokens}
use foxrouters.Combo.{ComboRegistry}
use foxrouters.Prelude.Assoc.{lookup-insert_ne, lookup-insert_self, lookup, insert}
use foxrouters.Prelude.Int.{add_i64_exact, add_i64, pos}
use foxrouters.Prelude.{
  if_either, Bool-cases, if◌then◌else◌, Str, str_iff, ℕ, zero, suc, ◌+◌, ◌^◌, ◌<◌, ◌≡◌, refl, ◌≢◌,
  ◌⊎◌, inl, inr, true, Option, none, some, List, [], arith,
}

-- The entry of a key after a request that used n tokens, where it had used u tokens in r requests
-- before; the entries of all other keys are as they were.
pub record Charged (key : Str) (am am' : Keys) (u r n : ℕ) : Type 0 where
  after : GatewayKey
  found : lookup key am' ≡ some after
  tokens : after.tokens_used ≡ pos (u + n)
  requests : after.requests ≡ pos (r + 1)
  others : (other : Str) → key ≢ other → lookup other am' ≡ lookup other am

abbrev pub calls_of : Outcome → List UpstreamCall
calls_of model_list = []
calls_of (status s) = []
calls_of panicked = []
calls_of (proxied calls s) = calls

account-Charged :
    (am : Keys) (key : Str) (info : GatewayKey) (u r n : ℕ)
    → key ≢ []
    → lookup key am ≡ some info
    → info.tokens_used ≡ pos u
    → info.requests ≡ pos r
    → u + n < 2 ^ 63
    → r + 1 < 2 ^ 63
    → (am' : Keys) × (account (some am) key (pos n) ≡ some am') × Charged key am am' u r n
unfolding account increment_tokens increment_requests spend
account-Charged am key info u r zero ne q eu er bu br =
    let info' : GatewayKey = record info { requests = add_i64 info.requests (pos 1) } in
    (
      insert key info' am,
      ground (arith, str_iff key [], q),
      record {
        after = info';
        found = lookup-insert_self key info' am;
        tokens = ground (arith, eu);
        requests = rw er (add_i64_exact r 1 br);
        others = λ other d. lookup-insert_ne key other info' am d;
      },
    )
account-Charged am key info u r (suc n) ne q eu er bu br =
    let info' = spend (pos (suc n)) info in
    (
      insert key info' am,
      ground (arith, str_iff key [], q),
      record {
        after = info';
        found = lookup-insert_self key info' am;
        tokens = rw eu (add_i64_exact u (suc n) bu);
        requests = rw er (add_i64_exact r 1 br);
        others = λ other d. lookup-insert_ne key other info' am d;
      },
    )

-- No upstream was called and the table is as it was, or the whitelist of the key admits the model
-- that the body was routed to and the key was charged.
abbrev pub Settled : Env → Keys → GatewayKey → ℕ → ℕ → ℕ → ReadBody → After → Type 0
Settled env am info u r n read a =
    ((calls_of a.outcome ≡ []) × (a.keys ≡ some am))
    ⊎ ((body : Body) × (combos : Option ComboRegistry) × (t : Route) × (am' : Keys) × (read
          ≡ object body)
        × (route env body ≡ (combos, some t))
        × (is_model_allowed info t.model ≡ true)
        × (a.keys ≡ some am')
        × Charged env.client_key am am' u r n)

module _ (env : Env) (am : Keys) (info : GatewayKey) (u r n : ℕ) (ke : env.keys ≡ some am)
    (ne : env.client_key ≢ []) (q : lookup env.client_key am ≡ some info)
    (eu : info.tokens_used ≡ pos u) (er : info.requests ≡ pos r) (en : env.tokens ≡ pos n)
    (bu : u + n < 2 ^ 63) (br : r + 1 < 2 ^ 63) where
  object-Settled :
      (body : Body) (combos : Option ComboRegistry) (o : Option Route)
      → route env body ≡ (combos, o)
      → Settled env am info u r n (object body) (finish env combos o)
  unfolding finish
  object-Settled body combos none e = inl (refl, ke)
  object-Settled body combos (some t) e = elim (Bool-cases (is_model_allowed info t.model)) [
    | inl y ↦
        let (am', paid, c) = account-Charged am env.client_key info u r n ne q eu er bu br in
        rw (whitelisted_is env am info t.model ke ne q, y)
          (inr (body, combos, t, am', refl, e, y, rw (ke, en) paid, c))
    | inr m ↦ rw (whitelisted_is env am info t.model ke ne q, m) (inl (refl, ke))
  ]

  body-Settled : (read : ReadBody) → Settled env am info u r n read (with_body env read)
  unfolding with_body
  body-Settled too_large = inl (refl, ke)
  body-Settled unreadable = inl (refl, ke)
  body-Settled bad_json = inl (refl, ke)
  body-Settled null_json = inl (refl, ke)
  body-Settled (object body) = object-Settled body (route env body).0 (route env body).1 refl

  -- Let a request come with a key of the table that has used u tokens in r requests so far, and let
  -- the upstream report n tokens. Then, whatever the path and the body are, either no upstream is
  -- called and the table of keys stays as it was, or the body is an object whose model the whitelist
  -- of the key admits, and the key is charged exactly once: it has used u + n tokens in r + 1
  -- requests, and the entries of all other keys are as they were. (The int64 totals must not pass
  -- 2^63 - 1.)
  pub proxy_request_charges :
      (path : Str) (read : ReadBody) → Settled env am info u r n read (proxy_request env path read)
  unfolding proxy_request
  proxy_request_charges path read =
      if_either (λ a. Settled env am info u r n read a) (is_models_path path)
        (stopped env model_list)
        (if is_chat_path path then with_body env read else stopped env (status 404))
        (inl (refl, ke))
        (if_either (λ a. Settled env am info u r n read a) (is_chat_path path) (with_body env read)
          (stopped env (status 404)) (body-Settled read) (inl (refl, ke)))
