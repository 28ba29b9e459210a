-- ===== src/Route/Tests.antt =====
-- A run of the handler through a fallback combo, and the theorems at that run.
use foxrouters.Route.Retry.{Chain, run_route-Chain}
use foxrouters.Route.Whitelist.{fallback_skips_whitelist}
use foxrouters.Route.{
  fallback_loop, to_codebuddy, add_effort, resolve_custom, text, attempt, set_model, Route, expand,
  dispatch, UpstreamCall, apply_custom, alias_of, start, apply_combo, to_grok, expand_grok_alias,
  take_combo, Body, other, is_grok_model,
}
use foxrouters.Route.Handler.{
  client_stream, route, retries, proxy_request, Env, run_route, proxied, object,
}
use foxrouters.Combo.{get_combo, Combo, ComboRegistry, resolve}
use foxrouters.Auth.{is_model_allowed, Keys, GatewayKey, match_model, role_inference}
use foxrouters.Prelude.{
  nat_beq, if◌then◌else◌, str_eq, codes, trim_suffix, Str, has_prefix, has_suffix, trim_prefix, ℕ,
  ◌≡◌, refl, ◌≢◌, false, Option, none, some, List, [], ◌∷◌, arith,
}
use foxrouters.Prelude.Int.{pos}
use foxrouters.Prelude.Assoc.{lookup, insert}
use foxrouters.Route.Charges.{proxy_request_charges, Settled}
use foxrouters.Combo

abbrev team : Combo
team = record {
  name = codes "team";
  strategy = codes "fallback";
  models = codes "grok-4.5-high" ∷ codes "cb/gpt-5" ∷ [];
  description = [];
}

abbrev registry : ComboRegistry
registry = record { combos = (codes "team", team) ∷ []; store = false; fallback_seq = [] }

-- A key that may use the models of Grok.
abbrev grok_key : GatewayKey
grok_key = record {
  key = codes "gw-1";
  key_masked = codes "gw-1";
  name = codes "one";
  role = role_inference;
  allowed_models = codes "grok-*" ∷ [];
  rpm = pos 0;
  burst = pos 0;
  token_quota = pos 0;
  tokens_used = pos 0;
  requests = pos 0;
  created_at = 0;
  disabled = false;
}

abbrev table : Keys
table = (codes "gw-1", grok_key) ∷ []

abbrev env : Env
env = record {
  registry = none;
  combos = some registry;
  keys = some table;
  client_key = codes "gw-1";
  accept = [];
  incr = none;
  respond = λ n c. if nat_beq n 0 then 502 else 200;
  tokens = pos 9;
}

abbrev asked : Body
asked = (codes "model", text (codes "combo/team")) ∷ (codes "seed", other 4) ∷ []

abbrev with_effort : Body
with_effort =
    (codes "model", text (codes "grok-4.5"))
    ∷ (codes "seed", other 4)
    ∷ (codes "reasoning_effort", text (codes "high"))
    ∷ []

abbrev routed : Route
routed = record {
  model = codes "grok-4.5";
  body = with_effort;
  custom_upstream = [];
  custom_model_name = [];
  combo_name = codes "team";
  combo_strategy = codes "fallback";
}

routed_lem : route env asked ≡ (some registry, some routed)
unfolding route start apply_custom apply_combo take_combo expand alias_of expand_grok_alias
    add_effort Combo.resolve has_prefix trim_prefix lookup insert str_eq get_combo
routed_lem = refl

-- The second call goes to CodeBuddy, although the key may use Grok only.
calls_lem :
    (run_route env (some registry) routed).calls
    ≡ to_grok with_effort (codes "grok-4.5")
      ∷ to_codebuddy
          (set_model (codes "cb/gpt-5") with_effort)
          (set_model (codes "cb/gpt-5") with_effort)
      ∷ []
unfolding run_route retries client_stream fallback_loop attempt dispatch resolve_custom alias_of
    expand_grok_alias add_effort is_grok_model has_prefix lookup insert str_eq get_combo
calls_lem = refl

not_allowed : is_model_allowed grok_key (codes "cb/gpt-5") ≡ false
unfolding is_model_allowed match_model has_suffix trim_suffix has_prefix str_eq
not_allowed = refl

run_route-Chain_example :
    (s : ℕ) × ((run_route env (some registry) routed).status ≡ some s)
    × Chain env.registry env.respond 0
        (codes "grok-4.5-high" ∷ codes "cb/gpt-5" ∷ [])
        (run_route env (some registry) routed).calls
        s
unfolding retries client_stream lookup str_eq get_combo
run_route-Chain_example =
    run_route-Chain env (some registry) routed (codes "grok-4.5-high") (codes "cb/gpt-5" ∷ []) refl
      refl

key_set : ◌≢◌ {A = Str} (codes "gw-1") []
key_set e = ground arith

proxy_request_charges_example :
    Settled env table grok_key 0 0 9
      (object asked)
      (proxy_request env (codes "/v1/chat/completions") (object asked))
unfolding lookup str_eq
proxy_request_charges_example =
    proxy_request_charges env table grok_key 0 0 9 refl key_set refl refl refl refl (omega arith)
      (omega arith) (codes "/v1/chat/completions") (object asked)

fallback_skips_whitelist_example :
    (cs : List UpstreamCall) × (s : Option ℕ) × ((proxy_request env
        (codes "/v1/chat/completions")
        (object asked)).outcome
      ≡ proxied
          ((attempt none (codes "grok-4.5-high") with_effort).call
            ∷ (attempt none
                (codes "cb/gpt-5")
                (attempt none (codes "grok-4.5-high") with_effort).body_after).call
            ∷ cs)
          s)
unfolding lookup str_eq retries client_stream get_combo is_model_allowed match_model has_suffix
    trim_suffix has_prefix
fallback_skips_whitelist_example =
    fallback_skips_whitelist env table grok_key asked (some registry) routed (codes "grok-4.5-high")
      (codes "cb/gpt-5") [] refl key_set refl routed_lem refl refl refl (omega arith)

abbrev plain_route : Route
plain_route = record routed { body = asked }
