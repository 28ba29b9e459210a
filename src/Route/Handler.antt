-- ===== src/Route/Handler.antt =====
-- ProxyRequest of internal/proxy/proxy.go, from the path to the accounting of tokens. The metrics and
-- the rows for the log are left out.
use foxrouters.Route.{
  expand, start, Route, dispatch, fallback_loop, Body, apply_custom, Retried, is_true, apply_combo,
  UpstreamCall,
}
use foxrouters.Auth.{Keys, GatewayKey, is_model_allowed}
use foxrouters.Auth.Manager.{increment_requests, get, increment_tokens}
use foxrouters.Combo.{ComboRegistry, Combo, get_combo}
use foxrouters.Custom.{CustomRegistry}
use foxrouters.Prelude.{
  if◌then◌else◌, str_eq, codes, Str, ℕ, Bool, true, not, ◌&&◌, ◌||◌, Option, none, some, List, [],
  ◌∷◌,
}
use foxrouters.Prelude.Int.{ℤ, is_positive}
use foxrouters.Prelude.Assoc.{lookup}

-- What the reading of the body gives: a body that is too large, an error, no JSON object, the JSON
-- value null, which leaves the map nil, or an object.
pub data ReadBody : Type 0 where
  too_large : ReadBody
  unreadable : ReadBody
  bad_json : ReadBody
  null_json : ReadBody
  object : Body → ReadBody

-- What the handler answers: the list of models, a status of its own, a panic, or what the upstreams
-- were asked and which status came back.
pub data Outcome : Type 0 where
  model_list : Outcome
  status : ℕ → Outcome
  panicked : Outcome
  proxied : List UpstreamCall → Option ℕ → Outcome

-- What surrounds a request: the registries, the table of keys, and the answers of Redis and of the
-- upstreams. `client_key` is empty if the key was not set; `tokens` is what the upstream reported.
pub record Env : Type 0 where
  pub registry : Option CustomRegistry
  pub combos : Option ComboRegistry
  pub keys : Option Keys
  pub client_key : Str
  pub accept : Str
  pub incr : Option ℤ
  pub respond : ℕ → UpstreamCall → ℕ
  pub tokens : ℤ

pub record After : Type 0 where
  pub outcome : Outcome
  pub combos : Option ComboRegistry
  pub keys : Option Keys

abbrev pub allowed_by : Option GatewayKey → Str → Bool
allowed_by none model = true
allowed_by (some info) model = is_model_allowed info model

-- The check of the whitelist.
unfoldable pub whitelisted : Option Keys → Str → Str → Bool
whitelisted none client_key model = true
whitelisted (some am) client_key model =
    if str_eq client_key [] then true else allowed_by (get am client_key) model

unfoldable pub client_stream : Str → Body → Bool
client_stream accept body =
    is_true (lookup (codes "stream") body) || str_eq accept (codes "text/event-stream")

abbrev pub models_of : Option Combo → List Str
models_of none = []
models_of (some c) = c.models

abbrev pub combo_models : Option ComboRegistry → Str → List Str
combo_models none name = []
combo_models (some combos) name = models_of (get_combo combos name)

-- The retry chain runs for a fallback combo and a client that does not stream.
unfoldable pub retries : Str → Route → Bool
retries accept t =
    not (str_eq t.combo_name [])
    && (str_eq t.combo_strategy (codes "fallback") && not (client_stream accept t.body))

-- The calls of a route that has passed the whitelist, and the status of the answer.
unfoldable pub run_route : Env → Option ComboRegistry → Route → Retried
run_route env combos t =
    if retries env.accept t
    then fallback_loop env.registry env.respond 0 t.model (combo_models combos t.combo_name) t.body
    else (let (call, after) =
          dispatch t.custom_upstream t.custom_model_name t.model t.body t.body in
        record { calls = call ∷ []; status = some (env.respond 0 call); model = t.model })

unfoldable pub account : Option Keys → Str → ℤ → Option Keys
account none client_key tokens = none
account (some am) client_key tokens =
    if str_eq client_key []
    then some am
    else if is_positive tokens
    then some (increment_tokens am client_key tokens)
    else some (increment_requests am client_key)

-- The route of a body, up to the whitelist; `none` for an index out of range.
unfoldable pub route : Env → Body → Option ComboRegistry × Option Route
route env body =
    let (combos, t) =
      apply_combo env.registry env.combos env.incr (apply_custom env.registry (start body)) in
    (combos, elim t [ none ↦ none | some u ↦ some (expand u) ])

unfoldable pub finish : Env → Option ComboRegistry → Option Route → After
finish env combos none = record { outcome = panicked; combos = combos; keys = env.keys }
finish env combos (some t) =
    if whitelisted env.keys env.client_key t.model
    then (let r = run_route env combos t in
        record {
          outcome = proxied r.calls r.status;
          combos = combos;
          keys = account env.keys env.client_key env.tokens;
        })
    else record { outcome = status 403; combos = combos; keys = env.keys }

abbrev pub stopped : Env → Outcome → After
stopped env o = record { outcome = o; combos = env.combos; keys = env.keys }

unfoldable pub with_body : Env → ReadBody → After
unfolding finish
with_body env too_large = stopped env (status 413)
with_body env unreadable = stopped env (status 400)
with_body env bad_json = stopped env (status 400)
with_body env null_json = stopped env panicked
with_body env (object body) = let (combos, t) = route env body in finish env combos t

unfoldable pub is_models_path : Str → Bool
is_models_path path = str_eq path (codes "/v1/models") || str_eq path (codes "/models")

unfoldable pub is_chat_path : Str → Bool
is_chat_path path =
    str_eq path (codes "/v1/chat/completions") || str_eq path (codes "/chat/completions")

unfoldable pub proxy_request : Env → Str → ReadBody → After
unfolding with_body
proxy_request env path read =
    if is_models_path path
    then stopped env model_list
    else if is_chat_path path
    then with_body env read
    else stopped env (status 404)
