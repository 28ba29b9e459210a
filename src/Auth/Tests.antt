-- ===== src/Auth/Tests.antt =====
-- Runs of the gateway's authentication, and the theorems at concrete inputs.
use foxrouters.Auth.Glob.{Admits, match_model-Admits}
use foxrouters.Auth.Access.{may_pass, auth_middleware-may_pass, admin_chain_sound}
use foxrouters.Auth.Quota.{spend_all, quota_enforced}
use foxrouters.Auth.{GatewayKey, mask_key, role_admin, match_model, Keys}
use foxrouters.Auth.Manager.{valid, get}
use foxrouters.Auth.Gate.{
  next_as, client_key, Request, admin_chain, admin_middleware, auth_middleware, goes_on, login,
  request_key, is_public_path,
}
use foxrouters.Prelude.{
  Str, trim_prefix, has_prefix, contains, str_eq, codes, ◌≡◌, refl, ◌↔◌, true, false, none, some,
  [], ◌∷◌, arith,
}
use foxrouters.Prelude.Int.{pos}
use foxrouters.Prelude.Assoc.{lookup}

abbrev boss : GatewayKey
boss = record {
  key = codes "gw-boss";
  key_masked = codes "gw-boss";
  name = codes "boss";
  role = role_admin;
  allowed_models = [];
  rpm = pos 0;
  burst = pos 0;
  token_quota = pos 100;
  tokens_used = pos 40;
  requests = pos 1;
  created_at = 7;
  disabled = false;
}

abbrev table : Keys
table = (codes "gw-boss", boss) ∷ []

abbrev by_bearer : Request
by_bearer = record {
  path = codes "/api/keys";
  authorization = codes "Bearer gw-boss";
  session_cookie = none;
  accept = codes "*/*";
}

abbrev by_browser : Request
by_browser = record by_bearer {
  authorization = [];
  session_cookie = some (codes "stale");
  accept = codes "text/html";
}

bearer_passes :
    auth_middleware false table none by_bearer ≡ next_as (codes "gw-boss") (codes "gw-boss")
unfolding auth_middleware is_public_path request_key valid lookup str_eq has_prefix trim_prefix
    contains mask_key
bearer_passes = refl

stale_session : auth_middleware false table (some (λ t. codes "gw-old")) by_browser ≡ login true
unfolding auth_middleware is_public_path request_key valid lookup str_eq has_prefix trim_prefix
    contains mask_key
stale_session = refl

mask_long : mask_key (codes "gw-abcdefghijkl") ≡ codes "gw-abcde...ijkl"
unfolding mask_key
mask_long = refl

match_model-Admits_example :
    (match_model (codes "cb/*") (codes "cb/gpt-5") ≡ true)
    ↔ Admits (codes "cb/*") (codes "cb/gpt-5")
match_model-Admits_example = match_model-Admits (codes "cb/*") (codes "cb/gpt-5")

auth_middleware-may_pass_example :
    (goes_on (auth_middleware false table none by_bearer) ≡ may_pass false table none by_bearer)
    × ((key : Str)
        → client_key (auth_middleware false table none by_bearer) ≡ some key
        → (key ≡ request_key none by_bearer) × (valid table key ≡ true))
auth_middleware-may_pass_example = auth_middleware-may_pass false table none by_bearer

admin_chain_sound_example :
    (info : GatewayKey) × (lookup (request_key none by_bearer) table ≡ some info)
    × (info.role ≡ role_admin)
    × (info.disabled ≡ false)
unfolding admin_chain auth_middleware admin_middleware get is_public_path request_key valid lookup
    str_eq has_prefix trim_prefix contains mask_key
admin_chain_sound_example = admin_chain_sound table none by_bearer refl refl

quota_enforced_example :
    valid (spend_all table (codes "gw-boss") (30 ∷ 50 ∷ [])) (codes "gw-boss") ≡ false
unfolding lookup str_eq
quota_enforced_example =
    quota_enforced table (codes "gw-boss") boss 40 100 (30 ∷ 50 ∷ []) refl refl refl (omega arith)
      (omega arith) (omega arith)
