-- ===== src/Auth/Gate.antt =====
-- AuthMiddleware and AdminMiddleware of internal/auth/auth.go.
use foxrouters.Auth.{role_admin, mask_key, Keys}
use foxrouters.Auth.Manager.{valid, get}
use foxrouters.Prelude.{
  if◌then◌else◌, is_empty, contains, str_eq, codes, has_prefix, trim_prefix, Str, ℕ, Bool, true,
  false, not, ◌&&◌, ◌||◌, Option, none, some, [],
}

-- What the middlewares read of a request: a header that is not sent is empty, a cookie can be absent.
pub record Request : Type 0 where
  pub path : Str
  pub authorization : Str
  pub session_cookie : Option Str
  pub accept : Str

-- How a middleware ends: the next handler runs, with `client_key` and its mask set or not, or the
-- request ends with a status or with a redirect to /login; `cleared` says whether the session cookie
-- is cleared in the answer.
pub data Verdict : Type 0 where
  next : Verdict
  next_as : Str → Str → Verdict
  status : ℕ → Bool → Verdict
  login : Bool → Verdict

unfoldable pub is_public_path : Str → Bool
is_public_path path =
    str_eq path (codes "/health")
    || (str_eq path (codes "/")
        || (str_eq path (codes "/dashboard")
            || (str_eq path (codes "/login")
                || (str_eq path (codes "/logout") || str_eq path (codes "/metrics")))))

abbrev pub from_cookie : Option (Str → Str) → Str → Str
from_cookie none ck = ck
from_cookie (some look) ck = look ck

-- A cookie that is there and not empty.
abbrev pub cookie_key : Option (Str → Str) → Option Str → Str
cookie_key sl none = []
cookie_key sl (some ck) = if str_eq ck [] then [] else from_cookie sl ck

-- The key of a request: the bearer token, or what the session cookie stands for. `sl` is the lookup
-- of sessions, if there is one.
unfoldable pub request_key : Option (Str → Str) → Request → Str
request_key sl req =
    if has_prefix req.authorization (codes "Bearer ")
    then trim_prefix req.authorization (codes "Bearer ")
    else cookie_key sl req.session_cookie

abbrev pub is_some {ℓ} : {A : Type ℓ} → Option A → Bool
is_some none = false
is_some (some a) = true

unfoldable pub auth_middleware : Bool → Keys → Option (Str → Str) → Request → Verdict
auth_middleware auth_disabled am sl req =
    let key = request_key sl req in
    let html = contains req.accept (codes "text/html") in
    if is_public_path req.path
    then next
    else if auth_disabled
    then next
    else if is_empty am
    then status 503 false
    else if str_eq key []
    then (if html && not (has_prefix req.path (codes "/api/"))
        then login false
        else status 401 false)
    else if valid am key
    then next_as key (mask_key key)
    else if is_some req.session_cookie
    then (if html then login true else status 401 true)
    else status 401 false

-- `client_key` is what AuthMiddleware set, if it did.
unfoldable pub admin_middleware : Bool → Keys → Option Str → Verdict
admin_middleware auth_disabled am client_key = if auth_disabled then next else elim client_key [
  | none ↦ status 401 false
  | some key ↦ elim (get am key) [
    | none ↦ status 401 false
    | some info ↦ if str_eq info.role role_admin then next else status 403 false
  ]
]

-- What the first middleware leaves in the context for the second.
abbrev pub client_key : Verdict → Option Str
client_key (next_as key masked) = some key
client_key _ = none

abbrev pub goes_on : Verdict → Bool
goes_on next = true
goes_on (next_as key masked) = true
goes_on _ = false

-- The chain before an admin endpoint: AuthMiddleware, then AdminMiddleware if it let go on.
unfoldable pub admin_chain : Bool → Keys → Option (Str → Str) → Request → Bool
admin_chain auth_disabled am sl req =
    let v = auth_middleware auth_disabled am sl req in
    goes_on v && goes_on (admin_middleware auth_disabled am (client_key v))
