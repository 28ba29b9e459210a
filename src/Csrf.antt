-- ===== src/Csrf.antt =====
-- csrf_guard.go: which requests of a browser the guard lets through.
pub mod Origins
mod Tests
use foxrouters.Prelude.{
  if◌then◌else◌, take, drop, str_eq, has_prefix, codes, Str, index, ℕ, ◌+◌, Bool, true, false, not,
  ◌&&◌, ◌||◌, Option, none, some, [],
}

-- What the guard reads of a request. A header that is not sent is empty.
pub record Request : Type 0 where
  pub method : Str
  pub has_cookie : Bool
  pub authorization : Str
  pub host : Str
  pub origin : Str
  pub referer : Str

abbrev pub after_scheme : Option ℕ → Str → Str
after_scheme none url = url
after_scheme (some i) url = drop (i + 3) url

abbrev pub before_path : Option ℕ → Str → Str
before_path none rest = rest
before_path (some i) rest = take i rest

unfoldable pub same_origin : Str → Str → Bool
same_origin origin_url host_port =
    let rest = after_scheme (index origin_url (codes "://")) origin_url in
    str_eq (before_path (index rest (codes "/")) rest) host_port

unfoldable pub is_safe_method : Str → Bool
is_safe_method method =
    str_eq method (codes "GET") || (str_eq method (codes "HEAD") || str_eq method (codes "OPTIONS"))

-- True if the next handler runs, false for a status of 403.
unfoldable pub csrf_guard : Request → Bool
csrf_guard req =
    if is_safe_method req.method
    then true
    else if not req.has_cookie
    then true
    else if has_prefix req.authorization (codes "Bearer ")
    then true
    else if str_eq req.origin [] && str_eq req.referer []
    then true
    else if not (str_eq req.origin [])
    then same_origin req.origin req.host
    else if not (str_eq req.referer []) && not (same_origin req.referer req.host)
    then false
    else true
