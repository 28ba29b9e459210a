-- ===== src/Pool.antt =====
-- internal/proxy/pool.go: the entries of the proxy pool and their validation. A nil pool is left to
-- the callers. Times are nanoseconds; the counts of failures stay far below 2^63.
pub mod Operations
pub mod Traffic
pub mod Valid
pub mod Invariant
pub mod Kept
pub mod InUse
pub mod Calls
pub mod Scope
pub mod Failures
pub mod Transports
pub mod Stale
pub mod Masking
mod Tests
use foxrouters.Prelude.{
  ltb, leb, if◌then◌else◌, nat_beq, any, length, all, keep, is_empty, codes, Str, str_eq, ℕ, Bool,
  false, not, ◌&&◌, ◌||◌, Option, none, some, List, [], ◌∷◌,
}
use foxrouters.Prelude.Int.{negsuc, pos, ℤ}
use foxrouters.Prelude.Assoc.{Assoc}
use foxrouters.Prelude.Space.{trim_space, to_lower}

-- `upstreams` is `none` for a nil slice.
pub record ProxyEntry : Type 0 where
  pub id : Str
  pub protocol : Str
  pub host : Str
  pub port : ℤ
  pub username : Str
  pub password : Str
  pub enabled : Bool
  pub label : Str
  pub upstreams : Option (List Str)
  pub created_at : ℕ
  pub last_used_at : ℕ
  pub fail_count : ℕ

abbrev pub proxy_fail_threshold : ℕ
proxy_fail_threshold = 5

abbrev pub upstream_all : Str
upstream_all = codes "all"

unfoldable pub is_valid_upstream : Str → Bool
is_valid_upstream u =
    str_eq u (codes "all") || (str_eq u (codes "grok") || str_eq u (codes "codebuddy"))

abbrev pub scopes_of : Option (List Str) → List Str
scopes_of none = []
scopes_of (some us) = us

unfoldable pub applies_to : ProxyEntry → Str → Bool
applies_to e upstream =
    is_empty (scopes_of e.upstreams)
    || any (λ u. str_eq u upstream_all || str_eq u upstream) (scopes_of e.upstreams)

unfoldable pub masked : ProxyEntry → ProxyEntry
masked e = if str_eq e.password [] then e else record e { password = codes "***" }

-- The loop of normaliseUpstreams, with `seen`.
unfoldable pub distinct_scopes : List Str → List Str → List Str
distinct_scopes seen [] = []
distinct_scopes seen (s ∷ ss) =
    let v = to_lower (trim_space s) in
    let skip = str_eq v [] || any (λ u. str_eq u v) seen in
    let out = distinct_scopes (if skip then seen else v ∷ seen) ss in if skip then out else v ∷ out

-- An empty result, or one with "all", is {"all"}.
unfoldable pub normalise_upstreams : Option (List Str) → List Str
normalise_upstreams us =
    let out = distinct_scopes [] (scopes_of us) in
    if is_empty out || any (λ v. str_eq v upstream_all) out then upstream_all ∷ [] else out

-- What validateEntry writes back into the entry.
unfoldable pub normalise : ProxyEntry → ProxyEntry
normalise e = record e {
  protocol = to_lower (trim_space e.protocol);
  host = trim_space e.host;
  label = trim_space e.label;
  username = trim_space e.username;
  upstreams = some (normalise_upstreams e.upstreams);
}

pub data PoolError : Type 0 where
  bad_upstream : PoolError
  bad_protocol : PoolError
  host_required : PoolError
  host_too_long : PoolError
  host_invalid : PoolError
  bad_port : PoolError
  label_too_long : PoolError
  credentials_too_long : PoolError
  no_random : PoolError
  redis_failed : PoolError
  id_required : PoolError
  not_found : PoolError

-- A space, a tab, a carriage return, a line feed, a slash or a backslash.
unfoldable pub is_structural : ℕ → Bool
is_structural c =
    nat_beq c 32
    || (nat_beq c 9 || (nat_beq c 13 || (nat_beq c 10 || (nat_beq c 47 || nat_beq c 92))))

unfoldable pub is_port : ℤ → Bool
is_port (pos n) = leb 1 n && leb n 65535
is_port (negsuc n) = false

-- The checks of validateEntry, on the normalised entry.
unfoldable pub check_entry : ProxyEntry → Option PoolError
check_entry e =
    if not (all is_valid_upstream (scopes_of e.upstreams))
    then some bad_upstream
    else if not (str_eq e.protocol (codes "http") || str_eq e.protocol (codes "socks5"))
    then some bad_protocol
    else if str_eq e.host []
    then some host_required
    else if ltb 253 (length e.host)
    then some host_too_long
    else if any is_structural e.host
    then some host_invalid
    else if not (is_port e.port)
    then some bad_port
    else if ltb 64 (length e.label)
    then some label_too_long
    else if ltb 256 (length e.username) || ltb 256 (length e.password)
    then some credentials_too_long
    else none

unfoldable pub validate_entry : ProxyEntry → ProxyEntry × Option PoolError
validate_entry e = (normalise e, check_entry (normalise e))

-- The pool. A cached transport stands by the entry that it was built from.
pub record ProxyPool : Type 0 where
  pub store : Bool
  pub entries : List ProxyEntry
  pub enabled : List ProxyEntry
  pub rr_index : ℕ
  pub transports : Assoc ProxyEntry

unfoldable pub new_proxy_pool : Bool → ProxyPool
new_proxy_pool store = record {
  store = store;
  entries = [];
  enabled = [];
  rr_index = 0;
  transports = [];
}

abbrev pub is_enabled : ProxyEntry → Bool
is_enabled e = e.enabled

unfoldable pub rebuild_enabled : ProxyPool → ProxyPool
rebuild_enabled p = record p { enabled = keep is_enabled p.entries }

-- The first entry with an id, and a write to it.
unfoldable pub find_entry : Str → List ProxyEntry → Option ProxyEntry
find_entry id [] = none
find_entry id (e ∷ es) = let rest = find_entry id es in if str_eq e.id id then some e else rest

unfoldable pub set_entry : Str → ProxyEntry → List ProxyEntry → List ProxyEntry
set_entry id new [] = []
set_entry id new (e ∷ es) =
    let rest = set_entry id new es in if str_eq e.id id then new ∷ es else e ∷ rest
