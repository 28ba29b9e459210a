-- ===== src/Session.antt =====
-- internal/auth/session_store.go: the sessions of the dashboard. Times are nanoseconds.
pub mod Table
pub mod Lifetime
mod Tests
use foxrouters.Prelude.{
  if◌then◌else◌, ltb, Str, str_eq, ℕ, ◌-◌, ◌*◌, Bool, Option, none, some, List, [], ◌∷◌,
}
use foxrouters.Prelude.Assoc.{insert, lookup, erase, Assoc}

pub record Session : Type 0 where
  pub key : Str
  pub created_at : ℕ
  pub last_seen : ℕ

abbrev pub SessionStore : Type 0
SessionStore = Assoc Session

-- Seven days.
abbrev pub session_ttl : ℕ
session_ttl = 7 * 24 * 3_600_000_000_000

-- Create; `token` is the new random token, or `none` if there is no randomness.
unfoldable pub create : Str → Option Str → ℕ → SessionStore → SessionStore × Option Str
create api_key none now s = (s, none)
create api_key (some token) now s =
    (insert token (record { key = api_key; created_at = now; last_seen = now }) s, some token)

unfoldable pub is_expired : ℕ → Session → Bool
is_expired now sess = ltb session_ttl (now - sess.created_at)

unfoldable pub look_found : ℕ → Str → SessionStore → Option Session → SessionStore × Str
look_found now token s none = (s, [])
look_found now token s (some sess) =
    if is_expired now sess
    then (erase token s, [])
    else (insert token (record sess { last_seen = now }) s, sess.key)

-- Lookup; an empty text for no session.
unfoldable pub look_up : ℕ → Str → SessionStore → SessionStore × Str
unfolding look_found
look_up now token s = if str_eq token [] then (s, []) else look_found now token s (lookup token s)

unfoldable pub revoke : Str → SessionStore → SessionStore
revoke token s = if str_eq token [] then s else erase token s

unfoldable pub cleanup : ℕ → SessionStore → SessionStore
cleanup now [] = []
cleanup now ((token, sess) ∷ s) =
    let rest = cleanup now s in if is_expired now sess then rest else (token, sess) ∷ rest

pub data Event : Type 0 where
  creates : Str → Option Str → ℕ → Event
  looks : ℕ → Str → Event
  revokes : Str → Event
  ticks : ℕ → Event

unfoldable pub step : Event → SessionStore → SessionStore
step (creates api_key token now) s = (create api_key token now s).0
step (looks now token) s = (look_up now token s).0
step (revokes token) s = revoke token s
step (ticks now) s = cleanup now s

unfoldable pub run : List Event → SessionStore → SessionStore
run [] s = s
run (e ∷ es) s = run es (step e s)
