-- ===== src/Session/Tests.antt =====
-- A session that is looked up on its last day, and the theorem at it.
use foxrouters.Session.Lifetime.{look_up_lifetime, Quiet}
use foxrouters.Session.{
  creates, ticks, create, cleanup, is_expired, step, Event, looks, run, session_ttl, look_found,
  look_up,
}
use foxrouters.Prelude.{
  ltb, if◌then◌else◌, All, Str, codes, str_eq, ℕ, ◌+◌, ◌-◌, ◌*◌, ◌≡◌, refl, ◌≢◌, some, List, [],
  ◌∷◌, arith, str_iff,
}
use foxrouters.Prelude.Assoc.{lookup, insert}

abbrev token : Str
token = codes "5e55"

abbrev day : ℕ
day = 24 * 3_600_000_000_000

abbrev week : List Event
week =
    looks (6 * day) token
    ∷ creates (codes "other") (some (codes "ab12")) (6 * day)
    ∷ ticks (7 * day)
    ∷ []

not_empty : token ≢ []
not_empty q = cc

other_token : codes "ab12" ≢ token
unfolding str_eq
other_token q = let e = (str_iff (codes "ab12") token).1 q in cc

week-Quiet : All (Quiet token (7 * day + 1)) week
week-Quiet = (omega arith, (other_token, (omega arith, tt)))

look_up_lifetime_example :
    (look_up (7 * day + 1) token (run week (create (codes "gw-1") (some token) 0 []).0)).1
    ≡ (if ltb session_ttl (7 * day + 1 - 0) then [] else codes "gw-1")
look_up_lifetime_example =
    look_up_lifetime token (codes "gw-1") 0 (7 * day + 1) week [] not_empty tt week-Quiet

-- A nanosecond earlier the session still stands.
last_look :
    (look_up (7 * day) token (run week (create (codes "gw-1") (some token) 0 []).0)).1
    ≡ codes "gw-1"
unfolding look_up look_found run step create cleanup is_expired lookup insert str_eq
last_look = refl
