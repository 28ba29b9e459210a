-- ===== src/Login.antt =====
-- login_limiter.go: how often an address may try to log in. Times are nanoseconds; that `t` is after
-- `now - span` is `now < t + span`.
pub mod Windows
pub mod Bounds
pub mod Limits
mod Tests
use foxrouters.Prelude.{
  ltb, if◌then◌else◌, leb, is_empty, length, Str, str_eq, ℕ, ◌+◌, Bool, true, false, ◌&&◌, Option,
  none, some, List, [], ◌∷◌, ◌++◌,
}
use foxrouters.Prelude.Assoc.{lookup, Assoc, insert}

pub record LoginEntry : Type 0 where
  pub minute_window : List ℕ
  pub hour_window : List ℕ

abbrev pub LoginLimiter : Type 0
LoginLimiter = Assoc LoginEntry

abbrev pub new_login_limiter : LoginLimiter
new_login_limiter = []

abbrev pub one_minute : ℕ
one_minute = 60_000_000_000

abbrev pub one_hour : ℕ
one_hour = 3_600_000_000_000

unfoldable pub trim_before : ℕ → ℕ → List ℕ → List ℕ
trim_before now span [] = []
trim_before now span (t ∷ times) =
    let out = trim_before now span times in if ltb now (t + span) then t ∷ out else out

abbrev pub entry_or_new : Option LoginEntry → LoginEntry
entry_or_new none = record { minute_window = []; hour_window = [] }
entry_or_new (some e) = e

unfoldable pub trim : ℕ → LoginEntry → LoginEntry
trim now e = record {
  minute_window = trim_before now one_minute e.minute_window;
  hour_window = trim_before now one_hour e.hour_window;
}

-- `append(e.minuteWindow, now)`, and the same for the hour.
unfoldable pub stamp : ℕ → LoginEntry → LoginEntry
stamp now e = record {
  minute_window = e.minute_window ++ (now ∷ []);
  hour_window = e.hour_window ++ (now ∷ []);
}

pub data LoginVerdict : Type 0 where
  let_in : LoginVerdict
  minute_limit : LoginVerdict
  hour_limit : LoginVerdict

-- The check of the limits and the record of the attempt, on the trimmed entry.
unfoldable pub admit : ℕ → LoginEntry → LoginEntry × LoginVerdict
admit now e =
    if leb 5 (length e.minute_window)
    then (e, minute_limit)
    else if leb 20 (length e.hour_window)
    then (e, hour_limit)
    else (stamp now e, let_in)

unfoldable pub middleware : ℕ → Str → LoginLimiter → LoginLimiter × LoginVerdict
middleware now ip l =
    let (e, verdict) = admit now (trim now (entry_or_new (lookup ip l))) in (insert ip e l, verdict)

unfoldable pub cleanup : ℕ → LoginLimiter → LoginLimiter
cleanup now [] = []
cleanup now ((ip, e) ∷ l) =
    let rest = cleanup now l in
    let e' = trim now e in if is_empty e'.hour_window then rest else (ip, e') ∷ rest

pub data Event : Type 0 where
  attempt : ℕ → Str → Event
  tick : ℕ → Event

abbrev pub is_let_in : LoginVerdict → Bool
is_let_in let_in = true
is_let_in minute_limit = false
is_let_in hour_limit = false

-- A step, with the number of attempts of `ip` that it lets in.
unfoldable pub step : Str → Event → LoginLimiter → LoginLimiter × ℕ
step ip (attempt now who) l =
    let (l', verdict) = middleware now who l in
    (l', if str_eq who ip && is_let_in verdict then 1 else 0)
step ip (tick now) l = (cleanup now l, 0)

unfoldable pub run : Str → List Event → LoginLimiter → LoginLimiter × ℕ
unfolding step
run ip [] l = (l, 0)
run ip (e ∷ es) l = let (l', n) = step ip e l in let (last, m) = run ip es l' in (last, n + m)
