-- ===== src/Login/Tests.antt =====
-- Seven attempts within a minute, and the theorems at them.
use foxrouters.Login.Limits.{at_most_five, Within}
use foxrouters.Login.{
  stamp, attempt, Event, run, trim, middleware, trim_before, new_login_limiter, admit, cleanup,
  one_minute, one_hour, tick,
}
use foxrouters.Prelude.{All, codes, Str, ℕ, ◌*◌, ◌≤◌, ◌≡◌, refl, List, [], ◌∷◌, arith, str_eq}
use foxrouters.Prelude.Assoc.{lookup, insert}

abbrev address : Str
address = codes "10.0.0.1"

-- An attempt of the address at second `n`.
abbrev at_second : ℕ → Event
at_second n = attempt (n * 1_000_000_000) address

abbrev history : List Event
history = at_second 1 ∷ at_second 2 ∷ tick 3_000_000_000 ∷ []

abbrev burst : List Event
burst =
    at_second 10
    ∷ at_second 11
    ∷ attempt 12_000_000_000 (codes "10.0.0.2")
    ∷ at_second 13
    ∷ tick 14_000_000_000
    ∷ at_second 15
    ∷ []

-- Three of the four are let in: two of the history still count.
three_in : (run address burst (run address history new_login_limiter).0).1 ≡ 3
unfolding run trim_before trim stamp admit middleware cleanup lookup insert str_eq
three_in = refl

burst-Within : All (Within 10_000_000_000 one_minute) burst
burst-Within = (
  (omega arith, omega arith),
  (
    (omega arith, omega arith),
    (
      (omega arith, omega arith),
      ((omega arith, omega arith), ((omega arith, omega arith), ((omega arith, omega arith), tt))),
    ),
  ),
)

burst_hour : All (Within 10_000_000_000 one_hour) burst
burst_hour = (
  (omega arith, omega arith),
  (
    (omega arith, omega arith),
    (
      (omega arith, omega arith),
      ((omega arith, omega arith), ((omega arith, omega arith), ((omega arith, omega arith), tt))),
    ),
  ),
)

at_most_five_example : (run address burst (run address history new_login_limiter).0).1 ≤ 5
at_most_five_example = at_most_five 10_000_000_000 address history burst burst-Within
