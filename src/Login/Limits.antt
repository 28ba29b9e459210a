-- ===== src/Login/Limits.antt =====
-- How many attempts of one address are let in within a minute and within an hour.
use foxrouters.Login.{
  is_let_in, admit, attempt, LoginEntry, trim_before, one_hour, one_minute, trim, tick, stamp,
  Event, entry_or_new, LoginLimiter, middleware, step, new_login_limiter, run,
}
use foxrouters.Login.Windows.{recent, recent-append, recent_kept, recent_le, Nested}
use foxrouters.Login.Bounds.{
  survives, IsLimiter, lookup-cleanup, lookup-Nested, middleware-IsLimiter, run-IsLimiter,
  cleanup-IsLimiter,
}
use foxrouters.Prelude.{
  if◌then◌else◌, ℕ, ◌+◌, ◌≤◌, ◌<◌, ◌≡◌, refl, inl, inr, Option, none, some, arith, Bool-cases,
  is_empty, str_iff, Str, str_eq, true, List, [], ◌∷◌, All, ◌⊎◌,
}
use foxrouters.Prelude.Assoc.{lookup, lookup-insert_self, lookup-insert}

-- The attempts of an address at or after `t`, as its two windows count them.
pub minutes : ℕ → Option LoginEntry → ℕ
minutes t o = recent t (entry_or_new o).minute_window

pub hours : ℕ → Option LoginEntry → ℕ
hours t o = recent t (entry_or_new o).hour_window

-- A step that lets `n` attempts in adds them to a count, which was below the limit.
pub record Counts (limit before n after : ℕ) : Type 0 where
  pub added : after ≡ before + n
  pub at_most_one : n ≤ 1
  pub in_limit : n ≡ 1 → before < limit

abbrev pub Within : ℕ → ℕ → Event → Type 0
Within t span (attempt now who) = (t ≤ now) × (now < t + span)
Within t span (tick now) = (t ≤ now) × (now < t + span)

admit_hours :
    (t now : ℕ) (e : LoginEntry)
    → t ≤ now
    → now < t + one_hour
    → Counts 20
        (recent t e.hour_window)
        (if is_let_in (admit now (trim now e)).1 then 1 else 0)
        (recent t (admit now (trim now e)).0.hour_window)
unfolding admit trim stamp
admit_hours t now e a b =
    let same = recent_kept t now one_hour e.hour_window b in
    let below = recent_le t (trim_before now one_hour e.hour_window) in
    let grows = recent-append t now (trim_before now one_hour e.hour_window) a in
    record { added = ground arith; at_most_one = ground arith; in_limit = λ n. ground arith }

admit_minutes :
    (t now : ℕ) (e : LoginEntry)
    → t ≤ now
    → now < t + one_minute
    → Counts 5
        (recent t e.minute_window)
        (if is_let_in (admit now (trim now e)).1 then 1 else 0)
        (recent t (admit now (trim now e)).0.minute_window)
unfolding admit trim stamp
admit_minutes t now e a b =
    let same = recent_kept t now one_minute e.minute_window b in
    let below = recent_le t (trim_before now one_minute e.minute_window) in
    let grows = recent-append t now (trim_before now one_minute e.minute_window) a in
    record { added = ground arith; at_most_one = ground arith; in_limit = λ n. ground arith }

still : (limit n : ℕ) → Counts limit n 0 n
still limit n = record {
  added = omega arith;
  at_most_one = omega arith;
  in_limit = λ e. omega arith;
}

empty_recent : (t : ℕ) (w : List ℕ) → is_empty w ≡ true → recent t w ≡ 0
unfolding recent
empty_recent t [] h = refl
empty_recent t (x ∷ w) h = cc

hours-survives :
    (t now : ℕ) (o : Option LoginEntry) → now < t + one_hour → hours t (survives now o) ≡ hours t o
unfolding survives hours trim recent
hours-survives t now none b = refl
hours-survives t now (some e) b =
    let same = recent_kept t now one_hour e.hour_window b in
    ground (arith, empty_recent t (trim_before now one_hour e.hour_window))

minutes-survives :
    (t now : ℕ) (o : Option LoginEntry)
    → now < t + one_minute
    → Nested (entry_or_new o)
    → minutes t (survives now o) ≡ minutes t o
unfolding survives minutes trim recent
minutes-survives t now none b h = refl
minutes-survives t now (some e) b h =
    let same = recent_kept t now one_minute e.minute_window b in
    let same_hour = recent_kept t now one_hour e.hour_window (omega arith) in
    let below = h t in ground (arith, empty_recent t (trim_before now one_hour e.hour_window))

step-hours :
    (t : ℕ) (ip : Str) (e : Event) (l : LoginLimiter)
    → IsLimiter l
    → Within t one_hour e
    → Counts 20 (hours t (lookup ip l)) (step ip e l).1 (hours t (lookup ip (step ip e l).0))
unfolding step middleware hours
step-hours t ip (attempt now who) l s b =
    let e = entry_or_new (lookup ip l) in
    elim (Bool-cases (str_eq who ip)) [
      | inl q ↦
          let same : who ≡ ip = (str_iff who ip).0 q in
          rw (same, (str_iff ip ip).1 refl, lookup-insert_self ip (admit now (trim now e)).0 l)
            (admit_hours t now e b.0 b.1)
      | inr q ↦
          rw (q, lookup-insert who ip (admit now (trim now (entry_or_new (lookup who l)))).0 l, q)
            (still 20 (hours t (lookup ip l)))
    ]
step-hours t ip (tick now) l s b =
    rw (lookup-cleanup now ip l s.distinct, hours-survives t now (lookup ip l) b.1)
      (still 20 (hours t (lookup ip l)))

step-minutes :
    (t : ℕ) (ip : Str) (e : Event) (l : LoginLimiter)
    → IsLimiter l
    → Within t one_minute e
    → Counts 5 (minutes t (lookup ip l)) (step ip e l).1 (minutes t (lookup ip (step ip e l).0))
unfolding step middleware minutes
step-minutes t ip (attempt now who) l s b =
    let e = entry_or_new (lookup ip l) in
    elim (Bool-cases (str_eq who ip)) [
      | inl q ↦
          let same : who ≡ ip = (str_iff who ip).0 q in
          rw (same, (str_iff ip ip).1 refl, lookup-insert_self ip (admit now (trim now e)).0 l)
            (admit_minutes t now e b.0 b.1)
      | inr q ↦
          rw (q, lookup-insert who ip (admit now (trim now (entry_or_new (lookup who l)))).0 l, q)
            (still 5 (minutes t (lookup ip l)))
    ]
step-minutes t ip (tick now) l s b =
    rw
      (
        lookup-cleanup now ip l s.distinct,
        minutes-survives t now (lookup ip l) b.1 (lookup-Nested ip l s.nested),
      )
      (still 5 (minutes t (lookup ip l)))

step-IsLimiter : (ip : Str) (e : Event) (l : LoginLimiter) → IsLimiter l → IsLimiter (step ip e l).0
unfolding step
step-IsLimiter ip (attempt now who) l s = middleware-IsLimiter now who l s
step-IsLimiter ip (tick now) l s = cleanup-IsLimiter now l s

-- Nothing was let in, or what was let in fits above the count of the start.
run-hours :
    (t : ℕ) (ip : Str) (es : List Event) (l : LoginLimiter)
    → IsLimiter l
    → All (Within t one_hour) es
    → ((run ip es l).1 ≡ 0) ⊎ (hours t (lookup ip l) + (run ip es l).1 ≤ 20)
unfolding run
run-hours t ip [] l s b = inl refl
run-hours t ip (e ∷ es) l s b =
    let c = step-hours t ip e l s b.0 in
    let rest = run-hours t ip es (step ip e l).0 (step-IsLimiter ip e l s) b.1 in
    let a = c.added in let m = c.at_most_one in let i = c.in_limit in ground arith

run-minutes :
    (t : ℕ) (ip : Str) (es : List Event) (l : LoginLimiter)
    → IsLimiter l
    → All (Within t one_minute) es
    → ((run ip es l).1 ≡ 0) ⊎ (minutes t (lookup ip l) + (run ip es l).1 ≤ 5)
unfolding run
run-minutes t ip [] l s b = inl refl
run-minutes t ip (e ∷ es) l s b =
    let c = step-minutes t ip e l s b.0 in
    let rest = run-minutes t ip es (step ip e l).0 (step-IsLimiter ip e l s) b.1 in
    let a = c.added in let m = c.at_most_one in let i = c.in_limit in ground arith

start-IsLimiter : IsLimiter new_login_limiter
start-IsLimiter = record { distinct = tt; nested = tt }

-- After any history of the limiter, an address is let in at most 20 times within one hour, whatever
-- other addresses do and whenever the clean-up runs.
pub at_most_twenty :
    (t : ℕ) (ip : Str) (history es : List Event)
    → All (Within t one_hour) es
    → (run ip es (run ip history new_login_limiter).0).1 ≤ 20
at_most_twenty t ip history es b =
    let sound = run-IsLimiter ip history new_login_limiter start-IsLimiter in
    let bound = run-hours t ip es (run ip history new_login_limiter).0 sound b in ground arith

-- After any history of the limiter, an address is let in at most 5 times within one minute, whatever
-- other addresses do and whenever the clean-up runs.
pub at_most_five :
    (t : ℕ) (ip : Str) (history es : List Event)
    → All (Within t one_minute) es
    → (run ip es (run ip history new_login_limiter).0).1 ≤ 5
at_most_five t ip history es b =
    let sound = run-IsLimiter ip history new_login_limiter start-IsLimiter in
    let bound = run-minutes t ip es (run ip history new_login_limiter).0 sound b in ground arith
