-- ===== src/Login/Bounds.antt =====
-- What holds of a limiter after any attempts and clean-ups.
use foxrouters.Login.{
  tick, LoginEntry, Event, attempt, cleanup, LoginLimiter, entry_or_new, trim, step, middleware,
  admit, run,
}
use foxrouters.Login.Windows.{Nested, admit-Nested, trim-Nested}
use foxrouters.Prelude.{
  Option-cases, Bool-cases, if◌then◌else◌, All, is_empty, Str, str_eq, str_iff, ℕ, ◌≡◌, refl, subst,
  inl, inr, Option, none, some, List, [], ◌∷◌, arith,
}
use foxrouters.Prelude.Assoc.{lookup, insert-Distinct, All-insert, Distinct, All-lookup}

pub record IsLimiter (l : LoginLimiter) : Type 0 where
  pub distinct : Distinct l
  pub nested : All (λ entry. Nested entry.1) l

pub lookup-Nested :
    (ip : Str) (l : LoginLimiter)
    → All (λ entry. Nested entry.1) l
    → Nested (entry_or_new (lookup ip l))
lookup-Nested ip l h = elim (Option-cases (lookup ip l)) [
  | inl e ↦ rw e (λ t. omega arith)
  | inr (entry, e) ↦ rw e (All-lookup (λ entry. Nested entry.1) ip l h e)
]

pub middleware-IsLimiter :
    (now : ℕ) (ip : Str) (l : LoginLimiter) → IsLimiter l → IsLimiter (middleware now ip l).0
unfolding middleware
middleware-IsLimiter now ip l s =
    let e = admit now (trim now (entry_or_new (lookup ip l))) in
    record {
      distinct = insert-Distinct ip e.0 l s.distinct;
      nested =
          All-insert (λ entry. Nested entry.1) ip e.0 l
            (admit-Nested now (trim now (entry_or_new (lookup ip l)))
              (trim-Nested now (entry_or_new (lookup ip l)) (lookup-Nested ip l s.nested)))
            s.nested;
    }

-- What a clean-up leaves of an entry.
unfoldable pub survives : ℕ → Option LoginEntry → Option LoginEntry
survives now none = none
survives now (some e) = if is_empty (trim now e).hour_window then none else some (trim now e)

pub lookup-cleanup :
    (now : ℕ) (ip : Str) (l : LoginLimiter)
    → Distinct l
    → lookup ip (cleanup now l) ≡ survives now (lookup ip l)
unfolding cleanup lookup survives
lookup-cleanup now ip [] d = refl
lookup-cleanup now ip ((k, e) ∷ l) d = elim (Bool-cases (str_eq k ip)) [
  | inl q ↦
      let gone : lookup ip l ≡ none = subst (λ i. lookup i l ≡ none) ((str_iff k ip).0 q) d.0 in
      ground (arith, lookup-cleanup now ip l d.1, gone)
  | inr q ↦ ground (arith, lookup-cleanup now ip l d.1)
]

pub cleanup-IsLimiter : (now : ℕ) (l : LoginLimiter) → IsLimiter l → IsLimiter (cleanup now l)
unfolding cleanup survives
cleanup-IsLimiter now [] s = s
cleanup-IsLimiter now ((k, e) ∷ l) s =
    let below = cleanup-IsLimiter now l (record { distinct = s.distinct.1; nested = s.nested.1 }) in
    elim (Bool-cases (is_empty (trim now e).hour_window)) [
      | inl q ↦ rw q below
      | inr q ↦ rw q (record {
        distinct = ((rw (lookup-cleanup now k l s.distinct.1, s.distinct.0) refl), below.distinct);
        nested = (trim-Nested now e s.nested.0, below.nested);
      })
    ]

-- Any sequence of attempts and clean-ups keeps the limiter sound.
pub run-IsLimiter :
    (ip : Str) (es : List Event) (l : LoginLimiter) → IsLimiter l → IsLimiter (run ip es l).0
unfolding run step
run-IsLimiter ip [] l s = s
run-IsLimiter ip (attempt now who ∷ es) l s =
    run-IsLimiter ip es (middleware now who l).0 (middleware-IsLimiter now who l s)
run-IsLimiter ip (tick now ∷ es) l s =
    run-IsLimiter ip es (cleanup now l) (cleanup-IsLimiter now l s)
