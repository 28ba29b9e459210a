-- ===== src/Session/Table.antt =====
-- The table of sessions has no token twice.
use foxrouters.Session.{
  cleanup, creates, create, ticks, look_found, Event, SessionStore, is_expired, step, looks,
  revokes, Session, look_up, revoke,
}
use foxrouters.Prelude.{
  if◌then◌else◌, if_either, Bool-cases, str_iff, Str, str_eq, ℕ, ◌≡◌, refl, subst, inl, inr, Option,
  none, some, [], ◌∷◌, arith,
}
use foxrouters.Prelude.Assoc.{insert, Distinct, erase-Distinct, erase, lookup, insert-Distinct}

unfoldable pub survives : ℕ → Option Session → Option Session
survives now none = none
survives now (some sess) = if is_expired now sess then none else some sess

pub lookup-cleanup :
    (now : ℕ) (token : Str) (s : SessionStore)
    → Distinct s
    → lookup token (cleanup now s) ≡ survives now (lookup token s)
unfolding cleanup lookup survives
lookup-cleanup now token [] d = refl
lookup-cleanup now token ((k, sess) ∷ s) d = elim (Bool-cases (str_eq k token)) [
  | inl q ↦
      let gone : lookup token s ≡ none =
        subst (λ i. lookup i s ≡ none) ((str_iff k token).0 q) d.0 in
      ground (arith, lookup-cleanup now token s d.1, gone)
  | inr q ↦ ground (arith, lookup-cleanup now token s d.1)
]

cleanup-Distinct : (now : ℕ) (s : SessionStore) → Distinct s → Distinct (cleanup now s)
unfolding cleanup survives
cleanup-Distinct now [] d = tt
cleanup-Distinct now ((k, sess) ∷ s) d = elim (Bool-cases (is_expired now sess)) [
  | inl q ↦ rw q (cleanup-Distinct now s d.1)
  | inr q ↦ rw q ((rw (lookup-cleanup now k s d.1, d.0) refl), cleanup-Distinct now s d.1)
]

look_found-Distinct :
    (now : ℕ) (token : Str) (s : SessionStore) (found : Option Session)
    → Distinct s
    → Distinct (look_found now token s found).0
unfolding look_found
look_found-Distinct now token s none d = d
look_found-Distinct now token s (some sess) d =
    if_either (λ (r : SessionStore × Str). Distinct r.0) (is_expired now sess) (erase token s, [])
      (insert token (record sess { last_seen = now }) s, sess.key) (erase-Distinct token s d)
      (insert-Distinct token (record sess { last_seen = now }) s d)

pub step-Distinct : (e : Event) (s : SessionStore) → Distinct s → Distinct (step e s)
unfolding step create look_up revoke
step-Distinct (creates api_key none at) s d = d
step-Distinct (creates api_key (some token) at) s d =
    insert-Distinct token (record { key = api_key; created_at = at; last_seen = at }) s d
step-Distinct (looks at token) s d =
    if_either (λ (r : SessionStore × Str). Distinct r.0) (str_eq token []) (s, [])
      (look_found at token s (lookup token s)) d (look_found-Distinct at token s (lookup token s) d)
step-Distinct (revokes token) s d =
    if_either Distinct (str_eq token []) s (erase token s) d (erase-Distinct token s d)
step-Distinct (ticks at) s d = cleanup-Distinct at s d
