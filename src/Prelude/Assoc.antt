-- ===== src/Prelude/Assoc.antt =====
-- A Go map with string keys as an association list. A write replaces the entry of its key in place
-- and a delete removes every entry of it. The order of the list stands for the order of a `range`.
use foxrouters.Prelude.Text.{Str, str_eq, str_iff}
use mathlib.Core.Logic.{inl, inr, ◌≢◌}
use mathlib.Core.Path.{subst, ◌≡◌, refl}
use foxrouters.Prelude.Lists.{All, All}
use foxrouters.Prelude.Tests.{Bool-cases, if◌then◌else◌}
use mathlib.Core.Option.{Option, none, some}
use mathlib.Core.List.{List, [], ◌∷◌}
use native.Mathlib.Omega.{arith}
use foxrouters.Prelude.{ℕ, suc, ◌+◌, Bool}

abbrev pub Assoc {ℓ} : Type ℓ → Type ℓ
Assoc V = List (Str × V)

module _ {ℓ} {V : Type ℓ} where
  unfoldable pub lookup : Str → Assoc V → Option V
  lookup key [] = none
  lookup key ((k, v) ∷ m) = let rest = lookup key m in if str_eq k key then some v else rest

  unfoldable pub insert : Str → V → Assoc V → Assoc V
  insert key v [] = (key, v) ∷ []
  insert key v ((k, old) ∷ m) =
      let rest = insert key v m in if str_eq k key then (key, v) ∷ m else (k, old) ∷ rest

  unfoldable pub erase : Str → Assoc V → Assoc V
  erase key [] = []
  erase key ((k, old) ∷ m) =
      let rest = erase key m in if str_eq k key then rest else (k, old) ∷ rest

  pub lookup-insert :
      (written read : Str) (v : V) (m : Assoc V)
      → lookup read (insert written v m) ≡ (if str_eq written read then some v else lookup read m)
  unfolding insert lookup
  lookup-insert written read v [] = ground arith
  lookup-insert written read v ((k, old) ∷ m) = ground (
    arith,
    lookup-insert written read v m,
    str_iff k written,
    str_iff k read,
    str_iff written read,
  )

  pub lookup-erase :
      (gone read : Str) (m : Assoc V)
      → lookup read (erase gone m) ≡ (if str_eq gone read then none else lookup read m)
  unfolding erase lookup
  lookup-erase gone read [] = ground arith
  lookup-erase gone read ((k, old) ∷ m) =
      ground (arith, lookup-erase gone read m, str_iff k gone, str_iff k read, str_iff gone read)

  pub lookup-insert_self : (k : Str) (v : V) (m : Assoc V) → lookup k (insert k v m) ≡ some v
  lookup-insert_self k v m = ground (arith, lookup-insert k k v m, str_iff k k)

  pub lookup-insert_ne :
      (k j : Str) (v : V) (m : Assoc V) → k ≢ j → lookup j (insert k v m) ≡ lookup j m
  lookup-insert_ne k j v m h = ground (arith, lookup-insert k j v m, str_iff k j)

  pub lookup-erase_self : (k : Str) (m : Assoc V) → lookup k (erase k m) ≡ none
  lookup-erase_self k m = ground (arith, lookup-erase k k m, str_iff k k)

  pub lookup-erase_ne : (k j : Str) (m : Assoc V) → k ≢ j → lookup j (erase k m) ≡ lookup j m
  lookup-erase_ne k j m h = ground (arith, lookup-erase k j m, str_iff k j)

  pub All-insert {κ} :
      (P : Str × V → Type κ) (k : Str) (v : V) (m : Assoc V)
      → P (k, v)
      → All P m
      → All P (insert k v m)
  unfolding insert
  All-insert P k v [] p h = (p, tt)
  All-insert P k v ((j, w) ∷ m) p h = elim (Bool-cases (str_eq j k)) [
    | inl e ↦ rw e (p, h.1)
    | inr e ↦ rw e (h.0, All-insert P k v m p h.1)
  ]

  pub All-erase {κ} : (P : Str × V → Type κ) (k : Str) (m : Assoc V) → All P m → All P (erase k m)
  unfolding erase
  All-erase P k [] h = h
  All-erase P k ((j, w) ∷ m) h = elim (Bool-cases (str_eq j k)) [
    | inl e ↦ rw e (All-erase P k m h.1)
    | inr e ↦ rw e (h.0, All-erase P k m h.1)
  ]

  pub All-lookup {κ} :
      (P : Str × V → Type κ) (k : Str) (m : Assoc V) {v : V}
      → All P m
      → lookup k m ≡ some v
      → P (k, v)
  unfolding lookup
  All-lookup P k [] h e = cc
  All-lookup P k ((j, w) ∷ m) {v} h e = elim (Bool-cases (str_eq j k)) [
    | inl q ↦ subst P (ground (arith, str_iff j k)) h.0
    | inr q ↦ All-lookup P k m h.1 (ground arith)
  ]

  -- No key twice, as in a Go map.
  abbrev pub Distinct : Assoc V → Type ℓ
  Distinct [] = Unit
  Distinct ((k, v) ∷ m) = (lookup k m ≡ none) × Distinct m

  pub insert-Distinct : (k : Str) (v : V) (m : Assoc V) → Distinct m → Distinct (insert k v m)
  unfolding insert lookup
  insert-Distinct k v [] d = (refl, tt)
  insert-Distinct k v ((j, w) ∷ m) d = elim (Bool-cases (str_eq j k)) [
    | inl e ↦ rw e (subst (λ i. lookup i m ≡ none) ((str_iff j k).0 e) d.0, d.1)
    | inr e ↦ rw e (
      ground (arith, lookup-insert k j v m, str_iff k j, str_iff j k, d.0),
      insert-Distinct k v m d.1,
    )
  ]

  pub erase-Distinct : (k : Str) (m : Assoc V) → Distinct m → Distinct (erase k m)
  unfolding erase lookup
  erase-Distinct k [] d = tt
  erase-Distinct k ((j, w) ∷ m) d = elim (Bool-cases (str_eq j k)) [
    | inl e ↦ rw e (erase-Distinct k m d.1)
    | inr e ↦
        rw e (
          ground (arith, lookup-erase k j m, str_iff k j, str_iff j k, d.0),
          erase-Distinct k m d.1,
        )
  ]

  erase_absent : (k : Str) (m : Assoc V) → lookup k m ≡ none → erase k m ≡ m
  unfolding erase lookup
  erase_absent k [] h = refl
  erase_absent k ((j, w) ∷ m) h = ground (arith, erase_absent k m)

  -- How many values pass a test.
  abbrev pub count_values : (V → Bool) → Assoc V → ℕ
  count_values test [] = 0
  count_values test ((k, v) ∷ m) =
      let rest = count_values test m in if test v then suc rest else rest

  abbrev pub count_one : (V → Bool) → Option V → ℕ
  count_one test none = 0
  count_one test (some v) = if test v then 1 else 0

  pub count_values-erase :
      (test : V → Bool) (k : Str) (m : Assoc V)
      → Distinct m
      → count_values test (erase k m) + count_one test (lookup k m) ≡ count_values test m
  unfolding erase lookup
  count_values-erase test k [] d = omega arith
  count_values-erase test k ((j, w) ∷ m) d = elim (Bool-cases (str_eq j k)) [
    | inl e ↦
        let gone : erase k m ≡ m =
          erase_absent k m (subst (λ i. lookup i m ≡ none) ((str_iff j k).0 e) d.0) in
        rw (e, gone) (ground arith)
    | inr e ↦ rw e (ground (arith, count_values-erase test k m d.1))
  ]
