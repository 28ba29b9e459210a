-- ===== src/Prelude/Turns.antt =====
-- Turns of a round robin.
use native.Mathlib.Decide.{dec_le}
use native.Mathlib.Nat.{mod-add-mod, mod-eq_of_lt, add-mod_right, mod-lt}
use foxrouters.Prelude.{
  ℕ, ◌+◌, ◌-◌, ◌%◌, ◌<◌, ◌≡◌, ◌∙◌, arith, if_split, if◌then◌else◌, length, get_elem?, All, zero,
  suc, ◌≤◌, refl, ap, subst, Bool, true, false, Option, none, some, List, [], ◌∷◌,
}

-- `%` reaches every remainder within one turn.
pub reach_mod : (k i n : ℕ) → i < n → (j : ℕ) × (j < n) × ((k + j) % n ≡ i)
reach_mod k i n h = elim (dec_le (k % n) i) [
  | yes le ↦
      let meet : k % n + (i - k % n) ≡ i = omega arith in
      (i - k % n, omega arith, rw (← mod-add-mod k n (i - k % n), meet) (mod-eq_of_lt h))
  | no gt ↦
      let meet : k % n + (i + n - k % n) ≡ i + n = omega (arith, mod-lt k {m = n} (omega arith)) in
      (
        i + n - k % n,
        omega arith,
        rw (← mod-add-mod k n (i + n - k % n), meet) (add-mod_right i n ∙ mod-eq_of_lt h),
      )
]

-- The loop of a round robin: the first item from `next` on, around the end, that passes a test, with
-- its index; `left` items are still to be looked at, and `i` is the number of the first of them.
unfoldable pub turn_search {ℓ} : {A : Type ℓ} → (A → Bool) → List A → ℕ → ℕ → ℕ → Option (ℕ × A)
turn_search test xs next zero i = none
turn_search test xs next (suc left) i =
    let idx = (next + i) % length xs in
    let rest = turn_search test xs next left (i + 1) in
    elim (get_elem? xs idx) [ none ↦ rest | some x ↦ if test x then some (idx, x) else rest ]

module _ {A : Type 0} (test : A → Bool) (xs : List A) (next : ℕ) where
  -- Nothing from the `i`th item on passes, or an item that passes stands at its index.
  abbrev pub FoundFrom : ℕ → Option (ℕ × A) → Type 0
  FoundFrom i none =
      (j : ℕ)
      → i ≤ j
      → j < length xs
      → (x : A) → get_elem? xs ((next + j) % length xs) ≡ some x
      → test x ≡ false
  FoundFrom i (some (idx, x)) =
      (get_elem? xs idx ≡ some x) × (test x ≡ true) × ((j : ℕ) × (idx ≡ (next + j) % length xs))

  weaken :
      (i : ℕ) (r : Option (ℕ × A))
      → ((x : A) → get_elem? xs ((next + i) % length xs) ≡ some x → test x ≡ false)
      → FoundFrom (i + 1) r
      → FoundFrom i r
  weaken i none s h = λ j a b. elim (dec_le (i + 1) j) [
    | yes later ↦ h j later b
    | no same ↦
        subst (λ n. (x : A) → get_elem? xs ((next + n) % length xs) ≡ some x → test x ≡ false)
          (omega (arith, a, same)) s
  ]
  weaken i (some p) s h = h

  look :
      (i : ℕ) (rest : Option (ℕ × A)) (o : Option A)
      → get_elem? xs ((next + i) % length xs) ≡ o
      → FoundFrom (i + 1) rest
      → FoundFrom i (elim o [
        | none ↦ rest
        | some x ↦ if test x then some ((next + i) % length xs, x) else rest
      ])
  look i rest none e h = weaken i rest (λ x f. absurd (ground (arith, e, f))) h
  look i rest (some x) e h =
      if_split (FoundFrom i) (test x) (some ((next + i) % length xs, x)) rest
        (λ y. (e, y, (i, refl)))
        (λ n.
          weaken i rest (λ x' f. let same : x' ≡ x = ground (arith, e, f) in ap test same ∙ n) h)

  search_found : (left i : ℕ) → i + left ≡ length xs → FoundFrom i (turn_search test xs next left i)
  unfolding turn_search
  search_found zero i h = λ j a b. absurd (omega (arith, h, a, b))
  search_found (suc left) i h =
      look i (turn_search test xs next left (i + 1)) (get_elem? xs ((next + i) % length xs)) refl
        (search_found left (i + 1) (omega (arith, h)))

  -- Nothing at all passes, or an item that passes stands at its index.
  abbrev pub Found : Option (ℕ × A) → Type 0
  Found none = All (λ x. test x ≡ false) xs
  Found (some (idx, x)) = (get_elem? xs idx ≡ some x) × (test x ≡ true)

  everywhere :
      (ys : List A)
      → ((idx : ℕ) → idx < length ys → (x : A) → get_elem? ys idx ≡ some x → test x ≡ false)
      → All (λ x. test x ≡ false) ys
  everywhere [] h = tt
  everywhere (y ∷ ys) h =
      (h 0 (omega arith) y refl, everywhere ys (λ idx b. h (suc idx) (omega (arith, b))))

  whole_turn : (r : Option (ℕ × A)) → FoundFrom 0 r → Found r
  whole_turn none h = everywhere xs (λ idx b.
      let (j, below, at) = reach_mod next idx (length xs) b in
      subst (λ n. (x : A) → get_elem? xs n ≡ some x → test x ≡ false) at (h j (omega arith) below))
  whole_turn (some (idx, x)) h = (h.0, h.1)

  pub turn_search-Found : Found (turn_search test xs next (length xs) 0)
  turn_search-Found =
      whole_turn (turn_search test xs next (length xs) 0) (search_found (length xs) 0 (omega arith))
