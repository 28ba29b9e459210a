-- ===== src/Codebuddy/Rotation.antt =====
-- Which key Next chooses.
use native.Mathlib.Decide.{dec_le}
use native.Mathlib.Nat.{mod-lt}
use foxrouters.Codebuddy.{
  Chosen, search, move_on, next_key, CbKey, CbKeyManager, chosen, no_cb_keys, all_keys_disabled,
}
use foxrouters.Prelude.Turns.{reach_mod}
use foxrouters.Prelude.{
  if_split, if◌then◌else◌, All, is_empty, length, get_elem?, ℕ, zero, suc, ◌+◌, ◌%◌, ◌≤◌, ◌<◌, ◌≡◌,
  refl, sym, ap, ◌∙◌, subst, ◌⊎◌, inl, inr, true, false, Option, none, some, List, [], ◌∷◌, arith,
}

module _ {F : Type 0} where
  -- The key at an index is not enabled.
  abbrev pub Skipped : List (CbKey F) → ℕ → Type 0
  Skipped keys idx = (k : CbKey F) → get_elem? keys idx ≡ some k → k.disabled ≡ true

  -- The `i`th key from `next` on is the first that is enabled.
  abbrev pub FirstEnabled : List (CbKey F) → ℕ → ℕ → Chosen F → Type 0
  FirstEnabled keys next i no_cb_keys = ⊥
  FirstEnabled keys next i all_keys_disabled =
      (j : ℕ) → i ≤ j → j < length keys → Skipped keys ((next + j) % length keys)
  FirstEnabled keys next i (chosen idx k) =
      (j : ℕ) × (idx ≡ (next + j) % length keys)
      × (get_elem? keys idx ≡ some k)
      × (k.disabled ≡ false)
      × ((l : ℕ) → i ≤ l → l < j → Skipped keys ((next + l) % length keys))

  weaken :
      (keys : List (CbKey F)) (next i : ℕ) (c : Chosen F)
      → Skipped keys ((next + i) % length keys)
      → FirstEnabled keys next (i + 1) c
      → FirstEnabled keys next i c
  weaken keys next i no_cb_keys s h = h
  weaken keys next i all_keys_disabled s h = λ j a b. elim (dec_le (i + 1) j) [
    | yes later ↦ h j later b
    | no same ↦ subst (λ n. Skipped keys ((next + n) % length keys)) (omega (arith, a, same)) s
  ]
  weaken keys next i (chosen idx k) s (j, at, found, on, before) = (
    j,
    at,
    found,
    on,
    λ l a b. elim (dec_le (i + 1) l) [
      | yes later ↦ before l later b
      | no same ↦ subst (λ n. Skipped keys ((next + n) % length keys)) (omega (arith, a, same)) s
    ],
  )

  -- One key that is looked at.
  look :
      (keys : List (CbKey F)) (next i : ℕ) (rest : Chosen F) (o : Option (CbKey F))
      → get_elem? keys ((next + i) % length keys) ≡ o
      → FirstEnabled keys next (i + 1) rest
      → FirstEnabled keys next i (elim o [
        | none ↦ rest
        | some k ↦ if k.disabled then rest else chosen ((next + i) % length keys) k
      ])
  look keys next i rest none e h = weaken keys next i rest (λ k f. absurd (ground (arith, e, f))) h
  look keys next i rest (some k) e h =
      if_split (FirstEnabled keys next i) k.disabled rest (chosen ((next + i) % length keys) k)
        (λ y.
          weaken keys next i rest
            (λ k' f.
              let same : k' ≡ k = ground (arith, e, f) in ap (λ (x : CbKey F). x.disabled) same ∙ y)
            h)
        (λ n. (i, refl, e, n, λ l a b. absurd (omega (arith, a, b))))

  search-FirstEnabled :
      (keys : List (CbKey F)) (next left i : ℕ)
      → i + left ≡ length keys
      → FirstEnabled keys next i (search keys next left i)
  unfolding search
  search-FirstEnabled keys next zero i h = λ j a b. absurd (omega (arith, h, a, b))
  search-FirstEnabled keys next (suc left) i h =
      look keys next i (search keys next left (i + 1)) (get_elem? keys ((next + i) % length keys))
        refl (search-FirstEnabled keys next left (i + 1) (omega (arith, h)))

  -- What Next may do: with no key, nothing; with no key that is enabled, nothing; and else it gives
  -- the first enabled key from `next` on and moves behind it. The keys stay.
  abbrev pub NextKeyIs : CbKeyManager F → CbKeyManager F × Chosen F → Type 0
  NextKeyIs km (km', no_cb_keys) = (km' ≡ km) × (km.keys ≡ [])
  NextKeyIs km (km', all_keys_disabled) =
      (km' ≡ km) × All (λ (k : CbKey F). k.disabled ≡ true) km.keys
  NextKeyIs km (km', chosen idx k) =
      (km' ≡ record km { next = (idx + 1) % length km.keys })
      × (idx < length km.keys)
      × FirstEnabled km.keys km.next 0 (chosen idx k)

  none_enabled :
      (ks : List (CbKey F))
      → ((idx : ℕ) → idx < length ks → Skipped ks idx)
      → All (λ (k : CbKey F). k.disabled ≡ true) ks
  none_enabled [] h = tt
  none_enabled (k ∷ ks) h =
      (h 0 (omega arith) k refl, none_enabled ks (λ idx b. h (suc idx) (omega (arith, b))))

  found-NextKeyIs :
      (km : CbKeyManager F) (c : Chosen F)
      → 0 < length km.keys
      → FirstEnabled km.keys km.next 0 c
      → NextKeyIs km (move_on km c, c)
  unfolding move_on
  found-NextKeyIs km no_cb_keys p h = absurd h
  found-NextKeyIs km all_keys_disabled p h = (
    refl,
    none_enabled km.keys (λ idx b.
        let (j, below, at) = reach_mod km.next idx (length km.keys) b in
        subst (Skipped km.keys) at (h j (omega arith) below)),
  )
  found-NextKeyIs km (chosen idx k) p h =
      (refl, rw h.1 (mod-lt (km.next + h.0) {m = length km.keys} (omega (arith, p))), h)

  empty_or_more : (ks : List (CbKey F)) → (ks ≡ []) ⊎ (0 < length ks)
  empty_or_more [] = inl refl
  empty_or_more (k ∷ ks) = inr (omega arith)

  more_not_empty : (ks : List (CbKey F)) → 0 < length ks → is_empty ks ≡ false
  more_not_empty [] h = absurd (omega (arith, h))
  more_not_empty (k ∷ ks) h = refl

  -- Next gives an error only if there is no key or every key is disabled. In all other cases it gives
  -- the first key from `next` on, around the end, that is enabled, it moves `next` behind it, and
  -- it changes no key. It holds for every value of `next`, also one that a deletion left behind.
  pub next_key-NextKeyIs : (km : CbKeyManager F) → NextKeyIs km (next_key km)
  unfolding next_key
  next_key-NextKeyIs km = elim (empty_or_more km.keys) [
    | inl e ↦
        subst (NextKeyIs km)
          (sym (
            ap
              (λ b. if b then (km, no_cb_keys) else (
                move_on km (search km.keys km.next (length km.keys) 0),
                search km.keys km.next (length km.keys) 0,
              ))
              (ap is_empty e)))
          (refl, e)
    | inr p ↦
        subst (NextKeyIs km)
          (sym (
            ap
              (λ b. if b then (km, no_cb_keys) else (
                move_on km (search km.keys km.next (length km.keys) 0),
                search km.keys km.next (length km.keys) 0,
              ))
              (more_not_empty km.keys p)))
          (found-NextKeyIs km (search km.keys km.next (length km.keys) 0) p
            (search-FirstEnabled km.keys km.next (length km.keys) 0 (omega arith)))
  ]
