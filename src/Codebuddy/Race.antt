-- ===== src/Codebuddy/Race.antt =====
-- Two replies for one key, of two requests that chose it at the same time.
use foxrouters.Codebuddy.{cooldown, CbKeyManager, change_key, reenable, reenable_cooldowns, CbKey}
use foxrouters.Codebuddy.Proxy.{ban_key, cool_key}
use foxrouters.Codebuddy.Events.{step, Credits, bans, lifts, run, cools}
use foxrouters.Prelude.{
  Bool-cases, find, Str, str_eq, ℕ, ◌-◌, ◌<◌, ◌≡◌, refl, inl, inr, false, Option, some, List, [],
  ◌∷◌, map, arith,
}

module _ {F : Type 0} where
  abbrev pub first_key : Str → List (CbKey F) → Option (CbKey F)
  first_key key ks = find (λ (k : CbKey F). str_eq k.key key) ks

  first_key-change_key :
      (key : Str) (f : CbKey F → CbKey F) (k : CbKey F) (ks : List (CbKey F))
      → ((x : CbKey F) → (f x).key ≡ x.key)
      → first_key key ks ≡ some k
      → first_key key (change_key key f ks) ≡ some (f k)
  unfolding change_key
  first_key-change_key key f k [] s h = absurd (ground (arith, h))
  first_key-change_key key f k (x ∷ ks) s h = elim (Bool-cases (str_eq x.key key)) [
    | inl y ↦ ground (arith, y, h, s x)
    | inr n ↦ ground (arith, n, first_key-change_key key f k ks s (ground (arith, n, h)))
  ]

  reenable-key : (now : ℕ) (k : CbKey F) → (reenable now k).key ≡ k.key
  unfolding reenable
  reenable-key now k = ground arith

  first_key-map :
      (key : Str) (now : ℕ) (k : CbKey F) (ks : List (CbKey F))
      → first_key key ks ≡ some k
      → first_key key (map (reenable now) ks) ≡ some (reenable now k)
  first_key-map key now k [] h = absurd (ground (arith, h))
  first_key-map key now k (x ∷ ks) h = elim (Bool-cases (str_eq x.key key)) [
    | inl y ↦ ground (arith, y, h, reenable-key now x)
    | inr n ↦
        ground (arith, n, reenable-key now x, first_key-map key now k ks (ground (arith, n, h)))
  ]

  cooled_lifted :
      (t now : ℕ) (k : CbKey F)
      → 0 < t
      → cooldown < now - t
      → (reenable now (cool_key t (ban_key k))).disabled ≡ false
  unfolding reenable cool_key ban_key
  cooled_lifted t now k p c = ground (arith, p, c)

  -- Two requests hold the same key. The reply of one disables it for good, then the reply of the
  -- other is a rate limit: it turns the ban into a cooldown, and after ten minutes the key is
  -- enabled again.
  pub ban_lost :
      (ar : Credits F) (key : Str) (t now : ℕ) (k : CbKey F) (km : CbKeyManager F)
      → first_key key km.keys ≡ some k
      → 0 < t
      → cooldown < now - t
      → (x : CbKey F) × (first_key key (run ar (bans key ∷ cools key t ∷ lifts now ∷ []) km).keys
          ≡ some x)
        × (x.disabled ≡ false)
  unfolding run step ban_key cool_key reenable_cooldowns
  ban_lost ar key t now k km h p c = (
    reenable now (cool_key t (ban_key k)),
    first_key-map key now (cool_key t (ban_key k))
        (change_key key (cool_key t) (change_key key ban_key km.keys))
        (first_key-change_key key (cool_key t) (ban_key k) (change_key key ban_key km.keys)
          (λ x. refl) (first_key-change_key key ban_key k km.keys (λ x. refl) h)),
    cooled_lifted t now k p c,
  )
