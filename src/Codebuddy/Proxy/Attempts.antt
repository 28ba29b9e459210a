-- ===== src/Codebuddy/Proxy/Attempts.antt =====
-- What the attempts of ProxyCodeBuddy come to.
use foxrouters.Codebuddy.{
  all_keys_disabled, change_key, next_key, no_cb_keys, is_printable, Chosen, chosen, CbKeyManager,
  CbKey,
}
use foxrouters.Codebuddy.Rotation.{NextKeyIs, next_key-NextKeyIs}
use foxrouters.Codebuddy.Proxy.{
  report, Verdict, ban, tell_breaker, punish, CbOutcome, network_error, out_of_range, verdict,
  refuse, take_it, ban_key, upstream_failed, on_verdict, Reply, response, cool, on_reply, cool_key,
  World,
}
use foxrouters.Prelude.{
  if_either, if◌then◌else◌, All-get_elem?, All, Str, str_eq, ℕ, ◌+◌, ◌≤◌, ◌<◌, ◌≡◌, refl, sym, ap,
  ◌∙◌, subst, true, Option, none, some, List, [], ◌∷◌, arith,
}

abbrev pub Failing : Verdict → Type 0
Failing ban = Unit
Failing cool = Unit
Failing (refuse err) = ⊥
Failing upstream_failed = Unit
Failing take_it = ⊥

-- A reply after which the loop goes on.
abbrev pub Missed : Reply → Type 0
Missed network_error = Unit
Missed (response status body) = Failing (verdict status body)

abbrev pub Silence : Verdict → Type 0
Silence ban = Unit
Silence cool = Unit
Silence (refuse err) = ⊥
Silence upstream_failed = ⊥
Silence take_it = ⊥

-- A reply that the circuit breaker is not told of.
abbrev pub Unheard : Reply → Type 0
Unheard network_error = Unit
Unheard (response status body) = Silence (verdict status body)

module _ {F : Type 0} where
  -- The number of keys that are enabled.
  abbrev pub enabled_keys : List (CbKey F) → ℕ
  enabled_keys [] = 0
  enabled_keys (k ∷ ks) = (if k.disabled then 0 else 1) + enabled_keys ks

  abbrev pub Printable : CbKey F → Type 0
  Printable k = is_printable k.key ≡ true

  none_enabled_zero :
      (ks : List (CbKey F)) → All (λ (k : CbKey F). k.disabled ≡ true) ks → enabled_keys ks ≡ 0
  none_enabled_zero [] h = refl
  none_enabled_zero (k ∷ ks) h = ground (arith, h.0, none_enabled_zero ks h.1)

  -- A write to one key takes at most one from the enabled ones.
  enabled_keys-change_key :
      (key : Str) (f : CbKey F → CbKey F) (ks : List (CbKey F))
      → enabled_keys ks ≤ enabled_keys (change_key key f ks) + 1
  unfolding change_key
  enabled_keys-change_key key f [] = omega arith
  enabled_keys-change_key key f (k ∷ ks) = ground (arith, enabled_keys-change_key key f ks)

  change_key-Printable :
      (key : Str) (f : CbKey F → CbKey F) (ks : List (CbKey F))
      → ((k : CbKey F) → (f k).key ≡ k.key)
      → All Printable ks
      → All Printable (change_key key f ks)
  unfolding change_key
  change_key-Printable key f [] s h = tt
  change_key-Printable key f (k ∷ ks) s h =
      if_either (All Printable) (str_eq k.key key) (f k ∷ ks) (k ∷ change_key key f ks)
        (ap is_printable (s k) ∙ h.0, h.1) (h.0, change_key-Printable key f ks s h.1)

  -- What a failed attempt leaves: one key less at most, and the loop goes on.
  pub record Goes (w : World F) (r : World F × Option CbOutcome) : Type 0 where
    pub goes_on : r.1 ≡ none
    pub fewer : enabled_keys w.manager.keys ≤ enabled_keys r.0.manager.keys + 1
    pub printable : All Printable r.0.manager.keys

  punished-Goes :
      (w : World F) (key : Str) (f : CbKey F → CbKey F)
      → ((k : CbKey F) → (f k).key ≡ k.key)
      → All Printable w.manager.keys
      → Goes w (punish key f w, none)
  unfolding punish
  punished-Goes w key f s h = record {
    goes_on = refl;
    fewer = enabled_keys-change_key key f w.manager.keys;
    printable = change_key-Printable key f w.manager.keys s h;
  }

  printing :
      (key : Str) (w v : World F) (o : CbOutcome)
      → is_printable key ≡ true
      → Goes w (v, none)
      → Goes w (v, if is_printable key then none else some o)
  printing key w v o y g = subst (λ b. Goes w (v, if b then none else some o)) (sym y) g

  on_verdict-Goes :
      (start now : ℕ) (key : Str) (status : ℕ) (body : Str) (v : Verdict) (w : World F)
      → Failing v
      → is_printable key ≡ true
      → All Printable w.manager.keys
      → Goes w (on_verdict start now key status body v w)
  unfolding on_verdict tell_breaker ban_key cool_key
  on_verdict-Goes start now key status body ban w f y h =
      printing key w (punish key ban_key w) out_of_range y
        (punished-Goes w key ban_key (λ k. refl) h)
  on_verdict-Goes start now key status body cool w f y h =
      printing key w (punish key (cool_key now) w) out_of_range y
        (punished-Goes w key (cool_key now) (λ k. refl) h)
  on_verdict-Goes start now key status body (refuse err) w f y h = absurd f
  on_verdict-Goes start now key status body upstream_failed w f y h = record {
    goes_on = refl;
    fewer = omega arith;
    printable = h;
  }
  on_verdict-Goes start now key status body take_it w f y h = absurd f

  pub on_reply-Goes :
      (start now : ℕ) (id key : Str) (r : Reply) (w : World F)
      → Missed r
      → is_printable key ≡ true
      → All Printable w.manager.keys
      → Goes w (on_reply start now id key r w)
  unfolding on_reply report
  on_reply-Goes start now id key network_error w f y h = record {
    goes_on = refl;
    fewer = omega arith;
    printable = h;
  }
  on_reply-Goes start now id key (response status body) w f y h =
      let g =
        on_verdict-Goes start now key status body (verdict status body) (report id (some status) w)
          f y h in
      record { goes_on = g.goes_on; fewer = g.fewer; printable = g.printable }

  -- A key that is enabled somewhere is chosen, and it is printable.
  abbrev pub ChoosesPrintable : CbKeyManager F → CbKeyManager F × Chosen F → Type 0
  ChoosesPrintable km p =
      (idx : ℕ) × (k : CbKey F) × (p.1 ≡ chosen idx k)
      × (is_printable k.key ≡ true)
      × (p.0.keys ≡ km.keys)

  some_key :
      (km km' : CbKeyManager F) (c : Chosen F)
      → NextKeyIs km (km', c)
      → 0 < enabled_keys km.keys
      → All Printable km.keys
      → ChoosesPrintable km (km', c)
  some_key km km' no_cb_keys n p h = absurd (ground (arith, p, ap enabled_keys n.1))
  some_key km km' all_keys_disabled n p h = absurd (omega (arith, p, none_enabled_zero km.keys n.1))
  some_key km km' (chosen idx k) n p h =
      let (same, below, (j, at, found, on, before)) = n in
      (
        idx,
        k,
        refl,
        All-get_elem? Printable km.keys idx h found,
        ap (λ (m : CbKeyManager F). m.keys) same,
      )

  pub next_key_chosen :
      (km : CbKeyManager F)
      → 0 < enabled_keys km.keys
      → All Printable km.keys
      → ChoosesPrintable km (next_key km)
  next_key_chosen km p h = some_key km (next_key km).0 (next_key km).1 (next_key-NextKeyIs km) p h
