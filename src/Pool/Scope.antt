-- ===== src/Pool/Scope.antt =====
-- What Next picks.
use foxrouters.Pool.{ProxyEntry, check_entry, ProxyPool, is_enabled, applies_to}
use foxrouters.Pool.Traffic.{
  clear_failures, scoped, Picked, next, pick_at, local_index, picked, shared_index, next_index,
  panicked, none_enabled,
}
use foxrouters.Prelude.{
  Bool-cases, get_elem?, is_empty, All, keep, ℕ, zero, suc, ◌≡◌, refl, subst, inl, inr, Bool, true,
  false, some, List, [], ◌∷◌, map, arith, if_either, All-get_elem?, get_elem?-some, length, Str,
  ◌+◌, ◌-◌, ◌%◌, ◌^◌, ◌<◌, Option, none, sym,
}
use foxrouters.Pool.Invariant.{IsProxy, IsPool}
use foxrouters.Prelude.Int.{ℤ, rem-lt, wrap_index-lt, sub_one_i64}

-- What a kept item is: it stands in the list, and it passes the test.
keep-at :
    (test : ProxyEntry → Bool) (es : List ProxyEntry) (i : ℕ) (e : ProxyEntry)
    → get_elem? (keep test es) i ≡ some e
    → (j : ℕ) × (get_elem? es j ≡ some e) × (test e ≡ true)
unfolding keep
keep-at test [] i e h = cc
keep-at test (x ∷ es) i e h = elim (Bool-cases (test x)) [
  | inl y ↦ first i (keep-at test es) (ground (arith, h, y)) y
  | inr y ↦ let (j, f, t) = keep-at test es i e (ground (arith, h, y)) in (suc j, f, t)
]
  where
    first :
        (i : ℕ)
        → ((i : ℕ) (e : ProxyEntry)
            → get_elem? (keep test es) i ≡ some e
            → (j : ℕ) × (get_elem? es j ≡ some e) × (test e ≡ true))
        → get_elem? (x ∷ keep test es) i ≡ some e
        → test x ≡ true
        → (j : ℕ) × (get_elem? (x ∷ es) j ≡ some e) × (test e ≡ true)
    first zero rest h y = (0, h, subst (λ w. test w ≡ true) (cc) y)
    first (suc i) rest h y = let (j, f, t) = rest i e h in (suc j, f, t)

map-at :
    (es : List ProxyEntry) (i : ℕ) (e : ProxyEntry)
    → get_elem? es i ≡ some e
    → get_elem? (map clear_failures es) i ≡ some (clear_failures e)
map-at [] i e h = cc
map-at (x ∷ es) zero e h = cc
map-at (x ∷ es) (suc i) e h = map-at es i e h

at-map :
    (es : List ProxyEntry) (i : ℕ) (c : ProxyEntry)
    → get_elem? (map clear_failures es) i ≡ some c
    → (e : ProxyEntry) × (get_elem? es i ≡ some e) × (clear_failures e ≡ c)
at-map [] i c h = cc
at-map (x ∷ es) zero c h = (x, refl, cc)
at-map (x ∷ es) (suc i) c h = at-map es i c h

keep-empty :
    (test : ProxyEntry → Bool) (es : List ProxyEntry)
    → is_empty (keep test es) ≡ true
    → All (λ e. test e ≡ false) es
unfolding keep
keep-empty test [] h = tt
keep-empty test (x ∷ es) h = elim (Bool-cases (test x)) [
  | inl y ↦ absurd (ground (arith, y))
  | inr y ↦ (y, keep-empty test es (ground (arith, y)))
]

-- What Next may give: no entry if no enabled one applies to the upstream, or else an entry that stands
-- in the pool, up to its count of failures, is enabled, is valid and applies to the upstream.
abbrev pub NextIs : Str → ProxyPool → Picked → Type 0
NextIs upstream p none_enabled = All (λ e. applies_to e upstream ≡ false) p.enabled
NextIs upstream p (picked e) =
    (j : ℕ) × (entry : ProxyEntry) × (get_elem? p.entries j ≡ some entry)
    × (clear_failures entry ≡ clear_failures e)
    × (entry.enabled ≡ true)
    × (check_entry entry ≡ none)
    × (applies_to e upstream ≡ true)
NextIs upstream p panicked = ⊥

pick_at-picked :
    (es : List ProxyEntry) (i : ℕ) {e : ProxyEntry}
    → get_elem? es i ≡ some e
    → pick_at es i ≡ picked e
pick_at-picked es i f = rw (f, pick_at) refl

pick_at-NextIs :
    (upstream : Str) (p : ProxyPool) (i : ℕ)
    → IsPool p
    → i < length (scoped upstream p)
    → NextIs upstream p (pick_at (scoped upstream p) i)
unfolding scoped
pick_at-NextIs upstream p i s b =
    let (e, f) = get_elem?-some (scoped upstream p) i b in
    let (k, g, a) = keep-at (λ e. applies_to e upstream) p.enabled i e f in
    let (entry, h, c) =
      at-map (keep is_enabled p.entries) k (clear_failures e) (
        subst (λ es. get_elem? es k ≡ some (clear_failures e)) s.in_step
          (map-at p.enabled k e g)) in
    let (j, l, t) = keep-at is_enabled p.entries k entry h in
    subst (NextIs upstream p) (sym (pick_at-picked (scoped upstream p) i f))
      (j, entry, l, c, t, (All-get_elem? IsProxy p.entries j s.sound l).checked, a)

next_index-lt : (incr : Option ℤ) (p : ProxyPool) (n : ℕ) → 0 < n → (next_index incr p n).1 < n
unfolding next_index shared_index local_index
next_index-lt none p n h = rem-lt (((p.rr_index + 1) % 2 ^ 64 + (2 ^ 64 - 1)) % 2 ^ 64) n h
next_index-lt (some v) p n h =
    if_either (λ (r : ProxyPool × ℕ). r.1 < n) p.store (p, shared_index v n) (local_index p n)
      (wrap_index-lt (sub_one_i64 v) n h)
      (rem-lt (((p.rr_index + 1) % 2 ^ 64 + (2 ^ 64 - 1)) % 2 ^ 64) n h)

length-pos : (es : List ProxyEntry) → is_empty es ≡ false → 0 < length es
length-pos [] h = cc
length-pos (e ∷ es) h = omega arith

-- On a sound pool Next never reads out of range, whatever INCR or the counter of the process gives,
-- wrapped and negative values too. It gives no entry only if no enabled entry applies to the
-- upstream, and an entry that it gives stands in the pool, is enabled, passes the checks of
-- validateEntry and applies to the upstream.
pub next-NextIs :
    (upstream : Str) (incr : Option ℤ) (p : ProxyPool)
    → IsPool p
    → NextIs upstream p (next upstream incr p).1
unfolding next scoped keep
next-NextIs upstream incr p s = elim (Bool-cases (is_empty (scoped upstream p))) [
  | inl y ↦ rw y (keep-empty (λ e. applies_to e upstream) p.enabled y)
  | inr y ↦ rw y (
      pick_at-NextIs upstream p (next_index incr p (length (scoped upstream p))).1 s
        (next_index-lt incr p (length (scoped upstream p)) (length-pos (scoped upstream p) y)))
]
