-- ===== src/Combo/Index.antt =====
-- Resolve of combo.go: which model it picks.
use foxrouters.Prelude.{
  ◌≡◌, ◌<◌, arith, Bool-cases, inl, ◌++◌, get_elem?-some, inr, has_prefix-append,
  trim_prefix-append, if◌then◌else◌, refl, none, [],
}
use foxrouters.Combo.{
  rr_index, rotate, pick, ComboRegistry, ℤ, resolve, ℕ, List, Option, sub_one_i64, Str, Resolved,
  is_empty, length, Combo, lookup, at, pos, hit, codes, miss, false, some, get_elem?, ◌∷◌, is_zero,
  str_eq, or_zero, fallback_counter, panic,
}
use foxrouters.Prelude.Int.{wrap_index-lt}

pub rr_index-lt : (counter : ℤ) (n : ℕ) → 0 < n → rr_index counter n < n
unfolding rr_index
rr_index-lt counter n h = wrap_index-lt (sub_one_i64 counter) n h

-- An answer is good for a list if it is one of its items.
abbrev pub Picks : List Str → Resolved → Type 0
Picks ms miss = ⊥
Picks ms (hit m) = (i : ℕ) × (get_elem? ms i ≡ some m)
Picks ms panic = ⊥

at-Picks : (ms : List Str) (i : ℕ) → i < length ms → Picks ms (at ms i)
at-Picks ms i h = let (m, e) = get_elem?-some ms i h in rw (e, Picks) (i, e)

at_rr-Picks : (ms : List Str) (z : ℤ) → 0 < length ms → Picks ms (at ms (rr_index z (length ms)))
at_rr-Picks ms z h = at-Picks ms (rr_index z (length ms)) (rr_index-lt z (length ms) h)

rotate-Picks :
    (r : ComboRegistry) (name : Str) (ms : List Str) (incr : Option ℤ)
    → 0 < length ms
    → Picks ms (rotate r name ms incr).1
unfolding rotate
rotate-Picks r name ms incr h =
    let counter = if r.store then or_zero incr else pos 0 in
    elim (Bool-cases (is_zero counter)) [
      | inl e ↦ rw e (at_rr-Picks ms (fallback_counter name r).1 h)
      | inr e ↦ rw e (at_rr-Picks ms counter h)
    ]

pos-length : (ms : List Str) → is_empty ms ≡ false → 0 < length ms
pos-length [] h = cc
pos-length (m ∷ ms) h = omega arith

-- What Resolve is to yield for a model: a combo that is known and has models gives one of them.
abbrev pub Expected : ComboRegistry → Option Combo → Resolved → Type 0
Expected r none a = a ≡ miss
Expected r (some c) a = if is_empty c.models then (a ≡ miss) else Picks c.models a

pick-Expected :
    (r : ComboRegistry) (name : Str) (incr : Option ℤ) (o : Option Combo)
    → Expected r o (pick r name incr o).1
unfolding pick
pick-Expected r name incr none = refl
pick-Expected r name incr (some c) = elim (Bool-cases (is_empty c.models)) [
  | inl e ↦ rw e refl
  | inr e ↦ rw e (elim (Bool-cases (str_eq c.strategy (codes "round_robin"))) [
    | inl s ↦ rw s (rotate-Picks r name c.models incr (pos-length c.models e))
    | inr s ↦ rw s (at-Picks c.models 0 (pos-length c.models e))
  ])
]

-- For a model "combo/<name>", Resolve reports a miss if no combo has the name or the combo has no
-- models, and otherwise answers with one of the combo's models: whatever the strategy is and
-- whatever value INCR gave, negative ones and failures included, no index is out of range.
pub resolve-combo :
    (r : ComboRegistry) (name : Str) (incr : Option ℤ)
    → Expected r (lookup name r.combos) (resolve r (codes "combo/" ++ name) incr).1
unfolding resolve
resolve-combo r name incr =
    rw (has_prefix-append (codes "combo/") name, trim_prefix-append (codes "combo/") name)
      (pick-Expected r name incr (lookup name r.combos))
