-- ===== src/Combo/Rotation.antt =====
-- The round-robin strategy of Resolve in combo.go: the order of its answers.
use foxrouters.Combo.{rotate, at, Combo, ComboRegistry, resolve}
use foxrouters.Prelude.{
  length, Str, trim_prefix-append, codes, has_prefix-append, ℕ, suc, ◌+◌, ◌%◌, ◌<◌, ◌≡◌, ap, ◌∙◌,
  true, some, List, ◌++◌, arith, is_empty, str_iff, refl, false, [], ◌∷◌,
}
use foxrouters.Prelude.Int.{pos}
use foxrouters.Prelude.Turns.{reach_mod}
use foxrouters.Prelude.Assoc.{lookup}

rotate_lem :
    (r : ComboRegistry) (name : Str) (ms : List Str) (k : ℕ)
    → r.store ≡ true
    → (rotate r name ms (some (pos (suc k)))).1 ≡ at ms (k % length ms)
unfolding rotate
rotate_lem r name ms k s = rw s

is_empty_pos : (ms : List Str) → 0 < length ms → is_empty ms ≡ false
is_empty_pos [] h = absurd (omega arith)
is_empty_pos (m ∷ ms) h = refl

resolve_rotates :
    (r : ComboRegistry) (name : Str) (c : Combo) (k : ℕ)
    → lookup name r.combos ≡ some c
    → c.strategy ≡ codes "round_robin"
    → 0 < length c.models
    → (resolve r (codes "combo/" ++ name) (some (pos (suc k)))).1
      ≡ (rotate r name c.models (some (pos (suc k)))).1
unfolding resolve
resolve_rotates r name c k found rr some_models =
    rw (has_prefix-append (codes "combo/") name, trim_prefix-append (codes "combo/") name, found)
      (ground (arith, str_iff c.strategy (codes "round_robin"), is_empty_pos c.models))

-- Let a round-robin combo with n models be registered under a name, and let Redis be in use. Then of
-- the n requests in a row that get the counter values k + 1, ..., k + n, one is answered with the
-- model at position i, for every k and every position i below n: no model of the combo is left out.
pub resolve_fair :
    (r : ComboRegistry) (name : Str) (c : Combo) (k i : ℕ)
    → lookup name r.combos ≡ some c
    → c.strategy ≡ codes "round_robin"
    → r.store ≡ true
    → i < length c.models
    → (j : ℕ) × (j < length c.models)
      × ((resolve r (codes "combo/" ++ name) (some (pos (suc (k + j))))).1 ≡ at c.models i)
resolve_fair r name c k i found rr s h =
    let (j, below, e) = reach_mod k i (length c.models) h in
    (
      j,
      below,
      resolve_rotates r name c (k + j) found rr (omega arith)
          ∙ rotate_lem r name c.models (k + j) s
          ∙ ap (at c.models) e,
    )
