-- ===== src/Combo/Chain.antt =====
-- NextInFallback of combo.go: the order of a fallback chain.
use foxrouters.Combo.{ComboRegistry, successor, next_in_fallback, Combo}
use foxrouters.Prelude.{
  All, Str, str_iff, codes, str_eq_refl, ◌≡◌, refl, ◌≢◌, Option, none, some, List, [], ◌∷◌, ◌++◌,
  arith, str_eq,
}
use foxrouters.Prelude.Assoc.{lookup}

abbrev pub first : List Str → Option Str
first [] = none
first (m ∷ ms) = some m

successor-first :
    (m : Str) (before after : List Str)
    → All (λ x. x ≢ m) before
    → successor m (before ++ m ∷ after) ≡ first after
unfolding successor
successor-first m [] [] h = refl
successor-first m [] (n ∷ after) h = rw (str_eq_refl m)
successor-first m (x ∷ []) after h = ground (arith, str_iff x m, successor-first m [] after tt)
successor-first m (x ∷ y ∷ before) after h =
    ground (arith, str_iff x m, successor-first m (y ∷ before) after h.1)

-- In a fallback combo, NextInFallback goes from a model to the one that stands behind its first
-- place in the list, and ends the chain if nothing stands behind it. A model that is listed again
-- further on is never left by its later place.
pub next_in_fallback-first :
    (r : ComboRegistry) (name : Str) (c : Combo) (m : Str) (before after : List Str)
    → lookup name r.combos ≡ some c
    → c.strategy ≡ codes "fallback"
    → c.models ≡ before ++ m ∷ after
    → All (λ x. x ≢ m) before
    → next_in_fallback r name m ≡ first after
unfolding next_in_fallback str_eq
next_in_fallback-first r name c m before after found s e h =
    rw (found, s, e) (successor-first m before after h)
