-- ===== src/Combo/Tests.antt =====
-- Runs of the combo registry, and the theorems at concrete inputs.
use foxrouters.Combo.Index.{resolve-combo, Expected}
use foxrouters.Combo.Rotation.{resolve_fair}
use foxrouters.Combo.{
  redis, ComboRegistry, Combo, at, hit, resolve, new_combo_registry, rotate, add_combo,
}
use foxrouters.Names.{valid_name_char, valid_name_regex, validate_name}
use foxrouters.Prelude.{
  keep, contains, str_eq, trim_prefix, codes, has_prefix, ℕ, suc, ◌+◌, ◌<◌, ◌≡◌, refl, true, false,
  none, some, [], ◌∷◌, ◌++◌, arith,
}
use foxrouters.Prelude.Int.{pos, negsuc}
use foxrouters.Prelude.Assoc.{lookup, insert}
use foxrouters.Prelude.Space.{trim_space}

abbrev draft : Combo
draft = record {
  name = codes " team ";
  strategy = codes "round_robin";
  models = codes "a" ∷ codes "  " ∷ codes " b" ∷ codes "c" ∷ [];
  description = codes "";
}

abbrev team : Combo
team = record {
  name = codes "team";
  strategy = codes "round_robin";
  models = codes "a" ∷ codes "b" ∷ codes "c" ∷ [];
  description = codes "";
}

abbrev registry : ComboRegistry
registry = record { combos = (codes "team", team) ∷ []; store = true; fallback_seq = [] }

add_draft : add_combo (new_combo_registry true) true draft ≡ (registry, none)
unfolding add_combo new_combo_registry trim_space validate_name valid_name_regex valid_name_char
    contains has_prefix str_eq keep insert
add_draft = refl

add_draft_offline : (add_combo (new_combo_registry true) false draft).1 ≡ some redis
unfolding add_combo new_combo_registry trim_space validate_name valid_name_regex valid_name_char
    contains has_prefix str_eq keep insert
add_draft_offline = refl

fifth : (resolve registry (codes "combo/team") (some (pos 5))).1 ≡ hit (codes "b")
unfolding resolve rotate has_prefix trim_prefix lookup str_eq
fifth = refl

negative : (resolve registry (codes "combo/team") (some (negsuc 0))).1 ≡ hit (codes "b")
unfolding resolve rotate has_prefix trim_prefix lookup str_eq
negative = refl

resolve-combo_example :
    Expected registry
      (lookup (codes "team") registry.combos)
      (resolve registry (codes "combo/" ++ codes "team") (some (negsuc 6))).1
resolve-combo_example = resolve-combo registry (codes "team") (some (negsuc 6))

resolve_fair_example :
    (j : ℕ) × (j < 3)
    × ((resolve registry (codes "combo/" ++ codes "team") (some (pos (suc (7 + j))))).1
        ≡ at team.models 2)
unfolding lookup str_eq
resolve_fair_example = resolve_fair registry (codes "team") team 7 2 refl refl refl (omega arith)
