-- ===== src/Custom/Tests.antt =====
-- Runs of the custom registry, and the theorems at concrete inputs.
use foxrouters.Custom.{
  add_alias, add_model, CustomRegistry, resolve, CustomModel, new_custom_registry,
}
use foxrouters.Names.{valid_name_regex, valid_name_char, validate_name}
use foxrouters.Prelude.{
  has_prefix, contains, str_eq, codes, trim_prefix, ◌≡◌, refl, true, false, none, [], ◌∷◌,
}
use foxrouters.Prelude.Assoc.{insert, lookup}
use foxrouters.Prelude.Space.{trim_space}

abbrev sonnet : CustomModel
sonnet = record { upstream = codes "codebuddy"; model_name = []; owned_by = [] }

abbrev filled : CustomModel
filled = record {
  upstream = codes "codebuddy";
  model_name = codes "sonnet";
  owned_by = codes "codebuddy";
}

abbrev registry : CustomRegistry
registry = record { models = (codes "cb/sonnet", filled) ∷ []; aliases = []; store = false }

abbrev aliased : CustomRegistry
aliased = record registry { aliases = (codes "mine", codes "cb/sonnet") ∷ [] }

add_sonnet :
    add_model (new_custom_registry false) true (codes " cb/sonnet") sonnet ≡ (registry, none)
unfolding add_model new_custom_registry trim_space validate_name valid_name_regex valid_name_char
    contains has_prefix str_eq insert trim_prefix
add_sonnet = refl

add_mine : add_alias registry true (codes "mine ") (codes "cb/sonnet") ≡ (aliased, none)
unfolding add_alias trim_space validate_name valid_name_regex valid_name_char contains has_prefix
    str_eq insert
add_mine = refl

resolve_mine : resolve aliased (codes "mine") ≡ record {
  resolved_model = codes "cb/sonnet";
  upstream = codes "codebuddy";
  model_name = codes "sonnet";
}
unfolding resolve lookup str_eq
resolve_mine = refl
