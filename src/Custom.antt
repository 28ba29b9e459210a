-- ===== src/Custom.antt =====
-- internal/proxy/custom.go, and the calls of internal/db/db.go that it makes. A method takes the
-- registry and returns the new one. Whether Redis takes a write, and what it holds, are arguments.
pub mod Laws
mod Tests
pub mod Validity
use foxrouters.Names.{validate_name, NameError}
use foxrouters.Prelude.{
  if◌then◌else◌, trim_prefix, str_eq, Str, codes, Bool, ◌||◌, Option, none, some, List, [], map,
}
use foxrouters.Prelude.Assoc.{erase, Assoc, insert, lookup}
use foxrouters.Prelude.Space.{trim_space}

pub record CustomModel : Type 0 where
  pub upstream : Str
  pub model_name : Str
  pub owned_by : Str

-- `store` says whether the registry has a database.
pub record CustomRegistry : Type 0 where
  pub models : Assoc CustomModel
  pub aliases : Assoc Str
  pub store : Bool

pub data CustomError : Type 0 where
  bad_name : NameError → CustomError
  bad_upstream : CustomError
  self_alias : CustomError
  alias_and_target_required : CustomError
  redis : CustomError

unfoldable pub new_custom_registry : Bool → CustomRegistry
new_custom_registry store = record { models = []; aliases = []; store = store }

-- What Redis holds of models and aliases; `none` for an error of a read.
unfoldable pub load :
    CustomRegistry
    → Option (Assoc CustomModel)
    → Option (Assoc Str)
    → CustomRegistry × Option CustomError
load r models aliases =
    if r.store
    then elim models [
      | none ↦ (r, some redis)
      | some ms ↦ elim aliases [
        | none ↦ (r, some redis)
        | some als ↦ (record r { models = ms; aliases = als }, none)
      ]
    ]
    else (r, none)

pub record Resolution : Type 0 where
  pub resolved_model : Str
  pub upstream : Str
  pub model_name : Str

-- `if target, ok := aliases[model]; ok && target != ""`
unfoldable pub follow : Str → Option Str → Str
follow model none = model
follow model (some target) = if str_eq target [] then model else target

unfoldable pub route_model : Str → Option CustomModel → Resolution
route_model model none = record { resolved_model = model; upstream = []; model_name = [] }
route_model model (some cm) = record {
  resolved_model = model;
  upstream = cm.upstream;
  model_name = cm.model_name;
}

unfoldable pub resolve : CustomRegistry → Str → Resolution
unfolding follow route_model
resolve r model =
    let target = follow model (lookup model r.aliases) in
    route_model target (lookup target r.models)

-- An entry of ListModels.
unfoldable pub list_models_entry : Str × CustomModel → Str × Str
list_models_entry (id, cm) = (id, if str_eq cm.owned_by [] then cm.upstream else cm.owned_by)

unfoldable pub list_models : CustomRegistry → List (Str × Str)
unfolding list_models_entry
list_models r = map list_models_entry r.models

-- SaveCustomModel, DeleteCustomModel and DeleteCustomAlias of the database; SaveCustomAlias refuses
-- empty texts first.
unfoldable pub save_row : Bool → Option CustomError
save_row redis_ok = if redis_ok then none else some redis

unfoldable pub save_custom_alias : Bool → Str → Str → Option CustomError
save_custom_alias redis_ok alias target =
    if str_eq alias [] || str_eq target []
    then some alias_and_target_required
    else if redis_ok
    then none
    else some redis

unfoldable pub known_upstream : Str → Bool
known_upstream u = str_eq u (codes "codebuddy") || str_eq u (codes "grok")

-- The defaults of AddModel: the name that goes upstream, and the owner.
unfoldable pub with_defaults : Str → CustomModel → CustomModel
with_defaults id cm = record cm {
  model_name =
      if str_eq cm.model_name []
      then (if str_eq cm.upstream (codes "codebuddy") then trim_prefix id (codes "cb/") else id)
      else cm.model_name;
  owned_by = if str_eq cm.owned_by [] then cm.upstream else cm.owned_by;
}

store_model :
    CustomRegistry → Str → CustomModel → Option CustomError → CustomRegistry × Option CustomError
store_model r id cm (some e) = (r, some e)
store_model r id cm none = (record r { models = insert id cm r.models }, none)

-- From the checks on, with the trimmed texts.
add_trimmed_model : CustomRegistry → Bool → Str → CustomModel → CustomRegistry × Option CustomError
unfolding store_model save_row known_upstream with_defaults
add_trimmed_model r redis_ok id cm = elim (validate_name id (codes "id")) [
  | some e ↦ (r, some (bad_name e))
  | none ↦
      if known_upstream cm.upstream
      then store_model r id (with_defaults id cm) (if r.store then save_row redis_ok else none)
      else (r, some bad_upstream)
]

abbrev pub trimmed_model : CustomModel → CustomModel
trimmed_model cm = record {
  upstream = trim_space cm.upstream;
  model_name = trim_space cm.model_name;
  owned_by = trim_space cm.owned_by;
}

unfoldable pub add_model :
    CustomRegistry → Bool → Str → CustomModel → CustomRegistry × Option CustomError
unfolding add_trimmed_model
add_model r redis_ok id cm = add_trimmed_model r redis_ok (trim_space id) (trimmed_model cm)

erase_model : CustomRegistry → Str → Option CustomError → CustomRegistry × Option CustomError
erase_model r id (some e) = (r, some e)
erase_model r id none = (record r { models = erase id r.models }, none)

unfoldable pub delete_model : CustomRegistry → Bool → Str → CustomRegistry × Option CustomError
unfolding erase_model save_row
delete_model r redis_ok id = erase_model r id (if r.store then save_row redis_ok else none)

store_alias : CustomRegistry → Str → Str → Option CustomError → CustomRegistry × Option CustomError
store_alias r alias target (some e) = (r, some e)
store_alias r alias target none = (record r { aliases = insert alias target r.aliases }, none)

add_trimmed_alias : CustomRegistry → Bool → Str → Str → CustomRegistry × Option CustomError
unfolding store_alias save_custom_alias
add_trimmed_alias r redis_ok alias target = elim (validate_name alias (codes "alias")) [
  | some e ↦ (r, some (bad_name e))
  | none ↦ elim (validate_name target (codes "target")) [
    | some e ↦ (r, some (bad_name e))
    | none ↦
        if str_eq alias target
        then (r, some self_alias)
        else store_alias r alias target
            (if r.store then save_custom_alias redis_ok alias target else none)
  ]
]

unfoldable pub add_alias : CustomRegistry → Bool → Str → Str → CustomRegistry × Option CustomError
unfolding add_trimmed_alias
add_alias r redis_ok alias target =
    add_trimmed_alias r redis_ok (trim_space alias) (trim_space target)

erase_alias : CustomRegistry → Str → Option CustomError → CustomRegistry × Option CustomError
erase_alias r alias (some e) = (r, some e)
erase_alias r alias none = (record r { aliases = erase alias r.aliases }, none)

unfoldable pub delete_alias : CustomRegistry → Bool → Str → CustomRegistry × Option CustomError
unfolding erase_alias save_row
delete_alias r redis_ok alias = erase_alias r alias (if r.store then save_row redis_ok else none)
