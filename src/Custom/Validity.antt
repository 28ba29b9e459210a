-- ===== src/Custom/Validity.antt =====
-- What the registry of custom.go holds, whatever calls it has seen.
use foxrouters.Custom.{
  add_model, delete_model, CustomRegistry, delete_alias, add_alias, CustomModel, with_defaults,
  known_upstream, trimmed_model, add_trimmed_model, add_trimmed_alias, CustomError, erase_model,
  store_model, store_alias, erase_alias,
}
use foxrouters.Names.Laws.{IsName, validate_name-none_iff}
use foxrouters.Prelude.{
  Bool-cases, All, has_prefix, trim_prefix, codes, Str, ◌≡◌, ◌≢◌, ◌⊎◌, inl, inr, Bool, true, List,
  [], ◌∷◌, Option-cases, length, drop, str_iff, str_eq, has_prefix_split, ◌≤◌, ap, ◌∙◌, Option,
  none, some, ◌++◌, arith,
}
use foxrouters.Names.{validate_name}
use foxrouters.Prelude.Assoc.{All-erase, All-insert}
use foxrouters.Prelude.Space.{trim_space}

-- A model entry: a valid id, an upstream that the dispatcher knows, an owner, and a name for the
-- upstream, which can be empty only for the id "cb/".
pub record IsModelEntry (e : Str × CustomModel) : Type 0 where
  pub id_IsName : IsName e.0
  pub upstream_known : (e.1.upstream ≡ codes "codebuddy") ⊎ (e.1.upstream ≡ codes "grok")
  pub named : (e.1.model_name ≢ []) ⊎ (e.0 ≡ codes "cb/")
  pub owned : e.1.owned_by ≢ []

-- An alias entry: two valid names that differ.
pub record IsAliasEntry (e : Str × Str) : Type 0 where
  pub alias_IsName : IsName e.0
  pub target_IsName : IsName e.1
  pub proper : e.0 ≢ e.1

pub record IsRegistry (r : CustomRegistry) : Type 0 where
  pub model_entries : All IsModelEntry r.models
  pub alias_entries : All IsAliasEntry r.aliases

-- A history of calls, each with whether Redis takes the write.
pub data Op : Type 0 where
  add_m : Str → CustomModel → Op
  delete_m : Str → Op
  add_a : Str → Str → Op
  delete_a : Str → Op

pub step : CustomRegistry → Op → Bool → CustomRegistry
step r (add_m id cm) ok = (add_model r ok id cm).0
step r (delete_m id) ok = (delete_model r ok id).0
step r (add_a alias target) ok = (add_alias r ok alias target).0
step r (delete_a alias) ok = (delete_alias r ok alias).0

pub run_custom_ops : CustomRegistry → List (Op × Bool) → CustomRegistry
run_custom_ops r [] = r
run_custom_ops r ((op, ok) ∷ ops) = run_custom_ops (step r op ok) ops

trim_cb_empty : (id : Str) → id ≢ [] → trim_prefix id (codes "cb/") ≡ [] → id ≡ codes "cb/"
unfolding trim_prefix
trim_cb_empty id ne h = elim (Bool-cases (has_prefix id (codes "cb/"))) [
  | inl p ↦
      let rest : drop 3 id ≡ [] = rw p at h in
      has_prefix_split id (codes "cb/") p ∙ ap (λ t. codes "cb/" ++ t) rest
  | inr p ↦ absurd (ne (rw p at h))
]

nonempty_ne : (id : Str) → 1 ≤ length id → id ≢ []
nonempty_ne [] h = absurd (omega arith)
nonempty_ne (c ∷ id) h = λ e. cc

known_upstream_cases :
    (u : Str) → known_upstream u ≡ true → (u ≡ codes "codebuddy") ⊎ (u ≡ codes "grok")
unfolding known_upstream
known_upstream_cases u h = ground (arith, str_iff u (codes "codebuddy"), str_iff u (codes "grok"))

known_upstream_ne : (u : Str) → known_upstream u ≡ true → u ≢ []
known_upstream_ne u h = ground (arith, known_upstream_cases u h)

with_defaults_named :
    (id : Str) (cm : CustomModel)
    → IsName id
    → ((with_defaults id cm).model_name ≢ []) ⊎ (id ≡ codes "cb/")
unfolding with_defaults
with_defaults_named id cm n = ground (
  arith,
  nonempty_ne id n.nonempty,
  str_iff cm.model_name [],
  trim_cb_empty id (nonempty_ne id n.nonempty),
  str_iff (trim_prefix id (codes "cb/")) [],
)

with_defaults_owned :
    (id : Str) (cm : CustomModel)
    → known_upstream cm.upstream ≡ true
    → (with_defaults id cm).owned_by ≢ []
unfolding with_defaults
with_defaults_owned id cm k =
    ground (arith, known_upstream_ne cm.upstream k, str_iff cm.owned_by [])

with_defaults-IsModelEntry :
    (id : Str) (cm : CustomModel)
    → IsName id
    → known_upstream cm.upstream ≡ true
    → IsModelEntry (id, with_defaults id cm)
unfolding with_defaults
with_defaults-IsModelEntry id cm n k = record {
  id_IsName = n;
  upstream_known = known_upstream_cases cm.upstream k;
  named = with_defaults_named id cm n;
  owned = with_defaults_owned id cm k;
}

store_model-IsRegistry :
    (r : CustomRegistry) (id : Str) (cm : CustomModel) (o : Option CustomError)
    → IsModelEntry (id, cm)
    → IsRegistry r
    → IsRegistry (store_model r id cm o).0
unfolding store_model
store_model-IsRegistry r id cm none v h = record {
  model_entries = All-insert IsModelEntry id cm r.models v h.model_entries;
  alias_entries = h.alias_entries;
}
store_model-IsRegistry r id cm (some e) v h = h

add_trimmed_model-IsRegistry :
    (r : CustomRegistry) (ok : Bool) (id : Str) (cm : CustomModel)
    → IsRegistry r
    → IsRegistry (add_trimmed_model r ok id cm).0
unfolding add_trimmed_model
add_trimmed_model-IsRegistry r ok id cm h = elim (Option-cases (validate_name id (codes "id"))) [
  | inr (e, n) ↦ rw (n, add_trimmed_model) h
  | inl n ↦
      rw (n, add_trimmed_model)
        (elim (Bool-cases (known_upstream cm.upstream)) [
          | inr u ↦ rw u h
          | inl u ↦ rw u (
              store_model-IsRegistry r id (with_defaults id cm) _
                (with_defaults-IsModelEntry id cm ((validate_name-none_iff id (codes "id")).0 n) u)
                h)
        ])
]

store_alias-IsRegistry :
    (r : CustomRegistry) (alias target : Str) (o : Option CustomError)
    → IsAliasEntry (alias, target)
    → IsRegistry r
    → IsRegistry (store_alias r alias target o).0
unfolding store_alias
store_alias-IsRegistry r alias target none v h = record {
  model_entries = h.model_entries;
  alias_entries = All-insert IsAliasEntry alias target r.aliases v h.alias_entries;
}
store_alias-IsRegistry r alias target (some e) v h = h

add_trimmed_alias-IsRegistry :
    (r : CustomRegistry) (ok : Bool) (alias target : Str)
    → IsRegistry r
    → IsRegistry (add_trimmed_alias r ok alias target).0
unfolding add_trimmed_alias
add_trimmed_alias-IsRegistry r ok alias target h =
    elim (Option-cases (validate_name alias (codes "alias"))) [
      | inr (e, n) ↦ rw (n, add_trimmed_alias) h
      | inl n ↦
          rw (n, add_trimmed_alias)
            (elim (Option-cases (validate_name target (codes "target"))) [
              | inr (e, m) ↦ rw m h
              | inl m ↦ rw m (elim (Bool-cases (str_eq alias target)) [
                | inl q ↦ rw q h
                | inr q ↦ rw q (
                    store_alias-IsRegistry r alias target _
                      (record {
                        alias_IsName = (validate_name-none_iff alias (codes "alias")).0 n;
                        target_IsName = (validate_name-none_iff target (codes "target")).0 m;
                        proper = ground (arith, str_iff alias target);
                      })
                      h)
              ])
            ])
    ]

erase_model-IsRegistry :
    (r : CustomRegistry) (id : Str) (o : Option CustomError)
    → IsRegistry r
    → IsRegistry (erase_model r id o).0
unfolding erase_model
erase_model-IsRegistry r id none h = record {
  model_entries = All-erase IsModelEntry id r.models h.model_entries;
  alias_entries = h.alias_entries;
}
erase_model-IsRegistry r id (some e) h = h

erase_alias-IsRegistry :
    (r : CustomRegistry) (alias : Str) (o : Option CustomError)
    → IsRegistry r
    → IsRegistry (erase_alias r alias o).0
unfolding erase_alias
erase_alias-IsRegistry r alias none h = record {
  model_entries = h.model_entries;
  alias_entries = All-erase IsAliasEntry alias r.aliases h.alias_entries;
}
erase_alias-IsRegistry r alias (some e) h = h

step-IsRegistry :
    (r : CustomRegistry) (op : Op) (ok : Bool) → IsRegistry r → IsRegistry (step r op ok)
unfolding step add_model add_alias delete_model delete_alias
step-IsRegistry r (add_m id cm) ok h =
    add_trimmed_model-IsRegistry r ok (trim_space id) (trimmed_model cm) h
step-IsRegistry r (delete_m id) ok h = erase_model-IsRegistry r id _ h
step-IsRegistry r (add_a alias target) ok h =
    add_trimmed_alias-IsRegistry r ok (trim_space alias) (trim_space target) h
step-IsRegistry r (delete_a alias) ok h = erase_alias-IsRegistry r alias _ h

-- Adding and deleting models and aliases, in any order and whether Redis answers or not, keep a
-- registry well formed: every model has a valid id, an upstream that the dispatcher knows, an owner
-- and a name to send (unless its id is "cb/"), and every alias has a valid target other than itself.
pub run_custom_ops-IsRegistry :
    (r : CustomRegistry) (ops : List (Op × Bool)) → IsRegistry r → IsRegistry (run_custom_ops r ops)
unfolding run_custom_ops
run_custom_ops-IsRegistry r [] h = h
run_custom_ops-IsRegistry r ((op, ok) ∷ ops) h =
    run_custom_ops-IsRegistry (step r op ok) ops (step-IsRegistry r op ok h)
