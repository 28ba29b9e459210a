-- ===== src/Combo/Validity.antt =====
-- AddCombo and DeleteCombo of combo.go: what the registry holds.
use foxrouters.Combo.{
  ComboRegistry, clean_models, add_combo, Combo, normal_strategy, ComboError, drop_combo,
  add_trimmed, add_models, store_combo, delete_combo, trimmed,
}
use foxrouters.Names.Laws.{IsName, validate_name-none_iff}
use foxrouters.Prelude.{
  Bool-cases, length, All, keep, has_prefix, Str, codes, str_eq, ◌≤◌, ◌≡◌, refl, ◌≢◌, ◌⊎◌, inl, inr,
  Bool, false, List, [], ◌∷◌, Option-cases, is_empty, str_iff, Option, none, some, arith, leb, sym,
  subst,
}
use foxrouters.Prelude.Assoc.{insert, All-insert, All-erase}
use foxrouters.Prelude.Space.{trim_space}
use foxrouters.Names.{validate_name}

-- What AddCombo promises of a combo that it keeps.
pub record IsCombo (c : Combo) : Type 0 where
  pub name_IsName : IsName c.name
  pub unprefixed : has_prefix c.name (codes "combo/") ≡ false
  pub strategy_known : (c.strategy ≡ codes "fallback") ⊎ (c.strategy ≡ codes "round_robin")
  pub some_models : 1 ≤ length c.models
  pub few_models : length c.models ≤ 32
  pub no_blank_model : All (λ m. m ≢ []) c.models

-- A history of calls, each with whether Redis takes the write.
pub data Op : Type 0 where
  add : Combo → Op
  delete : Str → Op

pub run_combo_ops : ComboRegistry → List (Op × Bool) → ComboRegistry
run_combo_ops r [] = r
run_combo_ops r ((add c, ok) ∷ ops) = run_combo_ops (add_combo r ok c).0 ops
run_combo_ops r ((delete n, ok) ∷ ops) = run_combo_ops (delete_combo r ok n).0 ops

-- Each combo stands under its own name.
abbrev pub IsEntry : Str × Combo → Type 0
IsEntry e = IsCombo e.1 × (e.0 ≡ e.1.name)

pub record IsRegistry (r : ComboRegistry) : Type 0 where
  pub entries : All IsEntry r.combos

clean_models-no_blank : (ms : List Str) → All (λ m. m ≢ []) (clean_models ms)
unfolding clean_models keep
clean_models-no_blank [] = tt
clean_models-no_blank (m ∷ ms) = elim (Bool-cases (str_eq (trim_space m) [])) [
  | inl e ↦ rw e (clean_models-no_blank ms)
  | inr e ↦ rw e (ground (arith, str_iff (trim_space m) []), clean_models-no_blank ms)
]

normal_strategy_known :
    (s t : Str) → normal_strategy s ≡ some t → (t ≡ codes "fallback") ⊎ (t ≡ codes "round_robin")
unfolding normal_strategy
normal_strategy_known s t h =
    ground (arith, str_iff s (codes "fallback"), str_iff s (codes "round_robin"))

-- The combo that AddCombo keeps for an input whose name and strategy are settled.
abbrev pub kept : Combo → Combo
kept c = record c { models = clean_models c.models; description = trim_space c.description }

-- Either nothing failed and the registry gained the combo, or there is an error and it is as before.
abbrev pub Added : ComboRegistry → Combo → ComboRegistry × Option ComboError → Type 0
Added r c p =
    ((p.1 ≡ none)
      × ((s : Str) × IsCombo (kept (record c { strategy = s }))
          × (p.0
              ≡ record r { combos = insert c.name (kept (record c { strategy = s })) r.combos })))
    ⊎ ((p.1 ≢ none) × (p.0 ≡ r))

is_empty_pos : (ms : List Str) → is_empty ms ≡ false → 1 ≤ length ms
is_empty_pos [] h = cc
is_empty_pos (m ∷ ms) h = omega arith

store_combo-Added :
    (r : ComboRegistry) (c : Combo) (o : Option ComboError)
    → IsCombo (kept c)
    → Added r c (store_combo r (kept c) o)
unfolding store_combo
store_combo-Added r c none v = inl (refl, (c.strategy, v, refl))
store_combo-Added r c (some e) v = inr (λ h. cc, refl)

add_models-Added :
    (r : ComboRegistry) (redis_ok : Bool) (c : Combo)
    → IsName c.name
    → has_prefix c.name (codes "combo/") ≡ false
    → (c.strategy ≡ codes "fallback") ⊎ (c.strategy ≡ codes "round_robin")
    → Added r c (add_models r redis_ok c)
unfolding add_models
add_models-Added r redis_ok c n p s = elim (Bool-cases (leb 33 (length (clean_models c.models)))) [
  | inl long ↦ rw long (inr (λ q. cc, refl))
  | inr short ↦ rw short (elim (Bool-cases (is_empty (clean_models c.models))) [
    | inl e ↦ rw e (inr (λ q. cc, refl))
    | inr e ↦ rw e (
        store_combo-Added r c _ (record {
          name_IsName = n;
          unprefixed = p;
          strategy_known = s;
          some_models = is_empty_pos (clean_models c.models) e;
          few_models = ground arith;
          no_blank_model = clean_models-no_blank c.models;
        }))
  ])
]

add_trimmed-Added :
    (r : ComboRegistry) (redis_ok : Bool) (c : Combo) → Added r c (add_trimmed r redis_ok c)
unfolding add_trimmed
add_trimmed-Added r redis_ok c = elim (Option-cases (validate_name c.name (codes "name"))) [
  | inr (e, h) ↦ rw (h, add_trimmed) (inr (λ q. cc, refl))
  | inl name_ok ↦
      rw (name_ok, add_trimmed)
        (elim (Bool-cases (has_prefix c.name (codes "combo/"))) [
          | inl p ↦ rw p (inr (λ q. cc, refl))
          | inr p ↦ rw p (elim (Option-cases (normal_strategy c.strategy)) [
            | inl n ↦ rw n (inr (λ q. cc, refl))
            | inr (s, n) ↦ rw n (
                add_models-Added r redis_ok (record c { strategy = s })
                  ((validate_name-none_iff c.name (codes "name")).0 name_ok) p
                  (normal_strategy_known c.strategy s n))
          ])
        ])
]

-- AddCombo either returns no error, and then the registry has gained exactly one entry: the combo
-- with its name and models trimmed, blank models dropped and its strategy settled, which has a
-- valid name without the prefix "combo/", a known strategy and 1 to 32 models that are not blank.
-- Or it returns an error, and then the registry is as it was.
pub add_combo-Added :
    (r : ComboRegistry) (redis_ok : Bool) (c : Combo) → Added r (trimmed c) (add_combo r redis_ok c)
unfolding add_combo
add_combo-Added r redis_ok c = add_trimmed-Added r redis_ok (trimmed c)

Added-IsRegistry :
    (r : ComboRegistry) (c : Combo) (p : ComboRegistry × Option ComboError)
    → IsRegistry r
    → Added r c p
    → IsRegistry p.0
Added-IsRegistry r c p h (inl (q, (s, v, e))) = subst IsRegistry (sym e) (record {
  entries =
      All-insert IsEntry c.name (kept (record c { strategy = s })) r.combos (v, refl) h.entries;
})
Added-IsRegistry r c p h (inr (q, e)) = subst IsRegistry (sym e) h

drop_combo-IsRegistry :
    (r : ComboRegistry) (name : Str) (o : Option ComboError)
    → IsRegistry r
    → IsRegistry (drop_combo r name o).0
unfolding drop_combo
drop_combo-IsRegistry r name none h = record { entries = All-erase IsEntry name r.combos h.entries }
drop_combo-IsRegistry r name (some e) h = h

delete_combo-IsRegistry :
    (r : ComboRegistry) (redis_ok : Bool) (name : Str)
    → IsRegistry r
    → IsRegistry (delete_combo r redis_ok name).0
unfolding delete_combo
delete_combo-IsRegistry r redis_ok name h = elim (Bool-cases (str_eq (trim_space name) [])) [
  | inl e ↦ rw e h
  | inr e ↦ rw e (drop_combo-IsRegistry r (trim_space name) _ h)
]

-- Adding and deleting combos, in any order and whether Redis answers or not, keep a registry well
-- formed: each entry is a combo as AddCombo promises it and stands under its own name.
pub run_combo_ops-IsRegistry :
    (r : ComboRegistry) (ops : List (Op × Bool)) → IsRegistry r → IsRegistry (run_combo_ops r ops)
unfolding run_combo_ops
run_combo_ops-IsRegistry r [] h = h
run_combo_ops-IsRegistry r ((add c, ok) ∷ ops) h =
    run_combo_ops-IsRegistry (add_combo r ok c).0 ops
      (Added-IsRegistry r (trimmed c) (add_combo r ok c) h (add_combo-Added r ok c))
run_combo_ops-IsRegistry r ((delete n, ok) ∷ ops) h =
    run_combo_ops-IsRegistry (delete_combo r ok n).0 ops (delete_combo-IsRegistry r ok n h)
