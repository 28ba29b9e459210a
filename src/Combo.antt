-- ===== src/Combo.antt =====
-- internal/proxy/combo.go, and the calls of internal/db/db.go that it makes. A method takes the
-- registry and returns the new one; locks are held for a whole method and leave no trace. What Redis
-- answers is an argument: whether a write succeeded, and the value of an INCR.
pub mod Index
pub mod Rotation
pub mod Validity
pub mod Chain
pub mod Lookup
mod Tests
use foxrouters.Prelude.{
  ℕ, zero, suc, ◌+◌, ◌^◌, Bool, true, false, ◌&&◌, not, Option, none, some, List, [], ◌∷◌, map, Str,
  codes, leb, str_eq, length, get_elem?, keep, is_empty, has_prefix, trim_prefix, nat_beq,
  if◌then◌else◌, ◌-◌,
}
use foxrouters.Prelude.Space.{trim_space}
use foxrouters.Prelude.Assoc.{Assoc, lookup, insert, erase}
use foxrouters.Prelude.Int.{ℤ, pos, negsuc, sub_one_i64, rem, wrap_index}
use foxrouters.Names.{NameError, validate_name}

pub record Combo : Type 0 where
  pub name : Str
  pub strategy : Str
  pub models : List Str
  pub description : Str

-- `store` says whether the registry has a database. `fallback_seq` is the package's variable.
pub record ComboRegistry : Type 0 where
  pub combos : Assoc Combo
  pub store : Bool
  pub fallback_seq : Assoc ℤ

pub data ComboError : Type 0 where
  bad_name : NameError → ComboError
  reserved_prefix : ComboError
  bad_strategy : ComboError
  too_many_models : ℕ → ComboError
  no_models : ComboError
  name_required : ComboError
  redis : ComboError

-- What a lookup of a model yields: no combo, the next model, or an index out of range.
pub data Resolved : Type 0 where
  miss : Resolved
  hit : Str → Resolved
  panic : Resolved

unfoldable pub new_combo_registry : Bool → ComboRegistry
new_combo_registry store = record { combos = []; store = store; fallback_seq = [] }

-- `n++` on an int64
abbrev pub add_one_i64 : ℤ → ℤ
add_one_i64 (pos n) = if nat_beq n (2 ^ 63 - 1) then negsuc (2 ^ 63 - 1) else pos (n + 1)
add_one_i64 (negsuc zero) = pos 0
add_one_i64 (negsuc (suc n)) = negsuc n

abbrev pub or_zero : Option ℤ → ℤ
or_zero none = pos 0
or_zero (some v) = v

-- The zero value of a key that is missing is 0.
unfoldable pub fallback_counter : Str → ComboRegistry → ComboRegistry × ℤ
fallback_counter name r =
    let v = add_one_i64 (or_zero (lookup name r.fallback_seq)) in
    (record r { fallback_seq = insert name v r.fallback_seq }, v)

abbrev pub is_zero : ℤ → Bool
is_zero (pos zero) = true
is_zero _ = false

-- `c.Models[i]`
abbrev pub at : List Str → ℕ → Resolved
at ms i = elim (get_elem? ms i) [ none ↦ panic | some m ↦ hit m ]

unfoldable pub rr_index : ℤ → ℕ → ℕ
rr_index counter n = wrap_index (rem (sub_one_i64 counter) n) n

-- The `round_robin` branch of Resolve; `incr` is the answer of INCR, or `none` for an error.
unfoldable pub rotate : ComboRegistry → Str → List Str → Option ℤ → ComboRegistry × Resolved
unfolding rr_index
rotate r name ms incr =
    let counter = if r.store then or_zero incr else pos 0 in
    if is_zero counter
    then (let (r', v) = fallback_counter name r in (r', at ms (rr_index v (length ms))))
    else (r, at ms (rr_index counter (length ms)))

pick : ComboRegistry → Str → Option ℤ → Option Combo → ComboRegistry × Resolved
pick r name incr none = (r, miss)
pick r name incr (some c) =
    if is_empty c.models
    then (r, miss)
    else if str_eq c.strategy (codes "round_robin")
    then rotate r name c.models incr
    else (r, at c.models 0)

unfoldable pub resolve : ComboRegistry → Str → Option ℤ → ComboRegistry × Resolved
unfolding pick
resolve r model incr =
    if not (has_prefix model (codes "combo/"))
    then (r, miss)
    else (let name = trim_prefix model (codes "combo/") in pick r name incr (lookup name r.combos))

-- The loop of NextInFallback: the item behind the first place that holds `failed` and is not last.
unfoldable pub successor : Str → List Str → Option Str
successor failed [] = none
successor failed (m ∷ []) = none
successor failed (m ∷ n ∷ ms) =
    let rest = successor failed (n ∷ ms) in if str_eq m failed then some n else rest

next_of : Str → Option Combo → Option Str
next_of failed none = none
next_of failed (some c) =
    if str_eq c.strategy (codes "fallback") then successor failed c.models else none

unfoldable pub next_in_fallback : ComboRegistry → Str → Str → Option Str
unfolding next_of
next_in_fallback r name failed = next_of failed (lookup name r.combos)

unfoldable pub get_combo : ComboRegistry → Str → Option Combo
get_combo r name = lookup name r.combos

unfoldable pub list_combos : ComboRegistry → List Combo
list_combos r = map (λ e. e.1) r.combos

-- SaveCombo and DeleteCombo of the database.
unfoldable pub save_combo : Bool → Combo → Option ComboError
save_combo redis_ok c =
    if str_eq c.name [] then some name_required else if redis_ok then none else some redis

unfoldable pub delete_combo_row : Bool → Option ComboError
delete_combo_row redis_ok = if redis_ok then none else some redis

-- `""` is the strategy `fallback`; `none` is an error.
unfoldable pub normal_strategy : Str → Option Str
normal_strategy s =
    if str_eq s []
    then some (codes "fallback")
    else if str_eq s (codes "fallback")
    then some s
    else if str_eq s (codes "round_robin")
    then some s
    else none

unfoldable pub clean_models : List Str → List Str
clean_models ms = keep (λ m. not (str_eq m [])) (map trim_space ms)

store_combo : ComboRegistry → Combo → Option ComboError → ComboRegistry × Option ComboError
store_combo r c (some e) = (r, some e)
store_combo r c none = (record r { combos = insert c.name c r.combos }, none)

-- From the list of models on: `c` has its name and strategy checked.
add_models : ComboRegistry → Bool → Combo → ComboRegistry × Option ComboError
unfolding store_combo save_combo clean_models
add_models r redis_ok c =
    let cleaned = clean_models c.models in
    if leb 33 (length cleaned)
    then (r, some (too_many_models (length cleaned)))
    else if is_empty cleaned
    then (r, some no_models)
    else (let c' = record c { models = cleaned; description = trim_space c.description } in
        store_combo r c' (if r.store then save_combo redis_ok c' else none))

-- From the name check on, with the trimmed fields.
add_trimmed : ComboRegistry → Bool → Combo → ComboRegistry × Option ComboError
unfolding add_models normal_strategy
add_trimmed r redis_ok c = elim (validate_name c.name (codes "name")) [
  | some e ↦ (r, some (bad_name e))
  | none ↦
      if has_prefix c.name (codes "combo/")
      then (r, some reserved_prefix)
      else elim (normal_strategy c.strategy) [
        | none ↦ (r, some bad_strategy)
        | some s ↦ add_models r redis_ok (record c { strategy = s })
      ]
]

abbrev pub trimmed : Combo → Combo
trimmed c = record c { name = trim_space c.name; strategy = trim_space c.strategy }

unfoldable pub add_combo : ComboRegistry → Bool → Combo → ComboRegistry × Option ComboError
unfolding add_trimmed
add_combo r redis_ok c = add_trimmed r redis_ok (trimmed c)

drop_combo : ComboRegistry → Str → Option ComboError → ComboRegistry × Option ComboError
drop_combo r name (some e) = (r, some e)
drop_combo r name none = (record r { combos = erase name r.combos }, none)

unfoldable pub delete_combo : ComboRegistry → Bool → Str → ComboRegistry × Option ComboError
unfolding drop_combo delete_combo_row
delete_combo r redis_ok raw =
    let name = trim_space raw in
    if str_eq name []
    then (r, some name_required)
    else drop_combo r name (if r.store then delete_combo_row redis_ok else none)

-- LoadCombos backfills a missing name; `rows` is what Redis holds, or `none` for an error.
unfoldable pub backfill : Str × Combo → Str × Combo
backfill (name, c) = (name, if str_eq c.name [] then record c { name = name } else c)

load_rows : ComboRegistry → Option (List (Str × Combo)) → ComboRegistry × Option ComboError
load_rows r none = (r, some redis)
load_rows r (some rows) = (record r { combos = map backfill rows }, none)

unfoldable pub load :
    ComboRegistry → Option (List (Str × Combo)) → ComboRegistry × Option ComboError
unfolding load_rows backfill
load r rows = if r.store then load_rows r rows else (r, none)
