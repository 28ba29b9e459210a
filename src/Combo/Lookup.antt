-- ===== src/Combo/Lookup.antt =====
-- AddCombo and DeleteCombo of combo.go, seen through the lookups.
use foxrouters.Combo.Index.{resolve-combo}
use foxrouters.Combo.Validity.{Added, kept, add_combo-Added}
use foxrouters.Combo.{
  trimmed, delete_combo, resolve, ComboRegistry, miss, add_combo, Combo, get_combo, ComboError,
  drop_combo, delete_combo_row,
}
use foxrouters.Prelude.{
  codes, Str, ◌≡◌, ◌≢◌, inl, inr, Bool, Option, none, some, ◌++◌, if◌then◌else◌, refl, arith,
}
use foxrouters.Prelude.Int.{ℤ}
use foxrouters.Prelude.Assoc.{
  lookup-insert_self, lookup-erase_ne, lookup-insert_ne, lookup, erase, lookup-erase_self,
}
use foxrouters.Prelude.Space.{trim_space}

Added-get_combo :
    (r : ComboRegistry) (c : Combo) (p : ComboRegistry × Option ComboError)
    → Added r c p
    → p.1 ≡ none
    → (s : Str) × (get_combo p.0 c.name ≡ some (kept (record c { strategy = s })))
unfolding get_combo
Added-get_combo r c p (inl (q, (s, v, e))) h =
    (s, rw e (lookup-insert_self c.name (kept (record c { strategy = s })) r.combos))
Added-get_combo r c p (inr (q, e)) h = absurd (q h)

Added-other :
    (r : ComboRegistry) (c : Combo) (p : ComboRegistry × Option ComboError) (other : Str)
    → Added r c p
    → c.name ≢ other
    → get_combo p.0 other ≡ get_combo r other
unfolding get_combo
Added-other r c p other (inl (q, (s, v, e))) ne =
    rw e (lookup-insert_ne c.name other (kept (record c { strategy = s })) r.combos ne)
Added-other r c p other (inr (q, e)) ne = rw e

-- After an AddCombo without an error, GetCombo under the trimmed name finds the combo with its
-- models trimmed and the blank ones dropped; every other name finds what it found before.
pub get_combo-add_combo :
    (r : ComboRegistry) (redis_ok : Bool) (c : Combo)
    → (add_combo r redis_ok c).1 ≡ none
    → ((s : Str) × (get_combo (add_combo r redis_ok c).0 (trim_space c.name)
          ≡ some (kept (record (trimmed c) { strategy = s }))))
      × ((other : Str)
          → trim_space c.name ≢ other
          → get_combo (add_combo r redis_ok c).0 other ≡ get_combo r other)
get_combo-add_combo r redis_ok c h = (
  Added-get_combo r (trimmed c) (add_combo r redis_ok c) (add_combo-Added r redis_ok c) h,
  λ other ne.
      Added-other r (trimmed c) (add_combo r redis_ok c) other (add_combo-Added r redis_ok c) ne,
)

drop_combo_erases :
    (r : ComboRegistry) (name : Str) (o : Option ComboError)
    → (drop_combo r name o).1 ≡ none
    → (drop_combo r name o).0.combos ≡ erase name r.combos
unfolding drop_combo
drop_combo_erases r name none h = refl
drop_combo_erases r name (some e) h = cc

delete_combo_erases :
    (r : ComboRegistry) (redis_ok : Bool) (name : Str)
    → (delete_combo r redis_ok name).1 ≡ none
    → (delete_combo r redis_ok name).0.combos ≡ erase (trim_space name) r.combos
unfolding delete_combo
delete_combo_erases r redis_ok name h = ground (
  arith,
  drop_combo_erases r (trim_space name) (if r.store then delete_combo_row redis_ok else none),
)

-- After a DeleteCombo without an error, Resolve of "combo/<name>" is a miss for the trimmed name,
-- and every other name finds what it found before.
pub resolve-delete_combo :
    (r : ComboRegistry) (redis_ok : Bool) (name : Str) (incr : Option ℤ)
    → (delete_combo r redis_ok name).1 ≡ none
    → ((resolve (delete_combo r redis_ok name).0 (codes "combo/" ++ trim_space name) incr).1 ≡ miss)
      × ((other : Str)
          → trim_space name ≢ other
          → get_combo (delete_combo r redis_ok name).0 other ≡ get_combo r other)
unfolding get_combo
resolve-delete_combo r redis_ok name incr h =
    let r' = (delete_combo r redis_ok name).0 in
    let e = delete_combo_erases r redis_ok name h in
    let gone : lookup (trim_space name) r'.combos ≡ none =
      rw e (lookup-erase_self (trim_space name) r.combos) in
    (
      rw gone at (resolve-combo r' (trim_space name) incr),
      λ other ne. rw e (lookup-erase_ne (trim_space name) other r.combos ne),
    )
