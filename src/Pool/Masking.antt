-- ===== src/Pool/Masking.antt =====
-- What the dashboard sees of the passwords, and how it keeps them.
use foxrouters.Pool.{
  validate_entry, ProxyPool, PoolError, normalise, ProxyEntry, find_entry, masked, id_required,
  check_entry, rebuild_enabled,
}
use foxrouters.Pool.Operations.{
  Answer, merge, unsaved, list, get, update_checked, refused, replace, done, update, update_found,
}
use foxrouters.Prelude.{
  Bool-cases, All, Str, str_iff, str_eq, codes, ◌≡◌, refl, ◌⊎◌, inl, inr, Bool, not, ◌&&◌, Option,
  none, some, List, [], ◌∷◌, map, if_either, sym, ap, ◌∙◌, subst, arith,
}
use foxrouters.Pool.Failures.{find_entry-set_entry, find_entry-id}

-- Empty, or three asterisks.
abbrev pub Hidden : ProxyEntry → Type 0
Hidden e = (e.password ≡ []) ⊎ (e.password ≡ codes "***")

masked-Hidden : (e : ProxyEntry) → Hidden (masked e)
unfolding masked
masked-Hidden e = elim (Bool-cases (str_eq e.password [])) [
  | inl y ↦ rw y (inl ((str_iff e.password []).0 y))
  | inr y ↦ rw y (inr refl)
]

-- No entry that List shows has a password other than the empty text and "***".
list-Hidden : (p : ProxyPool) → All Hidden (list p)
unfolding list
list-Hidden p = all_masked p.entries
  where
    all_masked : (es : List ProxyEntry) → All Hidden (map masked es)
    all_masked [] = tt
    all_masked (e ∷ es) = (masked-Hidden e, all_masked es)

-- The password of what a method returns, if it returns an entry.
abbrev pub password_of : Answer → Option Str
password_of (done e) = some e.password
password_of (unsaved e) = some e.password
password_of (refused r) = none

merge-masked :
    (e shown : ProxyEntry)
    → shown.password ≡ (masked e).password
    → (merge e shown).password ≡ e.password
unfolding merge masked
merge-masked e shown h = elim (Bool-cases (str_eq shown.password (codes "***"))) [
  | inl y ↦ ground (arith, y)
  | inr y ↦ elim (Bool-cases (str_eq e.password [])) [
    | inl z ↦ ground (arith, y, z, h)
    | inr z ↦ absurd (ground (arith, y, z, h, str_iff shown.password (codes "***")))
  ]
]

-- The entry stands in the pool with the same password, and an answer that has a password has that one.
abbrev pub Retained : Str → ProxyEntry → ProxyPool × Answer → Type 0
Retained id e r =
    ((x : ProxyEntry) × (find_entry id r.0.entries ≡ some x) × (x.password ≡ e.password))
    × ((password_of r.1 ≡ none) ⊎ (password_of r.1 ≡ some e.password))

replace-Retained :
    (id : Str) (e m : ProxyEntry) (saved : Bool) (p : ProxyPool)
    → find_entry id p.entries ≡ some e
    → m.id ≡ id
    → m.password ≡ e.password
    → Retained id e (replace id m saved p)
unfolding replace rebuild_enabled
replace-Retained id e m saved p q own same =
    let m' : ProxyEntry = record m { fail_count = 0 } in
    (
      (m', find_entry-set_entry id m' p.entries q own, same),
      inr (
          if_either (λ a. password_of a ≡ some e.password) (p.store && not saved) (unsaved m')
            (done m') (ap some same) (ap some same)),
    )

update_checked-Retained :
    (id : Str) (e m : ProxyEntry) (saved : Bool) (p : ProxyPool) (err : Option PoolError)
    → find_entry id p.entries ≡ some e
    → m.id ≡ id
    → m.password ≡ e.password
    → Retained id e (update_checked id m saved p err)
unfolding update_checked
update_checked-Retained id e m saved p (some r) q own same = ((e, q, refl), inl refl)
update_checked-Retained id e m saved p none q own same = replace-Retained id e m saved p q own same

get-found :
    (id : Str) (p : ProxyPool) (e seen : ProxyEntry)
    → find_entry id p.entries ≡ some e
    → get id p ≡ some seen
    → masked e ≡ seen
unfolding get
get-found id p e seen q g = elim (Bool-cases (str_eq id [])) [
  | inl y ↦ absurd (ground (arith, y, g))
  | inr y ↦ ground (arith, y, g, q)
]

normalise-kept :
    (e shown : ProxyEntry)
    → ((normalise (merge e shown)).id ≡ e.id)
      × ((normalise (merge e shown)).password ≡ (merge e shown).password)
unfolding normalise merge
normalise-kept e shown = (refl, refl)

-- An update that sends back the password as Get shows it, whatever the other fields are and whether
-- it is refused or not, leaves the entry in the pool with the password that it had; and the entry
-- that the update returns, if it returns one, has that password.
pub update_keeps_password :
    (id : Str) (shown : ProxyEntry) (saved : Bool) (p : ProxyPool) (e seen : ProxyEntry)
    → find_entry id p.entries ≡ some e
    → get id p ≡ some seen
    → shown.password ≡ seen.password
    → Retained id e (update id shown saved p)
unfolding update update_found validate_entry
update_keeps_password id shown saved p e seen q g h =
    let own : shown.password ≡ (masked e).password =
      h ∙ ap (λ (w : ProxyEntry). w.password) (sym (get-found id p e seen q g)) in
    let m = normalise (merge e shown) in
    let (same_id, same) = normalise-kept e shown in
    if_either (Retained id e) (str_eq id []) (p, refused id_required)
      (update_found id shown saved p (find_entry id p.entries)) ((e, q, refl), inl refl)
      (subst (λ o. Retained id e (update_found id shown saved p o)) (sym q)
        (update_checked-Retained id e m saved p (check_entry m) q
          (same_id ∙ find_entry-id id p.entries q) (same ∙ merge-masked e shown own)))
