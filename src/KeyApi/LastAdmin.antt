-- ===== src/KeyApi/LastAdmin.antt =====
-- Whether an admin is left.
use foxrouters.KeyApi.{handle_delete_key, delete_found, delete_resolved, refuses}
use foxrouters.Auth.{GatewayKey, role_admin, Keys}
use foxrouters.Auth.Manager.{is_live_admin, count_admins, remove, get, resolve_key}
use foxrouters.Prelude.{
  leb, Bool-cases, Str, str_eq, ◌≤◌, ◌≡◌, refl, inl, inr, ◌&&◌, Option, none, some, arith, ◌≢◌,
  true, false,
}
use foxrouters.Prelude.Assoc.{Distinct, count_values-erase, lookup-erase_ne, erase-Distinct, erase}

delete_found_keeps :
    (am : Keys) (full_key : Str) (found : Option GatewayKey)
    → Distinct am
    → get am full_key ≡ found
    → 1 ≤ count_admins am
    → 1 ≤ count_admins (delete_found am full_key found).0
unfolding delete_found refuses count_admins get remove
delete_found_keeps am full_key none d q one =
    let same = count_values-erase is_live_admin full_key am d in ground (arith, same, q)
delete_found_keeps am full_key (some info) d q one =
    let same = count_values-erase is_live_admin full_key am d in
    elim (Bool-cases (str_eq info.role role_admin && leb (count_admins am) 1)) [
      | inl y ↦ rw y one
      | inr y ↦ rw y (ground (arith, same, q, y))
    ]

delete_resolved_keeps :
    (am : Keys) (resolved : Option Str)
    → Distinct am
    → 1 ≤ count_admins am
    → 1 ≤ count_admins (delete_resolved am resolved).0
unfolding delete_resolved
delete_resolved_keeps am none d one = one
delete_resolved_keeps am (some full_key) d one =
    delete_found_keeps am full_key (get am full_key) d refl one

-- HandleDeleteKey leaves an enabled admin key if there was one, whatever key is named, in full or
-- masked, in a table of keys with no key twice.
pub handle_delete_key_keeps_admin :
    (am : Keys) (key_param : Str)
    → Distinct am
    → 1 ≤ count_admins am
    → 1 ≤ count_admins (handle_delete_key am key_param).0
unfolding handle_delete_key
handle_delete_key_keeps_admin am key_param d one =
    delete_resolved_keeps am (resolve_key am key_param) d one

-- The guard of the handler and its delete are two calls of the Manager, so that two requests can both
-- pass the guard before either deletes: with two enabled admin keys and no other, each of them is let
-- through by the guard, and after both deletes, in this order, no enabled admin is left.
pub deletes_interleaved :
    (am : Keys) (a b : Str) (first second : GatewayKey)
    → Distinct am
    → a ≢ b
    → get am a ≡ some first
    → get am b ≡ some second
    → is_live_admin first ≡ true
    → is_live_admin second ≡ true
    → count_admins am ≡ 2
    → (refuses am (get am a) ≡ false)
      × (refuses am (get am b) ≡ false)
      × (count_admins (remove (remove am a) b) ≡ 0)
unfolding refuses count_admins get remove
deletes_interleaved am a b first second d ne fa fb la lb two =
    let gone_a = count_values-erase is_live_admin a am d in
    let gone_b = count_values-erase is_live_admin b (erase a am) (erase-Distinct a am d) in
    let still_b = lookup-erase_ne a b am ne in
    (
      ground (arith, fa, two),
      ground (arith, fb, two),
      ground (arith, gone_a, gone_b, still_b, fa, fb, la, lb, two),
    )
