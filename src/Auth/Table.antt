-- ===== src/Auth/Table.antt =====
-- The table of keys that the calls of Manager leave behind.
use foxrouters.Auth.{GatewayKey, Keys, mask_key, role_admin, role_inference}
use foxrouters.Auth.Manager.{
  add_with_role, apply_change, remove, Change, update, spend, increment_tokens, increment_requests,
}
use foxrouters.Prelude.{
  All, Str, ℕ, ◌≡◌, refl, ◌≢◌, Option, none, some, List, [], ◌∷◌, str_iff, Bool, true, false, arith,
}
use foxrouters.Prelude.Int.{add_i64, pos, ℤ}
use foxrouters.Prelude.Assoc.{
  erase-Distinct, Distinct, All-lookup, All-erase, insert, All-insert, lookup, insert-Distinct,
}

-- A key stands once, under its own text, with its mask and a role.
abbrev pub IsKeyEntry : Str × GatewayKey → Type 0
IsKeyEntry e = (e.1.key ≡ e.0) × (e.1.key_masked ≡ mask_key e.0) × (e.1.role ≢ [])

pub record IsTable (am : Keys) : Type 0 where
  pub distinct : Distinct am
  pub entries : All IsKeyEntry am

pub data Call : Type 0 where
  add_key : ℕ → Str → Str → Str → List Str → ℤ → ℤ → ℤ → Call
  remove_key : Str → Call
  update_key : Str → Change → Call
  use_tokens : Str → ℤ → Call
  use_request : Str → Call

pub make : Keys → Call → Keys
make am (add_key now key name role models rpm burst quota) =
    (add_with_role am now key name role models rpm burst quota).0
make am (remove_key key) = remove am key
make am (update_key key c) = (update am key c).0
make am (use_tokens key amount) = increment_tokens am key amount
make am (use_request key) = increment_requests am key

pub make_all : Keys → List Call → Keys
make_all am [] = am
make_all am (c ∷ cs) = make_all (make am c) cs

insert-IsTable :
    (key : Str) (info : GatewayKey) (am : Keys)
    → IsKeyEntry (key, info)
    → IsTable am
    → IsTable (insert key info am)
insert-IsTable key info am e t = record {
  distinct = insert-Distinct key info am t.distinct;
  entries = All-insert IsKeyEntry key info am e t.entries;
}

-- A write of the entry that is there.
rewrite-IsTable :
    (am : Keys) (key : Str) (f : GatewayKey → GatewayKey) (o : Option GatewayKey)
    → lookup key am ≡ o
    → ((info : GatewayKey) → IsKeyEntry (key, info) → IsKeyEntry (key, f info))
    → IsTable am
    → IsTable (elim o [ none ↦ am | some info ↦ insert key (f info) am ])
rewrite-IsTable am key f none e keeps t = t
rewrite-IsTable am key f (some info) e keeps t =
    insert-IsTable key (f info) am (keeps info (All-lookup IsKeyEntry key am t.entries e)) t

apply_change-IsKeyEntry :
    (c : Change) (key : Str) (info : GatewayKey)
    → IsKeyEntry (key, info)
    → IsKeyEntry (key, apply_change c info)
unfolding apply_change
apply_change-IsKeyEntry c key info (k, m, r) = (
  k,
  rw k,
  ground (arith, str_iff c.role [], str_iff c.role role_admin, str_iff c.role role_inference),
)

update-IsTable :
    (am : Keys) (key : Str) (c : Change) (o : Option GatewayKey)
    → lookup key am ≡ o
    → IsTable am
    → IsTable (
        let r : Keys × Bool = elim o [
          | none ↦ (am, false)
          | some info ↦ (insert key (apply_change c info) am, true)
        ] in
        r.0)
update-IsTable am key c none e t = t
update-IsTable am key c (some info) e t =
    insert-IsTable key (apply_change c info) am
      (apply_change-IsKeyEntry c key info (All-lookup IsKeyEntry key am t.entries e)) t

make-IsTable : (am : Keys) (c : Call) → IsTable am → IsTable (make am c)
unfolding make add_with_role remove update increment_tokens increment_requests
make-IsTable am (add_key now key name role models rpm burst quota) t =
    insert-IsTable key _ am (refl, refl, ground (arith, str_iff role [])) t
make-IsTable am (remove_key key) t = record {
  distinct = erase-Distinct key am t.distinct;
  entries = All-erase IsKeyEntry key am t.entries;
}
make-IsTable am (update_key key c) t = update-IsTable am key c (lookup key am) refl t
make-IsTable am (use_tokens key amount) t =
    rewrite-IsTable am key (spend amount) (lookup key am) refl (λ info e. e) t
make-IsTable am (use_request key) t =
    rewrite-IsTable am key (λ info. record info { requests = add_i64 info.requests (pos 1) })
      (lookup key am) refl (λ info e. e) t

-- Every table that the calls of Manager make from the empty one, in any order, holds each key once,
-- under its own text, with the mask that MaskKey gives and with a role that is not empty.
pub make_all-IsTable : (cs : List Call) (am : Keys) → IsTable am → IsTable (make_all am cs)
unfolding make_all
make_all-IsTable [] am t = t
make_all-IsTable (c ∷ cs) am t = make_all-IsTable cs (make am c) (make-IsTable am c t)
