-- ===== src/KeyApi/Tests.antt =====
-- A table with one admin, and the handlers at it.
use foxrouters.KeyApi.LastAdmin.{deletes_interleaved, handle_delete_key_keeps_admin}
use foxrouters.KeyApi.{
  handle_delete_key, UpdateRequest, is_bad_name, handle_update_key, change_of, refuses,
}
use foxrouters.Auth.{GatewayKey, Keys, role_inference, role_admin}
use foxrouters.Auth.Manager.{
  apply_change, count_admins, update, remove, resolve_key, get, is_live_admin,
}
use foxrouters.Prelude.{
  str_eq, codes, ◌≤◌, ◌≡◌, refl, true, false, none, some, [], ◌∷◌, arith, str_iff, ◌≢◌,
}
use foxrouters.Prelude.Int.{pos}
use foxrouters.Prelude.Assoc.{lookup, erase, Distinct, insert}

abbrev boss : GatewayKey
boss = record {
  key = codes "gw-boss";
  key_masked = codes "gw-boss";
  name = codes "boss";
  role = role_admin;
  allowed_models = [];
  rpm = pos 0;
  burst = pos 0;
  token_quota = pos 0;
  tokens_used = pos 0;
  requests = pos 0;
  created_at = 0;
  disabled = false;
}

abbrev guest : GatewayKey
guest = record boss { key = codes "gw-guest"; key_masked = codes "gw-guest"; role = role_inference }

abbrev keys : Keys
keys = (codes "gw-boss", boss) ∷ (codes "gw-guest", guest) ∷ []

keys-Distinct : Distinct keys
unfolding lookup str_eq
keys-Distinct = (refl, (refl, tt))

one_admin : 1 ≤ count_admins keys
unfolding count_admins str_eq
one_admin = omega arith

handle_delete_key_keeps_admin_example :
    1 ≤ count_admins (handle_delete_key keys (codes "gw-boss")).0
handle_delete_key_keeps_admin_example =
    handle_delete_key_keeps_admin keys (codes "gw-boss") keys-Distinct one_admin

boss_stays : (handle_delete_key keys (codes "gw-boss")).1 ≡ 409
unfolding handle_delete_key refuses resolve_key get count_admins lookup str_eq
boss_stays = refl

guest_goes : handle_delete_key keys (codes "gw-guest") ≡ ((codes "gw-boss", boss) ∷ [], 200)
unfolding handle_delete_key refuses resolve_key get remove count_admins lookup erase str_eq
guest_goes = refl

-- An update that disables the only admin is carried out.
abbrev disabling : UpdateRequest
disabling = record {
  name = none;
  role = none;
  allowed_models = none;
  rpm = none;
  burst = none;
  token_quota = none;
  disabled = some true;
}

no_admin_left : count_admins (handle_update_key keys (codes "gw-boss") (some disabling)).0 ≡ 0
unfolding handle_update_key resolve_key update change_of apply_change is_bad_name count_admins
    lookup insert str_eq
no_admin_left = refl

-- A second admin.
abbrev deputy : GatewayKey
deputy = record boss { key = codes "gw-deputy" }

abbrev two_admins : Keys
two_admins = (codes "gw-boss", boss) ∷ (codes "gw-deputy", deputy) ∷ []

two_admins-Distinct : Distinct two_admins
unfolding lookup str_eq
two_admins-Distinct = (refl, (refl, tt))

apart : codes "gw-boss" ≢ codes "gw-deputy"
unfolding str_eq
apart q = let e = (str_iff (codes "gw-boss") (codes "gw-deputy")).1 q in cc

boss_found : get two_admins (codes "gw-boss") ≡ some boss
unfolding get lookup str_eq
boss_found = refl

deputy_found : get two_admins (codes "gw-deputy") ≡ some deputy
unfolding get lookup str_eq
deputy_found = refl

boss_live : is_live_admin boss ≡ true
unfolding str_eq
boss_live = refl

deputy_live : is_live_admin deputy ≡ true
unfolding str_eq
deputy_live = refl

both_counted : count_admins two_admins ≡ 2
unfolding count_admins str_eq
both_counted = refl

deletes_interleaved_example :
    (refuses two_admins (get two_admins (codes "gw-boss")) ≡ false)
    × (refuses two_admins (get two_admins (codes "gw-deputy")) ≡ false)
    × (count_admins (remove (remove two_admins (codes "gw-boss")) (codes "gw-deputy")) ≡ 0)
deletes_interleaved_example =
    deletes_interleaved two_admins (codes "gw-boss") (codes "gw-deputy") boss deputy
      two_admins-Distinct apart boss_found deputy_found boss_live deputy_live both_counted
