-- ===== src/KeyApi.antt =====
-- internal/handlers/handlers.go: HandleDeleteKey and HandleUpdateKey, which delete and change the
-- gateway keys. The answer is the status; `none` is a body that is no JSON of the right types.
pub mod LastAdmin
mod Tests
use foxrouters.Auth.{GatewayKey, role_admin, role_inference, Keys}
use foxrouters.Auth.Manager.{resolve_key, Change, update, get, remove, or_else, count_admins}
use foxrouters.Prelude.{
  leb, ltb, nat_beq, if◌then◌else◌, length, any, str_eq, Str, ℕ, Bool, false, ◌&&◌, ◌||◌, Option,
  none, some, List, [],
}
use foxrouters.Prelude.Int.{negsuc, ℤ}

-- The guard of the last admin: whether the delete of a key is refused.
unfoldable pub refuses : Keys → Option GatewayKey → Bool
refuses am none = false
refuses am (some info) = str_eq info.role role_admin && leb (count_admins am) 1

delete_found : Keys → Str → Option GatewayKey → Keys × ℕ
delete_found am full_key found = if refuses am found then (am, 409) else (remove am full_key, 200)

delete_resolved : Keys → Option Str → Keys × ℕ
unfolding delete_found
delete_resolved am none = (am, 404)
delete_resolved am (some full_key) = delete_found am full_key (get am full_key)

unfoldable pub handle_delete_key : Keys → Str → Keys × ℕ
unfolding delete_resolved
handle_delete_key am key_param = delete_resolved am (resolve_key am key_param)

-- The fields of the request, `none` for one that is not there.
pub record UpdateRequest : Type 0 where
  pub name : Option Str
  pub role : Option Str
  pub allowed_models : Option (List Str)
  pub rpm : Option ℤ
  pub burst : Option ℤ
  pub token_quota : Option ℤ
  pub disabled : Option Bool

-- A name of more than 128 bytes or with a control character is refused. Runes below 0x20 and 0x7f are
-- the bytes of the same values.
unfoldable pub is_bad_name : Option Str → Bool
is_bad_name none = false
is_bad_name (some name) = ltb 128 (length name) || any (λ b. ltb b 0x20 || nat_beq b 0x7f) name

abbrev pub role_change : Option Str → Str
role_change none = []
role_change (some r) = if str_eq r role_admin || str_eq r role_inference then r else []

-- The arguments of Manager.Update that the request stands for.
unfoldable pub change_of : UpdateRequest → Change
change_of req = record {
  name = or_else req.name [];
  role = role_change req.role;
  allowed_models = req.allowed_models;
  rpm = or_else req.rpm (negsuc 0);
  burst = or_else req.burst (negsuc 0);
  token_quota = or_else req.token_quota (negsuc 0);
  disabled = req.disabled;
}

update_resolved : Keys → Option UpdateRequest → Option Str → Keys × ℕ
update_resolved am req none = (am, 404)
update_resolved am none (some full_key) = (am, 400)
update_resolved am (some req) (some full_key) =
    let (am', found) = update am full_key (change_of req) in
    if is_bad_name req.name then (am, 400) else if found then (am', 200) else (am, 404)

unfoldable pub handle_update_key : Keys → Str → Option UpdateRequest → Keys × ℕ
unfolding update_resolved
handle_update_key am key_param req = update_resolved am req (resolve_key am key_param)
