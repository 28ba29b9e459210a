-- ===== src/Auth/Manager.antt =====
-- The methods of Manager in internal/auth/auth.go. Updates of a key's record through the shared
-- pointer are writes of its entry.
use foxrouters.Auth.{role_inference, role_admin, mask_key, Keys, GatewayKey}
use foxrouters.Prelude.{
  if◌then◌else◌, length, str_eq, Str, ℕ, Bool, true, false, not, ◌&&◌, ◌||◌, Option, none, some,
  List, [], ◌∷◌, map,
}
use foxrouters.Prelude.Int.{ℤ, add_i64, is_nonneg, is_positive, pos, leb_int}
use foxrouters.Prelude.Assoc.{erase, insert, lookup, count_values}

unfoldable pub valid : Keys → Str → Bool
valid am key = elim (lookup key am) [ none ↦ false | some info ↦ not info.disabled ]

unfoldable pub get : Keys → Str → Option GatewayKey
get am key = lookup key am

unfoldable pub lookup_key : Keys → Str → Option (ℤ × ℤ)
lookup_key am key = elim (lookup key am) [ none ↦ none | some info ↦ some (info.rpm, info.burst) ]

unfoldable pub get_all : Keys → List GatewayKey
get_all am = map (λ e. e.1) am

abbrev pub is_live_admin : GatewayKey → Bool
is_live_admin info = str_eq info.role role_admin && not info.disabled

unfoldable pub count_admins : Keys → ℕ
count_admins am = count_values is_live_admin am

-- AddWithRole; `now` is the time of the call.
unfoldable pub add_with_role : Keys → ℕ → Str → Str → Str → List Str → ℤ → ℤ → ℤ → Keys × GatewayKey
add_with_role am now key name role allowed_models rpm burst token_quota =
    let info : GatewayKey = record {
      key = key;
      key_masked = mask_key key;
      name = name;
      role = if str_eq role [] then role_inference else role;
      allowed_models = allowed_models;
      rpm = rpm;
      burst = burst;
      token_quota = token_quota;
      tokens_used = pos 0;
      requests = pos 0;
      created_at = now;
      disabled = false;
    } in
    (insert key info am, info)

unfoldable pub add : Keys → ℕ → Str → Str → ℤ → ℤ → ℤ → Keys × GatewayKey
add am now key name rpm burst token_quota =
    add_with_role am now key name role_inference [] rpm burst token_quota

unfoldable pub remove : Keys → Str → Keys
remove am key = erase key am

-- The arguments of Update: `none` for a nil slice or pointer.
pub record Change : Type 0 where
  pub name : Str
  pub role : Str
  pub allowed_models : Option (List Str)
  pub rpm : ℤ
  pub burst : ℤ
  pub token_quota : ℤ
  pub disabled : Option Bool

abbrev pub or_else {ℓ} : {A : Type ℓ} → Option A → A → A
or_else none a = a
or_else (some b) a = b

unfoldable pub apply_change : Change → GatewayKey → GatewayKey
apply_change c info = record info {
  name = if str_eq c.name [] then info.name else c.name;
  role = if str_eq c.role role_admin || str_eq c.role role_inference then c.role else info.role;
  allowed_models = or_else c.allowed_models info.allowed_models;
  rpm = if is_nonneg c.rpm then c.rpm else info.rpm;
  burst = if is_nonneg c.burst then c.burst else info.burst;
  token_quota = if is_nonneg c.token_quota then c.token_quota else info.token_quota;
  disabled = or_else c.disabled info.disabled;
  key_masked = mask_key info.key;
}

unfoldable pub update : Keys → Str → Change → Keys × Bool
unfolding apply_change
update am key c = elim (lookup key am) [
  | none ↦ (am, false)
  | some info ↦ (insert key (apply_change c info) am, true)
]

unfoldable pub spend : ℤ → GatewayKey → GatewayKey
spend amount info =
    let used = add_i64 info.tokens_used amount in
    record info {
      tokens_used = used;
      requests = add_i64 info.requests (pos 1);
      disabled = info.disabled || (is_positive info.token_quota && leb_int info.token_quota used);
    }

unfoldable pub increment_tokens : Keys → Str → ℤ → Keys
unfolding spend
increment_tokens am key amount = elim (lookup key am) [
  | none ↦ am
  | some info ↦ insert key (spend amount info) am
]

unfoldable pub increment_requests : Keys → Str → Keys
increment_requests am key = elim (lookup key am) [
  | none ↦ am
  | some info ↦ insert key (record info { requests = add_i64 info.requests (pos 1) }) am
]

-- The loop over the map in ResolveKey.
find_masked : Str → Keys → Option Str
find_masked masked [] = none
find_masked masked ((k, info) ∷ am) =
    let rest = find_masked masked am in
    if str_eq info.key_masked masked || str_eq (mask_key k) masked then some k else rest

unfoldable pub resolve_key : Keys → Str → Option Str
unfolding find_masked
resolve_key am key_or_masked = elim (lookup key_or_masked am) [
  | some info ↦ some key_or_masked
  | none ↦ find_masked key_or_masked am
]

unfoldable pub count : Keys → ℕ
count am = length am

-- One row of LoadGatewayKeys in loadGatewayKeys: an empty role becomes inference.
unfoldable pub load_key : GatewayKey → GatewayKey
load_key d = record d {
  key_masked = mask_key d.key;
  role = if str_eq d.role [] then role_inference else d.role;
}

-- The first step of NewManager: the rows of Redis become the table.
unfoldable pub load_keys : List GatewayKey → Keys → Keys
unfolding load_key
load_keys [] am = am
load_keys (d ∷ ds) am = load_keys ds (insert d.key (load_key d) am)
