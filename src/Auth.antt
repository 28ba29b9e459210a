-- ===== src/Auth.antt =====
-- internal/auth/auth.go: the gateway keys and their Manager. A method takes the table of keys and
-- returns the new one. The writes to Redis that follow a change return nothing to the program and
-- are left out, and so is the bootstrap from the environment.
pub mod Glob
pub mod Manager
pub mod Gate
pub mod Quota
pub mod Access
pub mod Table
mod Tests
use foxrouters.Prelude.{
  if◌then◌else◌, leb, is_empty, any, drop, length, take, trim_suffix, Str, has_suffix, str_eq,
  has_prefix, codes, ℕ, ◌-◌, Bool, true, false, List, ◌++◌,
}
use foxrouters.Prelude.Int.{ℤ}
use foxrouters.Prelude.Assoc.{Assoc}

abbrev pub role_inference : Str
role_inference = codes "inference"

abbrev pub role_admin : Str
role_admin = codes "admin"

-- GatewayKeyInfo without its lock, and also GatewayKeySnapshot, the copy of it. A nil list of models
-- and an empty one are one here: the program never tells them apart in a key.
pub record GatewayKey : Type 0 where
  pub key : Str
  pub key_masked : Str
  pub name : Str
  pub role : Str
  pub allowed_models : List Str
  pub rpm : ℤ
  pub burst : ℤ
  pub token_quota : ℤ
  pub tokens_used : ℤ
  pub requests : ℤ
  pub created_at : ℕ
  pub disabled : Bool

unfoldable pub match_model : Str → Str → Bool
match_model pattern model =
    if str_eq pattern model
    then true
    else if has_suffix pattern (codes "*")
    then has_prefix model (trim_suffix pattern (codes "*"))
    else if has_suffix pattern (codes "/*")
    then has_prefix model (trim_suffix pattern (codes "/*") ++ codes "/")
    else false

unfoldable pub is_model_allowed : GatewayKey → Str → Bool
is_model_allowed k model =
    if is_empty k.allowed_models
    then true
    else any (λ pattern. match_model pattern model) k.allowed_models

unfoldable pub mask_key : Str → Str
mask_key key =
    if leb 13 (length key) then take 8 key ++ (codes "..." ++ drop (length key - 4) key) else key

abbrev pub Keys : Type 0
Keys = Assoc GatewayKey
