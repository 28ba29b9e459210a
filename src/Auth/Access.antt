-- ===== src/Auth/Access.antt =====
-- Who gets past the middlewares of internal/auth/auth.go.
use foxrouters.Auth.{GatewayKey, role_admin, Keys}
use foxrouters.Auth.Manager.{get, valid}
use foxrouters.Auth.Gate.{
  client_key, request_key, Request, auth_middleware, admin_chain, admin_middleware, is_public_path,
  goes_on, Verdict,
}
use foxrouters.Prelude.{
  str_eq, Str, ◌≡◌, Bool, true, false, not, ◌&&◌, ◌||◌, Option, some, [], ◌∷◌, arith, Option-cases,
  str_iff, refl, ◌≢◌, inl, inr, none,
}
use foxrouters.Prelude.Assoc.{lookup}

-- A test of the code, as a statement that is free of the order of its checks.
abbrev pub may_pass : Bool → Keys → Option (Str → Str) → Request → Bool
may_pass auth_disabled am sl req =
    is_public_path req.path
    || (auth_disabled || (not (str_eq (request_key sl req) []) && valid am (request_key sl req)))

valid_nil : (key : Str) → valid [] key ≡ false
unfolding valid lookup
valid_nil key = refl

-- AuthMiddleware lets a request go on exactly if its path is public, or authentication is switched
-- off, or the key of the request is not empty, stands in the table and is not disabled. A key is set
-- for the next handler only in the third case, and it is the key of the request.
pub auth_middleware-may_pass :
    (auth_disabled : Bool) (am : Keys) (sl : Option (Str → Str)) (req : Request)
    → (goes_on (auth_middleware auth_disabled am sl req) ≡ may_pass auth_disabled am sl req)
      × ((key : Str)
          → client_key (auth_middleware auth_disabled am sl req) ≡ some key
          → (key ≡ request_key sl req) × (valid am key ≡ true))
unfolding auth_middleware
auth_middleware-may_pass auth_disabled [] sl req =
    (ground (arith, valid_nil (request_key sl req)), λ key h. ground arith)
auth_middleware-may_pass auth_disabled (e ∷ am) sl req = (ground arith, λ key h. ground arith)

admin_middleware_sound :
    (am : Keys) (key : Str)
    → goes_on (admin_middleware false am (some key)) ≡ true
    → (info : GatewayKey) × (lookup key am ≡ some info) × (info.role ≡ role_admin)
unfolding admin_middleware get
admin_middleware_sound am key h = elim (Option-cases (lookup key am)) [
  | inl e ↦ absurd (ground arith)
  | inr (info, e) ↦ (info, e, ground (arith, str_iff info.role role_admin))
]

valid_enabled :
    (am : Keys) (key : Str) (info : GatewayKey)
    → valid am key ≡ true
    → lookup key am ≡ some info
    → info.disabled ≡ false
unfolding valid
valid_enabled am key info h e = ground arith

no_key_no_admin :
    (am : Keys) (v : Verdict)
    → client_key v ≡ none
    → goes_on v && goes_on (admin_middleware false am (client_key v)) ≢ true
unfolding admin_middleware
no_key_no_admin am v h k = ground arith

-- Behind both middlewares, with authentication switched on and on a path that is not public, a
-- request is served only with a key of the table that has the role admin and is not disabled.
pub admin_chain_sound :
    (am : Keys) (sl : Option (Str → Str)) (req : Request)
    → is_public_path req.path ≡ false
    → admin_chain false am sl req ≡ true
    → (info : GatewayKey) × (lookup (request_key sl req) am ≡ some info)
      × (info.role ≡ role_admin)
      × (info.disabled ≡ false)
unfolding admin_chain
admin_chain_sound am sl req p h =
    let v = auth_middleware false am sl req in
    elim (Option-cases (client_key v)) [
      | inl none_set ↦ absurd (no_key_no_admin am v none_set h)
      | inr (key, e) ↦
          let (same, ok) = (auth_middleware-may_pass false am sl req).1 key e in
          let (info, found, admin) = admin_middleware_sound am key (ground arith) in
          (info, rw (← same) found, admin, valid_enabled am key info ok found)
    ]
