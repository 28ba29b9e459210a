-- ===== src/Anthropic/Request/Keys.antt =====
-- x-api-key in front of AuthMiddleware.
use foxrouters.Anthropic.Request.Body.{anthropic_auth_middleware}
use foxrouters.Auth.Gate.{request_key, Request}
use foxrouters.Prelude.{
  Bool-cases, if◌then◌else◌, codes, has_prefix-append, trim_prefix-append, Str, has_prefix, str_eq,
  ◌≡◌, sym, ap, ◌∙◌, inl, inr, Bool, true, false, not, ◌&&◌, Option, [], ◌++◌, arith,
}

abbrev pub normalised : Str → Request → Request
normalised api_key req = record req {
  authorization = anthropic_auth_middleware req.path req.authorization api_key;
}

abbrev pub takes_api_key : Str → Request → Bool
takes_api_key api_key req =
    has_prefix req.path (codes "/v1/") && (str_eq req.authorization [] && not (str_eq api_key []))

taken :
    (sl : Option (Str → Str)) (req : Request) (api_key : Str)
    → request_key sl (record req { authorization = codes "Bearer " ++ api_key }) ≡ api_key
unfolding request_key
taken sl req api_key = ground (
  arith,
  has_prefix-append (codes "Bearer ") api_key,
  trim_prefix-append (codes "Bearer ") api_key,
)

key_taken :
    (api_key : Str) (req : Request)
    → takes_api_key api_key req ≡ true
    → anthropic_auth_middleware req.path req.authorization api_key ≡ codes "Bearer " ++ api_key
unfolding anthropic_auth_middleware
key_taken api_key req h = ground (arith, h)

key_left :
    (api_key : Str) (req : Request)
    → takes_api_key api_key req ≡ false
    → anthropic_auth_middleware req.path req.authorization api_key ≡ req.authorization
unfolding anthropic_auth_middleware
key_left api_key req h = ground (arith, h)

-- With AnthropicAuthMiddleware in front, AuthMiddleware reads the key of x-api-key on a path below
-- /v1/ when there is no Authorization and x-api-key is not empty, and in all other cases the key
-- that it reads without it.
pub request_key-normalised :
    (sl : Option (Str → Str)) (req : Request) (api_key : Str)
    → request_key sl (normalised api_key req)
      ≡ (if takes_api_key api_key req then api_key else request_key sl req)
request_key-normalised sl req api_key = elim (Bool-cases (takes_api_key api_key req)) [
  | inl y ↦
      ap (λ a. request_key sl (record req { authorization = a })) (key_taken api_key req y)
      ∙ taken sl req api_key
      ∙ sym (ap (λ b. if b then api_key else request_key sl req) y)
  | inr n ↦
      ap (λ a. request_key sl (record req { authorization = a })) (key_left api_key req n)
      ∙ sym (ap (λ b. if b then api_key else request_key sl req) n)
]
