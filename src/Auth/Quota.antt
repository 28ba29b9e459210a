-- ===== src/Auth/Quota.antt =====
-- The token quota of a key: IncrementTokens in internal/auth/auth.go.
use foxrouters.Auth.{Keys, GatewayKey}
use foxrouters.Auth.Manager.{spend, valid, increment_tokens}
use foxrouters.Prelude.{
  Str, ℕ, ◌+◌, ◌^◌, ◌≤◌, ◌<◌, ◌≡◌, subst, true, false, some, List, [], ◌∷◌, arith,
}
use foxrouters.Prelude.Int.{pos, add_i64, add_i64_exact, ℤ}
use foxrouters.Prelude.Assoc.{lookup-insert_self, lookup}

-- Requests of one key, one after the other, each with the tokens that it used.
pub spend_all : Keys → Str → List ℕ → Keys
spend_all am key [] = am
spend_all am key (a ∷ amounts) = spend_all (increment_tokens am key (pos a)) key amounts

abbrev pub sum : List ℕ → ℕ
sum [] = 0
sum (a ∷ amounts) = a + sum amounts

lookup-increment_tokens :
    (am : Keys) (key : Str) (amount : ℤ) (info : GatewayKey)
    → lookup key am ≡ some info
    → lookup key (increment_tokens am key amount) ≡ some (spend amount info)
unfolding increment_tokens
lookup-increment_tokens am key amount info e =
    rw (e, increment_tokens) (lookup-insert_self key (spend amount info) am)

-- What the key's entry holds on the way: `u` tokens used of a quota `q`, and disabled if that is all.
record Spent (am : Keys) (key : Str) (u q : ℕ) : Type 0 where
  info : GatewayKey
  found : lookup key am ≡ some info
  used : info.tokens_used ≡ pos u
  quota : info.token_quota ≡ pos q
  over : q ≤ u → info.disabled ≡ true

spend_over :
    (info : GatewayKey) (u q a : ℕ)
    → info.tokens_used ≡ pos u
    → info.token_quota ≡ pos q
    → 0 < q
    → u + a < 2 ^ 63
    → ((spend (pos a) info).tokens_used ≡ pos (u + a))
      × ((spend (pos a) info).token_quota ≡ pos q)
      × (q ≤ u + a → (spend (pos a) info).disabled ≡ true)
unfolding spend
spend_over info u q a eu eq h bound =
    let total : add_i64 info.tokens_used (pos a) ≡ pos (u + a) = rw eu (add_i64_exact u a bound) in
    (total, eq, λ le. ground arith)

step-Spent :
    (am : Keys) (key : Str) (u q a : ℕ)
    → 0 < q
    → u + a < 2 ^ 63
    → Spent am key u q
    → Spent (increment_tokens am key (pos a)) key (u + a) q
step-Spent am key u q a h bound s =
    let (total, same, over) = spend_over s.info u q a s.used s.quota h bound in
    record {
      info = spend (pos a) s.info;
      found = lookup-increment_tokens am key (pos a) s.info s.found;
      used = total;
      quota = same;
      over = over;
    }

spend_all-Spent :
    (am : Keys) (key : Str) (u q : ℕ) (amounts : List ℕ)
    → 0 < q
    → u + sum amounts < 2 ^ 63
    → Spent am key u q
    → Spent (spend_all am key amounts) key (u + sum amounts) q
unfolding spend_all
spend_all-Spent am key u q [] h bound s = subst (λ n. Spent am key n q) (omega arith) s
spend_all-Spent am key u q (a ∷ amounts) h bound s =
    subst (λ n. Spent (spend_all (increment_tokens am key (pos a)) key amounts) key n q)
      (omega arith)
      (spend_all-Spent (increment_tokens am key (pos a)) key (u + a) q amounts h (omega arith)
        (step-Spent am key u q a h (omega arith) s))

-- A key with a quota q that has used u tokens, fewer than q, is refused from the request on with
-- which its total reaches q: after any series of requests that brings the total to q or beyond,
-- Valid says no. (The int64 total must not pass 2^63 - 1.)
pub quota_enforced :
    (am : Keys) (key : Str) (info : GatewayKey) (u q : ℕ) (amounts : List ℕ)
    → lookup key am ≡ some info
    → info.tokens_used ≡ pos u
    → info.token_quota ≡ pos q
    → u < q
    → q ≤ u + sum amounts
    → u + sum amounts < 2 ^ 63
    → valid (spend_all am key amounts) key ≡ false
unfolding valid
quota_enforced am key info u q amounts found used quota below reached bound =
    let s = spend_all-Spent am key u q amounts (omega arith) bound (record {
      info = info;
      found = found;
      used = used;
      quota = quota;
      over = λ le. absurd (omega arith);
    }) in
    rw (s.found, valid) (rw (s.over reached))
