-- ===== src/Codebuddy/Proxy/Served.antt =====
-- When a request to CodeBuddy is served.
use foxrouters.Codebuddy.{CbKey}
use foxrouters.Codebuddy.Proxy.{
  verdict, attempt_loop, proxy_codebuddy, World, Turn, response, take_it, served, enter,
}
use foxrouters.Codebuddy.Proxy.Attempts.{enabled_keys, Printable, Missed}
use foxrouters.Circuit.{can_request}
use foxrouters.Upstream.{get_client}
use foxrouters.Pool.{ProxyEntry}
use foxrouters.Prelude.{
  length, All, codes, Str, ℕ, ◌≤◌, ◌<◌, ◌≡◌, refl, ap, ◌∙◌, subst, Bool, true, false, Option, List,
  [], ◌∷◌, arith,
}
use foxrouters.Prelude.Int.{ℤ}
use foxrouters.Codebuddy.Proxy.Rounds.{served_after}

module _ {F : Type 0} where
  enabled_keys-le : (ks : List (CbKey F)) → enabled_keys ks ≤ length ks
  enabled_keys-le [] = omega arith
  enabled_keys-le (k ∷ ks) = ground (arith, enabled_keys-le ks)

  -- What the loop starts from.
  abbrev pub entered : (ProxyEntry → Bool) → Option ℤ → ℕ → World F → World F
  entered external incr now w = record w {
    health = (can_request now w.health).0;
    pool = (get_client external incr (codes "codebuddy") w.pool).0;
  }

  pub let_through :
      (external : ProxyEntry → Bool) (incr : Option ℤ) (now : ℕ) (turns : ℕ → Turn) (w : World F)
      → (can_request now w.health).1 ≡ true
      → proxy_codebuddy external incr now true turns w
        ≡ attempt_loop now
            (get_client external incr (codes "codebuddy") w.pool).2
            turns
            (length w.manager.keys)
            0
            (entered external incr now w)
  unfolding proxy_codebuddy enter
  let_through external incr now turns w y = rw y refl

  -- A request that the circuit breaker lets through is served with the first response that is no
  -- failure, when fewer attempts fail before it than keys are enabled, the client stays, and no
  -- key is shorter than eight bytes: a failed attempt costs one key at most, also where the key
  -- is banned or cools down.
  pub proxy_codebuddy_serves :
      (external : ProxyEntry → Bool) (incr : Option ℤ) (now : ℕ) (turns : ℕ → Turn) (w : World F)
      (j status : ℕ) (body : Str)
      → (can_request now w.health).1 ≡ true
      → j < enabled_keys w.manager.keys
      → All Printable w.manager.keys
      → ((l : ℕ) → l < j → ((turns l).cancelled ≡ false) × Missed (turns l).reply)
      → (turns j).cancelled ≡ false
      → (turns j).reply ≡ response status body
      → verdict status body ≡ take_it
      → (key : Str) × ((proxy_codebuddy external incr now true turns w).1 ≡ served key status body)
  proxy_codebuddy_serves external incr now turns w j status body ok b h fs n r v =
      let s =
        served_after now (get_client external incr (codes "codebuddy") w.pool).2 turns status body j
          (length w.manager.keys) 0 (entered external incr now w)
          (omega (arith, b, enabled_keys-le w.manager.keys)) b h
          (λ l m.
            subst (λ x. ((turns x).cancelled ≡ false) × Missed (turns x).reply) (omega arith)
              (fs l m))
          (subst (λ x. ((turns x).cancelled ≡ false) × ((turns x).reply ≡ response status body))
            (omega arith) (n, r))
          v in
      (s.0, ap (λ p. p.1) (let_through external incr now turns w ok) ∙ s.1)
