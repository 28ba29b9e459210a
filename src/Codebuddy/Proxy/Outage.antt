-- ===== src/Codebuddy/Proxy/Outage.antt =====
-- The circuit breaker of CodeBuddy over requests of which it hears nothing.
use foxrouters.Codebuddy.Proxy.{World, enter, proxy_codebuddy, Turn}
use foxrouters.Codebuddy.Proxy.Silence.{let_through-health}
use foxrouters.Codebuddy.Proxy.Attempts.{Unheard}
use foxrouters.Circuit.{
  record_request, CircuitState, circuit_closed, can_request, UpstreamHealth, circuit_open,
  circuit_half_open,
}
use foxrouters.Circuit.Kept.{
  open_asks, open_records, half_open_records, half_open_asks, closed_lets,
}
use foxrouters.Pool.{ProxyEntry}
use foxrouters.Prelude.Int.{ℤ}
use foxrouters.Prelude.{
  Bool-cases, All, codes, ℕ, ◌≡◌, refl, sym, ap, ◌∙◌, subst, ◌≢◌, inl, inr, Bool, true, false,
  Option, some, List, [], ◌∷◌, arith,
}

-- A request, with what the world answers to it.
pub record Call : Type 0 where
  pub external : ProxyEntry → Bool
  pub incr : Option ℤ
  pub now : ℕ
  pub turns : ℕ → Turn

-- Nothing that the upstream answers to the request is told to the circuit breaker.
abbrev pub Silent : Call → Type 0
Silent c = (l : ℕ) → Unheard (c.turns l).reply

-- Requests, one after the other.
unfoldable pub serve_all : {F : Type 0} → List Call → World F → World F
serve_all [] w = w
serve_all (c ∷ cs) w = serve_all cs (proxy_codebuddy c.external c.incr c.now true c.turns w).0

refused-health :
    {F : Type 0}
    → (external : ProxyEntry → Bool) (incr : Option ℤ) (now : ℕ) (turns : ℕ → Turn) (w : World F)
    → (can_request now w.health).1 ≡ false
    → (proxy_codebuddy external incr now true turns w).0.health
      ≡ record_request now 0 (some (codes "circuit open")) (can_request now w.health).0
unfolding proxy_codebuddy enter
refused-health external incr now turns w n = rw n refl

-- What the question and the record of a request that it refused keep, any number of silent requests
-- keeps.
module _ (P : UpstreamHealth → Type 0)
    (asks : (now : ℕ) (h : UpstreamHealth) → P h → P (can_request now h).0)
    (refuses : (now : ℕ) (h : UpstreamHealth)
      → P h
      → (can_request now h).1 ≡ false
      → P (record_request now 0 (some (codes "circuit open")) (can_request now h).0)) where
  serve_one-keeps :
      {F : Type 0}
      → (c : Call) (w : World F) → Silent c
      → P w.health
      → P (proxy_codebuddy c.external c.incr c.now true c.turns w).0.health
  serve_one-keeps c w s p = elim (Bool-cases (can_request c.now w.health).1) [
    | inl y ↦
        subst P (sym (let_through-health c.external c.incr c.now c.turns w y s))
          (asks c.now w.health p)
    | inr n ↦
        subst P (sym (refused-health c.external c.incr c.now c.turns w n))
          (refuses c.now w.health p n)
  ]

  serve_all-keeps :
      {F : Type 0}
      → (cs : List Call) (w : World F) → All Silent cs
      → P w.health
      → P (serve_all cs w).health
  unfolding serve_all
  serve_all-keeps [] w s p = p
  serve_all-keeps (c ∷ cs) w s p = serve_all-keeps cs _ s.1 (serve_one-keeps c w s.0 p)

-- What is left of a circuit that was closed, open or half-open: it is closed still, with every count
-- as it was; or it is not closed; or it is half-open still.
abbrev pub Untold : CircuitState → UpstreamHealth → UpstreamHealth → Type 0
Untold circuit_closed h h' = h' ≡ h
Untold circuit_open h h' = h'.state ≢ circuit_closed
Untold circuit_half_open h h' = h'.state ≡ circuit_half_open

module _ {F : Type 0} (cs : List Call) (w : World F) (s : All Silent cs) where
  stays_closed : w.health.state ≡ circuit_closed → (serve_all cs w).health ≡ w.health
  stays_closed e =
      serve_all-keeps (λ h. h ≡ w.health)
        (λ now h same. rw same (ap (λ p. p.0) (closed_lets now w.health e)))
        (λ now h same refused. absurd (
          ground
            (arith, refused, closed_lets now h (ap (λ (k : UpstreamHealth). k.state) same ∙ e))))
        cs w s refl

  stays_half_open :
      w.health.state ≡ circuit_half_open → (serve_all cs w).health.state ≡ circuit_half_open
  stays_half_open e =
      serve_all-keeps (λ h. h.state ≡ circuit_half_open) half_open_asks
        (λ now h half refused.
          half_open_records now _ (can_request now h).0 (half_open_asks now h half))
        cs w s e

  stays_open : w.health.state ≢ circuit_closed → (serve_all cs w).health.state ≢ circuit_closed
  stays_open e =
      serve_all-keeps (λ h. h.state ≢ circuit_closed) open_asks
        (λ now h apart refused. open_records now _ (can_request now h).0 (open_asks now h apart)) cs
        w s e

-- Let the bodies of the requests be JSON objects, and let every answer be an error of the network, or
-- one for which its key is banned or cools down. Then the circuit breaker is not told: any number of
-- such requests leaves a closed circuit as it was, with the same count of errors, so that it is never
-- opened; a half-open circuit stays half-open, and an open one does not close.
pub outage_unreported :
    {F : Type 0}
    → (cs : List Call) (w : World F) → All Silent cs
    → Untold w.health.state w.health (serve_all cs w).health
outage_unreported cs w s = untold w.health.state refl
  where
    untold : (c : CircuitState) → w.health.state ≡ c → Untold c w.health (serve_all cs w).health
    untold circuit_closed e = stays_closed cs w s e
    untold circuit_open e = stays_open cs w s (λ z. absurd (ground (arith, e, z)))
    untold circuit_half_open e = stays_half_open cs w s e
