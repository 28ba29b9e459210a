-- ===== src/Circuit/Kept.antt =====
-- What a question to the circuit breaker of internal/upstream/health.go, and an error, leave as it was.
use foxrouters.Circuit.{
  UpstreamHealth, circuit_half_open, can_request, circuit_closed, record_request,
}
use foxrouters.Prelude.{Str, ℕ, ◌≡◌, refl, ◌≢◌, true, some, arith}

pub closed_lets :
    (now : ℕ) (h : UpstreamHealth) → h.state ≡ circuit_closed → can_request now h ≡ (h, true)
unfolding can_request
closed_lets now h e = rw e refl

pub half_open_asks :
    (now : ℕ) (h : UpstreamHealth)
    → h.state ≡ circuit_half_open
    → (can_request now h).0.state ≡ circuit_half_open
unfolding can_request
half_open_asks now h e = ground (arith, e)

pub open_asks :
    (now : ℕ) (h : UpstreamHealth)
    → h.state ≢ circuit_closed
    → (can_request now h).0.state ≢ circuit_closed
unfolding can_request
open_asks now h e = ground (arith, e)

-- An error closes no circuit, and leaves a half-open one as it is.
pub half_open_records :
    (now : ℕ) (msg : Str) (h : UpstreamHealth)
    → h.state ≡ circuit_half_open
    → (record_request now 0 (some msg) h).state ≡ circuit_half_open
unfolding record_request
half_open_records now msg h e = rw e refl

pub open_records :
    (now : ℕ) (msg : Str) (h : UpstreamHealth)
    → h.state ≢ circuit_closed
    → (record_request now 0 (some msg) h).state ≢ circuit_closed
unfolding record_request
open_records now msg h e = ground (arith, e)
