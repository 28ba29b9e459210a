-- ===== src/Circuit/Invariant.antt =====
-- What holds of a circuit at any time.
use foxrouters.Circuit.{
  all_disabled, step, ended, UpstreamHealth, cb_open_threshold, checked, answered,
  cb_half_open_probes, none_loaded, circuit_closed, ask, run, transport_error, Event,
}
use foxrouters.Prelude.{Str, ℕ, ◌≤◌, ◌<◌, ◌≡◌, none, some, List, [], ◌∷◌, arith}

pub record IsSound (h : UpstreamHealth) : Type 0 where
  pub closed_below : h.state ≡ circuit_closed → h.consecutive_errs < cb_open_threshold
  pub probes_bounded : h.half_open_probes ≤ cb_half_open_probes

module _ (texts : Str × Str) (status_text : ℕ → Str) where
  step-IsSound :
      (e : Event) (h : UpstreamHealth) → IsSound h → IsSound (step texts status_text e h).0
  unfolding step
  step-IsSound (ask now) h s = ground arith
  step-IsSound (ended now latency_ms none) h s = ground arith
  step-IsSound (ended now latency_ms (some msg)) h s = ground arith
  step-IsSound (checked now latency_ms none_loaded) h s = ground arith
  step-IsSound (checked now latency_ms all_disabled) h s = ground arith
  step-IsSound (checked now latency_ms (transport_error msg)) h s = ground arith
  step-IsSound (checked now latency_ms (answered code)) h s = ground arith

  -- Through any sequence of requests and checks, in any order, a circuit stays sound: while it is
  -- closed it has counted fewer than five errors in a row, and it never counts more than one probe.
  pub run-IsSound :
      (es : List Event) (h : UpstreamHealth) → IsSound h → IsSound (run texts status_text es h).0
  unfolding run
  run-IsSound [] h s = s
  run-IsSound (e ∷ es) h s = run-IsSound es (step texts status_text e h).0 (step-IsSound e h s)
