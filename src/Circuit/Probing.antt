-- ===== src/Circuit/Probing.antt =====
-- What a half-open circuit lets through, and what it does when its probe fails.
use foxrouters.Circuit.{
  ask, health_status_ok, checked, transport_error, circuit_half_open, circuit_open,
  cb_half_open_probes, ended, Event, answered, none_loaded, all_disabled, step, UpstreamHealth,
  cb_open_duration, run,
}
use foxrouters.Prelude.{
  All, Str, ℕ, ◌+◌, ◌≤◌, ◌≡◌, refl, true, false, none, some, List, [], ◌∷◌, arith,
}

-- Events with no good news: asks, requests that end with an error, and checks that fail.
unfoldable pub Bleak : Event → Type 0
Bleak (ask now) = Unit
Bleak (ended now latency_ms none) = ⊥
Bleak (ended now latency_ms (some msg)) = Unit
Bleak (checked now latency_ms none_loaded) = Unit
Bleak (checked now latency_ms all_disabled) = Unit
Bleak (checked now latency_ms (transport_error msg)) = Unit
Bleak (checked now latency_ms (answered code)) = health_status_ok code ≡ false

module _ (texts : Str × Str) (status_text : ℕ → Str) where
  step_spent :
      (e : Event) (h : UpstreamHealth)
      → h.state ≡ circuit_half_open
      → h.half_open_probes ≡ cb_half_open_probes
      → Bleak e
      → ((step texts status_text e h).0.state ≡ circuit_half_open)
        × ((step texts status_text e h).0.half_open_probes ≡ cb_half_open_probes)
        × ((step texts status_text e h).1 ≡ false)
  unfolding step Bleak
  step_spent (ask now) h o p b = ground arith
  step_spent (ended now latency_ms none) h o p b = absurd b
  step_spent (ended now latency_ms (some msg)) h o p b = ground arith
  step_spent (checked now latency_ms none_loaded) h o p b = ground arith
  step_spent (checked now latency_ms all_disabled) h o p b = ground arith
  step_spent (checked now latency_ms (transport_error msg)) h o p b = ground arith
  step_spent (checked now latency_ms (answered code)) h o p b = ground arith

  -- A half-open circuit whose probe is spent lets nothing through and stays half-open, for ever and
  -- at any time, as long as no request ends well and no check goes well: a failed probe does not
  -- reopen it.
  pub half_open_stuck :
      (es : List Event) (h : UpstreamHealth)
      → h.state ≡ circuit_half_open
      → h.half_open_probes ≡ cb_half_open_probes
      → All Bleak es
      → ((run texts status_text es h).0.state ≡ circuit_half_open)
        × ((run texts status_text es h).1 ≡ 0)
  unfolding run
  half_open_stuck [] h o p b = (o, refl)
  half_open_stuck (e ∷ es) h o p b =
      let (o', p', refused) = step_spent e h o p b.0 in
      let (last, none_through) = half_open_stuck es (step texts status_text e h).0 o' p' b.1 in
      (last, rw refused none_through)

  asks_open :
      (t1 : ℕ) (h : UpstreamHealth)
      → h.state ≡ circuit_open
      → h.opened_at + cb_open_duration ≤ t1
      → ((step texts status_text (ask t1) h).1 ≡ true)
        × ((step texts status_text (ask t1) h).0.state ≡ circuit_half_open)
        × ((step texts status_text (ask t1) h).0.half_open_probes ≡ 0)
  unfolding step
  asks_open t1 h o d = ground arith

  asks_half_open :
      (t : ℕ) (h : UpstreamHealth)
      → h.state ≡ circuit_half_open
      → h.half_open_probes ≡ 0
      → ((step texts status_text (ask t) h).1 ≡ true)
        × ((step texts status_text (ask t) h).0.state ≡ circuit_half_open)
        × ((step texts status_text (ask t) h).0.half_open_probes ≡ cb_half_open_probes)
  unfolding step
  asks_half_open t h o p = ground arith

  -- An open circuit that is asked twice after its 60 seconds lets both requests through, and no
  -- other one until a request ends well or a check goes well: two requests, not the one that
  -- `cb_half_open_probes` names, since the ask that turns it half-open is not counted.
  pub half_open_two :
      (t1 t2 : ℕ) (es : List Event) (h : UpstreamHealth)
      → h.state ≡ circuit_open
      → h.opened_at + cb_open_duration ≤ t1
      → All Bleak es
      → (run texts status_text (ask t1 ∷ ask t2 ∷ es) h).1 ≡ 2
  unfolding run
  half_open_two t1 t2 es h o d b =
      let (through, o1, p1) = asks_open t1 h o d in
      let h1 = (step texts status_text (ask t1) h).0 in
      let (through', o2, p2) = asks_half_open t2 h1 o1 p1 in
      let (last, none_through) =
        half_open_stuck es (step texts status_text (ask t2) h1).0 o2 p2 b in
      rw (through, through', none_through) refl
