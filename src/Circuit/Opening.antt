-- ===== src/Circuit/Opening.antt =====
-- When a circuit opens, and what it lets through while it is open.
use native.Mathlib.Decide.{dec_lt}
use foxrouters.Circuit.{
  transport_error, circuit_closed, run, cb_open_duration, record_request, circuit_open,
  UpstreamHealth, answered, Event, none_loaded, step, all_disabled, ask, checked, ended,
  cb_open_threshold,
}
use foxrouters.Prelude.{
  All, length, Str, ℕ, ◌+◌, ◌≤◌, ◌<◌, ◌≡◌, refl, sym, subst, false, none, some, List, [], ◌∷◌,
  arith,
}

-- A request that failed, with its time, latency and error.
abbrev pub failures : List (ℕ × ℕ × Str) → UpstreamHealth → UpstreamHealth
failures [] h = h
failures ((now, latency_ms, msg) ∷ fs) h = failures fs (record_request now latency_ms (some msg) h)

-- Open, or on the way there with `e` errors counted.
data Heading (e : ℕ) (h : UpstreamHealth) : Type 0 where
  opened : h.state ≡ circuit_open → Heading e h
  counting : h.state ≡ circuit_closed → h.consecutive_errs ≡ e → e < cb_open_threshold → Heading e h

failure-Heading :
    (e now latency_ms : ℕ) (msg : Str) (h : UpstreamHealth)
    → Heading e h
    → Heading (e + 1) (record_request now latency_ms (some msg) h)
unfolding record_request
failure-Heading e now latency_ms msg h (opened o) = opened (ground arith)
failure-Heading e now latency_ms msg h (counting c n b) = elim (dec_lt (e + 1) 5) [
  | yes below ↦ counting (ground arith) (ground arith) below
  | no above ↦ opened (ground arith)
]

failures-Heading :
    (e : ℕ) (fs : List (ℕ × ℕ × Str)) (h : UpstreamHealth)
    → Heading e h
    → Heading (e + length fs) (failures fs h)
failures-Heading e [] h g = subst (λ n. Heading n h) (omega arith) g
failures-Heading e ((now, latency_ms, msg) ∷ fs) h g =
    subst (λ n. Heading n (failures fs (record_request now latency_ms (some msg) h))) (omega arith)
      (failures-Heading (e + 1) fs _ (failure-Heading e now latency_ms msg h g))

-- A closed circuit is open after as many failed requests in a row as complete five, and after more.
pub failures_open :
    (fs : List (ℕ × ℕ × Str)) (h : UpstreamHealth)
    → h.state ≡ circuit_closed
    → h.consecutive_errs < cb_open_threshold
    → cb_open_threshold ≤ h.consecutive_errs + length fs
    → (failures fs h).state ≡ circuit_open
failures_open fs h c b enough =
    elim (failures-Heading h.consecutive_errs fs h (counting c refl b)) [
      | opened o ↦ o
      | counting c' n b' ↦ absurd (omega arith)
    ]

abbrev pub Before : ℕ → Event → Type 0
Before t (ask now) = now < t
Before t (ended now latency_ms err) = Unit
Before t (checked now latency_ms p) = Unit

module _ (texts : Str × Str) (status_text : ℕ → Str) where
  step_open :
      (e : Event) (h : UpstreamHealth)
      → h.state ≡ circuit_open
      → Before (h.opened_at + cb_open_duration) e
      → ((step texts status_text e h).0.state ≡ circuit_open)
        × ((step texts status_text e h).0.opened_at ≡ h.opened_at)
        × ((step texts status_text e h).1 ≡ false)
  unfolding step
  step_open (ask now) h o b = ground arith
  step_open (ended now latency_ms none) h o b = ground arith
  step_open (ended now latency_ms (some msg)) h o b = ground arith
  step_open (checked now latency_ms none_loaded) h o b = ground arith
  step_open (checked now latency_ms all_disabled) h o b = ground arith
  step_open (checked now latency_ms (transport_error msg)) h o b = ground arith
  step_open (checked now latency_ms (answered code)) h o b = ground arith

  -- An open circuit lets no request through that asks within 60 seconds of the opening, whatever
  -- requests and checks end meanwhile, well or badly, and it is still open at the end.
  pub open_blocks :
      (es : List Event) (h : UpstreamHealth)
      → h.state ≡ circuit_open
      → All (Before (h.opened_at + cb_open_duration)) es
      → ((run texts status_text es h).0.state ≡ circuit_open) × ((run texts status_text es h).1 ≡ 0)
  unfolding run
  open_blocks [] h o b = (o, refl)
  open_blocks (e ∷ es) h o b =
      let (o', t, refused) = step_open e h o b.0 in
      let (last, none_through) =
        open_blocks es (step texts status_text e h).0 o'
          (subst (λ n. All (Before (n + cb_open_duration)) es) (sym t) b.1) in
      (last, rw refused none_through)
