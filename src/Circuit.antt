-- ===== src/Circuit.antt =====
-- internal/upstream/health.go: the circuit breaker of an upstream. Times are nanoseconds on the
-- monotonic clock. The counters of requests, errors and latency are int64 and stay far below 2^63.
pub mod Invariant
pub mod Opening
pub mod Probing
pub mod Kept
mod Tests
use foxrouters.Prelude.{
  ltb, if◌then◌else◌, leb, is_empty, any, Str, ℕ, ◌+◌, ◌-◌, Bool, true, false, not, ◌&&◌, Option,
  none, some, List, [], ◌∷◌,
}

pub data CircuitState : Type 0 where
  circuit_closed : CircuitState
  circuit_open : CircuitState
  circuit_half_open : CircuitState

pub record UpstreamHealth : Type 0 where
  pub name : Str
  pub state : CircuitState
  pub consecutive_errs : ℕ
  pub opened_at : ℕ
  pub half_open_probes : ℕ
  pub total_requests : ℕ
  pub total_errors : ℕ
  pub total_latency_ms : ℕ
  pub last_request_at : ℕ
  pub last_error_at : ℕ
  pub last_error_msg : Str
  pub last_check_at : ℕ
  pub last_check_lat_ms : ℕ
  pub last_check_ok : Bool

abbrev pub cb_open_threshold : ℕ
cb_open_threshold = 5

abbrev pub cb_open_duration : ℕ
cb_open_duration = 60_000_000_000

abbrev pub cb_half_open_probes : ℕ
cb_half_open_probes = 1

unfoldable pub new_upstream_health : Str → UpstreamHealth
new_upstream_health name = record {
  name = name;
  state = circuit_closed;
  consecutive_errs = 0;
  opened_at = 0;
  half_open_probes = 0;
  total_requests = 0;
  total_errors = 0;
  total_latency_ms = 0;
  last_request_at = 0;
  last_error_at = 0;
  last_error_msg = [];
  last_check_at = 0;
  last_check_lat_ms = 0;
  last_check_ok = false;
}

unfoldable pub health_status_ok : ℕ → Bool
health_status_ok code = leb 200 code && ltb code 400

-- `consecutiveErrs++`, and the opening of a closed circuit at the threshold.
unfoldable pub count_error : ℕ → CircuitState → UpstreamHealth → UpstreamHealth
count_error now circuit_closed h =
    let errs = h.consecutive_errs + 1 in
    if leb cb_open_threshold errs
    then record h { consecutive_errs = errs; state = circuit_open; opened_at = now }
    else record h { consecutive_errs = errs }
count_error now circuit_open h = record h { consecutive_errs = h.consecutive_errs + 1 }
count_error now circuit_half_open h = record h { consecutive_errs = h.consecutive_errs + 1 }

-- A request that went well, by the state of the circuit.
unfoldable pub count_success : CircuitState → UpstreamHealth → UpstreamHealth
count_success circuit_half_open h = record h {
  state = circuit_closed;
  consecutive_errs = 0;
  half_open_probes = 0;
}
count_success circuit_closed h = record h { consecutive_errs = 0 }
count_success circuit_open h = h

settle : ℕ → Option Str → UpstreamHealth → UpstreamHealth
settle now none h = count_success h.state h
settle now (some msg) h =
    count_error now h.state
      (record h { total_errors = h.total_errors + 1; last_error_at = now; last_error_msg = msg })

-- RecordRequest; `err` is the text of the error.
unfoldable pub record_request : ℕ → ℕ → Option Str → UpstreamHealth → UpstreamHealth
unfolding settle count_error count_success
record_request now latency_ms err h = settle now err (record h {
  total_requests = h.total_requests + 1;
  total_latency_ms = h.total_latency_ms + latency_ms;
  last_request_at = now;
})

admit : ℕ → CircuitState → UpstreamHealth → UpstreamHealth × Bool
admit now circuit_closed h = (h, true)
admit now circuit_open h =
    if leb cb_open_duration (now - h.opened_at)
    then (record h { state = circuit_half_open; half_open_probes = 0 }, true)
    else (h, false)
admit now circuit_half_open h =
    if ltb h.half_open_probes cb_half_open_probes
    then (record h { half_open_probes = h.half_open_probes + 1 }, true)
    else (h, false)

unfoldable pub can_request : ℕ → UpstreamHealth → UpstreamHealth × Bool
unfolding admit
can_request now h = admit now h.state h

-- What an active check finds: no account or key at all, none that is enabled, an error of the
-- transport, or a status.
pub data Probe : Type 0 where
  none_loaded : Probe
  all_disabled : Probe
  transport_error : Str → Probe
  answered : ℕ → Probe

-- The first account or key that is not disabled is probed; `answer` is what the probe of it gives.
unfoldable pub probe_of : List Bool → Probe → Probe
probe_of disabled answer =
    if is_empty disabled
    then none_loaded
    else if any (λ d. not d) disabled
    then answer
    else all_disabled

-- A check that went well closes a half-open circuit but leaves its count of probes.
unfoldable pub check_success : CircuitState → UpstreamHealth → UpstreamHealth
check_success circuit_half_open h = record h { state = circuit_closed; consecutive_errs = 0 }
check_success circuit_closed h = record h { consecutive_errs = 0 }
check_success circuit_open h = h

-- checkGrok and checkCB, which differ in their texts alone: `texts` are those for no account and for
-- no enabled one, and `status_text` is the one for a bad status.
unfoldable pub check : Str × Str → (ℕ → Str) → ℕ → ℕ → Probe → UpstreamHealth → UpstreamHealth
unfolding count_error check_success
check texts status_text now latency_ms none_loaded h = count_error now h.state (record h {
  last_check_at = now;
  last_check_ok = false;
  last_check_lat_ms = 0;
  last_error_msg = texts.0;
})
check texts status_text now latency_ms all_disabled h = record h {
  last_check_at = now;
  last_check_ok = false;
  last_check_lat_ms = 0;
  last_error_msg = texts.1;
}
check texts status_text now latency_ms (transport_error msg) h = count_error now h.state (record h {
  last_check_at = now;
  last_check_lat_ms = latency_ms;
  last_check_ok = false;
  last_error_msg = msg;
})
check texts status_text now latency_ms (answered code) h =
    let seen : UpstreamHealth = record h {
      last_check_at = now;
      last_check_lat_ms = latency_ms;
      last_check_ok = health_status_ok code;
      last_error_msg = if health_status_ok code then [] else status_text code;
    } in
    if health_status_ok code then check_success h.state seen else count_error now h.state seen

-- What happens to a circuit: a request asks to be let through, a request ends, a check ends.
pub data Event : Type 0 where
  ask : ℕ → Event
  ended : ℕ → ℕ → Option Str → Event
  checked : ℕ → ℕ → Probe → Event

-- A step, with whether a request was let through.
unfoldable pub step : Str × Str → (ℕ → Str) → Event → UpstreamHealth → UpstreamHealth × Bool
unfolding can_request record_request check
step texts status_text (ask now) h = can_request now h
step texts status_text (ended now latency_ms err) h = (record_request now latency_ms err h, false)
step texts status_text (checked now latency_ms p) h =
    (check texts status_text now latency_ms p h, false)

-- A run, with the number of requests that were let through.
unfoldable pub run : Str × Str → (ℕ → Str) → List Event → UpstreamHealth → UpstreamHealth × ℕ
unfolding step
run texts status_text [] h = (h, 0)
run texts status_text (e ∷ es) h =
    let (h', through) = step texts status_text e h in
    let (end, n) = run texts status_text es h' in (end, if through then n + 1 else n)
