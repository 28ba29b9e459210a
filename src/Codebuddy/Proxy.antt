-- ===== src/Codebuddy/Proxy.antt =====
-- internal/upstream/codebuddy.go, ProxyCodeBuddy: the attempts at the keys, up to the response that is
-- handed to the client. What the upstream answers is an argument.
pub mod Attempts
pub mod Rounds
pub mod Served
pub mod Sound
pub mod Silence
pub mod Outage
use foxrouters.Codebuddy.{
  change_key, next_key, Chosen, no_cb_keys, CbKeyManager, CbKey, is_printable, chosen,
  all_keys_disabled,
}
use foxrouters.Circuit.{can_request, UpstreamHealth, record_request}
use foxrouters.Upstream.{mark_proxy_result, get_client}
use foxrouters.Pool.{ProxyPool, ProxyEntry}
use foxrouters.Prelude.{
  ltb, if◌then◌else◌, leb, nat_beq, length, Str, contains, codes, ℕ, zero, suc, ◌+◌, ◌-◌, ◌/◌, Bool,
  true, not, ◌&&◌, ◌||◌, Option, none, some, ◌%◌, [], ◌∷◌, ◌++◌,
}
use foxrouters.Prelude.Int.{ℤ}

-- What an attempt meets: whether the client has gone, the time of the reply, and the reply; of a body
-- there is what the code reads, 4096 bytes at most.
pub data Reply : Type 0 where
  network_error : Reply
  response : ℕ → Str → Reply

pub record Turn : Type 0 where
  pub cancelled : Bool
  pub now : ℕ
  pub reply : Reply

-- What a reply means for the key and the request: the key is banned or cools down, the request is
-- refused with a text for the breaker, the upstream failed, or the response is taken.
pub data Verdict : Type 0 where
  ban : Verdict
  cool : Verdict
  refuse : Str → Verdict
  upstream_failed : Verdict
  take_it : Verdict

abbrev pub client_error : ℕ → Str → Verdict
client_error status body =
    if nat_beq status 403 && contains body (codes "11140")
    then ban
    else if contains body (codes "14018") || contains body (codes "Credits exhausted")
    then ban
    else if nat_beq status 400
        && (contains body (codes "11133") || contains body (codes "Invalid request parameters"))
    then refuse (codes "cb 400 invalid params")
    else if nat_beq status 400
        && (contains body (codes "11102")
            || (contains body (codes "service info not found")
                || (contains body (codes "model [")
                    && contains body (codes "] service info not found"))))
    then refuse (codes "cb 400 model not found")
    else cool

unfoldable pub verdict : ℕ → Str → Verdict
verdict status body =
    if nat_beq status 401
    then ban
    else if nat_beq status 429
    then (if contains body (codes "14017") then ban else cool)
    else if leb 400 status && ltb status 500
    then client_error status body
    else if leb 500 status
    then upstream_failed
    else take_it

-- "upstream %d"; a status of net/http has three digits.
unfoldable pub failure_text : ℕ → Str
failure_text n = codes "upstream " ++ ((48 + n / 100) ∷ (48 + n / 10 % 10) ∷ (48 + n % 10) ∷ [])

-- How a request ends: the circuit is open, the body is no JSON object, the client has gone, the
-- request is refused, no key is left, a response is taken with a key, or a slice is out of range.
pub data CbOutcome : Type 0 where
  breaker_open : CbOutcome
  bad_body : CbOutcome
  client_gone : CbOutcome
  refused : Str → CbOutcome
  no_key_left : CbOutcome
  served : Str → ℕ → Str → CbOutcome
  out_of_range : CbOutcome

-- The keys, the circuit breaker, and the pool of proxies with the id for the reports.
pub record World (F : Type 0) : Type 0 where
  pub manager : CbKeyManager F
  pub health : UpstreamHealth
  pub pool : Option ProxyPool

module _ {F : Type 0} where
  unfoldable pub ban_key : CbKey F → CbKey F
  ban_key k = record k { disabled = true; disabled_at = 0 }

  unfoldable pub cool_key : ℕ → CbKey F → CbKey F
  cool_key now k = record k { disabled = true; disabled_at = now }

  unfoldable pub punish : Str → (CbKey F → CbKey F) → World F → World F
  punish key f w = record w {
    manager = record w.manager { keys = change_key key f w.manager.keys };
  }

  unfoldable pub report : Str → Option ℕ → World F → World F
  report id status w = record w { pool = mark_proxy_result id status w.pool }

  -- The latency in milliseconds.
  unfoldable pub tell_breaker : ℕ → ℕ → Option Str → World F → World F
  tell_breaker start now err w = record w {
    health = record_request now ((now - start) / 1_000_000) err w.health;
  }

  -- Whether the loop goes on, or the request ends.
  unfoldable pub on_verdict : ℕ → ℕ → Str → ℕ → Str → Verdict → World F → World F × Option CbOutcome
  unfolding punish tell_breaker ban_key cool_key is_printable
  on_verdict start now key status body ban w =
      (punish key ban_key w, if is_printable key then none else some out_of_range)
  on_verdict start now key status body cool w =
      (punish key (cool_key now) w, if is_printable key then none else some out_of_range)
  on_verdict start now key status body (refuse err) w =
      (tell_breaker start now (some err) w, some (refused err))
  on_verdict start now key status body upstream_failed w =
      (tell_breaker start now (some (failure_text status)) w, none)
  on_verdict start now key status body take_it w = (
    tell_breaker start now none w,
    some (if is_printable key then served key status body else out_of_range),
  )

  unfoldable pub on_reply : ℕ → ℕ → Str → Str → Reply → World F → World F × Option CbOutcome
  unfolding report on_verdict verdict
  on_reply start now id key network_error w = (report id none w, none)
  on_reply start now id key (response status body) w =
      on_verdict start now key status body (verdict status body) (report id (some status) w)

  unfoldable pub attempt : ℕ → Str → Turn → World F → Chosen F → World F × Option CbOutcome
  unfolding on_reply
  attempt start id t w no_cb_keys = (w, some no_key_left)
  attempt start id t w all_keys_disabled = (w, some no_key_left)
  attempt start id t w (chosen idx k) = on_reply start t.now id k.key t.reply w

  -- One round of the loop.
  unfoldable pub round : ℕ → Str → Turn → World F → World F × Option CbOutcome
  unfolding attempt
  round start id t w =
      let (km, c) = next_key w.manager in
      if t.cancelled
      then (w, some client_gone)
      else attempt start id t (record w { manager = km }) c

  abbrev pub end_or : World F → World F × CbOutcome → Option CbOutcome → World F × CbOutcome
  end_or w rest none = rest
  end_or w rest (some o) = (w, o)

  -- The loop: `left` attempts, of which the first is number `i`.
  unfoldable pub attempt_loop : ℕ → Str → (ℕ → Turn) → ℕ → ℕ → World F → World F × CbOutcome
  unfolding round
  attempt_loop start id turns zero i w = (w, no_key_left)
  attempt_loop start id turns (suc left) i w =
      let r = round start id (turns i) w in
      let rest = attempt_loop start id turns left (i + 1) r.0 in end_or r.0 rest r.1

  unfoldable pub enter : ℕ → World F → World F × Bool
  enter now w = let (h, ok) = can_request now w.health in (record w { health = h }, ok)

  -- ProxyCodeBuddy; `is_object` says whether the body is a JSON object.
  unfoldable pub proxy_codebuddy :
      (ProxyEntry → Bool) → Option ℤ → ℕ → Bool → (ℕ → Turn) → World F → World F × CbOutcome
  unfolding attempt_loop enter
  proxy_codebuddy external incr now is_object turns w =
      let (w1, ok) = enter now w in
      let (pool, via, id) = get_client external incr (codes "codebuddy") w1.pool in
      if not ok
      then (
        record w1 { health = record_request now 0 (some (codes "circuit open")) w1.health },
        breaker_open,
      )
      else if not is_object
      then (w1, bad_body)
      else attempt_loop now id turns (length w1.manager.keys) 0 (record w1 { pool = pool })
