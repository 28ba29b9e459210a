-- ===== src/Codebuddy/Proxy/Sound.antt =====
-- What is served to the client of CodeBuddy.
use foxrouters.Codebuddy.{next_key, is_printable, Chosen, no_cb_keys, chosen, all_keys_disabled}
use foxrouters.Codebuddy.Proxy.{
  response, Verdict, refuse, cool, on_verdict, on_reply, round, CbOutcome, attempt, report, Reply,
  attempt_loop, end_or, ban, proxy_codebuddy, client_gone, refused, served, take_it, network_error,
  no_key_left, upstream_failed, Turn, bad_body, out_of_range, breaker_open, verdict, World,
}
use foxrouters.Codebuddy.Proxy.Served.{entered, let_through}
use foxrouters.Circuit.{can_request}
use foxrouters.Upstream.{get_client}
use foxrouters.Pool.{ProxyEntry}
use foxrouters.Prelude.{
  if◌then◌else◌, if_split, if_either, length, codes, Str, ℕ, zero, suc, ◌+◌, ◌<◌, ◌≡◌, refl, sym,
  ap, ◌∙◌, subst, Bool, true, Option, none, some, arith,
}
use foxrouters.Prelude.Int.{ℤ}

abbrev OutcomeIs : (ℕ → Turn) → CbOutcome → Type 0
OutcomeIs turns breaker_open = Unit
OutcomeIs turns bad_body = Unit
OutcomeIs turns client_gone = Unit
OutcomeIs turns (refused err) = Unit
OutcomeIs turns no_key_left = Unit
OutcomeIs turns (served key status body) =
    (i : ℕ) × ((turns i).reply ≡ response status body) × (status < 400) × (is_printable key ≡ true)
OutcomeIs turns out_of_range = Unit

abbrev MaybeOutcome : (ℕ → Turn) → Option CbOutcome → Type 0
MaybeOutcome turns none = Unit
MaybeOutcome turns (some o) = OutcomeIs turns o

taken_status : (status : ℕ) (body : Str) → verdict status body ≡ take_it → status < 400
unfolding verdict
taken_status status body h = ground (arith, h)

printed :
    (turns : ℕ → Turn) (i : ℕ) (key : Str) (status : ℕ) (body : Str)
    → (turns i).reply ≡ response status body
    → status < 400
    → OutcomeIs turns (if is_printable key then served key status body else out_of_range)
printed turns i key status body r b =
    if_split (OutcomeIs turns) (is_printable key) (served key status body) out_of_range
      (λ y. (i, r, b, y)) (λ n. tt)

served_is :
    (turns : ℕ → Turn) (o : CbOutcome) (key : Str) (status : ℕ) (body : Str)
    → OutcomeIs turns o
    → o ≡ served key status body
    → OutcomeIs turns (served key status body)
served_is turns o key status body h e = subst (OutcomeIs turns) e h

module _ {F : Type 0} where
  on_verdict-OutcomeIs :
      (turns : ℕ → Turn) (i start now : ℕ) (key : Str) (status : ℕ) (body : Str) (v : Verdict)
      (w : World F)
      → (turns i).reply ≡ response status body
      → verdict status body ≡ v
      → MaybeOutcome turns (on_verdict start now key status body v w).1
  unfolding on_verdict
  on_verdict-OutcomeIs turns i start now key status body ban w r e =
      if_either (MaybeOutcome turns) (is_printable key) none (some out_of_range) tt tt
  on_verdict-OutcomeIs turns i start now key status body cool w r e =
      if_either (MaybeOutcome turns) (is_printable key) none (some out_of_range) tt tt
  on_verdict-OutcomeIs turns i start now key status body (refuse err) w r e = tt
  on_verdict-OutcomeIs turns i start now key status body upstream_failed w r e = tt
  on_verdict-OutcomeIs turns i start now key status body take_it w r e =
      printed turns i key status body r (taken_status status body e)

  on_reply-OutcomeIs :
      (turns : ℕ → Turn) (i start now : ℕ) (id key : Str) (x : Reply) (w : World F)
      → (turns i).reply ≡ x
      → MaybeOutcome turns (on_reply start now id key x w).1
  unfolding on_reply
  on_reply-OutcomeIs turns i start now id key network_error w r = tt
  on_reply-OutcomeIs turns i start now id key (response status body) w r =
      on_verdict-OutcomeIs turns i start now key status body (verdict status body)
        (report id (some status) w) r refl

  attempt-OutcomeIs :
      (turns : ℕ → Turn) (i start : ℕ) (id : Str) (w : World F) (c : Chosen F)
      → MaybeOutcome turns (attempt start id (turns i) w c).1
  unfolding attempt
  attempt-OutcomeIs turns i start id w no_cb_keys = tt
  attempt-OutcomeIs turns i start id w all_keys_disabled = tt
  attempt-OutcomeIs turns i start id w (chosen idx k) =
      on_reply-OutcomeIs turns i start (turns i).now id k.key (turns i).reply w refl

  end_or-OutcomeIs :
      (turns : ℕ → Turn) (w : World F) (rest : World F × CbOutcome) (o : Option CbOutcome)
      → OutcomeIs turns rest.1
      → MaybeOutcome turns o
      → OutcomeIs turns (end_or w rest o).1
  end_or-OutcomeIs turns w rest none h m = h
  end_or-OutcomeIs turns w rest (some o) h m = m

  attempt_loop-OutcomeIs :
      (turns : ℕ → Turn) (start : ℕ) (id : Str) (left i : ℕ) (w : World F)
      → OutcomeIs turns (attempt_loop start id turns left i w).1
  unfolding attempt_loop round
  attempt_loop-OutcomeIs turns start id zero i w = tt
  attempt_loop-OutcomeIs turns start id (suc left) i w =
      let r = round start id (turns i) w in
      end_or-OutcomeIs turns r.0 (attempt_loop start id turns left (i + 1) r.0) r.1
        (attempt_loop-OutcomeIs turns start id left (i + 1) r.0)
        (if_either (λ (p : World F × Option CbOutcome). MaybeOutcome turns p.1) (turns i).cancelled
          (w, some client_gone)
          (attempt start id (turns i) (record w { manager = (next_key w.manager).0 })
            (next_key w.manager).1)
          tt
          (attempt-OutcomeIs turns i start id (record w { manager = (next_key w.manager).0 })
            (next_key w.manager).1))

  -- What is served to the client is the reply of one of the attempts, with a status below 400.
  pub proxy_codebuddy_sound :
      (external : ProxyEntry → Bool) (incr : Option ℤ) (now : ℕ) (turns : ℕ → Turn) (w : World F)
      (key : Str) (status : ℕ) (body : Str)
      → (can_request now w.health).1 ≡ true
      → (proxy_codebuddy external incr now true turns w).1 ≡ served key status body
      → (i : ℕ) × ((turns i).reply ≡ response status body) × (status < 400)
  proxy_codebuddy_sound external incr now turns w key status body ok e =
      let id = (get_client external incr (codes "codebuddy") w.pool).2 in
      let (i, r, b, y) =
        served_is turns _ key status body
          (attempt_loop-OutcomeIs turns now id (length w.manager.keys) 0
            (entered external incr now w))
          (sym (ap (λ p. p.1) (let_through external incr now turns w ok)) ∙ e) in
      (i, r, b)
