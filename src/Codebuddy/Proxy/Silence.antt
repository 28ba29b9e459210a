-- ===== src/Codebuddy/Proxy/Silence.antt =====
-- What the circuit breaker of CodeBuddy does not hear.
use foxrouters.Codebuddy.{chosen, no_cb_keys, next_key, all_keys_disabled, Chosen}
use foxrouters.Codebuddy.Proxy.{
  end_or, network_error, round, ban, on_verdict, client_gone, attempt_loop, take_it, response,
  upstream_failed, CbOutcome, attempt, proxy_codebuddy, World, cool, on_reply, Verdict, Reply, Turn,
  refuse, verdict, report, punish,
}
use foxrouters.Codebuddy.Proxy.Attempts.{Silence, Unheard}
use foxrouters.Codebuddy.Proxy.Served.{let_through, entered}
use foxrouters.Circuit.{UpstreamHealth, can_request}
use foxrouters.Upstream.{get_client}
use foxrouters.Pool.{ProxyEntry}
use foxrouters.Prelude.{
  if_either, length, Str, codes, ℕ, zero, suc, ◌+◌, ◌≡◌, refl, ap, ◌∙◌, Bool, true, Option, none,
  some,
}
use foxrouters.Prelude.Int.{ℤ}

module _ {F : Type 0} where
  on_verdict-health :
      (start now : ℕ) (key : Str) (status : ℕ) (body : Str) (v : Verdict) (w : World F)
      → Silence v
      → (on_verdict start now key status body v w).0.health ≡ w.health
  unfolding on_verdict punish
  on_verdict-health start now key status body ban w s = refl
  on_verdict-health start now key status body cool w s = refl
  on_verdict-health start now key status body (refuse err) w s = absurd s
  on_verdict-health start now key status body upstream_failed w s = absurd s
  on_verdict-health start now key status body take_it w s = absurd s

  on_reply-health :
      (start now : ℕ) (id key : Str) (x : Reply) (w : World F)
      → Unheard x
      → (on_reply start now id key x w).0.health ≡ w.health
  unfolding on_reply report
  on_reply-health start now id key network_error w s = refl
  on_reply-health start now id key (response status body) w s =
      on_verdict-health start now key status body (verdict status body) (report id (some status) w)
        s

  attempt-health :
      (start : ℕ) (id : Str) (t : Turn) (w : World F) (c : Chosen F)
      → Unheard t.reply
      → (attempt start id t w c).0.health ≡ w.health
  unfolding attempt
  attempt-health start id t w no_cb_keys s = refl
  attempt-health start id t w all_keys_disabled s = refl
  attempt-health start id t w (chosen idx k) s = on_reply-health start t.now id k.key t.reply w s

  end_or-health :
      (h : UpstreamHealth) (w : World F) (rest : World F × CbOutcome) (o : Option CbOutcome)
      → rest.0.health ≡ h
      → w.health ≡ h
      → (end_or w rest o).0.health ≡ h
  end_or-health h w rest none a b = a
  end_or-health h w rest (some o) a b = b

  attempt_loop-health :
      (start : ℕ) (id : Str) (turns : ℕ → Turn) (left i : ℕ) (w : World F)
      → ((l : ℕ) → Unheard (turns l).reply)
      → (attempt_loop start id turns left i w).0.health ≡ w.health
  unfolding attempt_loop round
  attempt_loop-health start id turns zero i w s = refl
  attempt_loop-health start id turns (suc left) i w s =
      let r = round start id (turns i) w in
      let step : r.0.health ≡ w.health =
        if_either (λ (p : World F × Option CbOutcome). p.0.health ≡ w.health) (turns i).cancelled
          (w, some client_gone)
          (attempt start id (turns i) (record w { manager = (next_key w.manager).0 })
            (next_key w.manager).1)
          refl
          (attempt-health start id (turns i) (record w { manager = (next_key w.manager).0 })
            (next_key w.manager).1 (s i)) in
      end_or-health w.health r.0 (attempt_loop start id turns left (i + 1) r.0) r.1
        (attempt_loop-health start id turns left (i + 1) r.0 s ∙ step) step

  pub let_through-health :
      (external : ProxyEntry → Bool) (incr : Option ℤ) (now : ℕ) (turns : ℕ → Turn) (w : World F)
      → (can_request now w.health).1 ≡ true
      → ((l : ℕ) → Unheard (turns l).reply)
      → (proxy_codebuddy external incr now true turns w).0.health ≡ (can_request now w.health).0
  let_through-health external incr now turns w ok s =
      ap (λ (p : World F × CbOutcome). p.0.health) (let_through external incr now turns w ok)
      ∙ attempt_loop-health now (get_client external incr (codes "codebuddy") w.pool).2 turns
          (length w.manager.keys) 0 (entered external incr now w) s
