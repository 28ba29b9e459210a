-- ===== src/Codebuddy/Proxy/Rounds.antt =====
-- The attempts one after the other, up to the first that is answered.
use foxrouters.Codebuddy.{CbKey, is_printable, next_key, chosen}
use foxrouters.Codebuddy.Proxy.{
  World, attempt, take_it, report, round, end_or, served, client_gone, Turn, verdict, on_reply,
  attempt_loop, on_verdict, out_of_range, response,
}
use foxrouters.Codebuddy.Proxy.Attempts.{
  Missed, enabled_keys, on_reply-Goes, next_key_chosen, Goes, Printable,
}
use foxrouters.Prelude.{
  if◌then◌else◌, All, Str, ℕ, zero, suc, ◌+◌, ◌<◌, ◌≡◌, sym, ap, ◌∙◌, subst, true, false, some,
  arith,
}

module _ {F : Type 0} where
  round_reply :
      (start : ℕ) (id : Str) (t : Turn) (w : World F) (idx : ℕ) (k : CbKey F)
      → t.cancelled ≡ false
      → (next_key w.manager).1 ≡ chosen idx k
      → round start id t w
        ≡ on_reply start t.now id k.key t.reply (record w { manager = (next_key w.manager).0 })
  unfolding round attempt
  round_reply start id t w idx k n c =
      ap
        (λ b.
          if b
          then (w, some client_gone)
          else attempt start id t (record w { manager = (next_key w.manager).0 })
              (next_key w.manager).1)
        n
      ∙ ap (attempt start id t (record w { manager = (next_key w.manager).0 })) c

  round-Goes :
      (start : ℕ) (id : Str) (t : Turn) (w : World F)
      → t.cancelled ≡ false
      → Missed t.reply
      → 0 < enabled_keys w.manager.keys
      → All Printable w.manager.keys
      → Goes w (round start id t w)
  round-Goes start id t w n f p h =
      let (idx, k, c, y, same) = next_key_chosen w.manager p h in
      let w' : World F = record w { manager = (next_key w.manager).0 } in
      let g =
        on_reply-Goes start t.now id k.key t.reply w' f y (subst (All Printable) (sym same) h) in
      subst (Goes w) (sym (round_reply start id t w idx k n c)) (record {
        goes_on = g.goes_on;
        fewer = omega (arith, ap enabled_keys same, g.fewer);
        printable = g.printable;
      })

  taken_reply :
      (start now : ℕ) (id key : Str) (status : ℕ) (body : Str) (w : World F)
      → verdict status body ≡ take_it
      → is_printable key ≡ true
      → (on_reply start now id key (response status body) w).1 ≡ some (served key status body)
  unfolding on_reply on_verdict
  taken_reply start now id key status body w v y =
      ap (λ u. (on_verdict start now key status body u (report id (some status) w)).1) v
      ∙ ap (λ b. some (if b then served key status body else out_of_range)) y

  -- The first `j` attempts fail, and the next one is answered.
  pub served_after :
      (start : ℕ) (id : Str) (turns : ℕ → Turn) (status : ℕ) (body : Str) (j left i : ℕ)
      (w : World F)
      → j < left
      → j < enabled_keys w.manager.keys
      → All Printable w.manager.keys
      → ((l : ℕ) → l < j → ((turns (i + l)).cancelled ≡ false) × Missed (turns (i + l)).reply)
      → ((turns (i + j)).cancelled ≡ false) × ((turns (i + j)).reply ≡ response status body)
      → verdict status body ≡ take_it
      → (key : Str) × ((attempt_loop start id turns left i w).1 ≡ served key status body)
  unfolding attempt_loop
  served_after start id turns status body j zero i w a b h fs t v = absurd (omega (arith, a))
  served_after start id turns status body zero (suc left) i w a b h fs t v =
      let (idx, k, c, y, same) = next_key_chosen w.manager b h in
      let w' : World F = record w { manager = (next_key w.manager).0 } in
      let now_turn : turns (i + 0) ≡ turns i = ap turns (omega arith) in
      let n : (turns i).cancelled ≡ false = ap (λ (u : Turn). u.cancelled) (sym now_turn) ∙ t.0 in
      let r : (turns i).reply ≡ response status body =
        ap (λ (u : Turn). u.reply) (sym now_turn) ∙ t.1 in
      let end : (round start id (turns i) w).1 ≡ some (served k.key status body) =
        ap (λ p. p.1) (round_reply start id (turns i) w idx k n c)
        ∙ ap (λ x. (on_reply start (turns i).now id k.key x w').1) r
        ∙ taken_reply start (turns i).now id k.key status body w' v y in
      (
        k.key,
        ap
            (λ o.
              (end_or (round start id (turns i) w).0
                (attempt_loop start id turns left (i + 1) (round start id (turns i) w).0) o).1)
            end,
      )
  served_after start id turns status body (suc j) (suc left) i w a b h fs t v =
      let first : turns (i + 0) ≡ turns i = ap turns (omega arith) in
      let f0 = fs 0 (omega arith) in
      let g =
        round-Goes start id (turns i) w (ap (λ (u : Turn). u.cancelled) (sym first) ∙ f0.0)
          (subst (λ (u : Turn). Missed u.reply) first f0.1) (omega (arith, b)) h in
      let rest =
        served_after start id turns status body j left (i + 1) (round start id (turns i) w).0
          (omega (arith, a)) (omega (arith, b, g.fewer)) g.printable
          (λ l m.
            subst (λ n. ((turns n).cancelled ≡ false) × Missed (turns n).reply) (omega arith)
              (fs (suc l) (omega (arith, m))))
          (subst (λ n. ((turns n).cancelled ≡ false) × ((turns n).reply ≡ response status body))
            (omega arith) t)
          v in
      (
        rest.0,
        ap
              (λ o.
                (end_or (round start id (turns i) w).0
                  (attempt_loop start id turns left (i + 1) (round start id (turns i) w).0) o).1)
              g.goes_on
            ∙ rest.1,
      )
