-- ===== src/Grok/Proxy/Sound.antt =====
-- What the client of Grok is served.
use foxrouters.Grok.{
  next_account, none_enabled, take_tokens, no_accounts, stale_one, fresh_one, ChosenAccount,
}
use foxrouters.Grok.Proxy.{
  on_refresh, grok_round, on_first, refresh_failed, refreshed, note_proxy, Step, grok_breaker_open,
  GrokTurn, no_reply, replied, grok_client_gone, on_second, no_account_left, GrokOutcome, GrokWorld,
  GrokReply, settle_reply, proxy_grok, hear, grok_loop, grok_served, change_at, ends_or, Refreshed,
  try_account, ban_account, ask_token,
}
use foxrouters.Circuit.{record_request, can_request}
use foxrouters.Upstream.{get_client}
use foxrouters.Pool.{ProxyEntry}
use foxrouters.Codebuddy.Proxy.{failure_text}
use foxrouters.Prelude.{
  nat_beq, if_split, if_either, leb, length, codes, Str, ℕ, zero, suc, ◌+◌, ◌<◌, ◌≡◌, refl, subst,
  ◌≢◌, ◌⊎◌, inl, inr, Bool, false, not, ◌||◌, Option, none, some, arith,
}
use foxrouters.Prelude.Int.{ℤ}

-- A status that is handed on.
abbrev pub HandedOn : ℕ → Type 0
HandedOn status = (status < 500) × (status ≢ 401) × (status ≢ 402) × (status ≢ 403)

abbrev pub ReplyOf : (ℕ → GrokTurn) → ℕ → Str → Type 0
ReplyOf turns status body =
    (i : ℕ) × (((turns i).first ≡ replied status body) ⊎ ((turns i).second ≡ replied status body))

abbrev GrokOutcomeIs : (ℕ → GrokTurn) → GrokOutcome → Type 0
GrokOutcomeIs turns grok_breaker_open = Unit
GrokOutcomeIs turns grok_client_gone = Unit
GrokOutcomeIs turns no_account_left = Unit
GrokOutcomeIs turns (grok_served email status body) = ReplyOf turns status body × HandedOn status

abbrev MaybeServed : (ℕ → GrokTurn) → Option GrokOutcome → Type 0
MaybeServed turns none = Unit
MaybeServed turns (some o) = GrokOutcomeIs turns o

abbrev StepIs : (ℕ → GrokTurn) → Step → Type 0
StepIs turns s = MaybeServed turns s.1

module _ (turns : ℕ → GrokTurn) where
  settle_reply-StepIs :
      (start now : ℕ) (email : Str) (status : ℕ) (body : Str) (w : GrokWorld)
      → ReplyOf turns status body
      → nat_beq status 401 ≡ false
      → StepIs turns (settle_reply start now email status body w)
  unfolding settle_reply
  settle_reply-StepIs start now email status body w r n =
      if_split (StepIs turns) (nat_beq status 402 || nat_beq status 403) _ _ (λ y. tt)
        (λ m.
          if_split (StepIs turns) (leb 500 status)
            (hear start now (some (failure_text status)) w, none)
            (hear start now none w, some (grok_served email status body)) (λ y. tt)
            (λ b.
              (r, (ground (arith, b), ground (arith, n), ground (arith, m), ground (arith, m)))))

  on_second-StepIs :
      (i start now : ℕ) (id email : Str) (x : GrokReply) (w : GrokWorld)
      → (turns i).second ≡ x
      → StepIs turns (on_second start now id email x w)
  unfolding on_second
  on_second-StepIs i start now id email no_reply w e = tt
  on_second-StepIs i start now id email (replied status body) w e =
      let w' = note_proxy id (some status) w in
      if_split (StepIs turns) (nat_beq status 401) (change_at email ban_account w', none)
        (settle_reply start now email status body w') (λ y. tt)
        (settle_reply-StepIs start now email status body w' (i, inr e))

  on_refresh-StepIs :
      (i start now : ℕ) (id email : Str) (x : Refreshed) (w : GrokWorld)
      → StepIs turns (on_refresh start now id email x (turns i).second w)
  unfolding on_refresh
  on_refresh-StepIs i start now id email (refresh_failed err) w = tt
  on_refresh-StepIs i start now id email (refreshed t) w =
      on_second-StepIs i start now id email (turns i).second (change_at email (take_tokens now t) w)
        refl

  on_first-StepIs :
      (i start : ℕ) (id email : Str) (x : GrokReply) (w : GrokWorld)
      → (turns i).first ≡ x
      → StepIs turns (on_first start id email (turns i) x w)
  unfolding on_first
  on_first-StepIs i start id email no_reply w e = tt
  on_first-StepIs i start id email (replied status body) w e =
      let t = turns i in
      let w' = note_proxy id (some status) w in
      if_split (StepIs turns) (nat_beq status 401)
        (on_refresh start t.now id email t.refresh t.second (ask_token t.token_call w'))
        (settle_reply start t.now email status body w')
        (λ y. on_refresh-StepIs i start t.now id email t.refresh (ask_token t.token_call w'))
        (settle_reply-StepIs start t.now email status body w' (i, inl e))

  try_account-StepIs :
      (i start : ℕ) (id : Str) (w : GrokWorld) (c : ChosenAccount)
      → StepIs turns (try_account start id (turns i) w c)
  unfolding try_account
  try_account-StepIs i start id w no_accounts = tt
  try_account-StepIs i start id w none_enabled = tt
  try_account-StepIs i start id w (fresh_one idx a) =
      on_first-StepIs i start id a.email (turns i).first w refl
  try_account-StepIs i start id w (stale_one a) =
      on_first-StepIs i start id a.email (turns i).first w refl

  ends_or-GrokOutcomeIs :
      (w : GrokWorld) (rest : GrokWorld × GrokOutcome) (o : Option GrokOutcome)
      → GrokOutcomeIs turns rest.1
      → MaybeServed turns o
      → GrokOutcomeIs turns (ends_or w rest o).1
  ends_or-GrokOutcomeIs w rest none h m = h
  ends_or-GrokOutcomeIs w rest (some o) h m = m

  grok_loop-GrokOutcomeIs :
      (start : ℕ) (id : Str) (left i : ℕ) (w : GrokWorld)
      → GrokOutcomeIs turns (grok_loop start id turns left i w).1
  unfolding grok_loop grok_round
  grok_loop-GrokOutcomeIs start id zero i w = tt
  grok_loop-GrokOutcomeIs start id (suc left) i w =
      let t = turns i in
      let r = grok_round start id t w in
      let p = next_account t.now w.manager in
      ends_or-GrokOutcomeIs r.0 (grok_loop start id turns left (i + 1) r.0) r.1
        (grok_loop-GrokOutcomeIs start id left (i + 1) r.0)
        (if_either (StepIs turns) t.cancelled (w, some grok_client_gone)
          (try_account start id t (record w { manager = p.0 }) p.1) tt
          (try_account-StepIs i start id (record w { manager = p.0 }) p.1))

  proxy_grok-GrokOutcomeIs :
      (external : ProxyEntry → Bool) (incr : Option ℤ) (now : ℕ) (w : GrokWorld)
      → GrokOutcomeIs turns (proxy_grok external incr now turns w).1
  unfolding proxy_grok
  proxy_grok-GrokOutcomeIs external incr now w =
      let p = can_request now w.health in
      let c = get_client external incr (codes "grok") w.pool in
      let w' : GrokWorld = record w { health = p.0; pool = c.0 } in
      if_either (λ (x : GrokWorld × GrokOutcome). GrokOutcomeIs turns x.1) (not p.1)
        (
          record w { health = record_request now 0 (some (codes "circuit open")) p.0 },
          grok_breaker_open,
        )
        (grok_loop now c.2 turns (length w.manager.accounts) 0 w') tt
        (grok_loop-GrokOutcomeIs now c.2 (length w.manager.accounts) 0 w')

-- What ProxyGrok serves to the client is a reply of one of its attempts, the first one or the one
-- after a refresh, and its status is below 500 and neither 401 nor 402 nor 403: an account that is
-- banned, out of credit or has a stale token is never shown to the client.
pub proxy_grok_sound :
    (external : ProxyEntry → Bool) (incr : Option ℤ) (now : ℕ) (turns : ℕ → GrokTurn)
    (w : GrokWorld) (email : Str) (status : ℕ) (body : Str)
    → (proxy_grok external incr now turns w).1 ≡ grok_served email status body
    → ReplyOf turns status body × HandedOn status
proxy_grok_sound external incr now turns w email status body e =
    subst (GrokOutcomeIs turns) e (proxy_grok-GrokOutcomeIs turns external incr now w)
