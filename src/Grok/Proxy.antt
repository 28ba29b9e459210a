-- ===== src/Grok/Proxy.antt =====
-- internal/upstream/grok.go, ProxyGrok: the attempts at the accounts, up to the response that is handed
-- to the client. What the upstream and the token endpoint answer is an argument.
pub mod Sound
use foxrouters.Grok.{
  next_account, none_enabled, GrokAccount, no_accounts, take_tokens, fresh_one, ChosenAccount,
  GrokAccountManager, Tokens, change_account, stale_one,
}
use foxrouters.Circuit.{UpstreamHealth, can_request, record_request}
use foxrouters.Upstream.{mark_proxy_result, get_client}
use foxrouters.Pool.{ProxyPool, ProxyEntry}
use foxrouters.Codebuddy.Proxy.{failure_text}
use foxrouters.Prelude.{
  leb, nat_beq, if◌then◌else◌, length, codes, contains, Str, ℕ, zero, suc, ◌+◌, ◌-◌, ◌/◌, Bool,
  true, not, ◌||◌, Option, none, some,
}
use foxrouters.Prelude.Int.{ℤ}

pub data GrokReply : Type 0 where
  no_reply : GrokReply
  replied : ℕ → Str → GrokReply

-- What Refresh comes to: tokens, or an error with its text.
pub data Refreshed : Type 0 where
  refreshed : Tokens → Refreshed
  refresh_failed : Str → Refreshed

-- The call of the token endpoint in Refresh: what the client and Redis answer to getClient, and the
-- status, or `none` for an error of the network.
pub record TokenCall : Type 0 where
  pub external : ProxyEntry → Bool
  pub incr : Option ℤ
  pub status : Option ℕ

-- An attempt: whether the client has gone, the time, the reply, and what a refresh and a second call
-- with the new token would give. `token_call` is `none` where Refresh makes no call of its own, since
-- it waits for that of another request or cannot build the request.
pub record GrokTurn : Type 0 where
  pub cancelled : Bool
  pub now : ℕ
  pub first : GrokReply
  pub token_call : Option TokenCall
  pub refresh : Refreshed
  pub second : GrokReply

pub data GrokOutcome : Type 0 where
  grok_breaker_open : GrokOutcome
  grok_client_gone : GrokOutcome
  no_account_left : GrokOutcome
  grok_served : Str → ℕ → Str → GrokOutcome

pub record GrokWorld : Type 0 where
  pub manager : GrokAccountManager
  pub health : UpstreamHealth
  pub pool : Option ProxyPool

abbrev pub Step : Type 0
Step = GrokWorld × Option GrokOutcome

unfoldable pub change_at : Str → (GrokAccount → GrokAccount) → GrokWorld → GrokWorld
unfolding change_account
change_at email f w = record w {
  manager = record w.manager { accounts = change_account email f w.manager.accounts };
}

unfoldable pub ban_account : GrokAccount → GrokAccount
ban_account a = record a { disabled = true; disabled_at = 0 }

unfoldable pub cool_account : ℕ → GrokAccount → GrokAccount
cool_account now a = record a { disabled = true; disabled_at = now }

unfoldable pub hear : ℕ → ℕ → Option Str → GrokWorld → GrokWorld
hear start now err w = record w {
  health = record_request now ((now - start) / 1_000_000) err w.health;
}

unfoldable pub note_proxy : Str → Option ℕ → GrokWorld → GrokWorld
note_proxy id status w = record w { pool = mark_proxy_result id status w.pool }

-- The texts of a body that mean that the account is gone.
unfoldable pub is_final : Str → Bool
is_final body =
    contains body (codes "spending-limit")
    || (contains body (codes "spending_limit")
        || (contains body (codes "personal-team-blocked")
            || (contains body (codes "banned")
                || (contains body (codes "suspended") || contains body (codes "permanently")))))

-- What follows the handling of a 401.
unfoldable pub settle_reply : ℕ → ℕ → Str → ℕ → Str → GrokWorld → Step
unfolding change_at ban_account cool_account hear is_final
settle_reply start now email status body w =
    if nat_beq status 402 || nat_beq status 403
    then (
      change_at email
          (if nat_beq status 402 || is_final body then ban_account else cool_account now) w,
      none,
    )
    else if leb 500 status
    then (hear start now (some (failure_text status)) w, none)
    else (hear start now none w, some (grok_served email status body))

-- The second call; a second 401 disables the account for good.
unfoldable pub on_second : ℕ → ℕ → Str → Str → GrokReply → GrokWorld → Step
unfolding settle_reply note_proxy
on_second start now id email no_reply w = (note_proxy id none w, none)
on_second start now id email (replied status body) w =
    let w' = note_proxy id (some status) w in
    if nat_beq status 401
    then (change_at email ban_account w', none)
    else settle_reply start now email status body w'

-- The call of Refresh goes through a proxy of its own, and reports to the pool of proxies.
unfoldable pub ask_token : Option TokenCall → GrokWorld → GrokWorld
ask_token none w = w
ask_token (some c) w =
    let (pool, via, id) = get_client c.external c.incr (codes "grok") w.pool in
    record w { pool = mark_proxy_result id c.status pool }

unfoldable pub on_refresh : ℕ → ℕ → Str → Str → Refreshed → GrokReply → GrokWorld → Step
unfolding on_second take_tokens
on_refresh start now id email (refresh_failed err) second w =
    (if contains err (codes "invalid_grant") then change_at email ban_account w else w, none)
on_refresh start now id email (refreshed t) second w =
    on_second start now id email second (change_at email (take_tokens now t) w)

unfoldable pub on_first : ℕ → Str → Str → GrokTurn → GrokReply → GrokWorld → Step
unfolding on_refresh ask_token
on_first start id email t no_reply w = (note_proxy id none w, none)
on_first start id email t (replied status body) w =
    let w' = note_proxy id (some status) w in
    if nat_beq status 401
    then on_refresh start t.now id email t.refresh t.second (ask_token t.token_call w')
    else settle_reply start t.now email status body w'

unfoldable pub try_account : ℕ → Str → GrokTurn → GrokWorld → ChosenAccount → Step
unfolding on_first
try_account start id t w no_accounts = (w, some no_account_left)
try_account start id t w none_enabled = (w, some no_account_left)
try_account start id t w (fresh_one idx a) = on_first start id a.email t t.first w
try_account start id t w (stale_one a) = on_first start id a.email t t.first w

unfoldable pub grok_round : ℕ → Str → GrokTurn → GrokWorld → Step
unfolding try_account
grok_round start id t w =
    let (am, c) = next_account t.now w.manager in
    if t.cancelled
    then (w, some grok_client_gone)
    else try_account start id t (record w { manager = am }) c

abbrev pub ends_or :
    GrokWorld → GrokWorld × GrokOutcome → Option GrokOutcome → GrokWorld × GrokOutcome
ends_or w rest none = rest
ends_or w rest (some o) = (w, o)

-- The loop: `left` attempts, of which the first is number `i`.
unfoldable pub grok_loop : ℕ → Str → (ℕ → GrokTurn) → ℕ → ℕ → GrokWorld → GrokWorld × GrokOutcome
unfolding grok_round
grok_loop start id turns zero i w = (w, no_account_left)
grok_loop start id turns (suc left) i w =
    let r = grok_round start id (turns i) w in
    let rest = grok_loop start id turns left (i + 1) r.0 in ends_or r.0 rest r.1

-- ProxyGrok
unfoldable pub proxy_grok :
    (ProxyEntry → Bool) → Option ℤ → ℕ → (ℕ → GrokTurn) → GrokWorld → GrokWorld × GrokOutcome
unfolding grok_loop
proxy_grok external incr now turns w =
    let (h, ok) = can_request now w.health in
    let (pool, via, id) = get_client external incr (codes "grok") w.pool in
    if not ok
    then (
      record w { health = record_request now 0 (some (codes "circuit open")) h },
      grok_breaker_open,
    )
    else grok_loop now id turns (length w.manager.accounts) 0 (record w { health = h; pool = pool })
