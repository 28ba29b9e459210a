-- ===== src/Grok.antt =====
-- internal/upstream/grok.go: the accounts of Grok and their manager. Times are nanoseconds, 0 is the
-- zero time. The texts of times that only the dashboard shows and the writes to Redis are left out.
pub mod Rotation
pub mod Proxy
mod Tests
use foxrouters.Prelude.Turns.{turn_search}
use foxrouters.Prelude.{
  ltb, nat_beq, if◌then◌else◌, any, keep, is_empty, length, Str, str_eq, ℕ, ◌+◌, ◌-◌, ◌*◌, ◌%◌,
  Bool, true, false, not, ◌&&◌, Option, none, some, List, [], ◌∷◌, ◌++◌, map,
}
use foxrouters.Prelude.Int.{is_positive, negsuc, ℤ, pos}

pub record GrokAccount : Type 0 where
  pub email : Str
  pub sub : Str
  pub access_token : Str
  pub refresh_token : Str
  pub id_token : Str
  pub expires_in : ℤ
  pub expires_at : ℕ
  pub disabled : Bool
  pub disabled_at : ℕ

pub record GrokAccountManager : Type 0 where
  pub accounts : List GrokAccount
  pub next : ℕ

-- Ten minutes.
abbrev pub refresh_buffer : ℕ
refresh_buffer = 600_000_000_000

abbrev pub account_cooldown : ℕ
account_cooldown = 600_000_000_000

-- A number of seconds after a time; a time before the zero time is the zero time.
unfoldable pub after_seconds : ℕ → ℤ → ℕ
after_seconds now (pos n) = now + n * 1_000_000_000
after_seconds now (negsuc n) = now - (n + 1) * 1_000_000_000

unfoldable pub is_expired : ℕ → GrokAccount → Bool
is_expired now a = ltb a.expires_at (now + refresh_buffer)

-- Enabled, and outside of the time before the expiry.
unfoldable pub is_fresh : ℕ → GrokAccount → Bool
is_fresh now a = not a.disabled && ltb (now + refresh_buffer) a.expires_at

pub data TokenStatus : Type 0 where
  banned : TokenStatus
  cooling : TokenStatus
  expired : TokenStatus
  active : TokenStatus

unfoldable pub token_status : ℕ → GrokAccount → TokenStatus
unfolding is_expired
token_status now a =
    if a.disabled
    then (if nat_beq a.disabled_at 0 then banned else cooling)
    else if is_expired now a
    then expired
    else active

-- What Next gives: an error, a fresh account with its index, or an account that is refreshed beside.
pub data ChosenAccount : Type 0 where
  no_accounts : ChosenAccount
  none_enabled : ChosenAccount
  fresh_one : ℕ → GrokAccount → ChosenAccount
  stale_one : GrokAccount → ChosenAccount

unfoldable pub later_one : GrokAccount → Option GrokAccount → GrokAccount
later_one a none = a
later_one a (some best) = if ltb best.expires_at a.expires_at then a else best

-- The second pass: the enabled account that expires last, the first of them.
unfoldable pub best_account : Option GrokAccount → List GrokAccount → Option GrokAccount
unfolding later_one
best_account best [] = best
best_account best (a ∷ more) =
    best_account (if a.disabled then best else some (later_one a best)) more

unfoldable pub second_pass :
    GrokAccountManager → Option GrokAccount → GrokAccountManager × ChosenAccount
second_pass am none = (am, none_enabled)
second_pass am (some a) = (record am { next = (am.next + 1) % length am.accounts }, stale_one a)

unfoldable pub first_pass :
    GrokAccountManager → Option (ℕ × GrokAccount) → GrokAccountManager × ChosenAccount
unfolding second_pass
first_pass am none = second_pass am (best_account none am.accounts)
first_pass am (some (idx, a)) =
    (record am { next = (idx + 1) % length am.accounts }, fresh_one idx a)

unfoldable pub next_account : ℕ → GrokAccountManager → GrokAccountManager × ChosenAccount
unfolding first_pass turn_search
next_account now am =
    if is_empty am.accounts
    then (am, no_accounts)
    else first_pass am (turn_search (is_fresh now) am.accounts am.next (length am.accounts) 0)

-- What the token endpoint answers.
pub record Tokens : Type 0 where
  pub access_token : Str
  pub refresh_token : Str
  pub id_token : Str
  pub expires_in : ℤ

-- refreshLocked, after an answer with tokens.
unfoldable pub take_tokens : ℕ → Tokens → GrokAccount → GrokAccount
unfolding after_seconds
take_tokens now t a =
    let expires_in = if is_positive t.expires_in then t.expires_in else a.expires_in in
    record a {
      access_token = t.access_token;
      refresh_token = if str_eq t.refresh_token [] then a.refresh_token else t.refresh_token;
      id_token = if str_eq t.id_token [] then a.id_token else t.id_token;
      expires_in = expires_in;
      expires_at = after_seconds now expires_in;
    }

unfoldable pub lift : ℕ → GrokAccount → GrokAccount
lift now a =
    if a.disabled && (not (nat_beq a.disabled_at 0) && ltb account_cooldown (now - a.disabled_at))
    then record a { disabled = false }
    else a

unfoldable pub lift_cooldowns : ℕ → GrokAccountManager → GrokAccountManager
lift_cooldowns now am = record am { accounts = map (lift now) am.accounts }

-- `existing.Email == email`
unfoldable pub has_account : Str → List GrokAccount → Bool
has_account email more = any (λ (a : GrokAccount). str_eq a.email email) more

unfoldable pub change_account :
    Str → (GrokAccount → GrokAccount) → List GrokAccount → List GrokAccount
change_account email f [] = []
change_account email f (a ∷ more) =
    let rest = change_account email f more in if str_eq a.email email then f a ∷ more else a ∷ rest

unfoldable pub int_is_zero : ℤ → Bool
int_is_zero (pos n) = nat_beq n 0
int_is_zero (negsuc n) = false

-- UpsertAccount: the new manager, whether the account is new, and the total.
unfoldable pub upsert_account : ℕ → GrokAccount → GrokAccountManager → GrokAccountManager × Bool × ℕ
unfolding after_seconds has_account change_account
upsert_account now given am =
    let expires_in = if int_is_zero given.expires_in then pos 21600 else given.expires_in in
    let new : GrokAccount = record given {
      expires_in = expires_in;
      expires_at = after_seconds now expires_in;
      disabled = false;
      disabled_at = 0;
    } in
    if has_account given.email am.accounts
    then (
      record am { accounts = change_account given.email (λ a. new) am.accounts },
      false,
      length am.accounts,
    )
    else (record am { accounts = am.accounts ++ (new ∷ []) }, true, length am.accounts + 1)

unfoldable pub import_account_raw : ℕ → GrokAccount → GrokAccountManager → GrokAccountManager × Bool
unfolding after_seconds has_account
import_account_raw now given am =
    let new : GrokAccount = record given {
      sub = [];
      expires_at = after_seconds now given.expires_in;
      disabled = false;
      disabled_at = 0;
    } in
    if has_account given.email am.accounts
    then (am, false)
    else (record am { accounts = am.accounts ++ (new ∷ []) }, true)

unfoldable pub drop_account : Str → List GrokAccount → List GrokAccount
drop_account email [] = []
drop_account email (a ∷ more) =
    let rest = drop_account email more in if str_eq a.email email then more else a ∷ rest

unfoldable pub delete_account : Str → GrokAccountManager → GrokAccountManager × Bool
unfolding has_account
delete_account email am =
    (record am { accounts = drop_account email am.accounts }, has_account email am.accounts)

-- cleanupBy, with the test of CleanupDisabled and CleanupBanned.
unfoldable pub cleanup_accounts : GrokAccountManager → GrokAccountManager × ℕ
cleanup_accounts am =
    let kept = keep (λ a. not (a.disabled && nat_beq a.disabled_at 0)) am.accounts in
    (record am { accounts = kept }, length am.accounts - length kept)
