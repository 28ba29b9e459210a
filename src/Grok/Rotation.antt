-- ===== src/Grok/Rotation.antt =====
-- Which account Next chooses.
use foxrouters.Grok.{
  stale_one, ChosenAccount, GrokAccount, GrokAccountManager, fresh_one, is_fresh, none_enabled,
  no_accounts,
}
use foxrouters.Prelude.{All, get_elem?, ℕ, ◌≤◌, ◌≡◌, ◌⊎◌, true, false, Option, none, some, List, []}

abbrev pub Enabled : GrokAccount → Type 0
Enabled a = a.disabled ≡ false

-- No account is better: it is disabled, or it expires no later.
abbrev pub NoLater : GrokAccount → GrokAccount → Type 0
NoLater best a = (a.disabled ≡ false) → a.expires_at ≤ best.expires_at

-- The best of a first account, if there is one, and a list.
abbrev BestOf : Option GrokAccount → List GrokAccount → Option GrokAccount → Type 0
BestOf first accounts none = (first ≡ none) × All (λ a. a.disabled ≡ true) accounts
BestOf first accounts (some b) =
    ((first ≡ some b) ⊎ ((i : ℕ) × (get_elem? accounts i ≡ some b) × (b.disabled ≡ false)))
    × All (NoLater b) accounts
    × ((f : GrokAccount) → first ≡ some f → f.expires_at ≤ b.expires_at)

-- What Next may choose.
abbrev pub AccountIs : ℕ → GrokAccountManager → ChosenAccount → Type 0
AccountIs now am no_accounts = am.accounts ≡ []
AccountIs now am none_enabled = All (λ a. a.disabled ≡ true) am.accounts
AccountIs now am (fresh_one idx a) = (get_elem? am.accounts idx ≡ some a) × (is_fresh now a ≡ true)
AccountIs now am (stale_one a) =
    ((i : ℕ) × (get_elem? am.accounts i ≡ some a) × (a.disabled ≡ false))
    × All (NoLater a) am.accounts
    × All (λ x. is_fresh now x ≡ false) am.accounts
