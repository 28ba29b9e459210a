-- ===== src/Codebuddy/Permanent.antt =====
-- A key that is disabled for good.
use foxrouters.Codebuddy.{all_keys_disabled, no_cb_keys, is_permanent, CbKey, chosen, Chosen}
use foxrouters.Codebuddy.Events.{
  KeyEvent, bans, picks, cleans, deletes, adds, credits, lifts, cools,
}
use foxrouters.Prelude.{Str, ◌≡◌, ◌≢◌, true}
use foxrouters.Prelude.Space.{trim_space}

chosen_of : {F : Type 0} → CbKey F → Chosen F → CbKey F
chosen_of k no_cb_keys = k
chosen_of k all_keys_disabled = k
chosen_of k (chosen idx x) = x

module _ {F : Type 0} where
  -- Every entry with this string is disabled for good.
  abbrev pub Barred : Str → CbKey F → Type 0
  Barred key k = k.key ≡ key → is_permanent k ≡ true

  -- No rate limit hits the key, and it is not imported again.
  abbrev pub Spares : Str → KeyEvent F → Type 0
  Spares key picks = Unit
  Spares key (bans other) = Unit
  Spares key (cools other now) = other ≢ key
  Spares key (credits other c) = Unit
  Spares key (lifts now) = Unit
  Spares key (adds other) = trim_space other ≢ key
  Spares key (deletes other) = Unit
  Spares key cleans = Unit
