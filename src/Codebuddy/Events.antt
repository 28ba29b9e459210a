-- ===== src/Codebuddy/Events.antt =====
-- Runs of the manager: what requests, the dashboard and the worker do to the keys, in any order. A
-- reply may come when the request has chosen its key long before.
use foxrouters.Codebuddy.{
  add_credits, cleanup_disabled, CbKeyManager, delete_key, reenable_cooldowns, change_key, next_key,
  add_key, CbKey,
}
use foxrouters.Codebuddy.Proxy.{cool_key, ban_key}
use foxrouters.Prelude.{Str, ℕ, Bool, List, [], ◌∷◌}

pub data KeyEvent (F : Type 0) : Type 0 where
  picks : KeyEvent F
  bans : Str → KeyEvent F
  cools : Str → ℕ → KeyEvent F
  credits : Str → F → KeyEvent F
  lifts : ℕ → KeyEvent F
  adds : Str → KeyEvent F
  deletes : Str → KeyEvent F
  cleans : KeyEvent F

-- The arithmetic of credits.
pub record Credits (F : Type 0) : Type 0 where
  pub nil : F
  pub plus : F → F → F
  pub at_limit : F → Bool

module _ {F : Type 0} (ar : Credits F) where
  abbrev pub change : Str → (CbKey F → CbKey F) → CbKeyManager F → CbKeyManager F
  change key f km = record km { keys = change_key key f km.keys }

  unfoldable pub step : KeyEvent F → CbKeyManager F → CbKeyManager F
  step picks km = (next_key km).0
  step (bans key) km = change key ban_key km
  step (cools key now) km = change key (cool_key now) km
  step (credits key c) km = change key (add_credits ar.plus ar.at_limit c) km
  step (lifts now) km = reenable_cooldowns now km
  step (adds key) km = (add_key ar.nil key km).0
  step (deletes key) km = (delete_key key km).0
  step cleans km = (cleanup_disabled km).0

  unfoldable pub run : List (KeyEvent F) → CbKeyManager F → CbKeyManager F
  run [] km = km
  run (e ∷ es) km = run es (step e km)
