-- ===== src/Codebuddy.antt =====
-- internal/upstream/codebuddy.go: the keys of CodeBuddy and their manager. `F` is the type of float64;
-- its sum and the test against CB_CREDIT_LIMIT are arguments. A time of 0 is the zero time, and
-- other times are nanoseconds. A key is its string: the manager never holds one twice. The writes
-- to Redis are left out, and so are the texts for the log, which slice a key and so need eight
-- bytes of it; Codebuddy.Proxy has these slices, where a request makes them.
pub mod Proxy
pub mod Rotation
pub mod Events
pub mod Permanent
pub mod Race
mod Tests
use foxrouters.Prelude.{
  leb, if◌then◌else◌, ltb, nat_beq, keep, take, any, length, drop, get_elem?, is_empty, Str, str_eq,
  codes, ℕ, zero, suc, ◌+◌, ◌-◌, ◌%◌, Bool, true, false, not, ◌&&◌, none, some, List, [], ◌∷◌, ◌++◌,
  map,
}
use foxrouters.Prelude.Space.{trim_space}

pub record CbKey (F : Type 0) : Type 0 where
  pub key : Str
  pub disabled : Bool
  pub disabled_at : ℕ
  pub credits_used : F
  pub total_reqs : ℕ

pub record CbKeyManager (F : Type 0) : Type 0 where
  pub keys : List (CbKey F)
  pub next : ℕ

-- What Next gives: an error, or the key at an index.
pub data Chosen (F : Type 0) : Type 0 where
  no_cb_keys : Chosen F
  all_keys_disabled : Chosen F
  chosen : ℕ → CbKey F → Chosen F

-- Ten minutes.
abbrev pub cooldown : ℕ
cooldown = 600_000_000_000

-- `k.Key[:8]` is in range.
unfoldable pub is_printable : Str → Bool
is_printable key = leb 8 (length key)

unfoldable pub mask_cb : Str → Str
mask_cb key = take 8 key ++ (codes "..." ++ drop (length key - 4) key)

module _ {F : Type 0} where
  unfoldable pub add_credits : (F → F → F) → (F → Bool) → F → CbKey F → CbKey F
  add_credits plus at_limit c k =
      let used = plus k.credits_used c in
      let k' : CbKey F = record k { credits_used = used; total_reqs = k.total_reqs + 1 } in
      if at_limit used then record k' { disabled = true; disabled_at = 0 } else k'

  -- The loop of Next from the `i`th key after `next` on, with `left` keys to look at.
  unfoldable pub search : List (CbKey F) → ℕ → ℕ → ℕ → Chosen F
  search keys next zero i = all_keys_disabled
  search keys next (suc left) i =
      let idx = (next + i) % length keys in
      let rest = search keys next left (i + 1) in
      elim (get_elem? keys idx) [ none ↦ rest | some k ↦ if k.disabled then rest else chosen idx k ]

  unfoldable pub move_on : CbKeyManager F → Chosen F → CbKeyManager F
  move_on km no_cb_keys = km
  move_on km all_keys_disabled = km
  move_on km (chosen idx k) = record km { next = (idx + 1) % length km.keys }

  unfoldable pub next_key : CbKeyManager F → CbKeyManager F × Chosen F
  unfolding search move_on
  next_key km =
      let found = search km.keys km.next (length km.keys) 0 in
      if is_empty km.keys then (km, no_cb_keys) else (move_on km found, found)

  -- A write through the pointer of the key with this string.
  unfoldable pub change_key : Str → (CbKey F → CbKey F) → List (CbKey F) → List (CbKey F)
  change_key key f [] = []
  change_key key f (k ∷ ks) =
      let rest = change_key key f ks in if str_eq k.key key then f k ∷ ks else k ∷ rest

  unfoldable pub resolve_key : List (CbKey F) → Str → Str
  resolve_key [] masked_or_full = []
  resolve_key (k ∷ ks) masked_or_full =
      let rest = resolve_key ks masked_or_full in
      if str_eq k.key masked_or_full
      then k.key
      else if ltb 12 (length k.key) && str_eq (mask_cb k.key) masked_or_full
      then k.key
      else rest

  abbrev pub has_key : Str → List (CbKey F) → Bool
  has_key key ks = any (λ (k : CbKey F). str_eq k.key key) ks

  -- AddKey: the new manager, whether the key was added, and the total; `nil` is 0.0.
  unfoldable pub add_key : F → Str → CbKeyManager F → CbKeyManager F × Bool × ℕ
  add_key nil api_key km =
      let key = trim_space api_key in
      let fresh : CbKey F = record {
        key = key;
        disabled = false;
        disabled_at = 0;
        credits_used = nil;
        total_reqs = 0;
      } in
      if str_eq key []
      then (km, false, length km.keys)
      else if has_key key km.keys
      then (km, false, length km.keys)
      else (record km { keys = km.keys ++ (fresh ∷ []) }, true, length km.keys + 1)

  unfoldable pub reenable : ℕ → CbKey F → CbKey F
  reenable now k =
      if k.disabled && (not (nat_beq k.disabled_at 0) && ltb cooldown (now - k.disabled_at))
      then record k { disabled = false }
      else k

  unfoldable pub reenable_cooldowns : ℕ → CbKeyManager F → CbKeyManager F
  reenable_cooldowns now km = record km { keys = map (reenable now) km.keys }

  unfoldable pub drop_key : Str → List (CbKey F) → List (CbKey F)
  drop_key key [] = []
  drop_key key (k ∷ ks) = let rest = drop_key key ks in if str_eq k.key key then ks else k ∷ rest

  unfoldable pub delete_key : Str → CbKeyManager F → CbKeyManager F × Bool
  delete_key key km = (record km { keys = drop_key key km.keys }, has_key key km.keys)

  unfoldable pub is_permanent : CbKey F → Bool
  is_permanent k = k.disabled && nat_beq k.disabled_at 0

  unfoldable pub cleanup_disabled : CbKeyManager F → CbKeyManager F × ℕ
  unfolding is_permanent
  cleanup_disabled km =
      let kept = keep (λ k. not (is_permanent k)) km.keys in
      (record km { keys = kept }, length km.keys - length kept)
