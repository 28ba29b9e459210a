-- ===== src/Pool/Invariant.antt =====
-- What holds of the pool after any calls of its methods.
use foxrouters.Pool.{
  check_entry, proxy_fail_threshold, rebuild_enabled, ProxyEntry, ProxyPool, set_entry, is_enabled,
  find_entry,
}
use foxrouters.Pool.Traffic.{clear_failures}
use foxrouters.Prelude.{
  Bool-cases, keep, All, Str, str_eq, ◌<◌, ◌≡◌, refl, subst, ◌⊎◌, inl, inr, false, none, some, List,
  [], ◌∷◌, ◌++◌, map, arith,
}

-- An entry as the pool holds it: it passes the checks of validateEntry, and it is not enabled once it
-- has failed five times in a row.
pub record IsProxy (e : ProxyEntry) : Type 0 where
  pub checked : check_entry e ≡ none
  pub live : (e.enabled ≡ false) ⊎ (e.fail_count < proxy_fail_threshold)

-- The list of the enabled is that of the entries that are enabled, but for the counts of failures,
-- which it may be behind with.
pub record IsPool (p : ProxyPool) : Type 0 where
  pub in_step : map clear_failures p.enabled ≡ map clear_failures (keep is_enabled p.entries)
  pub sound : All IsProxy p.entries

pub All-set_entry {κ} :
    (P : ProxyEntry → Type κ) (id : Str) (new : ProxyEntry) (es : List ProxyEntry)
    → P new
    → All P es
    → All P (set_entry id new es)
unfolding set_entry
All-set_entry P id new [] p h = tt
All-set_entry P id new (e ∷ es) p h = elim (Bool-cases (str_eq e.id id)) [
  | inl q ↦ rw q (p, h.1)
  | inr q ↦ rw q (h.0, All-set_entry P id new es p h.1)
]

pub All-find_entry {κ} :
    (P : ProxyEntry → Type κ) (id : Str) (es : List ProxyEntry) {e : ProxyEntry}
    → All P es
    → find_entry id es ≡ some e
    → P e
unfolding find_entry
All-find_entry P id [] h q = cc
All-find_entry P id (x ∷ es) {e} h q = elim (Bool-cases (str_eq x.id id)) [
  | inl y ↦ subst P (ground (arith, y)) h.0
  | inr y ↦ All-find_entry P id es h.1 (ground (arith, y))
]

-- A write that changes the count of failures alone leaves the enabled entries in step.
pub set_entry_in_step :
    (id : Str) (e new : ProxyEntry) (es : List ProxyEntry)
    → find_entry id es ≡ some e
    → clear_failures new ≡ clear_failures e
    → new.enabled ≡ e.enabled
    → map clear_failures (keep is_enabled (set_entry id new es))
      ≡ map clear_failures (keep is_enabled es)
unfolding set_entry find_entry keep
set_entry_in_step id e new [] q c b = refl
set_entry_in_step id e new (x ∷ es) q c b = elim (Bool-cases (str_eq x.id id)) [
  | inl y ↦ let same : x ≡ e = ground (arith, y) in rw (y, same, b) (ground (arith, c))
  | inr y ↦
      let rest = set_entry_in_step id e new es (ground (arith, y)) c b in
      rw y (ground (arith, rest))
]

pub rebuilt : (p : ProxyPool) → All IsProxy p.entries → IsPool (rebuild_enabled p)
unfolding rebuild_enabled
rebuilt p h = record { in_step = refl; sound = h }

pub All-snoc :
    (es : List ProxyEntry) (e : ProxyEntry)
    → All IsProxy es
    → IsProxy e
    → All IsProxy (es ++ (e ∷ []))
All-snoc [] e h p = (p, tt)
All-snoc (x ∷ es) e h p = (h.0, All-snoc es e h.1 p)
