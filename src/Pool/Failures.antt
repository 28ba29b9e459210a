-- ===== src/Pool/Failures.antt =====
-- How failures disable an entry, and what the dashboard sees of the passwords.
use foxrouters.Pool.{
  find_entry, set_entry, rebuild_enabled, proxy_fail_threshold, ProxyEntry, ProxyPool,
}
use foxrouters.Pool.Traffic.{mark_failed, count_failure, fail_found}
use foxrouters.Prelude.{
  Bool-cases, str_iff, Str, str_eq, ℕ, zero, suc, ◌+◌, ◌≤◌, ◌≡◌, sym, ◌∙◌, subst, ◌≢◌, ◌⊎◌, inl,
  inr, false, some, List, [], ◌∷◌, arith,
}

pub find_entry-id :
    (id : Str) (es : List ProxyEntry) {e : ProxyEntry} → find_entry id es ≡ some e → e.id ≡ id
unfolding find_entry
find_entry-id id [] q = cc
find_entry-id id (x ∷ es) {e} q = elim (Bool-cases (str_eq x.id id)) [
  | inl y ↦
      let same : x ≡ e = ground (arith, q, y) in
      subst (λ (w : ProxyEntry). w.id ≡ id) same ((str_iff x.id id).0 y)
  | inr y ↦ find_entry-id id es {e = e} (ground (arith, q, y))
]

pub find_entry-set_entry :
    (id : Str) (new : ProxyEntry) (es : List ProxyEntry) {e : ProxyEntry}
    → find_entry id es ≡ some e
    → new.id ≡ id
    → find_entry id (set_entry id new es) ≡ some new
unfolding find_entry set_entry
find_entry-set_entry id new [] q n = cc
find_entry-set_entry id new (x ∷ es) {e} q n = elim (Bool-cases (str_eq x.id id)) [
  | inl y ↦ ground (arith, y, (str_iff new.id id).1 n)
  | inr y ↦
      let rest = find_entry-set_entry id new es {e = e} (ground (arith, q, y)) n in
      ground (arith, y, rest)
]

-- A number of failures of one entry, with no success between.
unfoldable pub failures : ℕ → Str → ProxyPool → ProxyPool
failures zero id p = p
failures (suc n) id p = failures n id (mark_failed id p)

abbrev counted : ℕ → ProxyEntry → ProxyEntry
counted zero e = e
counted (suc n) e = counted n (count_failure e)

mark_failed-entries :
    (id : Str) (p : ProxyPool) (e : ProxyEntry)
    → id ≢ []
    → find_entry id p.entries ≡ some e
    → (mark_failed id p).entries ≡ set_entry id (count_failure e) p.entries
unfolding mark_failed fail_found rebuild_enabled
mark_failed-entries id p e ne q = ground (arith, str_iff id [], ne, q)

count_failure-id : (e : ProxyEntry) → (count_failure e).id ≡ e.id
unfolding count_failure
count_failure-id e = ground arith

failures-found :
    (n : ℕ) (id : Str) (p : ProxyPool) (e : ProxyEntry)
    → id ≢ []
    → find_entry id p.entries ≡ some e
    → find_entry id (failures n id p).entries ≡ some (counted n e)
unfolding failures
failures-found zero id p e ne q = q
failures-found (suc n) id p e ne q = failures-found n id (mark_failed id p) (count_failure e) ne (
    subst (λ es. find_entry id es ≡ some (count_failure e)) (sym (mark_failed-entries id p e ne q))
      (find_entry-set_entry id (count_failure e) p.entries q
        (count_failure-id e ∙ find_entry-id id p.entries q)))

counted-off :
    (n : ℕ) (e : ProxyEntry)
    → (e.enabled ≡ false) ⊎ ((1 ≤ n) × (proxy_fail_threshold ≤ e.fail_count + n))
    → (counted n e).enabled ≡ false
unfolding count_failure
counted-off zero e h = ground arith
counted-off (suc n) e h = counted-off n (count_failure e) (ground arith)

-- As many failures of an entry in a row as complete five, and at least one, disable it, and so do
-- more: the entry is still there and is not enabled.
pub failures_disable :
    (n : ℕ) (id : Str) (p : ProxyPool) (e : ProxyEntry)
    → id ≢ []
    → find_entry id p.entries ≡ some e
    → 1 ≤ n
    → proxy_fail_threshold ≤ e.fail_count + n
    → (e' : ProxyEntry) × (find_entry id (failures n id p).entries ≡ some e') × (e'.enabled ≡ false)
failures_disable n id p e ne q one enough =
    (counted n e, failures-found n id p e ne q, counted-off n e (inr (one, enough)))
