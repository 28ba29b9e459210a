-- ===== src/Pool/InUse.antt =====
-- The methods that requests call keep what holds of the pool.
use foxrouters.Pool.{
  ProxyEntry, check_entry, proxy_fail_threshold, set_entry, ProxyPool, find_entry,
}
use foxrouters.Pool.Traffic.{
  local_index, next, pick_at, shared_index, Picked, count_failure, none_enabled, mark_failed,
  next_index, clear_failures, fail_found, mark_success, scoped, success_found,
}
use foxrouters.Pool.Invariant.{
  All-set_entry, rebuilt, IsProxy, IsPool, All-find_entry, set_entry_in_step,
}
use foxrouters.Pool.Kept.{cleared-IsProxy}
use foxrouters.Prelude.{
  Bool-cases, if_either, leb, is_empty, length, Str, str_eq, ℕ, ◌+◌, ◌≡◌, refl, sym, ◌∙◌, inl, inr,
  false, ◌&&◌, Option, none, some, [], arith,
}
use foxrouters.Prelude.Int.{ℤ}
use foxrouters.Prelude.Assoc.{erase}

next_index-IsPool :
    (incr : Option ℤ) (p : ProxyPool) (n : ℕ) → IsPool p → IsPool (next_index incr p n).0
unfolding next_index local_index
next_index-IsPool none p n s = record { in_step = s.in_step; sound = s.sound }
next_index-IsPool (some v) p n s =
    if_either (λ (r : ProxyPool × ℕ). IsPool r.0) p.store (p, shared_index v n) (local_index p n) s
      (record { in_step = s.in_step; sound = s.sound })

pub next-IsPool :
    (upstream : Str) (incr : Option ℤ) (p : ProxyPool) → IsPool p → IsPool (next upstream incr p).0
unfolding next
next-IsPool upstream incr p s =
    let i = next_index incr p (length (scoped upstream p)) in
    if_either (λ (r : ProxyPool × Picked). IsPool r.0) (is_empty (scoped upstream p))
      (p, none_enabled) (i.0, pick_at (scoped upstream p) i.1) s
      (next_index-IsPool incr p (length (scoped upstream p)) s)

count_failure-IsProxy : (e : ProxyEntry) → IsProxy e → IsProxy (count_failure e)
unfolding count_failure check_entry
count_failure-IsProxy e h =
    let checked = h.checked in
    let live = h.live in
    elim (Bool-cases (leb proxy_fail_threshold (e.fail_count + 1) && e.enabled)) [
      | inl y ↦ rw y (record { checked = checked; live = inl refl })
      | inr y ↦ rw y (record { checked = checked; live = ground arith })
    ]

below :
    (e : ProxyEntry)
    → (leb proxy_fail_threshold (e.fail_count + 1) && e.enabled) ≡ false
    → (clear_failures (count_failure e) ≡ clear_failures e)
      × ((count_failure e).enabled ≡ e.enabled)
unfolding count_failure
below e y = rw y (refl, refl)

fail_found-IsPool :
    (id : Str) (p : ProxyPool) (found : Option ProxyEntry)
    → find_entry id p.entries ≡ found
    → IsPool p
    → IsPool (fail_found id p found)
unfolding fail_found
fail_found-IsPool id p none q s = s
fail_found-IsPool id p (some e) q s =
    let h = All-find_entry IsProxy id p.entries s.sound q in
    let kept =
      All-set_entry IsProxy id (count_failure e) p.entries (count_failure-IsProxy e h) s.sound in
    elim (Bool-cases (leb proxy_fail_threshold (e.fail_count + 1) && e.enabled)) [
      | inl y ↦ rw y (
          rebuilt
            (record p {
              entries = set_entry id (count_failure e) p.entries;
              transports = erase id p.transports;
            })
            kept)
      | inr y ↦ rw y (record {
        in_step =
            s.in_step
            ∙ sym
                (set_entry_in_step id e (count_failure e) p.entries q (below e y).0 (below e y).1);
        sound = kept;
      })
    ]

pub mark_failed-IsPool : (id : Str) (p : ProxyPool) → IsPool p → IsPool (mark_failed id p)
unfolding mark_failed
mark_failed-IsPool id p s =
    if_either IsPool (str_eq id []) p (fail_found id p (find_entry id p.entries)) s
      (fail_found-IsPool id p (find_entry id p.entries) refl s)

success_found-IsPool :
    (id : Str) (p : ProxyPool) (found : Option ProxyEntry)
    → find_entry id p.entries ≡ found
    → IsPool p
    → IsPool (success_found id p found)
unfolding success_found
success_found-IsPool id p none q s = s
success_found-IsPool id p (some e) q s =
    let h = All-find_entry IsProxy id p.entries s.sound q in
    record {
      in_step = s.in_step ∙ sym (set_entry_in_step id e (clear_failures e) p.entries q refl refl);
      sound =
          All-set_entry IsProxy id (clear_failures e) p.entries (cleared-IsProxy e h.checked)
            s.sound;
    }

pub mark_success-IsPool : (id : Str) (p : ProxyPool) → IsPool p → IsPool (mark_success id p)
unfolding mark_success
mark_success-IsPool id p s =
    if_either IsPool (str_eq id []) p (success_found id p (find_entry id p.entries)) s
      (success_found-IsPool id p (find_entry id p.entries) refl s)
