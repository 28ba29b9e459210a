-- ===== src/Pool/Traffic.antt =====
-- internal/proxy/pool.go: the methods of ProxyPool that requests call. `external` says whether
-- nurl.Parse, or xproxy.SOCKS5, takes an entry.
use foxrouters.Pool.{
  applies_to, set_entry, find_entry, rebuild_enabled, ProxyPool, proxy_fail_threshold, ProxyEntry,
}
use foxrouters.Prelude.{
  if◌then◌else◌, leb, get_elem?, is_empty, keep, length, Str, str_eq, codes, ℕ, ◌+◌, ◌-◌, ◌%◌, ◌^◌,
  Bool, false, ◌&&◌, ◌||◌, Option, none, some, List, [],
}
use foxrouters.Prelude.Int.{sub_one_i64, rem, ℤ, wrap_index}
use foxrouters.Prelude.Assoc.{insert, lookup, erase}

-- What Next gives: no entry, an entry, or an index out of range.
pub data Picked : Type 0 where
  none_enabled : Picked
  picked : ProxyEntry → Picked
  panicked : Picked

abbrev pub pick_at : List ProxyEntry → ℕ → Picked
pick_at es i = elim (get_elem? es i) [ none ↦ panicked | some e ↦ picked e ]

-- `(v - 1) % n` on int64, with the correction of a negative index.
unfoldable pub shared_index : ℤ → ℕ → ℕ
shared_index v n = wrap_index (rem (sub_one_i64 v) n) n

-- `rrIndex.Add(1)` on uint64, and `(v - 1) % n`.
unfoldable pub local_index : ProxyPool → ℕ → ProxyPool × ℕ
local_index p n =
    let v = (p.rr_index + 1) % 2 ^ 64 in
    (record p { rr_index = v }, (v + (2 ^ 64 - 1)) % 2 ^ 64 % n)

unfoldable pub scoped : Str → ProxyPool → List ProxyEntry
scoped upstream p = keep (λ e. applies_to e upstream) p.enabled

unfoldable pub next_index : Option ℤ → ProxyPool → ℕ → ProxyPool × ℕ
unfolding shared_index local_index
next_index none p n = local_index p n
next_index (some v) p n = if p.store then (p, shared_index v n) else local_index p n

-- Next; `incr` is the answer of INCR, or `none` for an error.
unfoldable pub next : Str → Option ℤ → ProxyPool → ProxyPool × Picked
unfolding next_index
next upstream incr p =
    let es = scoped upstream p in
    if is_empty es
    then (p, none_enabled)
    else (let (p', i) = next_index incr p (length es) in (p', pick_at es i))

-- `FailCount++`, and the disabling at the threshold.
unfoldable pub count_failure : ProxyEntry → ProxyEntry
count_failure e =
    let fc = e.fail_count + 1 in
    if leb proxy_fail_threshold fc && e.enabled
    then record e { fail_count = fc; enabled = false }
    else record e { fail_count = fc }

-- The list of the enabled is rebuilt, and the transport dropped, only if the entry is disabled.
unfoldable pub fail_found : Str → ProxyPool → Option ProxyEntry → ProxyPool
fail_found id p none = p
fail_found id p (some e) =
    let p' : ProxyPool = record p { entries = set_entry id (count_failure e) p.entries } in
    if leb proxy_fail_threshold (e.fail_count + 1) && e.enabled
    then (rebuild_enabled (record p' { transports = erase id p.transports }))
    else p'

unfoldable pub mark_failed : Str → ProxyPool → ProxyPool
unfolding fail_found
mark_failed id p = if str_eq id [] then p else fail_found id p (find_entry id p.entries)

abbrev pub clear_failures : ProxyEntry → ProxyEntry
clear_failures e = record e { fail_count = 0 }

unfoldable pub success_found : Str → ProxyPool → Option ProxyEntry → ProxyPool
success_found id p none = p
success_found id p (some e) = record p { entries = set_entry id (clear_failures e) p.entries }

unfoldable pub mark_success : Str → ProxyPool → ProxyPool
unfolding success_found
mark_success id p = if str_eq id [] then p else success_found id p (find_entry id p.entries)

-- buildTransport, as the entry that the transport stands for.
unfoldable pub build_transport : (ProxyEntry → Bool) → ProxyEntry → Option ProxyEntry
build_transport external e =
    if str_eq e.protocol (codes "http") || str_eq e.protocol (codes "socks5")
    then (if external e then some e else none)
    else none

unfoldable pub cache_transport :
    ProxyEntry → ProxyPool → Option ProxyEntry → ProxyPool × Option ProxyEntry
cache_transport e p none = (p, none)
cache_transport e p (some t) = (record p { transports = insert e.id t p.transports }, some t)

unfoldable pub transport_of :
    (ProxyEntry → Bool) → ProxyEntry → ProxyPool → Option ProxyEntry → ProxyPool × Option ProxyEntry
unfolding cache_transport
transport_of external e p none = cache_transport e p (build_transport external e)
transport_of external e p (some t) = (p, some t)

-- Transport, for an entry that the caller holds.
unfoldable pub transport :
    (ProxyEntry → Bool) → ProxyEntry → ProxyPool → ProxyPool × Option ProxyEntry
unfolding transport_of
transport external e p = transport_of external e p (lookup e.id p.transports)
