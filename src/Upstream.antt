-- ===== src/Upstream.antt =====
-- internal/upstream/upstream.go: the client of a call goes through the pool of proxies, and the
-- result of the call is reported to it. `none` is the default client, without a proxy.
pub mod Clients
use foxrouters.Pool.{ProxyEntry, ProxyPool}
use foxrouters.Pool.Traffic.{
  transport, picked, none_enabled, panicked, mark_success, Picked, mark_failed, next,
}
use foxrouters.Prelude.{if◌then◌else◌, nat_beq, str_eq, Str, ℕ, Bool, ◌||◌, Option, none, some, []}
use foxrouters.Prelude.Int.{ℤ}

-- getClient: the new pool, the proxy that is used and the id for the report. A pool of `none` is no
-- pool at all; `incr` is the answer of INCR, and `external` what the parsers of a proxy's URL say.
unfoldable pub build_client :
    (ProxyEntry → Bool) → ProxyEntry → ProxyPool → ProxyPool × Option ProxyEntry × Str
build_client external e p =
    let (p', t) = transport external e p in
    elim t [ none ↦ (mark_failed e.id p', none, []) | some via ↦ (p', some via, e.id) ]

-- An index out of range is a panic, which the pool never gives.
unfoldable pub picked_client :
    (ProxyEntry → Bool) → ProxyPool → Picked → ProxyPool × Option ProxyEntry × Str
picked_client external p none_enabled = (p, none, [])
picked_client external p panicked = (p, none, [])
picked_client external p (picked e) = build_client external e p

unfoldable pub get_client :
    (ProxyEntry → Bool)
    → Option ℤ
    → Str
    → Option ProxyPool
    → Option ProxyPool × Option ProxyEntry × Str
get_client external incr upstream none = (none, none, [])
get_client external incr upstream (some p) =
    let (p', pick) = next upstream incr p in
    let (p'', via, id) = picked_client external p' pick in (some p'', via, id)

-- The statuses of a proxy that did not reach the upstream.
unfoldable pub is_gateway_error : ℕ → Bool
is_gateway_error code = nat_beq code 502 || nat_beq code 503 || nat_beq code 504

-- markProxyResult; a status of `none` is an error of the transport.
unfoldable pub mark_proxy_result : Str → Option ℕ → Option ProxyPool → Option ProxyPool
mark_proxy_result id status none = none
mark_proxy_result id none (some p) = if str_eq id [] then some p else some (mark_failed id p)
mark_proxy_result id (some code) (some p) =
    if str_eq id []
    then some p
    else some (if is_gateway_error code then mark_failed id p else mark_success id p)
