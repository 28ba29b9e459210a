-- ===== src/Upstream/Clients.antt =====
-- The client of a call, on a sound pool.
use foxrouters.Upstream.{build_client, get_client, picked_client}
use foxrouters.Pool.{ProxyPool, applies_to, ProxyEntry}
use foxrouters.Pool.Traffic.{
  build_transport, picked, transport, none_enabled, Picked, transport_of, panicked, next,
  cache_transport, mark_failed,
}
use foxrouters.Pool.Scope.{NextIs, next-NextIs}
use foxrouters.Pool.Invariant.{IsPool}
use foxrouters.Pool.InUse.{next-IsPool, mark_failed-IsPool}
use foxrouters.Prelude.{
  get_elem?, Str, ℕ, ◌≡◌, refl, ap, ◌∙◌, ◌⊎◌, inl, inr, Bool, true, Option, none, some, [],
}
use foxrouters.Prelude.Int.{ℤ}
use foxrouters.Prelude.Assoc.{lookup}

-- The pool stays sound, and a call that is reported to an id goes through a proxy that stands in the
-- pool, is enabled and applies to the upstream.
abbrev pub ClientIs : Str → ProxyPool → ProxyPool × Option ProxyEntry × Str → Type 0
ClientIs upstream p c =
    IsPool c.0
    × ((c.2 ≡ [])
        ⊎ ((j : ℕ) × (e : ProxyEntry) × (get_elem? p.entries j ≡ some e)
            × (e.id ≡ c.2)
            × (e.enabled ≡ true)
            × (applies_to e upstream ≡ true)))

cache_transport-IsPool :
    (e : ProxyEntry) (p : ProxyPool) (o : Option ProxyEntry)
    → IsPool p
    → IsPool (cache_transport e p o).0
unfolding cache_transport
cache_transport-IsPool e p none s = s
cache_transport-IsPool e p (some t) s = record { sound = s.sound; in_step = s.in_step }

transport_of-IsPool :
    (external : ProxyEntry → Bool) (e : ProxyEntry) (p : ProxyPool) (o : Option ProxyEntry)
    → IsPool p
    → IsPool (transport_of external e p o).0
unfolding transport_of
transport_of-IsPool external e p none s = cache_transport-IsPool e p (build_transport external e) s
transport_of-IsPool external e p (some t) s = s

transport-IsPool :
    (external : ProxyEntry → Bool) (e : ProxyEntry) (p : ProxyPool)
    → IsPool p
    → IsPool (transport external e p).0
unfolding transport
transport-IsPool external e p s = transport_of-IsPool external e p (lookup e.id p.transports) s

client_of :
    (upstream : Str) (p p' : ProxyPool) (e : ProxyEntry) (o : Option ProxyEntry)
    → IsPool p'
    → NextIs upstream p (picked e)
    → ClientIs upstream p
        (elim o [ none ↦ (mark_failed e.id p', none, []) | some via ↦ (p', some via, e.id) ])
unfolding applies_to
client_of upstream p p' e none s n = (mark_failed-IsPool e.id p' s, inl refl)
client_of upstream p p' e (some via) s (j, entry, at, same, on, checked, applies) = (
  s,
  inr (
    j,
    entry,
    at,
    ap (λ (x : ProxyEntry). x.id) same,
    on,
    ap (λ (x : ProxyEntry). applies_to x upstream) same ∙ applies,
  ),
)

picked_client-ClientIs :
    (external : ProxyEntry → Bool) (upstream : Str) (p p' : ProxyPool) (pick : Picked)
    → IsPool p'
    → NextIs upstream p pick
    → ClientIs upstream p (picked_client external p' pick)
unfolding picked_client build_client
picked_client-ClientIs external upstream p p' none_enabled s n = (s, inl refl)
picked_client-ClientIs external upstream p p' panicked s n = absurd n
picked_client-ClientIs external upstream p p' (picked e) s n =
    client_of upstream p (transport external e p').0 e (transport external e p').1
      (transport-IsPool external e p' s) n

abbrev pub ClientAnswer : Str → ProxyPool → Option ProxyPool × Option ProxyEntry × Str → Type 0
ClientAnswer upstream p (none, via, id) = ⊥
ClientAnswer upstream p (some p', via, id) = ClientIs upstream p (p', via, id)

-- On a sound pool getClient leaves the pool sound, and when it names a proxy for the report then
-- that proxy stands in the pool, is enabled and applies to the upstream; in all other cases the
-- report goes nowhere. This holds for every counter, every answer of Redis and every parser.
pub get_client-ClientAnswer :
    (external : ProxyEntry → Bool) (incr : Option ℤ) (upstream : Str) (p : ProxyPool)
    → IsPool p
    → ClientAnswer upstream p (get_client external incr upstream (some p))
unfolding get_client
get_client-ClientAnswer external incr upstream p s =
    let (p1, pick) = next upstream incr p in
    picked_client-ClientIs external upstream p p1 pick (next-IsPool upstream incr p s)
      (next-NextIs upstream incr p s)
