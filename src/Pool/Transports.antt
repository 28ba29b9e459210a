-- ===== src/Pool/Transports.antt =====
-- Which settings a cached transport has.
use foxrouters.Pool.{
  ProxyPool, validate_entry, ProxyEntry, find_entry, normalise, rebuild_enabled, check_entry,
}
use foxrouters.Pool.Operations.{merge, update, update_found, replace, update_checked}
use foxrouters.Pool.Traffic.{transport_of, transport, build_transport, cache_transport}
use foxrouters.Prelude.{
  Str, ◌≡◌, refl, sym, subst, ◌≢◌, Bool, none, some, [], str_iff, str_eq, false, arith,
}
use foxrouters.Prelude.Assoc.{lookup, lookup-insert_self, lookup-erase_self}

abbrev pub Buildable : (ProxyEntry → Bool) → ProxyEntry → Type 0
Buildable external e = build_transport external e ≡ some e

-- An entry whose transport is not cached gets one of its own, which stays until it is dropped.
pub transport_new :
    (external : ProxyEntry → Bool) (e : ProxyEntry) (p : ProxyPool)
    → lookup e.id p.transports ≡ none
    → Buildable external e
    → (transport external e p).1 ≡ some e
unfolding transport transport_of cache_transport
transport_new external e p absent b = rw (absent, transport_of, b) refl

pub transport_cached :
    (external : ProxyEntry → Bool) (e t : ProxyEntry) (p : ProxyPool)
    → lookup e.id p.transports ≡ some t
    → (transport external e p).1 ≡ some t
unfolding transport transport_of
transport_cached external e t p q = rw (q, transport_of) refl

pub transport-lookup :
    (external : ProxyEntry → Bool) (e : ProxyEntry) (p : ProxyPool)
    → lookup e.id p.transports ≡ none
    → Buildable external e
    → lookup e.id (transport external e p).0.transports ≡ some e
unfolding transport transport_of cache_transport
transport-lookup external e p absent b =
    rw (absent, transport_of, b) (lookup-insert_self e.id e p.transports)

nonempty : (id : Str) → id ≢ [] → str_eq id [] ≡ false
nonempty id ne = ground (arith, str_iff id [], ne)

-- An update that is not refused drops the transport.
pub update-transports :
    (id : Str) (new : ProxyEntry) (saved : Bool) (p : ProxyPool) (e : ProxyEntry)
    → id ≢ []
    → find_entry id p.entries ≡ some e
    → check_entry (normalise (merge e new)) ≡ none
    → lookup id (update id new saved p).0.transports ≡ none
unfolding update update_found validate_entry update_checked replace rebuild_enabled
update-transports id new saved p e ne q good =
    let m = normalise (merge e new) in
    let checked =
      subst (λ err. lookup id (update_checked id m saved p err).0.transports ≡ none) (sym good)
        (lookup-erase_self id p.transports) in
    let found =
      subst (λ o. lookup id (update_found id new saved p o).0.transports ≡ none) (sym q) checked in
    rw (nonempty id ne) found

-- Right after an update that is not refused, with no request between that holds the old entry, the
-- entry gets a transport with its new settings.
pub transport_fresh :
    (external : ProxyEntry → Bool) (id : Str) (new : ProxyEntry) (saved : Bool) (p : ProxyPool)
    (e later : ProxyEntry)
    → id ≢ []
    → find_entry id p.entries ≡ some e
    → check_entry (normalise (merge e new)) ≡ none
    → later.id ≡ id
    → Buildable external later
    → (transport external later (update id new saved p).0).1 ≡ some later
transport_fresh external id new saved p e later ne q good same b =
    transport_new external later (update id new saved p).0
      (subst (λ k. lookup k (update id new saved p).0.transports ≡ none) (sym same)
        (update-transports id new saved p e ne q good))
      b
