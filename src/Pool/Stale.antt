-- ===== src/Pool/Stale.antt =====
-- How long a cached transport stays.
use foxrouters.Pool.{
  ProxyPool, ProxyEntry, validate_entry, normalise, check_entry, rebuild_enabled, find_entry,
}
use foxrouters.Pool.Operations.{
  add_checked, load, insert_new, add, update_found, delete, update_checked, merge, toggle, replace,
  update, toggle_found, add_valid,
}
use foxrouters.Pool.Traffic.{
  local_index, mark_success, transport_of, mark_failed, next_index, cache_transport, next,
  fail_found, transport, success_found, build_transport,
}
use foxrouters.Pool.Calls.{deletes, fails, succeeds, Op, picks, updates, call, toggles, loads, adds}
use foxrouters.Pool.Transports.{Buildable, transport-lookup, transport_cached, update-transports}
use foxrouters.Pool.Failures.{find_entry-id}
use foxrouters.Prelude.Assoc.{lookup-erase_ne, lookup, lookup-insert_ne}
use foxrouters.Prelude.Int.{ℤ}
use foxrouters.Prelude.{
  Bool-cases, All, str_eq, str_iff, Str, ℕ, ◌≡◌, sym, ap, ◌∙◌, subst, ◌≢◌, inl, inr, Bool, Option,
  none, some, List, [], ◌∷◌, arith, refl,
}

-- A call of Transport for an entry that the caller holds, or of a method that changes the pool.
pub data Use : Type 0 where
  gets : ProxyEntry → Use
  on : Op → Use

unfoldable pub run_use : (ProxyEntry → Bool) → Use → ProxyPool → ProxyPool
run_use external (gets e) p = (transport external e p).0
run_use external (on o) p = call o p

unfoldable pub uses : (ProxyEntry → Bool) → List Use → ProxyPool → ProxyPool
uses external [] p = p
uses external (u ∷ us) p = uses external us (run_use external u p)

-- No update, deletion or failure of the entry with the id.
abbrev pub Spares : Str → Use → Type 0
Spares id (gets e) = Unit
Spares id (on (loads rows)) = Unit
Spares id (on (adds entry fresh now saved)) = Unit
Spares id (on (updates j new saved)) = j ≢ id
Spares id (on (deletes j gone)) = j ≢ id
Spares id (on (toggles j saved)) = Unit
Spares id (on (picks upstream incr)) = Unit
Spares id (on (fails j)) = j ≢ id
Spares id (on (succeeds j)) = Unit

-- The transport that an id has.
abbrev cached : Str → ProxyPool → Option ProxyEntry
cached id p = lookup id p.transports

cached-load :
    (id : Str) (rows : Option (List ProxyEntry)) (p : ProxyPool)
    → cached id (load rows p).0 ≡ cached id p
unfolding load rebuild_enabled
cached-load id none p = ground arith
cached-load id (some ds) p = ground arith

cached-add :
    (id : Str) (entry : ProxyEntry) (fresh : Option Str) (now : ℕ) (saved : Bool) (p : ProxyPool)
    → cached id (add entry fresh now saved p).0 ≡ cached id p
unfolding add add_checked add_valid insert_new rebuild_enabled
cached-add id entry fresh now saved p = ground arith

cached-update :
    (id j : Str) (new : ProxyEntry) (saved : Bool) (p : ProxyPool)
    → j ≢ id
    → cached id (update j new saved p).0 ≡ cached id p
unfolding update update_found update_checked replace rebuild_enabled validate_entry
cached-update id j new saved p ne = ground (arith, lookup-erase_ne j id p.transports ne)

cached-delete :
    (id j : Str) (gone : Bool) (p : ProxyPool)
    → j ≢ id
    → cached id (delete j gone p).0 ≡ cached id p
unfolding delete rebuild_enabled
cached-delete id j gone p ne = ground (arith, lookup-erase_ne j id p.transports ne)

cached-toggle :
    (id j : Str) (saved : Bool) (p : ProxyPool) → cached id (toggle j saved p).0 ≡ cached id p
unfolding toggle toggle_found rebuild_enabled
cached-toggle id j saved p = ground arith

cached-next :
    (id upstream : Str) (incr : Option ℤ) (p : ProxyPool)
    → cached id (next upstream incr p).0 ≡ cached id p
unfolding next next_index local_index
cached-next id upstream incr p = ground arith

cached-mark_failed :
    (id j : Str) (p : ProxyPool) → j ≢ id → cached id (mark_failed j p) ≡ cached id p
unfolding mark_failed fail_found rebuild_enabled
cached-mark_failed id j p ne = ground (arith, lookup-erase_ne j id p.transports ne)

cached-mark_success : (id j : Str) (p : ProxyPool) → cached id (mark_success j p) ≡ cached id p
unfolding mark_success success_found
cached-mark_success id j p = ground arith

cached-cache_transport :
    (id : Str) (l : ProxyEntry) (p : ProxyPool) (built : Option ProxyEntry)
    → l.id ≢ id
    → cached id (cache_transport l p built).0 ≡ cached id p
unfolding cache_transport
cached-cache_transport id l p none ne = refl
cached-cache_transport id l p (some t) ne = lookup-insert_ne l.id id t p.transports ne

cached-transport_of :
    (external : ProxyEntry → Bool) (id : Str) (l : ProxyEntry) (p : ProxyPool)
    (found : Option ProxyEntry)
    → l.id ≢ id
    → cached id (transport_of external l p found).0 ≡ cached id p
unfolding transport_of
cached-transport_of external id l p none ne =
    cached-cache_transport id l p (build_transport external l) ne
cached-transport_of external id l p (some t) ne = refl

cached-transport :
    (external : ProxyEntry → Bool) (id : Str) (l t : ProxyEntry) (p : ProxyPool)
    → cached id p ≡ some t
    → cached id (transport external l p).0 ≡ some t
unfolding transport transport_of
cached-transport external id l t p q = elim (Bool-cases (str_eq l.id id)) [
  | inl y ↦
      let found : cached l.id p ≡ some t = ap (λ k. cached k p) ((str_iff l.id id).0 y) ∙ q in
      rw found q
  | inr y ↦
      cached-transport_of external id l p (cached l.id p)
        (λ e. ground (arith, y, e, str_iff l.id id))
      ∙ q
]

run_use-cached :
    (external : ProxyEntry → Bool) (id : Str) (u : Use) (t : ProxyEntry) (p : ProxyPool)
    → Spares id u
    → cached id p ≡ some t
    → cached id (run_use external u p) ≡ some t
unfolding run_use call
run_use-cached external id (gets l) t p s q = cached-transport external id l t p q
run_use-cached external id (on (loads rows)) t p s q = cached-load id rows p ∙ q
run_use-cached external id (on (adds entry fresh now saved)) t p s q =
    cached-add id entry fresh now saved p ∙ q
run_use-cached external id (on (updates j new saved)) t p s q = cached-update id j new saved p s ∙ q
run_use-cached external id (on (deletes j gone)) t p s q = cached-delete id j gone p s ∙ q
run_use-cached external id (on (toggles j saved)) t p s q = cached-toggle id j saved p ∙ q
run_use-cached external id (on (picks upstream incr)) t p s q = cached-next id upstream incr p ∙ q
run_use-cached external id (on (fails j)) t p s q = cached-mark_failed id j p s ∙ q
run_use-cached external id (on (succeeds j)) t p s q = cached-mark_success id j p ∙ q

uses-cached :
    (external : ProxyEntry → Bool) (id : Str) (us : List Use) (t : ProxyEntry) (p : ProxyPool)
    → All (Spares id) us
    → cached id p ≡ some t
    → cached id (uses external us p) ≡ some t
unfolding uses
uses-cached external id [] t p s q = q
uses-cached external id (u ∷ us) t p s q =
    uses-cached external id us t (run_use external u p) s.1 (run_use-cached external id u t p s.0 q)

-- After an update that is not refused, let a request that still holds the entry of before it ask for
-- its transport, and let that one be built without an error. Then a request that holds the entry later, with any settings, gets the transport
-- with the old settings, whatever calls of the pool came between, as long as none of them updates or
-- deletes the entry or reports a failure of it.
pub transport_stale :
    (external : ProxyEntry → Bool) (id : Str) (new : ProxyEntry) (saved : Bool) (p : ProxyPool)
    (e later : ProxyEntry) (us : List Use)
    → id ≢ []
    → find_entry id p.entries ≡ some e
    → check_entry (normalise (merge e new)) ≡ none
    → Buildable external e
    → later.id ≡ id
    → All (Spares id) us
    → (transport external later
        (uses external us (transport external e (update id new saved p).0).0)).1
      ≡ some e
transport_stale external id new saved p e later us ne q good b same spared =
    let own : e.id ≡ id = find_entry-id id p.entries q in
    let gone = update-transports id new saved p e ne q good in
    let p' = (update id new saved p).0 in
    let p'' = uses external us (transport external e p').0 in
    let built = transport-lookup external e p' (subst (λ k. cached k p' ≡ none) (sym own) gone) b in
    let old = subst (λ k. cached k (transport external e p').0 ≡ some e) own built in
    let still = uses-cached external id us e (transport external e p').0 spared old in
    transport_cached external later e p'' (subst (λ k. cached k p'' ≡ some e) (sym same) still)
