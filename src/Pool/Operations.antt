-- ===== src/Pool/Operations.antt =====
-- internal/proxy/pool.go: the methods of ProxyPool that the dashboard
-- calls. What Redis, the random numbers and the clock answer is an argument.
use foxrouters.Pool.{
  ProxyEntry, redis_failed, PoolError, masked, not_found, rebuild_enabled, id_required, scopes_of,
  upstream_all, validate_entry, no_random, set_entry, find_entry, ProxyPool,
}
use foxrouters.Prelude.{
  nat_beq, if◌then◌else◌, any, keep, is_empty, str_eq, Str, codes, ℕ, Bool, true, false, not, ◌&&◌,
  Option, none, some, List, [], ◌∷◌, ◌++◌, map,
}
use foxrouters.Prelude.Int.{ℤ, negsuc, pos}
use foxrouters.Prelude.Assoc.{erase}

-- What a method returns: an entry, an entry with the error that it was not saved, or an error.
pub data Answer : Type 0 where
  done : ProxyEntry → Answer
  unsaved : ProxyEntry → Answer
  refused : PoolError → Answer

unfoldable pub dto_to_entry : ProxyEntry → ProxyEntry
dto_to_entry d =
    if is_empty (scopes_of d.upstreams)
    then record d { upstreams = some (upstream_all ∷ []) }
    else d

-- Load; `rows` is the answer of LoadProxies, or `none` for an error. True is success.
unfoldable pub load : Option (List ProxyEntry) → ProxyPool → ProxyPool × Bool
load rows p =
    if p.store
    then elim rows [
      | none ↦ (p, false)
      | some ds ↦ (rebuild_enabled (record p { entries = map dto_to_entry ds }), true)
    ]
    else (rebuild_enabled (record p { entries = [] }), true)

unfoldable pub list : ProxyPool → List ProxyEntry
list p = map masked p.entries

unfoldable pub get : Str → ProxyPool → Option ProxyEntry
get id p =
    if str_eq id []
    then none
    else elim (find_entry id p.entries) [ none ↦ none | some e ↦ some (masked e) ]

unfoldable pub insert_new : ProxyPool → ProxyEntry → Bool → ProxyPool × Answer
insert_new p e saved =
    if p.store && not saved
    then (p, refused redis_failed)
    else (rebuild_enabled (record p { entries = p.entries ++ (e ∷ []) }), done e)

unfoldable pub add_valid : ProxyPool → ProxyEntry → Option Str → ℕ → Bool → ProxyPool × Answer
unfolding insert_new
add_valid p e none now saved = (p, refused no_random)
add_valid p e (some id) now saved =
    insert_new p (record e { id = id; created_at = now; fail_count = 0 }) saved

unfoldable pub add_checked :
    ProxyPool → ProxyEntry → Option Str → ℕ → Bool → Option PoolError → ProxyPool × Answer
unfolding add_valid
add_checked p e fresh now saved (some r) = (p, refused r)
add_checked p e fresh now saved none = add_valid p e fresh now saved

-- Add; `fresh` is the new id, and `saved` whether SaveProxy succeeds.
unfoldable pub add : ProxyEntry → Option Str → ℕ → Bool → ProxyPool → ProxyPool × Answer
add entry fresh now saved p =
    let (e, err) = validate_entry entry in add_checked p e fresh now saved err

-- The fields that Update takes over.
unfoldable pub merge : ProxyEntry → ProxyEntry → ProxyEntry
merge current new = record current {
  protocol = if str_eq new.protocol [] then current.protocol else new.protocol;
  host = if str_eq new.host [] then current.host else new.host;
  port = if is_zero_port new.port then current.port else new.port;
  username = new.username;
  label = new.label;
  password = if str_eq new.password (codes "***") then current.password else new.password;
  enabled = new.enabled;
  upstreams = elim new.upstreams [ none ↦ current.upstreams | some us ↦ some us ];
}
  where
    is_zero_port : ℤ → Bool
    is_zero_port (pos n) = nat_beq n 0
    is_zero_port (negsuc n) = false

unfoldable pub replace : Str → ProxyEntry → Bool → ProxyPool → ProxyPool × Answer
replace id e saved p =
    let e' : ProxyEntry = record e { fail_count = 0 } in
    let p' =
      rebuild_enabled
        (record p { entries = set_entry id e' p.entries; transports = erase id p.transports }) in
    (p', if p.store && not saved then unsaved e' else done e')

unfoldable pub update_checked :
    Str → ProxyEntry → Bool → ProxyPool → Option PoolError → ProxyPool × Answer
unfolding replace
update_checked id e saved p (some r) = (p, refused r)
update_checked id e saved p none = replace id e saved p

unfoldable pub update_found :
    Str → ProxyEntry → Bool → ProxyPool → Option ProxyEntry → ProxyPool × Answer
update_found id new saved p none = (p, refused not_found)
update_found id new saved p (some current) =
    let (e, err) = validate_entry (merge current new) in update_checked id e saved p err

unfoldable pub update : Str → ProxyEntry → Bool → ProxyPool → ProxyPool × Answer
update id new saved p =
    if str_eq id []
    then (p, refused id_required)
    else update_found id new saved p (find_entry id p.entries)

-- Delete; `gone` is whether DeleteProxy succeeds. The error, if any.
unfoldable pub delete : Str → Bool → ProxyPool → ProxyPool × Option PoolError
delete id gone p =
    let next = keep (λ e. not (str_eq e.id id)) p.entries in
    if str_eq id []
    then (p, some id_required)
    else if any (λ e. str_eq e.id id) p.entries
    then (
      rebuild_enabled (record p { entries = next; transports = erase id p.transports }),
      if p.store && not gone then some redis_failed else none,
    )
    else (p, some not_found)

unfoldable pub flip : ProxyEntry → ProxyEntry
flip e =
    if e.enabled then record e { enabled = false } else record e { enabled = true; fail_count = 0 }

unfoldable pub toggle_found : Str → Bool → ProxyPool → Option ProxyEntry → ProxyPool × Answer
toggle_found id saved p none = (p, refused not_found)
toggle_found id saved p (some e) = (
  rebuild_enabled (record p { entries = set_entry id (flip e) p.entries }),
  if p.store && not saved then unsaved (flip e) else done (flip e),
)

unfoldable pub toggle : Str → Bool → ProxyPool → ProxyPool × Answer
unfolding toggle_found
toggle id saved p = toggle_found id saved p (find_entry id p.entries)
