-- ===== src/Pool/Kept.antt =====
-- The methods of the dashboard keep what holds of the pool.
use foxrouters.Pool.{
  normalise, check_entry, set_entry, ProxyPool, find_entry, ProxyEntry, validate_entry, PoolError,
  rebuild_enabled,
}
use foxrouters.Pool.Operations.{
  toggle, update, merge, add, delete, insert_new, flip, add_checked, update_checked, load,
  update_found, dto_to_entry,
}
use foxrouters.Pool.Invariant.{All-set_entry, IsProxy, IsPool, All-snoc, All-find_entry, rebuilt}
use foxrouters.Prelude.{
  Bool-cases, Option-cases, keep, All-keep, any, str_eq, Str, ℕ, refl, inl, inr, Bool, not, ◌&&◌,
  Option, [], ◌∷◌, ◌++◌, arith, All, ◌≡◌, none, some, List, map, if_either, true, false,
}
use foxrouters.Prelude.Assoc.{erase}
use foxrouters.Pool.Traffic.{clear_failures}

insert_new-IsPool :
    (p : ProxyPool) (e : ProxyEntry) (saved : Bool)
    → IsPool p
    → IsProxy e
    → IsPool (insert_new p e saved).0
unfolding insert_new
insert_new-IsPool p e saved s h = elim (Bool-cases (p.store && not saved)) [
  | inl y ↦ rw y s
  | inr y ↦
      rw y (rebuilt (record p { entries = p.entries ++ (e ∷ []) }) (All-snoc p.entries e s.sound h))
]

renewed-IsProxy :
    (id : Str) (e : ProxyEntry) (now : ℕ)
    → check_entry e ≡ none
    → IsProxy (record e { id = id; created_at = now; fail_count = 0 })
unfolding check_entry
renewed-IsProxy id e now h = record { checked = h; live = inr (omega arith) }

add_checked-IsPool :
    (p : ProxyPool) (e : ProxyEntry) (fresh : Option Str) (now : ℕ) (saved : Bool)
    (err : Option PoolError)
    → IsPool p
    → check_entry e ≡ err
    → IsPool (add_checked p e fresh now saved err).0
unfolding add_checked
add_checked-IsPool p e fresh now saved (some r) s h = s
add_checked-IsPool p e none now saved none s h = s
add_checked-IsPool p e (some id) now saved none s h =
    insert_new-IsPool p (record e { id = id; created_at = now; fail_count = 0 }) saved s
      (renewed-IsProxy id e now h)

pub add-IsPool :
    (entry : ProxyEntry) (fresh : Option Str) (now : ℕ) (saved : Bool) (p : ProxyPool)
    → IsPool p
    → IsPool (add entry fresh now saved p).0
unfolding add validate_entry
add-IsPool entry fresh now saved p s =
    add_checked-IsPool p (normalise entry) fresh now saved (check_entry (normalise entry)) s refl

pub cleared-IsProxy : (e : ProxyEntry) → check_entry e ≡ none → IsProxy (clear_failures e)
unfolding check_entry
cleared-IsProxy e h = record { checked = h; live = inr (omega arith) }

update_checked-IsPool :
    (id : Str) (e : ProxyEntry) (saved : Bool) (p : ProxyPool) (err : Option PoolError)
    → IsPool p
    → check_entry e ≡ err
    → IsPool (update_checked id e saved p err).0
unfolding update_checked
update_checked-IsPool id e saved p (some r) s h = s
update_checked-IsPool id e saved p none s h =
    rebuilt
      (record p {
        entries = set_entry id (clear_failures e) p.entries;
        transports = erase id p.transports;
      })
      (All-set_entry IsProxy id (clear_failures e) p.entries (cleared-IsProxy e h) s.sound)

update_found-IsPool :
    (id : Str) (new : ProxyEntry) (saved : Bool) (p : ProxyPool) (found : Option ProxyEntry)
    → IsPool p
    → IsPool (update_found id new saved p found).0
unfolding update_found validate_entry
update_found-IsPool id new saved p none s = s
update_found-IsPool id new saved p (some e) s =
    update_checked-IsPool id (normalise (merge e new)) saved p
      (check_entry (normalise (merge e new))) s refl

pub update-IsPool :
    (id : Str) (new : ProxyEntry) (saved : Bool) (p : ProxyPool)
    → IsPool p
    → IsPool (update id new saved p).0
unfolding update
update-IsPool id new saved p s = elim (Bool-cases (str_eq id [])) [
  | inl y ↦ rw y s
  | inr y ↦ rw y (update_found-IsPool id new saved p (find_entry id p.entries) s)
]

pub delete-IsPool :
    (id : Str) (gone : Bool) (p : ProxyPool) → IsPool p → IsPool (delete id gone p).0
unfolding delete
delete-IsPool id gone p s = elim (Bool-cases (str_eq id [])) [
  | inl y ↦ rw y s
  | inr y ↦ elim (Bool-cases (any (λ e. str_eq e.id id) p.entries)) [
    | inl q ↦
        rw (y, q)
          (rebuilt
            (record p {
              entries = keep (λ e. not (str_eq e.id id)) p.entries;
              transports = erase id p.transports;
            })
            (All-keep IsProxy (λ e. not (str_eq e.id id)) p.entries s.sound))
    | inr q ↦ rw (y, q) s
  ]
]

flip-IsProxy : (e : ProxyEntry) → IsProxy e → IsProxy (flip e)
unfolding flip check_entry
flip-IsProxy e h = elim (Bool-cases e.enabled) [
  | inl y ↦ rw y (record { checked = h.checked; live = inl refl })
  | inr y ↦ rw y (record { checked = h.checked; live = inr (omega arith) })
]

pub toggle-IsPool :
    (id : Str) (saved : Bool) (p : ProxyPool) → IsPool p → IsPool (toggle id saved p).0
unfolding toggle
toggle-IsPool id saved p s = elim (Option-cases (find_entry id p.entries)) [
  | inl q ↦ rw q s
  | inr (e, q) ↦ rw q (
      rebuilt (record p { entries = set_entry id (flip e) p.entries })
        (All-set_entry IsProxy id (flip e) p.entries
          (flip-IsProxy e (All-find_entry IsProxy id p.entries s.sound q)) s.sound))
]

abbrev pub rows_of : Option (List ProxyEntry) → List ProxyEntry
rows_of none = []
rows_of (some ds) = ds

pub load-IsPool :
    (rows : Option (List ProxyEntry)) (p : ProxyPool)
    → All IsProxy (map dto_to_entry (rows_of rows))
    → IsPool p
    → IsPool (load rows p).0
unfolding load
load-IsPool none p h s =
    if_either (λ (r : ProxyPool × Bool). IsPool r.0) p.store (p, false)
      (rebuild_enabled (record p { entries = [] }), true) s (rebuilt (record p { entries = [] }) tt)
load-IsPool (some ds) p h s =
    if_either (λ (r : ProxyPool × Bool). IsPool r.0) p.store
      (rebuild_enabled (record p { entries = map dto_to_entry ds }), true)
      (rebuild_enabled (record p { entries = [] }), true)
      (rebuilt (record p { entries = map dto_to_entry ds }) h)
      (rebuilt (record p { entries = [] }) tt)
