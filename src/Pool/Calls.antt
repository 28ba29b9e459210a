-- ===== src/Pool/Calls.antt =====
-- Any run of the methods keeps what holds of the pool.
use foxrouters.Pool.{ProxyPool, ProxyEntry}
use foxrouters.Pool.Operations.{load, toggle, add, dto_to_entry, update, delete}
use foxrouters.Pool.Traffic.{next, mark_failed, mark_success}
use foxrouters.Pool.Invariant.{IsPool, IsProxy}
use foxrouters.Pool.Kept.{
  load-IsPool, add-IsPool, update-IsPool, delete-IsPool, rows_of, toggle-IsPool,
}
use foxrouters.Pool.InUse.{mark_success-IsPool, mark_failed-IsPool, next-IsPool}
use foxrouters.Prelude.{All, Str, ℕ, Bool, Option, List, [], ◌∷◌, map}
use foxrouters.Prelude.Int.{ℤ}

-- The calls that change the pool.
pub data Op : Type 0 where
  loads : Option (List ProxyEntry) → Op
  adds : ProxyEntry → Option Str → ℕ → Bool → Op
  updates : Str → ProxyEntry → Bool → Op
  deletes : Str → Bool → Op
  toggles : Str → Bool → Op
  picks : Str → Option ℤ → Op
  fails : Str → Op
  succeeds : Str → Op

unfoldable pub call : Op → ProxyPool → ProxyPool
call (loads rows) p = (load rows p).0
call (adds entry fresh now saved) p = (add entry fresh now saved p).0
call (updates id new saved) p = (update id new saved p).0
call (deletes id gone) p = (delete id gone p).0
call (toggles id saved) p = (toggle id saved p).0
call (picks upstream incr) p = (next upstream incr p).0
call (fails id) p = mark_failed id p
call (succeeds id) p = mark_success id p

unfoldable pub calls : List Op → ProxyPool → ProxyPool
calls [] p = p
calls (o ∷ os) p = calls os (call o p)

-- A load brings rows that were sound when they were written.
abbrev pub Sane : Op → Type 0
Sane (loads rows) = All IsProxy (map dto_to_entry (rows_of rows))
Sane (adds entry fresh now saved) = Unit
Sane (updates id new saved) = Unit
Sane (deletes id gone) = Unit
Sane (toggles id saved) = Unit
Sane (picks upstream incr) = Unit
Sane (fails id) = Unit
Sane (succeeds id) = Unit

call-IsPool : (o : Op) (p : ProxyPool) → Sane o → IsPool p → IsPool (call o p)
unfolding call
call-IsPool (loads rows) p h s = load-IsPool rows p h s
call-IsPool (adds entry fresh now saved) p h s = add-IsPool entry fresh now saved p s
call-IsPool (updates id new saved) p h s = update-IsPool id new saved p s
call-IsPool (deletes id gone) p h s = delete-IsPool id gone p s
call-IsPool (toggles id saved) p h s = toggle-IsPool id saved p s
call-IsPool (picks upstream incr) p h s = next-IsPool upstream incr p s
call-IsPool (fails id) p h s = mark_failed-IsPool id p s
call-IsPool (succeeds id) p h s = mark_success-IsPool id p s

-- Any sequence of calls, in any order and with any answers of Redis, keeps the pool sound, where each
-- load brings rows that pass the same rules: every entry passes the checks of validateEntry, none is
-- enabled after five failures in a row, and the list that Next reads is that of the enabled entries
-- in their order, up to the counts of failures.
pub calls-IsPool : (os : List Op) (p : ProxyPool) → All Sane os → IsPool p → IsPool (calls os p)
unfolding calls
calls-IsPool [] p h s = s
calls-IsPool (o ∷ os) p h s = calls-IsPool os (call o p) h.1 (call-IsPool o p h.0 s)
