-- ===== src/Login/Windows.antt =====
-- How many attempts of a window are at or after a time.
use foxrouters.Login.{stamp, one_minute, LoginEntry, trim_before, admit, one_hour, trim}
use foxrouters.Prelude.{
  if◌then◌else◌, leb, Bool-cases, length, ℕ, ◌+◌, ◌-◌, ◌≤◌, ◌<◌, ◌≡◌, refl, inl, inr, List, [], ◌∷◌,
  ◌++◌, arith,
}

unfoldable pub recent : ℕ → List ℕ → ℕ
recent t [] = 0
recent t (x ∷ w) = let n = recent t w in if leb t x then n + 1 else n

pub recent_le : (t : ℕ) (w : List ℕ) → recent t w ≤ length w
unfolding recent
recent_le t [] = omega arith
recent_le t (x ∷ w) = ground (arith, recent_le t w)

pub recent-append : (t now : ℕ) (w : List ℕ) → t ≤ now → recent t (w ++ (now ∷ [])) ≡ recent t w + 1
unfolding recent
recent-append t now [] h = ground arith
recent-append t now (x ∷ w) h = ground (arith, recent-append t now w h)

-- An append adds one where it counts, so it keeps one window below another.
pub recent-append_any :
    (t now : ℕ) (w : List ℕ)
    → recent t (w ++ (now ∷ [])) ≡ recent t w + (if leb t now then 1 else 0)
unfolding recent
recent-append_any t now [] = ground arith
recent-append_any t now (x ∷ w) = ground (arith, recent-append_any t now w)

-- What a window keeps is what it has at or after the later of two times.
pub later : ℕ → ℕ → ℕ → ℕ
later t now span = if leb t (now + 1 - span) then now + 1 - span else t

pub recent-trim_before :
    (t now span : ℕ) (w : List ℕ) → recent t (trim_before now span w) ≡ recent (later t now span) w
unfolding recent trim_before later
recent-trim_before t now span [] = refl
recent-trim_before t now span (x ∷ w) = ground (arith, recent-trim_before t now span w)

pub recent_antitone : (s t : ℕ) (w : List ℕ) → s ≤ t → recent t w ≤ recent s w
unfolding recent
recent_antitone s t [] h = omega arith
recent_antitone s t (x ∷ w) h = ground (arith, recent_antitone s t w h)

pub recent_kept :
    (t now span : ℕ) (w : List ℕ) → now < t + span → recent t (trim_before now span w) ≡ recent t w
unfolding later
recent_kept t now span w h =
    let same : later t now span ≡ t = ground arith in
    rw (recent-trim_before t now span w, same) refl

pub later_le : (t now span wide : ℕ) → span ≤ wide → later t now wide ≤ later t now span
unfolding later
later_le t now span wide h = ground arith

-- Every time counts no more attempts of the minute than of the hour.
abbrev pub Nested : LoginEntry → Type 0
Nested e = (t : ℕ) → recent t e.minute_window ≤ recent t e.hour_window

pub trim-Nested : (now : ℕ) (e : LoginEntry) → Nested e → Nested (trim now e)
unfolding trim
trim-Nested now e h t =
    let Within = h (later t now one_minute) in
    let wider =
      recent_antitone (later t now one_hour) (later t now one_minute) e.hour_window
        (later_le t now one_minute one_hour (omega arith)) in
    rw
      (
        recent-trim_before t now one_minute e.minute_window,
        recent-trim_before t now one_hour e.hour_window,
      )
      (omega arith)

pub stamp-Nested : (now : ℕ) (e : LoginEntry) → Nested e → Nested (stamp now e)
unfolding stamp
stamp-Nested now e h t =
    let below = h t in
    rw (recent-append_any t now e.minute_window, recent-append_any t now e.hour_window)
      (omega arith)

pub admit-Nested : (now : ℕ) (e : LoginEntry) → Nested e → Nested (admit now e).0
unfolding admit
admit-Nested now e h = elim (Bool-cases (leb 5 (length e.minute_window))) [
  | inl full ↦ rw full h
  | inr room ↦ elim (Bool-cases (leb 20 (length e.hour_window))) [
    | inl full ↦ rw (room, full) h
    | inr room' ↦ rw (room, room') (stamp-Nested now e h)
  ]
]
