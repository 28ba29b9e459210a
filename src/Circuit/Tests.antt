-- ===== src/Circuit/Tests.antt =====
-- Runs of a circuit, and the theorems at those runs.
use foxrouters.Circuit.Opening.{open_blocks, Before}
use foxrouters.Circuit.Probing.{half_open_stuck, half_open_two, Bleak}
use foxrouters.Circuit.{
  circuit_half_open, circuit_open, checked, Event, run, ended, ask, UpstreamHealth,
  cb_open_duration, answered, health_status_ok, new_upstream_health,
}
use foxrouters.Prelude.{All, Str, codes, ℕ, ◌+◌, ◌≤◌, ◌≡◌, refl, none, some, List, [], ◌∷◌, arith}

abbrev fresh : UpstreamHealth
fresh = new_upstream_health (codes "grok")

abbrev texts : Str × Str
texts = (codes "no accounts loaded", codes "all accounts disabled")

abbrev status_text : ℕ → Str
status_text code = codes "status"

abbrev broken : UpstreamHealth
broken = record fresh { consecutive_errs = 5; state = circuit_open; opened_at = 10 }

abbrev spent : UpstreamHealth
spent = record fresh { state = circuit_half_open; half_open_probes = 1 }

abbrev bleak : List Event
bleak =
    ended 60_000_000_020 2 (some (codes "refused"))
    ∷ checked 60_000_000_030 1 (answered 503)
    ∷ ask 90_000_000_000
    ∷ []

All-Before :
    All
      (Before (broken.opened_at + cb_open_duration))
      (ask 20 ∷ ended 30 5 none ∷ ask 60_000_000_009 ∷ [])
All-Before = (omega arith, (tt, (omega arith, tt)))

All-bleak : All Bleak bleak
unfolding Bleak health_status_ok
All-bleak = (tt, (refl, (tt, tt)))

due : broken.opened_at + cb_open_duration ≤ 60_000_000_010
due = omega arith

open_blocks_example :
    ((run texts status_text (ask 20 ∷ ended 30 5 none ∷ ask 60_000_000_009 ∷ []) broken).0.state
      ≡ circuit_open)
    × ((run texts status_text (ask 20 ∷ ended 30 5 none ∷ ask 60_000_000_009 ∷ []) broken).1 ≡ 0)
open_blocks_example =
    open_blocks texts status_text (ask 20 ∷ ended 30 5 none ∷ ask 60_000_000_009 ∷ []) broken refl
      (All-Before)

half_open_stuck_example :
    ((run texts status_text bleak spent).0.state ≡ circuit_half_open)
    × ((run texts status_text bleak spent).1 ≡ 0)
half_open_stuck_example = half_open_stuck texts status_text bleak spent refl refl All-bleak

half_open_two_example :
    (run texts status_text (ask 60_000_000_010 ∷ ask 60_000_000_011 ∷ bleak) broken).1 ≡ 2
half_open_two_example =
    half_open_two texts status_text 60_000_000_010 60_000_000_011 bleak broken refl due All-bleak
