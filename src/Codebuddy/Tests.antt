-- ===== src/Codebuddy/Tests.antt =====
-- Concrete runs of the keys of CodeBuddy, with numbers in place of floats.
use foxrouters.Codebuddy.{
  search, change_key, chosen, is_printable, CbKeyManager, next_key, CbKey, move_on,
}
use foxrouters.Codebuddy.Rotation.{NextKeyIs, next_key-NextKeyIs}
use foxrouters.Codebuddy.Proxy.{
  punish, enter, on_verdict, attempt_loop, Turn, verdict, World, take_it, network_error, response,
  cool_key, proxy_codebuddy, served, report, on_reply, attempt, tell_breaker, round,
}
use foxrouters.Codebuddy.Proxy.Attempts.{Printable, Missed}
use foxrouters.Codebuddy.Proxy.Served.{proxy_codebuddy_serves}
use foxrouters.Codebuddy.Events.{
  KeyEvent, credits, picks, bans, deletes, cools, Credits, lifts, run,
}
use foxrouters.Circuit.{can_request, new_upstream_health, circuit_closed}
use foxrouters.Codebuddy.Race.{ban_lost, first_key}
use foxrouters.Upstream.{mark_proxy_result, get_client}
use foxrouters.Prelude.{
  leb, if◌then◌else◌, nat_beq, All, has_prefix, Str, contains, codes, str_eq, ℕ, ◌+◌, ◌<◌, ◌≡◌,
  refl, true, false, none, some, List, [], ◌∷◌, arith, zero, suc,
}
use foxrouters.Codebuddy.Proxy.Outage.{Call, Untold, outage_unreported, serve_all}

abbrev sample_credits : Credits ℕ
sample_credits = record { nil = 0; plus = λ a b. a + b; at_limit = λ a. leb 240 a }

abbrev key_a : CbKey ℕ
key_a = record {
  key = codes "ck_aaaaaaaa";
  disabled = false;
  disabled_at = 0;
  credits_used = 0;
  total_reqs = 0;
}

abbrev key_b : CbKey ℕ
key_b = record key_a { key = codes "ck_bbbbbbbb" }

abbrev banned_a : CbKey ℕ
banned_a = record key_a { disabled = true }

abbrev two_keys : CbKeyManager ℕ
two_keys = record { keys = key_a ∷ key_b ∷ []; next = 5 }

abbrev one_banned : CbKeyManager ℕ
one_banned = record { keys = banned_a ∷ key_b ∷ []; next = 0 }

second_first : (next_key two_keys).1 ≡ chosen 1 key_b
unfolding next_key search
second_first = refl

next_key-NextKeyIs_example : NextKeyIs two_keys (next_key two_keys)
next_key-NextKeyIs_example = next_key-NextKeyIs two_keys

-- The first key is out of credits, and the second one answers.
abbrev sample_turn : ℕ → Turn
sample_turn i = record {
  cancelled = false;
  now = 7;
  reply = if nat_beq i 0 then response 429 (codes "slow down") else response 200 (codes "ok");
}

abbrev sample_world : World ℕ
sample_world = record {
  manager = two_keys;
  health = new_upstream_health (codes "codebuddy");
  pool = none;
}

asked : (can_request 3 sample_world.health).1 ≡ true
unfolding can_request new_upstream_health
asked = refl

slow : Missed (response 429 (codes "slow down"))
unfolding verdict contains has_prefix
slow = tt

fine : verdict 200 (codes "ok") ≡ take_it
unfolding verdict
fine = refl

readable : All Printable two_keys.keys
unfolding is_printable
readable = (refl, (refl, tt))

first_fails : (l : ℕ) → l < 1 → ((sample_turn l).cancelled ≡ false) × Missed (sample_turn l).reply
first_fails zero b = (refl, slow)
first_fails (suc l) b = absurd (omega (arith, b))

proxy_codebuddy_serves_example :
    (key : Str) × ((proxy_codebuddy (λ e. true) none 3 true sample_turn sample_world).1
      ≡ served key 200 (codes "ok"))
proxy_codebuddy_serves_example =
    proxy_codebuddy_serves (λ e. true) none 3 sample_turn sample_world 1 200 (codes "ok") asked
      (omega arith) readable first_fails refl refl fine

served_ok :
    (proxy_codebuddy (λ e. true) none 3 true sample_turn sample_world).1
    ≡ served (codes "ck_aaaaaaaa") 200 (codes "ok")
unfolding proxy_codebuddy attempt_loop round attempt on_reply on_verdict verdict next_key search
    can_request new_upstream_health enter get_client contains has_prefix change_key str_eq punish
    report tell_breaker is_printable move_on cool_key mark_proxy_result
served_ok = refl

-- The network is down.
abbrev no_network : ℕ → Turn
no_network i = record { cancelled = false; now = 7; reply = network_error }

abbrev lost_calls : List Call
lost_calls =
    record { external = λ e. true; incr = none; now = 3; turns = no_network }
    ∷ record { external = λ e. true; incr = none; now = 9; turns = no_network }
    ∷ []

outage_unreported_example :
    Untold circuit_closed sample_world.health (serve_all lost_calls sample_world).health
unfolding new_upstream_health
outage_unreported_example = outage_unreported lost_calls sample_world (λ l. tt, (λ l. tt, tt))

abbrev history : List (KeyEvent ℕ)
history = picks ∷ credits (codes "ck_aaaaaaaa") 3 ∷ lifts 700_000_000_000 ∷ deletes (codes "x") ∷ []

a_first : first_key (codes "ck_aaaaaaaa") two_keys.keys ≡ some key_a
unfolding str_eq
a_first = refl

ban_lost_example :
    (x : CbKey ℕ) × (first_key
        (codes "ck_aaaaaaaa")
        (run sample_credits
          (bans (codes "ck_aaaaaaaa") ∷ cools (codes "ck_aaaaaaaa") 5 ∷ lifts 600_000_000_006 ∷ [])
          two_keys).keys
      ≡ some x)
    × (x.disabled ≡ false)
ban_lost_example =
    ban_lost sample_credits (codes "ck_aaaaaaaa") 5 600_000_000_006 key_a two_keys a_first
      (omega arith) (omega arith)
