-- ===== src/Grok/Tests.antt =====
-- Concrete runs of the accounts of Grok.
use foxrouters.Grok.{
  first_pass, GrokAccount, second_pass, stale_one, later_one, next_account, change_account,
  is_fresh, best_account, GrokAccountManager,
}
use foxrouters.Grok.Proxy.{
  note_proxy, replied, refresh_failed, settle_reply, GrokWorld, on_first, change_at, hear,
  grok_served, no_reply, grok_loop, proxy_grok, GrokTurn, ban_account, try_account, grok_round,
}
use foxrouters.Grok.Proxy.Sound.{HandedOn, proxy_grok_sound, ReplyOf}
use foxrouters.Prelude.Turns.{turn_search}
use foxrouters.Circuit.{can_request, new_upstream_health}
use foxrouters.Upstream.{mark_proxy_result, get_client}
use foxrouters.Prelude.{
  if◌then◌else◌, nat_beq, str_eq, codes, ℕ, ◌≡◌, refl, true, false, none, [], ◌∷◌,
}
use foxrouters.Prelude.Int.{pos}

abbrev one : GrokAccount
one = record {
  email = codes "one";
  sub = [];
  access_token = codes "t1";
  refresh_token = codes "r1";
  id_token = [];
  expires_in = pos 21600;
  expires_at = 5_000_000_000_000;
  disabled = false;
  disabled_at = 0;
}

abbrev two : GrokAccount
two = record one { email = codes "two"; expires_at = 9_000_000_000_000 }

abbrev both : GrokAccountManager
both = record { accounts = one ∷ two ∷ []; next = 0 }

both_stale : (next_account 9_000_000_000_000 both).1 ≡ stale_one two
unfolding next_account turn_search is_fresh first_pass second_pass best_account later_one
both_stale = refl

-- The first account is out of credit, and the second one answers.
abbrev sample_turn : ℕ → GrokTurn
sample_turn i = record {
  cancelled = false;
  now = 7;
  first = if nat_beq i 0 then replied 402 (codes "no credit") else replied 200 (codes "ok");
  token_call = none;
  refresh = refresh_failed [];
  second = no_reply;
}

abbrev sample_world : GrokWorld
sample_world = record { manager = both; health = new_upstream_health (codes "grok"); pool = none }

two_serves :
    (proxy_grok (λ e. true) none 3 sample_turn sample_world).1
    ≡ grok_served (codes "two") 200 (codes "ok")
unfolding proxy_grok grok_loop grok_round try_account on_first settle_reply next_account turn_search
    is_fresh first_pass can_request new_upstream_health get_client change_at change_account str_eq
    note_proxy mark_proxy_result ban_account hear
two_serves = refl

proxy_grok_sound_example : ReplyOf sample_turn 200 (codes "ok") × HandedOn 200
proxy_grok_sound_example =
    proxy_grok_sound (λ e. true) none 3 sample_turn sample_world (codes "two") 200 (codes "ok")
      two_serves
