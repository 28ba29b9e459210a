-- ===== src/Pool/Tests.antt =====
-- A pool of two proxies, and the theorems at it.
use foxrouters.Pool.Calls.{Op, adds, fails, picks, toggles, calls, calls-IsPool}
use foxrouters.Pool.Scope.{NextIs, next-NextIs}
use foxrouters.Pool.Transports.{Buildable}
use foxrouters.Pool.Masking.{update_keeps_password, Retained}
use foxrouters.Pool.Invariant.{IsPool}
use foxrouters.Pool.Valid.{Rules, validate_entry-Rules}
use foxrouters.Pool.{
  masked, ProxyPool, is_valid_upstream, distinct_scopes, is_structural, normalise, check_entry,
  validate_entry, applies_to, normalise_upstreams, find_entry, ProxyEntry, is_port,
}
use foxrouters.Pool.Operations.{update, merge, get}
use foxrouters.Pool.Traffic.{
  scoped, transport, build_transport, next, shared_index, next_index, picked,
}
use foxrouters.Prelude.{
  keep, codes, str_eq, ◌≡◌, refl, ◌≢◌, inr, Bool, true, none, some, List, [], ◌∷◌, arith, Str,
}
use foxrouters.Prelude.Int.{negsuc, pos}
use foxrouters.Prelude.Space.{trim_space, to_lower}
use foxrouters.Upstream.{get_client}
use foxrouters.Upstream.Clients.{get_client-ClientAnswer, ClientAnswer}
use foxrouters.Pool.Stale.{gets, on, uses, Use, transport_stale}

abbrev home : ProxyEntry
home = record {
  id = codes "a1";
  protocol = codes "http";
  host = codes "10.0.0.1";
  port = pos 3128;
  username = codes "fox";
  password = codes "secret";
  enabled = true;
  label = [];
  upstreams = some (codes "grok" ∷ []);
  created_at = 1;
  last_used_at = 0;
  fail_count = 3;
}

abbrev shared : ProxyEntry
shared = record home {
  id = codes "b2";
  host = codes "10.0.0.2";
  upstreams = some (codes "all" ∷ []);
  fail_count = 0;
}

abbrev pool : ProxyPool
pool = record {
  store = true;
  entries = home ∷ shared ∷ [];
  enabled = home ∷ shared ∷ [];
  rr_index = 0;
  transports = (codes "a1", home) ∷ [];
}

-- A draft as a client sends it.
abbrev draft : ProxyEntry
draft = record home {
  id = [];
  protocol = codes " SOCKS5 ";
  host = codes " proxy.example ";
  upstreams = some (codes "Grok" ∷ codes "" ∷ codes "grok " ∷ []);
}

draft_checked : (validate_entry draft).1 ≡ none
unfolding validate_entry normalise check_entry trim_space to_lower normalise_upstreams
    distinct_scopes is_valid_upstream is_structural is_port str_eq
draft_checked = refl

draft_scopes : (validate_entry draft).0.upstreams ≡ some (codes "grok" ∷ [])
unfolding validate_entry normalise trim_space to_lower normalise_upstreams distinct_scopes str_eq
draft_scopes = refl

validate_entry-Rules_example : Rules (validate_entry draft).0
validate_entry-Rules_example = validate_entry-Rules draft draft_checked

home-checked : check_entry home ≡ none
unfolding check_entry is_valid_upstream is_structural is_port str_eq
home-checked = refl

shared-checked : check_entry shared ≡ none
unfolding check_entry is_valid_upstream is_structural is_port str_eq
shared-checked = refl

pool-IsPool : IsPool pool
unfolding keep
pool-IsPool = record {
  in_step = refl;
  sound = (
    record { checked = home-checked; live = inr (omega arith) },
    (record { checked = shared-checked; live = inr (omega arith) }, tt),
  );
}

abbrev ops : List Op
ops =
    fails (codes "a1")
    ∷ fails (codes "a1")
    ∷ picks (codes "grok") none
    ∷ adds draft (some (codes "c3")) 9 true
    ∷ toggles (codes "a1") true
    ∷ []

calls-IsPool_example : IsPool (calls ops pool)
calls-IsPool_example = calls-IsPool ops pool (tt, (tt, (tt, (tt, (tt, tt))))) pool-IsPool

next-home : (next (codes "grok") (some (pos 5)) pool).1 ≡ picked home
unfolding next next_index scoped shared_index keep applies_to str_eq
next-home = refl

next-NextIs_example : NextIs (codes "grok") pool (next (codes "grok") (some (negsuc 4)) pool).1
next-NextIs_example = next-NextIs (codes "grok") (some (negsuc 4)) pool pool-IsPool

not_empty : codes "a1" ≢ []
not_empty q = cc

home_found : find_entry (codes "a1") pool.entries ≡ some home
unfolding find_entry str_eq
home_found = refl

-- An update of the host.
abbrev moved : ProxyEntry
moved = record home { host = codes "10.0.0.9"; password = codes "***" }

moved-checked : check_entry (normalise (merge home moved)) ≡ none
unfolding merge normalise check_entry trim_space to_lower normalise_upstreams distinct_scopes
    is_valid_upstream is_structural is_port str_eq
moved-checked = refl

abbrev takes_all : ProxyEntry → Bool
takes_all e = true

home_builds : Buildable takes_all home
unfolding build_transport str_eq
home_builds = refl

moved_builds : Buildable takes_all moved
unfolding build_transport str_eq
moved_builds = refl

-- A request is picked, another entry fails, and the old entry is asked for once more.
abbrev between : List Use
between = on (picks (codes "grok") none) ∷ on (fails (codes "b2")) ∷ gets home ∷ []

b2_other : ◌≢◌ {A = Str} (codes "b2") (codes "a1")
b2_other e = ground arith

transport_stale_example :
    (transport takes_all moved (
      uses takes_all between
        (transport takes_all home (update (codes "a1") moved true pool).0).0)).1
    ≡ some home
transport_stale_example =
    transport_stale takes_all (codes "a1") moved true pool home moved between not_empty home_found
      moved-checked home_builds refl (tt, (b2_other, (tt, tt)))

home_seen : get (codes "a1") pool ≡ some (masked home)
unfolding get find_entry str_eq masked
home_seen = refl

seen_password : moved.password ≡ (masked home).password
unfolding masked str_eq
seen_password = refl

update_keeps_password_example : Retained (codes "a1") home (update (codes "a1") moved true pool)
update_keeps_password_example =
    update_keeps_password (codes "a1") moved true pool home (masked home) home_found home_seen
      seen_password

get_client-ClientAnswer_example :
    ClientAnswer (codes "grok") pool (get_client (λ e. true) none (codes "grok") (some pool))
get_client-ClientAnswer_example =
    get_client-ClientAnswer (λ e. true) none (codes "grok") pool pool-IsPool
