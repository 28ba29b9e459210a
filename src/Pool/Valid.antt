-- ===== src/Pool/Valid.antt =====
-- What validateEntry accepts.
use foxrouters.Pool.{
  check_entry, is_port, scopes_of, is_valid_upstream, ProxyEntry, is_structural, validate_entry,
  normalise,
}
use foxrouters.Prelude.{
  all, any, length, All, codes, str_iff, Str, ℕ, ◌≤◌, ◌≡◌, refl, ◌≢◌, ◌⊎◌, true, false, none, List,
  [], ◌∷◌, arith,
}
use foxrouters.Prelude.Int.{negsuc, ℤ, pos}

-- The rules of an entry, in words of their own.
pub record Rules (e : ProxyEntry) : Type 0 where
  pub scopes :
      All
        (λ u. (u ≡ codes "all") ⊎ ((u ≡ codes "grok") ⊎ (u ≡ codes "codebuddy")))
        (scopes_of e.upstreams)
  pub protocol_known : (e.protocol ≡ codes "http") ⊎ (e.protocol ≡ codes "socks5")
  pub host_given : e.host ≢ []
  pub host_fits : length e.host ≤ 253
  pub host_plain : any is_structural e.host ≡ false
  pub port_fits : (n : ℕ) × (e.port ≡ pos n) × (1 ≤ n) × (n ≤ 65535)
  pub label_fits : length e.label ≤ 64
  pub username_fits : length e.username ≤ 256
  pub password_fits : length e.password ≤ 256

scopes_known :
    (us : List Str)
    → all is_valid_upstream us ≡ true
    → All (λ u. (u ≡ codes "all") ⊎ ((u ≡ codes "grok") ⊎ (u ≡ codes "codebuddy"))) us
unfolding is_valid_upstream
scopes_known [] h = tt
scopes_known (u ∷ us) h = (
  ground (arith, str_iff u (codes "all"), str_iff u (codes "grok"), str_iff u (codes "codebuddy")),
  scopes_known us (ground arith),
)

port_known : (z : ℤ) → is_port z ≡ true → (n : ℕ) × (z ≡ pos n) × (1 ≤ n) × (n ≤ 65535)
unfolding is_port
port_known (pos n) h = (n, refl, ground arith, ground arith)
port_known (negsuc n) h = cc

pub check_entry-Rules : (e : ProxyEntry) → check_entry e ≡ none → Rules e
unfolding check_entry
check_entry-Rules e h = record {
  scopes = scopes_known (scopes_of e.upstreams) (ground arith);
  protocol_known =
      ground (arith, str_iff e.protocol (codes "http"), str_iff e.protocol (codes "socks5"));
  host_given = λ q. ground (arith, (str_iff e.host []).1 q);
  host_fits = ground arith;
  host_plain = ground arith;
  port_fits = port_known e.port (ground arith);
  label_fits = ground arith;
  username_fits = ground arith;
  password_fits = ground arith;
}

-- An entry that validateEntry takes obeys all the rules once it is normalised: its scopes are among
-- "all", "grok" and "codebuddy", its protocol is http or socks5, its host is not empty, has at most 253
-- bytes and no space, slash or the like, its port is from 1 to 65535, and its label and credentials
-- fit.
pub validate_entry-Rules :
    (e : ProxyEntry) → (validate_entry e).1 ≡ none → Rules (validate_entry e).0
unfolding validate_entry
validate_entry-Rules e h = check_entry-Rules (normalise e) h
