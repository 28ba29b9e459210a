-- ===== src/Session/Lifetime.antt =====
-- How long a session lives.
use foxrouters.Session.{
  SessionStore, creates, ticks, revokes, step, look_found, revoke, session_ttl, is_expired, look_up,
  create, looks, Session, Event, run,
}
use foxrouters.Prelude.{
  if◌then◌else◌, if_either, Bool-cases, str_eq, str_iff, Str, ℕ, ◌-◌, ◌≤◌, ◌<◌, ◌≡◌, refl, subst,
  ◌≢◌, inl, inr, Option, none, some, [], ◌∷◌, arith, ltb, All, sym, false, List,
}
use foxrouters.Prelude.Assoc.{
  insert, insert-Distinct, erase, lookup, Distinct, lookup-erase_self, lookup-insert_self,
  lookup-erase_ne, lookup-insert_ne,
}
use foxrouters.Session.Table.{lookup-cleanup, survives, step-Distinct}

-- The session of a token as it was created, or, once it has expired, no session.
unfoldable pub Alive : Str → Str → ℕ → ℕ → Option Session → Type 0
Alive token api_key created now none = session_ttl < now - created
Alive token api_key created now (some sess) = (sess.key ≡ api_key) × (sess.created_at ≡ created)

-- An event at or before `now` that does not create or revoke the session of a token.
abbrev pub Quiet : Str → ℕ → Event → Type 0
Quiet token now (creates api_key none at) = Unit
Quiet token now (creates api_key (some other) at) = other ≢ token
Quiet token now (looks at other) = at ≤ now
Quiet token now (revokes other) = other ≢ token
Quiet token now (ticks at) = at ≤ now

other_looked :
    (at now created : ℕ) (other token api_key : Str) (s : SessionStore) (found : Option Session)
    → other ≢ token
    → Alive token api_key created now (lookup token s)
    → Alive token api_key created now (lookup token (look_found at other s found).0)
unfolding look_found
other_looked at now created other token api_key s none ne h = h
other_looked at now created other token api_key s (some sess) ne h =
    if_either (λ (r : SessionStore × Str). Alive token api_key created now (lookup token r.0))
      (is_expired at sess) (erase other s, [])
      (insert other (record sess { last_seen = at }) s, sess.key)
      (rw (lookup-erase_ne other token s ne) h)
      (rw (lookup-insert_ne other token (record sess { last_seen = at }) s ne) h)

own_looked :
    (at now created : ℕ) (token api_key : Str) (s : SessionStore) (found : Option Session)
    → at ≤ now
    → lookup token s ≡ found
    → Alive token api_key created now found
    → Alive token api_key created now (lookup token (look_found at token s found).0)
unfolding look_found is_expired Alive
own_looked at now created token api_key s none b q h = rw q h
own_looked at now created token api_key s (some sess) b q h =
    elim (Bool-cases (is_expired at sess)) [
      | inl y ↦ rw (y, lookup-erase_self token s) (ground (arith, h.1, y))
      | inr y ↦ rw (y, lookup-insert_self token (record sess { last_seen = at }) s) h
    ]

cleaned :
    (at now created : ℕ) (token api_key : Str) (found : Option Session)
    → at ≤ now
    → Alive token api_key created now found
    → Alive token api_key created now (survives at found)
unfolding is_expired Alive survives
cleaned at now created token api_key none b h = h
cleaned at now created token api_key (some sess) b h = elim (Bool-cases (is_expired at sess)) [
  | inl y ↦ rw y (ground (arith, h.1, y))
  | inr y ↦ rw y h
]

step-Alive :
    (token api_key : Str) (created now : ℕ) (e : Event) (s : SessionStore)
    → Quiet token now e
    → Distinct s
    → Alive token api_key created now (lookup token s)
    → Alive token api_key created now (lookup token (step e s))
unfolding step create look_up revoke
step-Alive token api_key created now (creates k none at) s q d h = h
step-Alive token api_key created now (creates k (some other) at) s q d h =
    rw (lookup-insert_ne other token (record { key = k; created_at = at; last_seen = at }) s q) h
step-Alive token api_key created now (looks at other) s q d h =
    let own : other ≡ token
        → Alive token api_key created now
            (lookup token (look_found at other s (lookup other s)).0) =
      λ same.
        subst
          (λ o. Alive token api_key created now (lookup token (look_found at o s (lookup o s)).0))
          (sym same) (own_looked at now created token api_key s (lookup token s) q refl h) in
    if_either (λ (r : SessionStore × Str). Alive token api_key created now (lookup token r.0))
      (str_eq other []) (s, []) (look_found at other s (lookup other s)) h
      (elim (Bool-cases (str_eq other token)) [
        | inl y ↦ own ((str_iff other token).0 y)
        | inr y ↦
            other_looked at now created other token api_key s (lookup other s)
              (λ same. ground (arith, y, (str_iff other token).1 same)) h
      ])
step-Alive token api_key created now (revokes other) s q d h =
    if_either (λ r. Alive token api_key created now (lookup token r)) (str_eq other []) s
      (erase other s) h (rw (lookup-erase_ne other token s q) h)
step-Alive token api_key created now (ticks at) s q d h =
    rw (lookup-cleanup at token s d) (cleaned at now created token api_key (lookup token s) q h)

run-Alive :
    (token api_key : Str) (created now : ℕ) (es : List Event) (s : SessionStore)
    → All (Quiet token now) es
    → Distinct s
    → Alive token api_key created now (lookup token s)
    → Alive token api_key created now (lookup token (run es s))
unfolding run
run-Alive token api_key created now [] s q d h = h
run-Alive token api_key created now (e ∷ es) s q d h =
    run-Alive token api_key created now es (step e s) q.1 (step-Distinct e s d)
      (step-Alive token api_key created now e s q.0 d h)

looked :
    (token api_key : Str) (created now : ℕ) (s : SessionStore) (found : Option Session)
    → Alive token api_key created now found
    → (look_found now token s found).1 ≡ (if ltb session_ttl (now - created) then [] else api_key)
unfolding look_found is_expired Alive
looked token api_key created now s none h = ground arith
looked token api_key created now s (some sess) h = ground (arith, h.0, h.1)

created-Distinct :
    (token api_key : Str) (now : ℕ) (s : SessionStore)
    → Distinct s
    → Distinct (create api_key (some token) now s).0
unfolding create
created-Distinct token api_key now s d =
    insert-Distinct token (record { key = api_key; created_at = now; last_seen = now }) s d

created-Alive :
    (token api_key : Str) (created now : ℕ) (s : SessionStore)
    → Alive token api_key created now (lookup token (create api_key (some token) created s).0)
unfolding create Alive
created-Alive token api_key created now s =
    let new : Session = record { key = api_key; created_at = created; last_seen = created } in
    rw (lookup-insert_self token new s) (refl, refl)

-- A session ends seven days after its creation, to the nanosecond, and not before: after the creation
-- at `created` and any events up to `now` but a creation or a revocation under the same token,
-- Lookup at `now` gives the key up to seven days from the creation and the empty text from then on,
-- however often the session was looked up meanwhile.
pub look_up_lifetime :
    (token api_key : Str) (created now : ℕ) (es : List Event) (s : SessionStore)
    → token ≢ []
    → Distinct s
    → All (Quiet token now) es
    → (look_up now token (run es (create api_key (some token) created s).0)).1
      ≡ (if ltb session_ttl (now - created) then [] else api_key)
unfolding look_up
look_up_lifetime token api_key created now es s ne d q =
    let s' = run es (create api_key (some token) created s).0 in
    let h =
      run-Alive token api_key created now es (create api_key (some token) created s).0 q
        (created-Distinct token api_key created s d) (created-Alive token api_key created now s) in
    let nonempty : str_eq token [] ≡ false = ground (arith, str_iff token [], ne) in
    rw nonempty (looked token api_key created now s' (lookup token s') h)
