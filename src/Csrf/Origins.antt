-- ===== src/Csrf/Origins.antt =====
-- What the host of a URL is to the guard, and what it blocks.
use foxrouters.Prelude.{
  nat_beq, All, length, has_prefix, index, Str, codes, ℕ, ◌≡◌, refl, false, none, some, [], ◌∷◌,
  ◌++◌, take, drop, str_iff, str_eq, ◌+◌, ap, ◌⊎◌, inl, inr, true, arith, suc, subst,
}
use foxrouters.Csrf.{csrf_guard, same_origin, before_path, Request, is_safe_method}

-- A byte that a text does not have.
unfoldable pub Lacks : ℕ → Str → Type 0
Lacks b s = All (λ a. nat_beq a b ≡ false) s

-- A scheme has no colon before its "://".
index-scheme :
    (scheme rest : Str)
    → Lacks 58 scheme
    → index (scheme ++ (codes "://" ++ rest)) (codes "://") ≡ some (length scheme)
unfolding index has_prefix Lacks
index-scheme [] rest h = refl
index-scheme (a ∷ scheme) rest h = let below = index-scheme scheme rest h.1 in rw (h.0, below) refl

-- A path is empty or starts with a slash.
abbrev pub PathLike : Str → Type 0
PathLike [] = Unit
PathLike (a ∷ s) = a ≡ 47

host-only : (host : Str) → Lacks 47 host → index host (codes "/") ≡ none
unfolding index has_prefix Lacks
host-only [] h = refl
host-only (a ∷ host) h = let below = host-only host h.1 in rw (h.0, below) refl

host-path :
    (host path : Str) → Lacks 47 host → index (host ++ (47 ∷ path)) (codes "/") ≡ some (length host)
unfolding index has_prefix Lacks
host-path [] path h = refl
host-path (a ∷ host) path h = let below = host-path host path h.1 in rw (h.0, below) refl

drop-scheme :
    (scheme rest : Str) → drop (length scheme + 3) (scheme ++ (codes "://" ++ rest)) ≡ rest
drop-scheme [] rest = refl
drop-scheme (a ∷ scheme) rest =
    let longer : suc (length scheme + 3) ≡ length (a ∷ scheme) + 3 = omega arith in
    subst (λ n. drop n (a ∷ (scheme ++ (codes "://" ++ rest))) ≡ rest) longer
      (drop-scheme scheme rest)

take-host : (host path : Str) → take (length host) (host ++ path) ≡ host
take-host [] path = refl
take-host (a ∷ host) path = ap (λ s. a ∷ s) (take-host host path)

append-nil : (s : Str) → s ++ [] ≡ s
append-nil [] = refl
append-nil (a ∷ s) = ap (λ t. a ∷ t) (append-nil s)

before_path-host :
    (host path : Str)
    → Lacks 47 host
    → PathLike path
    → before_path (index (host ++ path) (codes "/")) (host ++ path) ≡ host
before_path-host host [] h p = rw (append-nil host, host-only host h) refl
before_path-host host (a ∷ path) h p = rw (p, host-path host path h) (take-host host (47 ∷ path))

-- scheme://host/path
abbrev pub url : Str → Str → Str → Str
url scheme host path = scheme ++ (codes "://" ++ (host ++ path))

same_origin-url :
    (scheme host path target : Str)
    → Lacks 58 scheme
    → Lacks 47 host
    → PathLike path
    → same_origin (url scheme host path) target ≡ str_eq host target
unfolding same_origin
same_origin-url scheme host path target s h p =
    let found = index-scheme scheme (host ++ path) s in
    let rest = drop-scheme scheme (host ++ path) in
    rw (found, rest, before_path-host host path h p) refl

url-given : (scheme host path : Str) → str_eq (url scheme host path) [] ≡ false
unfolding str_eq
url-given [] host path = refl
url-given (a ∷ scheme) host path = refl

-- A request that changes state, with the session cookie and no bearer token, that names the page it
-- comes from, in Origin, or in Referer if there is no Origin, as scheme://host/path with no ':' in the
-- scheme and no '/' in the host: it passes exactly if that host, with its port, is the Host of the
-- request.
pub csrf_guard-url :
    (req : Request) (scheme host path : Str)
    → is_safe_method req.method ≡ false
    → req.has_cookie ≡ true
    → has_prefix req.authorization (codes "Bearer ") ≡ false
    → (req.origin ≡ url scheme host path)
      ⊎ ((req.origin ≡ []) × (req.referer ≡ url scheme host path))
    → Lacks 58 scheme
    → Lacks 47 host
    → PathLike path
    → csrf_guard req ≡ str_eq host req.host
unfolding csrf_guard
csrf_guard-url req scheme host path m c b (inl o) s h p =
    let same = same_origin-url scheme host path req.host s h p in
    ground (arith, m, c, b, o, same, url-given scheme host path)
csrf_guard-url req scheme host path m c b (inr (o, r)) s h p =
    let same = same_origin-url scheme host path req.host s h p in
    ground (arith, m, c, b, o, r, same, url-given scheme host path, str_iff [] [])
