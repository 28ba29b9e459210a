-- ===== src/Prelude/Suffix.antt =====
-- strings.HasSuffix and strings.TrimSuffix: what they find.
use mathlib.Core.List.{reverse-append, reverse-reverse}
use foxrouters.Prelude.{
  length-append, length, drop, take, has_prefix-append, trim_suffix, Str, has_suffix,
  has_prefix_split, ◌-◌, ◌≡◌, refl, sym, ap, ◌∙◌, true, [], ◌∷◌, ◌++◌, reverse, arith,
}

take-length : (u p : Str) → take (length u) (u ++ p) ≡ u
take-length [] p = refl
take-length (c ∷ u) p = cc (take-length u p)

pub trim_suffix-append : (u p : Str) → has_suffix (u ++ p) p ≡ true → trim_suffix (u ++ p) p ≡ u
unfolding trim_suffix
trim_suffix-append u p h =
    let n : length (u ++ p) - length p ≡ length u = omega (arith, length-append u p) in
    rw (h, n) (take-length u p)

pub has_suffix-append : (u p : Str) → has_suffix (u ++ p) p ≡ true
unfolding has_suffix
has_suffix-append u p = rw (reverse-append u p) (has_prefix-append (reverse p) (reverse u))

pub has_suffix_split : (s p : Str) → has_suffix s p ≡ true → (u : Str) × (s ≡ u ++ p)
unfolding has_suffix
has_suffix_split s p h =
    let d = drop (length (reverse p)) (reverse s) in
    let e : reverse s ≡ reverse p ++ d = has_prefix_split (reverse s) (reverse p) h in
    (
      reverse d,
      sym (reverse-reverse s)
          ∙ ap reverse e
          ∙ reverse-append (reverse p) d
          ∙ ap (λ t. reverse d ++ t) (reverse-reverse p),
    )
