-- ===== src/Prelude/Text.antt =====
-- Go strings as lists of bytes, and the functions of package strings that the program calls.
use Prim.Native.Nat.{ℕ, suc, ◌-◌}
use Prim.Native.Char.{code}
use Prim.Native.String.{String}
use mathlib.Core.Path.{◌≡◌, refl}
use mathlib.Core.Logic.{◌↔◌}
use mathlib.Core.Bool.{Bool, true, false, ◌&&◌, ◌||◌}
use mathlib.Core.Option.{Option, none, some}
use mathlib.Core.List.{List, [], ◌∷◌, ◌++◌, reverse}
use native.Mathlib.Omega.{arith}
use foxrouters.Prelude.Tests.{if◌then◌else◌, nat_beq}
use foxrouters.Prelude.Lists.{length, drop, take}

abbrev pub Str : Type 0
Str = List ℕ

-- The bytes of an ASCII literal.
abbrev pub codes : String → Str
codes String.[] = []
codes (String.◌∷◌ c s) = code c ∷ codes s

unfoldable pub str_eq : Str → Str → Bool
str_eq [] [] = true
str_eq [] (b ∷ t) = false
str_eq (a ∷ s) [] = false
str_eq (a ∷ s) (b ∷ t) = nat_beq a b && str_eq s t

str_eq_sound : (s t : Str) → str_eq s t ≡ true → s ≡ t
unfolding str_eq
str_eq_sound [] [] h = refl
str_eq_sound [] (b ∷ t) h = cc
str_eq_sound (a ∷ s) [] h = cc
str_eq_sound (a ∷ s) (b ∷ t) h = ground (arith, str_eq_sound s t)

pub str_eq_refl : (s : Str) → str_eq s s ≡ true
unfolding str_eq
str_eq_refl [] = refl
str_eq_refl (a ∷ s) = ground (arith, str_eq_refl s)

pub str_iff : (s t : Str) → (str_eq s t ≡ true) ↔ (s ≡ t)
str_iff s t = (str_eq_sound s t, λ e. ground (arith, str_eq_refl s))

-- strings.HasPrefix
unfoldable pub has_prefix : Str → Str → Bool
has_prefix s [] = true
has_prefix [] (b ∷ p) = false
has_prefix (a ∷ s) (b ∷ p) = nat_beq a b && has_prefix s p

-- strings.TrimPrefix
unfoldable pub trim_prefix : Str → Str → Str
trim_prefix s p = if has_prefix s p then drop (length p) s else s

-- strings.HasSuffix
unfoldable pub has_suffix : Str → Str → Bool
has_suffix s p = has_prefix (reverse s) (reverse p)

-- strings.TrimSuffix
unfoldable pub trim_suffix : Str → Str → Str
trim_suffix s p = if has_suffix s p then take (length s - length p) s else s

-- strings.Contains
unfoldable pub contains : Str → Str → Bool
contains [] p = has_prefix [] p
contains (a ∷ s) p = has_prefix (a ∷ s) p || contains s p

-- strings.Index; `none` is -1
unfoldable pub index : Str → Str → Option ℕ
index [] p = if has_prefix [] p then some 0 else none
index (a ∷ s) p =
    let rest = index s p in
    if has_prefix (a ∷ s) p then some 0 else elim rest [ none ↦ none | some n ↦ some (suc n) ]

pub has_prefix-append : (p s : Str) → has_prefix (p ++ s) p ≡ true
unfolding has_prefix
has_prefix-append [] s = refl
has_prefix-append (a ∷ p) s = ground (arith, has_prefix-append p s)

pub has_prefix_split : (s p : Str) → has_prefix s p ≡ true → s ≡ p ++ drop (length p) s
unfolding has_prefix
has_prefix_split s [] h = refl
has_prefix_split [] (b ∷ p) h = cc
has_prefix_split (a ∷ s) (b ∷ p) h = ground (arith, has_prefix_split s p)

drop-length : (p s : Str) → drop (length p) (p ++ s) ≡ s
drop-length [] s = refl
drop-length (a ∷ p) s = drop-length p s

pub trim_prefix-append : (p s : Str) → trim_prefix (p ++ s) p ≡ s
unfolding trim_prefix
trim_prefix-append p s = ground (arith, has_prefix-append p s, drop-length p s)
