-- ===== src/Prelude/Space.antt =====
-- strings.TrimSpace and strings.ToLower, on the bytes of UTF-8.
use Prim.Native.Nat.{ℕ, ◌+◌}
use mathlib.Core.Bool.{Bool, true, false, ◌&&◌, ◌||◌}
use mathlib.Core.List.{[], ◌∷◌, reverse}
use foxrouters.Prelude.Lists.{drop}
use foxrouters.Prelude.Tests.{leb, nat_beq, if◌then◌else◌}
use foxrouters.Prelude.Text.{Str}

-- The white space of one, two and three bytes: unicode.IsSpace has no longer one.
space_one : ℕ → Bool
space_one a = (leb 9 a && leb a 13) || nat_beq a 32

space_two : ℕ → ℕ → Bool
space_two a b = nat_beq a 0xc2 && (nat_beq b 0x85 || nat_beq b 0xa0)

space_three : ℕ → ℕ → ℕ → Bool
space_three a b c =
    (nat_beq a 0xe1 && (nat_beq b 0x9a && nat_beq c 0x80))
    || ((nat_beq a 0xe2
          && ((nat_beq b 0x80
                && ((leb 0x80 c && leb c 0x8a)
                    || (nat_beq c 0xa8 || (nat_beq c 0xa9 || nat_beq c 0xaf))))
              || (nat_beq b 0x81 && nat_beq c 0x9f)))
        || (nat_beq a 0xe3 && (nat_beq b 0x80 && nat_beq c 0x80)))

-- Drops runes from the front; `two` and `three` get the bytes in the order of the list.
drop_space : (ℕ → ℕ → Bool) → (ℕ → ℕ → ℕ → Bool) → Str → Str
drop_space two three [] = []
drop_space two three (a ∷ []) = if space_one a then [] else a ∷ []
drop_space two three (a ∷ b ∷ []) = elim (space_one a) [
  | true ↦ drop_space two three (b ∷ [])
  | false ↦ if two a b then [] else a ∷ b ∷ []
]
drop_space two three (a ∷ b ∷ c ∷ s) = elim (space_one a) [
  | true ↦ drop_space two three (b ∷ c ∷ s)
  | false ↦ elim (two a b) [
    | true ↦ drop_space two three (c ∷ s)
    | false ↦ elim (three a b c) [ true ↦ drop_space two three s | false ↦ a ∷ b ∷ c ∷ s ]
  ]
]

unfoldable pub trim_space : Str → Str
unfolding drop_space space_one space_two space_three
trim_space s = reverse (
    drop_space (λ a b. space_two b a) (λ a b c. space_three c b a)
      (reverse (drop_space space_two space_three s)))

-- strings.ToLower, up to the runes that no text in the program has: of the runes that are not ASCII,
-- U+0130 and U+212A alone turn into ASCII letters. The others stay as they are here, and in
-- Go turn into runes that are not ASCII.
unfoldable pub to_lower : Str → Str
to_lower [] = []
to_lower (a ∷ s) =
    let rest = to_lower s in
    if leb 0x41 a && leb a 0x5a
    then (a + 32) ∷ rest
    else if starts_two a s
    then 0x69 ∷ drop 1 rest
    else if starts_three a s
    then 0x6b ∷ drop 2 rest
    else a ∷ rest
  where
    starts_two : ℕ → Str → Bool
    starts_two a [] = false
    starts_two a (b ∷ s) = nat_beq a 0xc4 && nat_beq b 0xb0

    starts_three : ℕ → Str → Bool
    starts_three a [] = false
    starts_three a (b ∷ []) = false
    starts_three a (b ∷ c ∷ s) = nat_beq a 0xe2 && (nat_beq b 0x84 && nat_beq c 0xaa)
