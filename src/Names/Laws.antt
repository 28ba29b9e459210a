-- ===== src/Names/Laws.antt =====
-- What validateName accepts.
use foxrouters.Prelude.{
  ◌≡◌, ◌↔◌, ◌≤◌, false, true, none, Str, codes, contains, length, all, arith, str_iff,
}
use foxrouters.Names.{validate_name, valid_name_regex, valid_name_char, []}

-- A name as the rule says it: 1 to 64 bytes, all of the class, and nowhere two dots in a row.
pub record IsName (s : Str) : Type 0 where
  pub nonempty : 1 ≤ length s
  pub short : length s ≤ 64
  pub clean : all valid_name_char s ≡ true
  pub no_dots : contains s (codes "..") ≡ false

-- validateName returns no error exactly for the texts of 1 to 64 bytes that are made of letters,
-- digits, '.', '_', '/' and '-' and do not contain "..", whatever the field is called.
pub validate_name-none_iff : (s field : Str) → (validate_name s field ≡ none) ↔ IsName s
unfolding validate_name valid_name_regex
validate_name-none_iff s field =
    (λ h. ground (arith, str_iff s []), λ h. ground (arith, str_iff s []))
