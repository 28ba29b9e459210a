-- ===== src/Names.antt =====
-- internal/proxy/validate.go: the names of custom models, aliases and combos.
pub mod Laws
mod Tests
use foxrouters.Prelude.{
  ℕ, Bool, ◌&&◌, ◌||◌, Option, none, some, Str, codes, leb, nat_beq, str_eq, contains, length, all,
  if◌then◌else◌, [],
}

-- One constructor for each error, with the name of the field.
pub data NameError : Type 0 where
  required : Str → NameError
  too_long : Str → NameError
  has_dots : Str → NameError
  bad_chars : Str → NameError

-- The class `[A-Za-z0-9._/\-]`.
unfoldable pub valid_name_char : ℕ → Bool
valid_name_char c =
    (leb b'A' c && leb c b'Z')
    || ((leb b'a' c && leb c b'z')
        || ((leb b'0' c && leb c b'9')
            || (nat_beq c b'.' || (nat_beq c b'_' || (nat_beq c b'/' || nat_beq c b'-')))))

-- `^[A-Za-z0-9._/\-]{1,64}$`
unfoldable pub valid_name_regex : Str → Bool
valid_name_regex s = leb 1 (length s) && (leb (length s) 64 && all valid_name_char s)

unfoldable pub validate_name : Str → Str → Option NameError
validate_name name field =
    if str_eq name []
    then some (required field)
    else if leb 65 (length name)
    then some (too_long field)
    else if contains name (codes "..")
    then some (has_dots field)
    else if valid_name_regex name
    then none
    else some (bad_chars field)
