-- ===== src/Names/Tests.antt =====
-- Names that validateName takes and refuses.
use foxrouters.Names.{validate_name, bad_chars, valid_name_char, has_dots, valid_name_regex}
use foxrouters.Prelude.{str_eq, contains, codes, has_prefix, ◌≡◌, refl, none, some}

takes_name : validate_name (codes "cb/gpt-5.5") (codes "id") ≡ none
unfolding validate_name valid_name_regex valid_name_char str_eq contains has_prefix
takes_name = refl

refuses_dots : validate_name (codes "../etc") (codes "id") ≡ some (has_dots (codes "id"))
unfolding validate_name valid_name_regex valid_name_char str_eq contains has_prefix
refuses_dots = refl

refuses_space : validate_name (codes "a b") (codes "id") ≡ some (bad_chars (codes "id"))
unfolding validate_name valid_name_regex valid_name_char str_eq contains has_prefix
refuses_space = refl
