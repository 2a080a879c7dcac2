-- ===== src/Config/SqlUtil.antt =====
-- dt-common/src/utils/sql_util.rs, and the types of databases of config_enums.rs.
use mathlib.Core.Bool.{◌&&◌}
use cubetran_core.Prelude.{
  Bool, List, Text, [], contains, false, if◌then◌else◌, leb, list_eq, ltb, nat_eq, not, option_eq,
  pair_eq, true, ℕ, ◌&&◌, ◌++◌, ◌+◌, ◌-◌, ◌==◌, ◌^◌, ◌∷◌,
}

pub data DbType : Type 0 where
  mysql pg kafka mongo redis star_rocks click_house foxlake tidb : DbType

-- str::starts_with and str::ends_with, of a character
abbrev pub starts_with : Text → ℕ → Bool
starts_with [] c = false
starts_with (x ∷ s) c = x == c

abbrev pub ends_with : Text → ℕ → Bool
ends_with [] c = false
ends_with (x ∷ []) c = x == c
ends_with (x ∷ y ∷ s) c = ends_with (y ∷ s) c

unfoldable pub is_escaped : Text → ℕ × ℕ → Bool
is_escaped token (left, right) = starts_with token left && ends_with token right

unfoldable pub escape : Text → ℕ × ℕ → Text
escape token (left, right) =
    if is_escaped token (left, right) then token else left ∷ (token ++ right ∷ [])

-- str::trim_start_matches and str::trim_end_matches, of a character: every copy of it goes
abbrev pub trim_start_matches : Text → ℕ → Text
trim_start_matches [] c = []
trim_start_matches (x ∷ s) c = let rest = trim_start_matches s c in if x == c then rest else x ∷ s

abbrev pub trim_end_matches : Text → ℕ → Text
trim_end_matches [] c = []
trim_end_matches (x ∷ s) c = elim (trim_end_matches s c) [
  | [] ↦ if x == c then [] else x ∷ []
  | y ∷ t ↦ x ∷ y ∷ t
]

unfoldable pub unescape : Text → ℕ × ℕ → Text
unescape token (left, right) =
    if is_escaped token (left, right)
    then trim_end_matches (trim_start_matches token left) right
    else token

unfoldable pub get_escape_pairs : DbType → List (ℕ × ℕ)
get_escape_pairs mysql = (96, 96) ∷ []
get_escape_pairs click_house = (96, 96) ∷ []
get_escape_pairs foxlake = (96, 96) ∷ []
get_escape_pairs star_rocks = (96, 96) ∷ []
get_escape_pairs pg = (34, 34) ∷ []
get_escape_pairs redis = (34, 34) ∷ []
get_escape_pairs kafka = []
get_escape_pairs mongo = []
get_escape_pairs tidb = []

-- the loops over the pairs keep the result of the last one
abbrev escape_from : Text → Text → List (ℕ × ℕ) → Text
escape_from token result [] = result
escape_from token result (pair ∷ pairs) = escape_from token (escape token pair) pairs

unfoldable pub escape_by_db_type : Text → DbType → Text
escape_by_db_type token db_type = escape_from token token (get_escape_pairs db_type)

abbrev unescape_from : Text → Text → List (ℕ × ℕ) → Text
unescape_from token result [] = result
unescape_from token result (pair ∷ pairs) = unescape_from token (unescape token pair) pairs

unfoldable pub unescape_by_db_type : Text → DbType → Text
unescape_by_db_type token db_type = unescape_from token token (get_escape_pairs db_type)

unfoldable pub escape_cols : List Text → DbType → List Text
escape_cols [] db_type = []
escape_cols (col ∷ cols) db_type = escape_by_db_type col db_type ∷ escape_cols cols db_type

abbrev pub max_token_len : DbType → ℕ
max_token_len mysql = 64
max_token_len pg = 64
max_token_len _ = 2 ^ 31 - 1

-- the bytes of a character, and of a text, in UTF-8
abbrev utf8_len_char : ℕ → ℕ
utf8_len_char c = if ltb c 128 then 1 else if ltb c 2048 then 2 else if ltb c 65536 then 3 else 4

abbrev utf8_len : Text → ℕ
utf8_len [] = 0
utf8_len (c ∷ s) = utf8_len_char c + utf8_len s

abbrev is_empty : Text → Bool
is_empty [] = true
is_empty _ = false

abbrev is_valid_inside : Text → DbType → ℕ × ℕ → Bool
is_valid_inside token db_type (left, right) =
    not (contains token left)
    && not (contains token right)
    && not (is_empty token)
    && leb (utf8_len token) (max_token_len db_type)

unfoldable pub is_valid_token : Text → DbType → List (ℕ × ℕ) → Bool
is_valid_token token db_type [] = true
is_valid_token token db_type (pair ∷ pairs) =
    let rest = is_valid_token token db_type pairs in
    if is_escaped token pair then is_valid_inside (unescape token pair) db_type pair else rest
