-- ===== src/Config/TokenParser.antt =====
-- dt-common/src/config/config_token_parser.rs. A position in the text is what follows it: the index is
-- at the end of the characters when nothing follows.
pub mod RoundTrip
pub mod Ends
pub mod Trailing
use mathlib.Core.Bool.{◌||◌, ◌&&◌}
use cubetran_core.Prelude.{
  Bool, List, Result, Text, [], all, config_error, contains, err, if◌then◌else◌, leb, length,
  list_eq, nat_eq, ok, option_eq, pair_eq, panic, suc, unexpected, zero, ℕ, ◌&&◌, ◌==◌, ◌>>=◌, ◌>>◌,
  ◌||◌, ◌∷◌,
}
use cubetran_core.Config.SqlUtil.{DbType, get_escape_pairs, is_valid_token}

-- char::is_whitespace
abbrev pub is_whitespace : ℕ → Bool
is_whitespace c =
    (leb 9 c && leb c 13)
    || c == 32
    || c == 133
    || c == 160
    || c == 5760
    || (leb 8192 c && leb c 8202)
    || c == 8232
    || c == 8233
    || c == 8239
    || c == 8287
    || c == 12288

abbrev trim_start : Text → Text
trim_start [] = []
trim_start (c ∷ s) = let rest = trim_start s in if is_whitespace c then rest else c ∷ s

abbrev trim_end : Text → Text
trim_end [] = []
trim_end (c ∷ s) = elim (trim_end s) [
  | [] ↦ if is_whitespace c then [] else c ∷ []
  | d ∷ t ↦ c ∷ d ∷ t
]

-- str::trim
unfoldable pub trim : Text → Text
trim s = trim_end (trim_start s)

-- the token, and what follows it
unfoldable pub read_token_to_delimiter : Text → Text → Text × Text
read_token_to_delimiter delimiters [] = ([], [])
read_token_to_delimiter delimiters (c ∷ chars) =
    let (token, rest) = read_token_to_delimiter delimiters chars in
    if contains delimiters c then ([], c ∷ chars) else (c ∷ token, rest)

-- up to the right escape, or to the end
unfoldable pub read_to_escape : ℕ → Text → Text × Text
read_to_escape right [] = ([], [])
read_to_escape right (c ∷ chars) =
    let (token, rest) = read_to_escape right chars in
    if c == right then (c ∷ [], chars) else (c ∷ token, rest)

-- It is called on the left escape, which starts the token.
unfoldable pub read_token_with_escape : ℕ × ℕ → Text → Text × Text
read_token_with_escape (left, right) [] = ([], [])
read_token_with_escape (left, right) (c ∷ chars) =
    let (token, rest) = read_to_escape right chars in (c ∷ token, rest)

-- `chars[start_index]` is out of range at the end.
unfoldable pub read_token : Text → List (ℕ × ℕ) → Text → Result (Text × Text)
read_token delimiters [] chars = ok (read_token_to_delimiter delimiters chars)
read_token delimiters (pair ∷ pairs) [] = err panic
read_token delimiters ((left, right) ∷ pairs) (c ∷ chars) =
    let rest = read_token delimiters pairs (c ∷ chars) in
    if c == left then ok (read_token_with_escape (left, right) (c ∷ chars)) else rest

-- The loop, with fuel; `unexpected` is no error of the code: the fuel has run out.
unfoldable pub parse_from : ℕ → Text → List (ℕ × ℕ) → Text → Result (List Text)
parse_from zero delimiters escape_pairs chars = err unexpected
parse_from (suc fuel) delimiters escape_pairs chars = do
  (token, rest) ← read_token delimiters escape_pairs chars
  -- the end of the characters, or the token after the delimiter, which is skipped
  tokens ← elim rest [ [] ↦ ok [] | c ∷ next ↦ parse_from fuel delimiters escape_pairs next ]
  ok (trim token ∷ tokens)

-- Every turn but the last takes the delimiter at least.
unfoldable pub parse : Text → Text → List (ℕ × ℕ) → Result (List Text)
parse [] delimiters escape_pairs = ok []
parse (c ∷ config) delimiters escape_pairs =
    parse_from (suc (length (c ∷ config))) delimiters escape_pairs (c ∷ config)

unfoldable pub parse_config : Text → DbType → Text → Result (List Text)
parse_config [] db_type delimiters = ok []
parse_config (c ∷ config_str) db_type delimiters = do
  tokens ← parse (c ∷ config_str) delimiters (get_escape_pairs db_type)
  if all (λ token. is_valid_token token db_type (get_escape_pairs db_type)) tokens
      then ok tokens
      else err config_error
