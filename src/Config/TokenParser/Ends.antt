-- ===== src/Config/TokenParser/Ends.antt =====
-- The loop over the tokens ends.
use cubetran_core.Prelude.{
  Bool-cases, List, Result, Text, [], arith, contains, err, inl, inr, length, list_eq, nat_eq, ok,
  option_eq, pair_eq, suc, unexpected, zero, ℕ, ◌<◌, ◌==◌, ◌>>=◌, ◌∷◌, ◌≢◌, ◌≤◌,
}
use cubetran_core.Config.TokenParser.{
  parse, parse_from, read_to_escape, read_token, read_token_to_delimiter, read_token_with_escape,
  trim,
}

-- no fuel has run out, and what follows the token is no longer than the text
unfoldable Shrinks : Text → Result (Text × Text) → Type 0
Shrinks chars (err e) = e ≢ unexpected
Shrinks chars (ok (token, rest)) = length rest ≤ length chars

read_token_to_delimiter-≤ :
    (delimiters chars : Text) → length (read_token_to_delimiter delimiters chars).1 ≤ length chars
unfolding read_token_to_delimiter
read_token_to_delimiter-≤ delimiters [] = omega arith
read_token_to_delimiter-≤ delimiters (c ∷ chars) = elim (Bool-cases (contains delimiters c)) [
  | inl e ↦ rw e (omega arith)
  | inr e ↦ rw e (omega (arith, read_token_to_delimiter-≤ delimiters chars))
]

read_to_escape-≤ : (right : ℕ) (chars : Text) → length (read_to_escape right chars).1 ≤ length chars
unfolding read_to_escape
read_to_escape-≤ right [] = omega arith
read_to_escape-≤ right (c ∷ chars) = elim (Bool-cases (c == right)) [
  | inl e ↦ rw e (omega arith)
  | inr e ↦ rw e (omega (arith, read_to_escape-≤ right chars))
]

read_token-Shrinks :
    (delimiters : Text) (pairs : List (ℕ × ℕ)) (chars : Text)
    → Shrinks chars (read_token delimiters pairs chars)
unfolding read_token read_token_with_escape Shrinks
read_token-Shrinks delimiters [] chars = read_token_to_delimiter-≤ delimiters chars
read_token-Shrinks delimiters (pair ∷ pairs) [] = λ e. cc
read_token-Shrinks delimiters ((left, right) ∷ pairs) (c ∷ chars) = elim (Bool-cases (c == left)) [
  | inl e ↦ rw e (omega (arith, read_to_escape-≤ right chars))
  | inr e ↦ rw e (read_token-Shrinks delimiters pairs (c ∷ chars))
]

parse_from_total :
    (fuel : ℕ) (delimiters : Text) (pairs : List (ℕ × ℕ)) (chars : Text)
    → length chars < fuel
    → parse_from fuel delimiters pairs chars ≢ err unexpected
unfolding parse_from Shrinks
parse_from_total zero delimiters pairs chars lt = absurd (omega arith)
parse_from_total (suc fuel) delimiters pairs chars lt =
    turn (read_token delimiters pairs chars) (read_token-Shrinks delimiters pairs chars)
      (parse_from_total fuel delimiters pairs)
  where
    last :
        (t : Text) (m : Result (List Text))
        → m ≢ err unexpected
        → (m >>= λ tokens. ok (t ∷ tokens)) ≢ err unexpected
    last t (err e) h = h
    last t (ok ts) h = λ e. cc

    turn :
        (m : Result (Text × Text))
        → Shrinks chars m
        → ((next : Text)
            → length next < fuel
            → parse_from fuel delimiters pairs next ≢ err unexpected)
        → (m >>= λ (token, rest).
            elim rest [ [] ↦ ok [] | c ∷ next ↦ parse_from fuel delimiters pairs next ]
            >>= λ tokens. ok (trim token ∷ tokens))
          ≢ err unexpected
    turn (err e) h more = λ p. h cc
    turn (ok (token, [])) h more = λ e. cc
    turn (ok (token, c ∷ next)) h more = last (trim token) _ (more next (omega arith))

-- `parse` never runs out of the fuel that it is given: it returns the tokens or panics, whatever the
-- text, the delimiters and the escapes are.
pub parse_total :
    (config delimiters : Text) (pairs : List (ℕ × ℕ))
    → parse config delimiters pairs ≢ err unexpected
unfolding parse
parse_total [] delimiters pairs = λ e. cc
parse_total (c ∷ config) delimiters pairs =
    parse_from_total (suc (length (c ∷ config))) delimiters pairs (c ∷ config) (omega arith)
