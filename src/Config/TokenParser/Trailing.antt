-- ===== src/Config/TokenParser/Trailing.antt =====
-- A text that ends with a delimiter.
use cubetran_core.Prelude.{
  All, List, Text, [], append_assoc, arith, contains, err, length, length-append, list_eq, nat_eq,
  option_eq, pair_eq, panic, refl, suc, true, zero, ℕ, ◌++◌, ◌+◌, ◌<◌, ◌∙◌, ◌∷◌, ◌≡◌, ◌≢◌,
}
use cubetran_core.Config.TokenParser.{parse, parse_from, read_token}
use cubetran_core.Config.TokenParser.RoundTrip.{
  AtEnd, Token, joined, length-joined, parse_start, read_token_lem,
}

read_at_end :
    (fuel : ℕ) (delimiters : Text) (left right : ℕ)
    → 0 < fuel
    → parse_from fuel delimiters ((left, right) ∷ []) [] ≡ err panic
unfolding parse_from read_token
read_at_end zero delimiters left right h = absurd (omega arith)
read_at_end (suc fuel) delimiters left right h = refl

parse_from_trailing :
    (fuel : ℕ) (delimiters : Text) (left right d : ℕ) (token : Text) (tokens : List Text)
    → contains delimiters d ≡ true
    → Token delimiters left right token
    → All (Token delimiters left right) tokens
    → length tokens + 1 < fuel
    → parse_from fuel delimiters ((left, right) ∷ []) (joined d token tokens ++ d ∷ []) ≡ err panic
unfolding parse_from joined AtEnd
parse_from_trailing zero delimiters left right d token tokens hd ht hts lt = absurd (omega arith)
parse_from_trailing (suc fuel) delimiters left right d token [] hd ht hts lt =
    rw
      (
        read_token_lem delimiters left right token (d ∷ []) ht hd,
        read_at_end fuel delimiters left right (omega arith),
      )
      refl
parse_from_trailing (suc fuel) delimiters left right d token (next ∷ tokens) hd ht (hn, hts) lt =
    rw
      (
        append_assoc token (d ∷ joined d next tokens) (d ∷ []),
        read_token_lem delimiters left right token (d ∷ joined d next tokens ++ d ∷ []) ht hd,
        parse_from_trailing fuel delimiters left right d next tokens hd hn hts (omega arith),
      )
      refl

-- Where the database has escapes, tokens that are followed by one more delimiter are not read: the
-- parser panics on an index out of range.
pub parse_trailing :
    (delimiters : Text) (left right d : ℕ) (token : Text) (tokens : List Text)
    → contains delimiters d ≡ true
    → Token delimiters left right token
    → All (Token delimiters left right) tokens
    → parse (joined d token tokens ++ d ∷ []) delimiters ((left, right) ∷ []) ≡ err panic
parse_trailing delimiters left right d token tokens hd ht hts =
    parse_start delimiters (joined d token tokens ++ d ∷ []) ((left, right) ∷ [])
      (some_char (joined d token tokens))
    ∙ parse_from_trailing _ delimiters left right d token tokens hd ht hts (
        omega (arith, length-joined d token tokens, length-append (joined d token tokens) (d ∷ [])))
  where
    some_char : (s : Text) → s ++ d ∷ [] ≢ []
    some_char [] = λ e. cc
    some_char (c ∷ s) = λ e. cc
