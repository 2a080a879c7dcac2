-- ===== src/Config/TokenParser/RoundTrip.antt =====
-- The tokens that a text of tokens between delimiters is read as, and the end of the loop.

use cubetran_core.Prelude.{
  ==_iff, All, List, Text, [], ap, append-nil, append_assoc, arith, contains, false, length,
  length-append, list_eq, nat_eq, ok, option_eq, pair_eq, refl, suc, sym, true, zero, ℕ, ◌++◌, ◌<◌,
  ◌==◌, ◌∙◌, ◌∷◌, ◌≡◌, ◌≢◌, ◌≤◌,
}
use cubetran_core.Config.TokenParser.{
  parse, parse_from, read_to_escape, read_token, read_token_to_delimiter, read_token_with_escape,
  trim,
}

Misses : Text → Text → Type 0
Misses delimiters token = All (λ c. contains delimiters c ≡ false) token

-- A token with neither delimiters nor blanks around it, that does not start with the left escape; or
-- anything without the right escape between the escapes, whatever delimiters it has.
pub data Token (delimiters : Text) (left right : ℕ) : Text → Type 0 where
  plain :
      (c : ℕ) (s : Text)
      → All (λ d. contains delimiters d ≡ false) (c ∷ s)
      → c ≢ left
      → trim (c ∷ s) ≡ c ∷ s
      → Token delimiters left right (c ∷ s)
  escaped :
      (s : Text)
      → All (λ d. d ≢ right) s
      → trim (left ∷ s ++ right ∷ []) ≡ left ∷ s ++ right ∷ []
      → Token delimiters left right (left ∷ s ++ right ∷ [])

-- the tokens in a row, with the delimiter `d` between them
unfoldable pub joined : ℕ → Text → List Text → Text
joined d token [] = token
joined d token (next ∷ tokens) = token ++ d ∷ joined d next tokens

-- nothing, or a delimiter
unfoldable pub AtEnd : Text → Text → Type 0
AtEnd delimiters [] = Unit
AtEnd delimiters (c ∷ rest) = contains delimiters c ≡ true

read_plain :
    (delimiters s rest : Text)
    → All (λ d. contains delimiters d ≡ false) s
    → AtEnd delimiters rest
    → read_token_to_delimiter delimiters (s ++ rest) ≡ (s, rest)
unfolding read_token_to_delimiter AtEnd
read_plain delimiters [] [] h end = refl
read_plain delimiters [] (c ∷ rest) h end = rw end refl
read_plain delimiters (c ∷ s) rest (hc, h) end = rw (hc, read_plain delimiters s rest h end) refl

read_escaped :
    (right : ℕ) (s rest : Text)
    → All (λ d. d ≢ right) s
    → read_to_escape right (s ++ right ∷ rest) ≡ (s ++ right ∷ [], rest)
unfolding read_to_escape
read_escaped right [] rest h =
    let same : (right == right) ≡ true = (==_iff right right).1 refl in rw same refl
read_escaped right (c ∷ s) rest (hc, h) =
    let other : (c == right) ≡ false = ground arith in rw (other, read_escaped right s rest h) refl

pub read_token_lem :
    (delimiters : Text) (left right : ℕ) (token rest : Text)
    → Token delimiters left right token
    → AtEnd delimiters rest
    → read_token delimiters ((left, right) ∷ []) (token ++ rest) ≡ ok (token, rest)
unfolding read_token read_token_with_escape
read_token_lem delimiters left right _ rest (plain c s h other trimmed) end =
    let not_left : (c == left) ≡ false = ground arith in
    rw not_left (ap ok (read_plain delimiters (c ∷ s) rest h end))
read_token_lem delimiters left right _ rest (escaped s h trimmed) end =
    let same : (left == left) ≡ true = (==_iff left left).1 refl in
    rw (same, append_assoc s (right ∷ []) rest, read_escaped right s rest h) refl

read_last :
    (delimiters : Text) (left right : ℕ) (token : Text)
    → Token delimiters left right token
    → read_token delimiters ((left, right) ∷ []) token ≡ ok (token, [])
read_last delimiters left right token h =
    ap (read_token delimiters ((left, right) ∷ [])) (sym (append-nil token))
    ∙ read_token_lem delimiters left right token [] h (unfold AtEnd in tt)

trimmed :
    (delimiters : Text) (left right : ℕ) (token : Text)
    → Token delimiters left right token
    → trim token ≡ token
trimmed delimiters left right _ (plain c s h other e) = e
trimmed delimiters left right _ (escaped s h e) = e

parse_from-joined :
    (fuel : ℕ) (delimiters : Text) (left right d : ℕ) (token : Text) (tokens : List Text)
    → contains delimiters d ≡ true
    → Token delimiters left right token
    → All (Token delimiters left right) tokens
    → length tokens < fuel
    → parse_from fuel delimiters ((left, right) ∷ []) (joined d token tokens) ≡ ok (token ∷ tokens)
unfolding parse_from joined AtEnd
parse_from-joined zero delimiters left right d token tokens hd ht hts lt = absurd (omega arith)
parse_from-joined (suc fuel) delimiters left right d token [] hd ht hts lt =
    rw (read_last delimiters left right token ht, trimmed delimiters left right token ht) refl
parse_from-joined (suc fuel) delimiters left right d token (next ∷ tokens) hd ht (hn, hts) lt =
    rw
      (
        read_token_lem delimiters left right token (d ∷ joined d next tokens) ht hd,
        parse_from-joined fuel delimiters left right d next tokens hd hn hts (omega arith),
        trimmed delimiters left right token ht,
      )
      refl

pub length-joined :
    (d : ℕ) (token : Text) (tokens : List Text) → length tokens ≤ length (joined d token tokens)
unfolding joined
length-joined d token [] = omega arith
length-joined d token (next ∷ tokens) =
    omega (arith, length-joined d next tokens, length-append token (d ∷ joined d next tokens))

Token-≢ :
    (delimiters : Text) (left right : ℕ) (token : Text)
    → Token delimiters left right token
    → token ≢ []
Token-≢ delimiters left right _ (plain c s h other e) = λ e. cc
Token-≢ delimiters left right _ (escaped s h e) = λ e. cc

pub parse_start :
    (delimiters config : Text) (pairs : List (ℕ × ℕ))
    → config ≢ []
    → parse config delimiters pairs ≡ parse_from (suc (length config)) delimiters pairs config
unfolding parse
parse_start delimiters [] pairs h = absurd (h refl)
parse_start delimiters (c ∷ config) pairs h = refl

-- Tokens written one after the other, with a delimiter between two of them, are read back as these
-- tokens in this order: plain tokens that have no delimiter, no blanks around them and do not start
-- with the left escape, and tokens between escapes, which may have delimiters.
pub parse-joined :
    (delimiters : Text) (left right d : ℕ) (token : Text) (tokens : List Text)
    → contains delimiters d ≡ true
    → Token delimiters left right token
    → All (Token delimiters left right) tokens
    → parse (joined d token tokens) delimiters ((left, right) ∷ []) ≡ ok (token ∷ tokens)
parse-joined delimiters left right d token tokens hd ht hts =
    parse_start delimiters (joined d token tokens) ((left, right) ∷ []) (full tokens)
    ∙ parse_from-joined (suc (length (joined d token tokens))) delimiters left right d token tokens
        hd ht hts (omega (arith, length-joined d token tokens))
  where
    full : (tokens : List Text) → joined d token tokens ≢ []
    full [] = unfold joined in Token-≢ delimiters left right token ht
    full (next ∷ tokens) =
        unfold joined in λ e. Token-≢ delimiters left right token ht (front token e)
      where
        front : (t : Text) → t ++ d ∷ joined d next tokens ≡ [] → t ≡ []
        front [] e = refl
        front (c ∷ t) e = cc
