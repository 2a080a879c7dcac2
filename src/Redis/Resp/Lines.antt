-- ===== src/Redis/Resp/Lines.antt =====
-- The lines of a command as the encoder writes them, and what the reader makes of one line.

use cubetran_core.Prelude.{
  All, List, [], ap, append-nil, append_assoc, arith, drop-append, false, get_or, get_or-append,
  length, length-append, list_eq, ltb, nat_eq, option_eq, pair_eq, pos, refl, suc, sym, take-append,
  ℕ, ◌++◌, ◌+◌, ◌-◌, ◌<◌, ◌==◌, ◌∙◌, ◌∷◌, ◌≡◌, ◌≢◌,
}
use cubetran_core.Redis.Decimal.{
  IsDigit, digits-is_utf8, parse_i64-to_string, to_string, to_string-IsDigit, to_string-≢,
}
use cubetran_core.Redis.Encoder.{write_arg, write_args, write_length}
use cubetran_core.Redis.Resp.{
  RedisRespReader, Reply, Value, bytes, decode_on, done, is_crlf, parse_integer, read_bytes,
  read_line, read_typed, read_until, resp_max_size,
}

abbrev pub reader : ℕ → List ℕ → RedisRespReader
reader read input = record { read_len = read; input = input }

-- What write_length appends: the digits and a CRLF.
abbrev pub line_of : ℕ → ℕ → List ℕ
line_of kind n = kind ∷ (to_string n ++ 13 ∷ 10 ∷ [])

abbrev pub image : List ℕ → List ℕ
image arg = line_of 36 (length arg) ++ (arg ++ 13 ∷ 10 ∷ [])

pub write_length_lem :
    (buf : List ℕ) (n : ℕ) → write_length buf n ≡ buf ++ (to_string n ++ 13 ∷ 10 ∷ [])
unfolding write_length
write_length_lem buf n = append_assoc buf (to_string n) _

write_arg_lem : (buf arg : List ℕ) → write_arg buf arg ≡ buf ++ image arg
unfolding write_arg
write_arg_lem buf arg = rw (write_length_lem (buf ++ 36 ∷ []) (length arg)) (simp append_assoc)

unfoldable pub images : List (List ℕ) → List ℕ
images [] = []
images (arg ∷ args) = image arg ++ images args

pub write_args_lem :
    (args : List (List ℕ)) (buf : List ℕ) → write_args buf args ≡ buf ++ images args
unfolding write_args images
write_args_lem [] buf = sym (append-nil buf)
write_args_lem (arg ∷ args) buf =
    write_args_lem args (write_arg buf arg)
    ∙ rw (write_arg_lem buf arg) (append_assoc buf (image arg) (images args))

-- A line of digits is read up to its end.
read_until_digits :
    (s rest : List ℕ)
    → All IsDigit s
    → read_until 10 ((s ++ 13 ∷ 10 ∷ []) ++ rest) ≡ (s ++ 13 ∷ 10 ∷ [], rest)
unfolding read_until
read_until_digits [] rest h = refl
read_until_digits (c ∷ s) rest ((low, high), h) =
    let no_end : (c == 10) ≡ false = ground arith in rw (no_end, read_until_digits s rest h) refl

-- A line whose text ends in a CRLF goes to the match on its first byte.
read_line_text :
    (read : RedisRespReader → Reply Value) (kind : ℕ) (s : List ℕ) (r : RedisRespReader)
    → s ≢ []
    → read_line read (kind ∷ s ++ 13 ∷ 10 ∷ []) r ≡ read_typed read kind s r
unfolding read_line is_crlf
read_line_text read kind [] r h = absurd (h refl)
read_line_text read kind (c ∷ s) r h =
    let n : length (kind ∷ c ∷ s ++ 13 ∷ 10 ∷ []) ≡ length s + 4 =
      omega (arith, length-append s (13 ∷ 10 ∷ [])) in
    let not_one : (length s + 4 == 1) ≡ false = ground arith in
    let not_short : ltb (length s + 4) 3 ≡ false = ground arith in
    let first : length s + 4 - 2 ≡ suc (suc (length s + 0)) = omega arith in
    let second : length s + 4 - 1 ≡ suc (suc (length s + 1)) = omega arith in
    let text : length s + 4 - 3 ≡ suc (length s) = omega arith in
    rw
      (
        n,
        not_one,
        not_short,
        first,
        second,
        text,
        get_or-append s (13 ∷ 10 ∷ []) 0 0,
        get_or-append s (13 ∷ 10 ∷ []) 1 0,
        take-append s (13 ∷ 10 ∷ []),
      )
      refl

pub read_bytes_lem :
    (a rest : List ℕ) (k : ℕ)
    → read_bytes (length a) (reader k (a ++ 13 ∷ 10 ∷ rest))
      ≡ done (bytes a) (reader (k + (length a + 2)) rest)
unfolding read_bytes is_crlf
read_bytes_lem a rest k =
    let enough : ltb (length (a ++ 13 ∷ 10 ∷ rest)) (length a + 2) ≡ false =
      ground (arith, length-append a (13 ∷ 10 ∷ rest)) in
    let first : length a ≡ length a + 0 = omega arith in
    rw
      (
        enough,
        get_or-append a (13 ∷ 10 ∷ rest) 1 0,
        take-append a (13 ∷ 10 ∷ rest),
        drop-append a (13 ∷ 10 ∷ rest) 2,
        ap (λ i. get_or (a ++ 13 ∷ 10 ∷ rest) i 0) first ∙ get_or-append a (13 ∷ 10 ∷ rest) 0 0,
      )
      refl

pub parse_integer_lem :
    (n : ℕ) (r : RedisRespReader)
    → n < resp_max_size
    → parse_integer (to_string n) r ≡ done (pos n) r
unfolding parse_integer
parse_integer_lem n r h =
    rw (digits-is_utf8 (to_string n) (to_string-IsDigit n), parse_i64-to_string n (omega arith))
      refl

read_until_line :
    (kind n : ℕ) (rest : List ℕ)
    → kind ≢ 10
    → read_until 10 (line_of kind n ++ rest) ≡ (line_of kind n, rest)
unfolding read_until
read_until_line kind n rest h =
    let no_end : (kind == 10) ≡ false = ground arith in
    rw (no_end, read_until_digits (to_string n) rest (to_string-IsDigit n)) refl

-- A line of a kind and a length goes to the match on its kind.
pub decode_on_line :
    (fuel kind n k : ℕ) (rest : List ℕ)
    → kind ≢ 10
    → decode_on (suc fuel) (reader k (line_of kind n ++ rest))
      ≡ read_typed (decode_on fuel) kind (to_string n) (reader (k + length (line_of kind n)) rest)
unfolding decode_on
decode_on_line fuel kind n k rest h =
    rw (read_until_line kind n rest h)
      (read_line_text (decode_on fuel) kind (to_string n) _ (to_string-≢ n))
