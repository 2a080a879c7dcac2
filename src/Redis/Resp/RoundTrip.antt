-- ===== src/Redis/Resp/RoundTrip.antt =====
-- What the reader makes of a command that the encoder wrote.

use cubetran_core.Prelude.{
  All, List, Option, [], ap, append_assoc, arith, false, leb, length, length-append, list_eq,
  nat_eq, none, option_eq, pair_eq, refl, some, suc, ℕ, ◌++◌, ◌+◌, ◌-◌, ◌<◌, ◌∙◌, ◌∷◌, ◌≡◌,
}
use cubetran_core.Redis.Decimal.{to_string}
use cubetran_core.Redis.Encoder.{RedisCmd, encode}
use cubetran_core.Redis.Resp.{
  RedisRespReader, Reply, Value, Values, and_then, bulk, bytes, decode, decode_on, done, failed,
  none_left, parse_bytes, parse_each, parse_vec, read_array, read_bulk, read_bytes, read_items,
  read_typed, resp_max_size, then_reply,
}
use cubetran_core.Redis.Resp.Lines.{
  decode_on_line, image, images, line_of, parse_integer_lem, read_bytes_lem, reader, write_args_lem,
  write_length_lem,
}

datas : List (List ℕ) → Values
datas [] = none_left
datas (a ∷ args) = and_then (bytes a) (datas args)

abbrev pub Fits : List ℕ → Type 0
Fits a = length a < resp_max_size

image-append : (a rest : List ℕ) → image a ++ rest ≡ line_of 36 (length a) ++ (a ++ 13 ∷ 10 ∷ rest)
image-append a rest =
    append_assoc (line_of 36 (length a)) (a ++ 13 ∷ 10 ∷ []) rest
    ∙ ap (λ t. line_of 36 (length a) ++ t) (append_assoc a (13 ∷ 10 ∷ []) rest)

length-image : (a : List ℕ) → length (image a) ≡ length (line_of 36 (length a)) + (length a + 2)
length-image a =
    length-append (line_of 36 (length a)) (a ++ 13 ∷ 10 ∷ [])
    ∙ ap (λ n. length (line_of 36 (length a)) + n) (length-append a (13 ∷ 10 ∷ []))

-- A line that announces `n` bytes goes to them.
read_bulk_line :
    (read : RedisRespReader → Reply Value) (n : ℕ) (r : RedisRespReader)
    → n < resp_max_size
    → read_typed read 36 (to_string n) r ≡ read_bytes n r
unfolding read_typed read_bulk
read_bulk_line read n r h =
    let small : leb resp_max_size n ≡ false = ground arith in
    rw (parse_integer_lem n r h, small) refl

-- An argument is read back, and its bytes are counted.
decode_on-image :
    (fuel k : ℕ) (a rest : List ℕ)
    → Fits a
    → decode_on (suc fuel) (reader k (image a ++ rest))
      ≡ done (bytes a) (reader (k + length (image a)) rest)
decode_on-image fuel k a rest h =
    let count : k + length (line_of 36 (length a)) + (length a + 2) ≡ k + length (image a) =
      omega (arith, length-image a) in
    ap (λ t. decode_on (suc fuel) (reader k t)) (image-append a rest)
    ∙ decode_on_line fuel 36 (length a) k (a ++ 13 ∷ 10 ∷ rest) (λ e. omega arith)
    ∙ read_bulk_line (decode_on fuel) (length a) _ h
    ∙ read_bytes_lem a rest (k + length (line_of 36 (length a)))
    ∙ ap (λ m. done (bytes a) (reader m rest)) count

read_items-images :
    (fuel k : ℕ) (args : List (List ℕ)) (rest : List ℕ)
    → All Fits args
    → read_items (decode_on (suc fuel)) (length args) (reader k (images args ++ rest))
      ≡ done (datas args) (reader (k + length (images args)) rest)
unfolding read_items images datas
read_items-images fuel k [] rest h =
    let e : k ≡ k + 0 = omega arith in ap (λ m. done none_left (reader m rest)) e
read_items-images fuel k (a ∷ args) rest (fits, h) =
    let e : k + length (image a) + length (images args) ≡ k + length (image a ++ images args) =
      omega (arith, length-append (image a) (images args)) in
    rw
      (
        append_assoc (image a) (images args) rest,
        decode_on-image fuel k a (images args ++ rest) fits,
        read_items-images fuel (k + length (image a)) args rest h,
      )
      (ap (λ m. done (and_then (bytes a) (datas args)) (reader m rest)) e)

read_array_line :
    (read : RedisRespReader → Reply Value) (n : ℕ) (r : RedisRespReader)
    → n < resp_max_size
    → read_typed read 42 (to_string n) r
      ≡ then_reply (read_items read n r) (λ vs r'. done (bulk vs) r')
unfolding read_typed read_array
read_array_line read n r h =
    let small : leb resp_max_size n ≡ false = ground arith in
    rw (parse_integer_lem n r h, small) refl

encode_lem : (cmd : RedisCmd) → encode cmd ≡ line_of 42 (length cmd.args) ++ images cmd.args
unfolding encode
encode_lem cmd =
    write_args_lem cmd.args _
    ∙ ap (λ t. t ++ images cmd.args) (write_length_lem (42 ∷ []) (length cmd.args))

decode_on-encode :
    (fuel k : ℕ) (cmd : RedisCmd) (rest : List ℕ)
    → length cmd.args < resp_max_size
    → All Fits cmd.args
    → decode_on (suc (suc fuel)) (reader k (encode cmd ++ rest))
      ≡ done (bulk (datas cmd.args)) (reader (k + length (encode cmd)) rest)
decode_on-encode fuel k cmd rest few fits =
    let line = line_of 42 (length cmd.args) in
    let count : k + length line + length (images cmd.args) ≡ k + length (encode cmd) =
      omega (arith, ap length (encode_lem cmd), length-append line (images cmd.args)) in
    ap (λ t. decode_on (suc (suc fuel)) (reader k (t ++ rest))) (encode_lem cmd)
    ∙ ap (λ t. decode_on (suc (suc fuel)) (reader k t)) (append_assoc line (images cmd.args) rest)
    ∙ decode_on_line (suc fuel) 42 (length cmd.args) k (images cmd.args ++ rest) (λ e. omega arith)
    ∙ read_array_line (decode_on (suc fuel)) (length cmd.args) _ few
    ∙ ap (λ reply. then_reply reply λ vs r'. done (bulk vs) r')
        (read_items-images fuel (k + length line) cmd.args rest fits)
    ∙ ap (λ m. done (bulk (datas cmd.args)) (reader m rest)) count

parse_each-datas : (args : List (List ℕ)) → parse_each parse_bytes (datas args) ≡ some args
unfolding parse_each parse_bytes datas
parse_each-datas [] = refl
parse_each-datas (a ∷ args) = rw (parse_each-datas args) refl

-- what a reply of byte strings holds, and the reader after it
unfoldable pub args_of : Reply Value → Option (List (List ℕ) × RedisRespReader)
args_of (failed e) = none
args_of (done v r) = elim (parse_vec parse_bytes v) [ none ↦ none | some args ↦ some (args, r) ]

args_of-datas :
    (args : List (List ℕ)) (r : RedisRespReader)
    → args_of (done (bulk (datas args)) r) ≡ some (args, r)
unfolding args_of parse_vec
args_of-datas args r = rw (parse_each-datas args, args_of) refl

-- If a command has fewer than 2^29 arguments, of less than 512 MB each, then the reader takes what
-- the encoder wrote for it off the connection, whatever follows: the value is the command's
-- arguments, the bytes that follow are left, and read_len has grown by the bytes of the command.
pub decode-encode :
    (k : ℕ) (cmd : RedisCmd) (rest : List ℕ)
    → length cmd.args < resp_max_size
    → All Fits cmd.args
    → args_of (decode (reader k (encode cmd ++ rest)))
      ≡ some (cmd.args, reader (k + length (encode cmd)) rest)
unfolding decode
decode-encode k cmd rest few fits =
    let (n, size) = length_suc cmd rest in
    rw (size, decode_on-encode n k cmd rest few fits)
      (args_of-datas cmd.args (reader (k + length (encode cmd)) rest))
  where
    length_suc : (cmd : RedisCmd) (rest : List ℕ) → (n : ℕ) × (length (encode cmd ++ rest) ≡ suc n)
    length_suc cmd rest = (length (encode cmd ++ rest) - 1, positive)
      where
        positive : length (encode cmd ++ rest) ≡ suc (length (encode cmd ++ rest) - 1)
        positive = rw (encode_lem cmd) (omega arith)
