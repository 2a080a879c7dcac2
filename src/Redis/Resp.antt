-- ===== src/Redis/Resp.antt =====
-- dt-connector/src/extractor/redis: redis_resp_reader.rs and redis_resp_types.rs. The connection is
-- the list of the bytes that are still to come before it ends.
pub mod Lines
pub mod RoundTrip
pub mod Accounting
use mathlib.Core.Bool.{◌||◌, ◌&&◌}
use cubetran_core.Prelude.{
  Bool, List, Option, [], drop, get_or, if◌then◌else◌, leb, length, list_eq, ltb, nat_eq, negsuc,
  none, option_eq, pair_eq, pos, some, suc, take, zero, ℕ, ℤ, ◌&&◌, ◌*◌, ◌+◌, ◌-◌, ◌==◌, ◌∷◌, ◌≟◌,
}
use cubetran_core.Redis.Decimal.{is_utf8, parse_i64, to_string}

mutual
  pub data Value : Type 0 where
    nil okay : Value
    int : ℤ → Value
    status : List ℕ → Value
    bytes : List ℕ → Value
    bulk : Values → Value

  pub data Values : Type 0 where
    none_left : Values
    and_then : Value → Values → Values

-- What the reader fails with: each `bail!`, each `?` on the standard library's errors (the end of
-- the connection in `read_exact` too), and the fuel of the model.
pub data RespError : Type 0 where
  too_short invalid_crlf invalid_utf8 invalid_integer : RespError
  invalid_bulk_length invalid_array_length unexpected_eof : RespError
  server_error : List ℕ → RespError
  invalid_type : ℕ → RespError
  out_of_fuel : RespError

pub record RedisRespReader : Type 0 where
  pub read_len : ℕ
  pub input : List ℕ

pub data Reply {ℓ} (A : Type ℓ) : Type ℓ where
  failed : RespError → Reply A
  done : A → RedisRespReader → Reply A

-- `self.read_len += …` of the bytes that were taken is in the reader that is passed on.
abbrev pub then_reply {ℓ κ} :
    {A : Type ℓ} {B : Type κ} → Reply A → (A → RedisRespReader → Reply B) → Reply B
then_reply (failed e) next = failed e
then_reply (done a r) next = next a r

-- AsyncBufReadExt::read_until: the bytes up to the delimiter, with it, or up to the end
unfoldable pub read_until : ℕ → List ℕ → List ℕ × List ℕ
read_until delimiter [] = ([], [])
read_until delimiter (b ∷ input) =
    let (line, rest) = read_until delimiter input in
    if b == delimiter then (b ∷ [], input) else (b ∷ line, rest)

unfoldable pub is_crlf : ℕ → ℕ → Bool
is_crlf a b = a == 13 && b == 10

-- 512 MB
abbrev pub resp_max_size : ℕ
resp_max_size = 512 * 1024 * 1024

unfoldable pub parse_integer : List ℕ → RedisRespReader → Reply ℤ
parse_integer text r =
    if is_utf8 text
    then elim (parse_i64 text) [ none ↦ failed invalid_integer | some n ↦ done n r ]
    else failed invalid_utf8

-- a status, whatever but "OK" it says
unfoldable pub read_status : List ℕ → RedisRespReader → Reply Value
read_status text r =
    if text ≟ 79 ∷ 75 ∷ []
    then done okay r
    else if is_utf8 text
    then done (status text) r
    else failed invalid_utf8

unfoldable pub read_error : List ℕ → Reply Value
read_error text = failed (if is_utf8 text then server_error text else invalid_utf8)

-- `n` bytes, and the CRLF after them
unfoldable pub read_bytes : ℕ → RedisRespReader → Reply Value
read_bytes n r =
    if ltb (length r.input) (n + 2)
    then failed unexpected_eof
    else if is_crlf (get_or r.input n 0) (get_or r.input (n + 1) 0)
    then done (bytes (take n r.input))
        (record { read_len = r.read_len + (n + 2); input = drop (n + 2) r.input })
    else failed invalid_crlf

unfoldable pub read_bulk : ℤ → RedisRespReader → Reply Value
read_bulk (negsuc zero) r = done nil r
read_bulk (negsuc (suc _)) r = failed invalid_bulk_length
read_bulk (pos n) r = if leb resp_max_size n then failed invalid_bulk_length else read_bytes n r

-- `read` is `decode`, on what the loop over the items has left.
unfoldable pub read_items : (RedisRespReader → Reply Value) → ℕ → RedisRespReader → Reply Values
read_items read zero r = done none_left r
read_items read (suc n) r =
    then_reply (read r) λ v r'. then_reply (read_items read n r') λ vs r''. done (and_then v vs) r''

unfoldable pub read_array : (RedisRespReader → Reply Value) → ℤ → RedisRespReader → Reply Value
read_array read (negsuc zero) r = done nil r
read_array read (negsuc (suc _)) r = failed invalid_array_length
read_array read (pos n) r =
    if leb resp_max_size n
    then failed invalid_array_length
    else then_reply (read_items read n r) λ vs r'. done (bulk vs) r'

abbrev pub found_int : ℤ → RedisRespReader → Reply Value
found_int n r = done (int n) r

-- the match on the first byte of a line, and the text between it and the CRLF
unfoldable pub read_typed :
    (RedisRespReader → Reply Value) → ℕ → List ℕ → RedisRespReader → Reply Value
read_typed read kind text r =
    if kind == 43
    then read_status text r
    else if kind == 45
    then read_error text
    else if kind == 58
    then then_reply (parse_integer text r) found_int
    else if kind == 36
    then then_reply (parse_integer text r) read_bulk
    else if kind == 42
    then then_reply (parse_integer text r) (read_array read)
    else failed (invalid_type kind)

-- a line of `len` bytes, as `read_until` returned it
unfoldable pub read_line : (RedisRespReader → Reply Value) → List ℕ → RedisRespReader → Reply Value
read_line read line r =
    let len = length line in
    if len == 1
    then done nil r
    else if ltb len 3
    then failed too_short
    else if is_crlf (get_or line (len - 2) 0) (get_or line (len - 1) 0)
    then read_typed read (get_or line 0 0) (take (len - 3) (drop 1 line)) r
    else failed invalid_crlf

-- `decode`, with fuel for the arrays inside arrays
unfoldable pub decode_on : ℕ → RedisRespReader → Reply Value
decode_on zero r = failed out_of_fuel
decode_on (suc fuel) r =
    let (line, rest) = read_until 10 r.input in
    read_line (decode_on fuel) line (record { read_len = r.read_len + length line; input = rest })

-- Every call takes a byte at least, or fails.
unfoldable pub decode : RedisRespReader → Reply Value
decode r = decode_on (suc (length r.input)) r

-- ParseFrom: `none` is the `bail!` (or, of a text, that it is not UTF-8).
abbrev pub Nothing : Type 0
Nothing = Unit

unfoldable pub parse_unit : Value → Option Nothing
parse_unit okay = some tt
parse_unit _ = none

unfoldable pub parse_int : Value → Option ℤ
parse_int (int n) = some n
parse_int _ = none

unfoldable pub parse_bytes : Value → Option (List ℕ)
parse_bytes (bytes data_of) = some data_of
parse_bytes _ = none

abbrev show_int : ℤ → List ℕ
show_int (pos n) = to_string n
show_int (negsuc n) = 45 ∷ to_string (suc n)

unfoldable pub parse_string : Value → Option (List ℕ)
parse_string okay = some (79 ∷ 107 ∷ [])
parse_string nil = some []
parse_string (int n) = some (show_int n)
parse_string (status s) = some s
parse_string (bytes data_of) = if is_utf8 data_of then some data_of else none
parse_string (bulk _) = none

module _ {ℓ} {A : Type ℓ} where
  unfoldable pub parse_each : (Value → Option A) → Values → Option (List A)
  parse_each parse none_left = some []
  parse_each parse (and_then v vs) = elim (parse v) [
    | none ↦ none
    | some a ↦ elim (parse_each parse vs) [ none ↦ none | some rest ↦ some (a ∷ rest) ]
  ]

  unfoldable pub parse_vec : (Value → Option A) → Value → Option (List A)
  unfolding parse_each
  parse_vec parse (bulk vs) = parse_each parse vs
  parse_vec parse _ = none
