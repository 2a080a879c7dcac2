-- ===== src/Redis/Rdb.antt =====
-- dt-connector/src/extractor/redis/rdb/reader: rdb_reader.rs, byte.rs, int.rs, length.rs, string.rs.
-- The connection is the list of the bytes that are still to come. Masks and shifts of a byte are
-- written as quotients and remainders.

pub mod Lzf
pub mod Decompress
pub mod Length
pub mod ListPack
mod Tests
use cubetran_core.Prelude.{
  Bool, List, Result, [], drop, err, false, get_elem?, if◌then◌else◌, io_error, length, list_eq,
  ltb, nat_eq, negsuc, ok, option_eq, pair_eq, panic, pos, redis_rdb_error, replicate, suc, take,
  true, unexpected, unwrap, zero, ℕ, ℤ, ◌%◌, ◌*◌, ◌++◌, ◌+◌, ◌-◌, ◌/◌, ◌==◌, ◌>>=◌, ◌>>◌, ◌∷◌, ◌≡◌,
}
use cubetran_core.Redis.Decimal.{to_string}

pub record RdbReader : Type 0 where
  pub conn : List ℕ
  pub position : ℕ
  pub copy_raw : Bool
  pub raw_bytes : List ℕ

-- the bytes that were kept, and the reader without them
unfoldable pub drain_raw_bytes : RdbReader → List ℕ × RdbReader
drain_raw_bytes r = (r.raw_bytes, record r { raw_bytes = [] })

unfoldable pub read_bytes : ℕ → RdbReader → Result (List ℕ × RdbReader)
read_bytes n r =
    if ltb (length r.conn) n
    then err io_error
    else ok (
      take n r.conn,
      record r {
        conn = drop n r.conn;
        position = r.position + n;
        raw_bytes = if r.copy_raw then r.raw_bytes ++ take n r.conn else r.raw_bytes;
      },
    )

abbrev first_of : List ℕ → Result ℕ
first_of [] = err panic
first_of (b ∷ bytes) = ok b

abbrev unwrapped {ℓ} : {A : Type ℓ} → Result A → Result A
unwrapped (err e) = err panic
unwrapped (ok a) = ok a

-- `read_bytes(1).unwrap()`
unfoldable pub read_byte : RdbReader → Result (ℕ × RdbReader)
read_byte r = do (buf, r') ← unwrapped (read_bytes 1 r); b ← first_of buf; ok (b, r')

-- the number that the bytes are, the highest first, and the lowest first
unfoldable pub big_endian_from : ℕ → List ℕ → ℕ
big_endian_from n [] = n
big_endian_from n (b ∷ bytes) = big_endian_from (n * 256 + b) bytes

unfoldable pub little_endian : List ℕ → ℕ
little_endian [] = 0
little_endian (b ∷ bytes) = b + 256 * little_endian bytes

-- a byte in two's complement: `as i8`
unfoldable pub as_i8 : ℕ → ℤ
as_i8 b = if ltb b 128 then pos b else negsuc (255 - b)

-- What the code uses of the byteorder package: `signed_le` for LittleEndian::read_i16 and read_i32,
-- `unsigned_be` for BigEndian::read_u32 and read_u64, `unsigned_le` for LittleEndian::read_u16 to
-- read_u64. It relies on the order of the bytes.
pub record ByteOrder : Type 0 where
  pub signed_le : List ℕ → ℤ
  pub unsigned_be : List ℕ → ℕ
  pub unsigned_le : List ℕ → ℕ
  pub unsigned_be_lem : (bytes : List ℕ) → unsigned_be bytes ≡ big_endian_from 0 bytes
  pub unsigned_le_lem : (bytes : List ℕ) → unsigned_le bytes ≡ little_endian bytes

unfoldable pub read_be : ByteOrder → ℕ → RdbReader → Result (ℕ × RdbReader)
read_be order n r = do (buf, r') ← read_bytes n r; ok (order.unsigned_be buf, r')

unfoldable pub read_signed_le : ByteOrder → ℕ → RdbReader → Result (ℤ × RdbReader)
read_signed_le order n r = do (buf, r') ← read_bytes n r; ok (order.signed_le buf, r')

unfoldable pub read_i8 : RdbReader → Result (ℤ × RdbReader)
read_i8 r = do (b, r') ← read_byte r; ok (as_i8 b, r')

-- a length, and whether it is a special one
unfoldable pub read_encoded_length : ByteOrder → RdbReader → Result ((ℕ × Bool) × RdbReader)
read_encoded_length order r = do
  (first_byte, r1) ← read_byte r
  let kind = first_byte / 64
  let low = first_byte % 64
  if kind == 0
      then ok ((low, false), r1)
      else if kind == 1
      then (do (next_byte, r2) ← read_byte r1; ok ((low * 256 + next_byte, false), r2))
      else if kind == 2
      then (if first_byte == 0x80
          then (do (len, r2) ← read_be order 4 r1; ok ((len, false), r2))
          else if first_byte == 0x81
          then (do (len, r2) ← read_be order 8 r1; ok ((len, false), r2))
          else err redis_rdb_error)
      else ok ((low, true), r1)

unfoldable pub read_length : ByteOrder → RdbReader → Result (ℕ × RdbReader)
read_length order r = do
  ((len, special), r') ← read_encoded_length order r
  if special then err redis_rdb_error else ok (len, r')

-- `out[o] = b`
unfoldable pub set_at : ℕ → ℕ → List ℕ → Result (List ℕ)
set_at o b [] = err panic
set_at zero b (x ∷ out) = ok (b ∷ out)
set_at (suc o) b (x ∷ out) = do out' ← set_at o b out; ok (x ∷ out')

-- `n` bytes of the input as they are; the input that is left, and the buffer
unfoldable pub copy_literals : ℕ → List ℕ → List ℕ → ℕ → Result (List ℕ × List ℕ)
copy_literals zero input out o = ok (input, out)
copy_literals (suc n) [] out o = err panic
copy_literals (suc n) (b ∷ input) out o = do
  out' ← set_at o b out
  copy_literals n input out' (o + 1)

-- `n` bytes of the buffer, from `ref` on
unfoldable pub copy_back : ℕ → ℕ → List ℕ → ℕ → Result (List ℕ)
copy_back zero ref out o = ok out
copy_back (suc n) ref out o = do
  b ← unwrap (get_elem? out ref)
  out' ← set_at o b out
  copy_back n (ref + 1) out' (o + 1)

-- `o - … - 1` on usize; where it wraps, the index is out of range
unfoldable pub ref_of : ℕ → ℕ → Result ℕ
ref_of o distance = if ltb o distance then err panic else ok (o - distance)

-- a back reference of `length + 2` bytes; `i` is at the low byte of the distance
unfoldable pub back_reference : ℕ → ℕ → List ℕ → List ℕ → ℕ → Result (List ℕ × (List ℕ × ℕ))
back_reference ctrl len [] out o = err panic
back_reference ctrl len (low ∷ input) out o = do
  ref ← ref_of o (ctrl % 32 * 256 + low + 1)
  out' ← copy_back (len + 2) ref out o
  ok (input, (out', o + (len + 2)))

abbrev long_reference : ℕ → List ℕ → List ℕ → ℕ → Result (List ℕ × (List ℕ × ℕ))
long_reference ctrl [] out o = err panic
long_reference ctrl (more ∷ input) out o = back_reference ctrl (7 + more) input out o

-- one turn: the input that is left, the buffer and the index into it
unfoldable pub lzf_turn : ℕ → List ℕ → List ℕ → ℕ → Result (List ℕ × (List ℕ × ℕ))
lzf_turn ctrl input out o =
    if ltb ctrl 32
    then (do
      (input', out') ← copy_literals (ctrl + 1) input out o
      ok (input', (out', o + (ctrl + 1))))
    else if ctrl / 32 == 7
    then long_reference ctrl input out o
    else back_reference ctrl (ctrl / 32) input out o

-- Each turn takes a byte at least; `unexpected` is no error of the code: the fuel has run out.
unfoldable pub lzf_loop : ℕ → List ℕ → List ℕ → ℕ → Result (List ℕ × ℕ)
lzf_loop fuel [] out o = ok (out, o)
lzf_loop zero (ctrl ∷ input) out o = err unexpected
lzf_loop (suc fuel) (ctrl ∷ input) out o = do
  (input', (out', o')) ← lzf_turn ctrl input out o
  lzf_loop fuel input' out' o'

unfoldable pub lzf_decompress : List ℕ → ℕ → Result (List ℕ)
lzf_decompress in_buf out_len = do
  (out, o) ← lzf_loop (length in_buf) in_buf (replicate out_len 0) 0
  if o == out_len then ok out else err redis_rdb_error

abbrev int_text : ℤ → List ℕ
int_text (pos n) = to_string n
int_text (negsuc n) = 45 ∷ to_string (suc n)

unfoldable pub read_special_string : ByteOrder → ℕ → RdbReader → Result (List ℕ × RdbReader)
read_special_string order kind r =
    if kind == 0
    then (do (v, r') ← read_i8 r; ok (int_text v, r'))
    else if kind == 1
    then (do (v, r') ← read_signed_le order 2 r; ok (int_text v, r'))
    else if kind == 2
    then (do (v, r') ← read_signed_le order 4 r; ok (int_text v, r'))
    else if kind == 3
    then (do
      (in_len, r1) ← read_length order r
      (out_len, r2) ← read_length order r1
      (in_buf, r3) ← read_bytes in_len r2
      bytes ← lzf_decompress in_buf out_len
      ok (bytes, r3))
    else err redis_rdb_error

unfoldable pub read_string : ByteOrder → RdbReader → Result (List ℕ × RdbReader)
read_string order r = do
  ((len, special), r') ← read_encoded_length order r
  if special then read_special_string order len r' else read_bytes len r'
