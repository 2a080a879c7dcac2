-- ===== src/Redis/Rdb/ListPack.antt =====
-- dt-connector/src/extractor/redis/rdb/reader/list_pack.rs. The cursor over the string is the bytes that
-- are left of it.
pub mod RoundTrip
pub mod Whole
use mathlib.Core.Bool.{◌||◌, ◌&&◌}
use cubetran_core.Prelude.{
  List, Result, [], drop, err, if◌then◌else◌, io_error, leb, length, list_eq, ltb, nat_eq, negsuc,
  ok, option_eq, pair_eq, pos, redis_rdb_error, suc, take, zero, ℕ, ℤ, ◌%◌, ◌*◌, ◌+◌, ◌-◌, ◌/◌,
  ◌==◌, ◌>>=◌, ◌>>◌, ◌^◌, ◌∷◌,
}
use cubetran_core.Redis.Decimal.{to_string}
use cubetran_core.Redis.Rdb.{ByteOrder, RdbReader, int_text, read_string}

-- Cursor::read_exact of `n` bytes, and what is left
unfoldable pub cursor_bytes : ℕ → List ℕ → Result (List ℕ × List ℕ)
cursor_bytes n cursor =
    if ltb (length cursor) n then err io_error else ok (take n cursor, drop n cursor)

unfoldable pub cursor_u8 : List ℕ → Result (ℕ × List ℕ)
cursor_u8 [] = err io_error
cursor_u8 (b ∷ cursor) = ok (b, cursor)

-- an unsigned number of `n` bytes, the lowest first
unfoldable pub cursor_le : ByteOrder → ℕ → List ℕ → Result (ℕ × List ℕ)
cursor_le order n cursor = do (buf, rest) ← cursor_bytes n cursor; ok (order.unsigned_le buf, rest)

-- the bytes that the length of an entry takes at its end
unfoldable pub lp_encode_backlen : ℕ → ℕ
lp_encode_backlen len =
    if leb len 127
    then 1
    else if ltb len 16383
    then 2
    else if ltb len 2097151
    then 3
    else if ltb len 268435455
    then 4
    else 5

-- two's complement: from `negstart` on, the number is negative
unfoldable pub to_signed : ℕ → ℕ → ℕ → ℤ
to_signed uval negstart negmax = if leb negstart uval then negsuc (negmax - uval) else pos uval

-- The length at the end of an entry is passed over; that it is there is not checked.
unfoldable pub int_entry : ℕ → ℕ → ℕ → ℕ → List ℕ → Result (List ℕ × List ℕ)
int_entry uval negstart negmax len cursor =
    ok (int_text (to_signed uval negstart negmax), drop (lp_encode_backlen len) cursor)

-- an entry of `length` bytes, after `header` bytes
unfoldable pub str_entry : ℕ → ℕ → List ℕ → Result (List ℕ × List ℕ)
str_entry header len cursor = do
  (ele, rest) ← cursor_bytes len cursor
  ok (ele, drop (lp_encode_backlen (header + len)) rest)

-- an integer of `n` bytes, with the length that the source takes for it
unfoldable pub wide_entry : ByteOrder → ℕ → ℕ → List ℕ → Result (List ℕ × List ℕ)
wide_entry order n len cursor = do
  (uval, rest) ← cursor_le order n cursor
  int_entry uval (2 ^ (8 * n - 1)) (2 ^ (8 * n) - 1) len rest

abbrev small_entry : ℕ → List ℕ → Result (List ℕ × List ℕ)
small_entry uval cursor = do
  (back, rest) ← cursor_bytes (lp_encode_backlen 1) cursor
  ok (int_text (to_signed uval (2 ^ 64 - 1) 0), rest)

abbrev int13_entry : ℕ → List ℕ → Result (List ℕ × List ℕ)
int13_entry first_byte cursor = do
  (second_byte, rest) ← cursor_u8 cursor
  int_entry (first_byte % 32 * 256 + second_byte) (2 ^ 12) 8191 2 rest

abbrev str12_entry : ℕ → List ℕ → Result (List ℕ × List ℕ)
str12_entry first_byte cursor = do
  (second_byte, rest) ← cursor_u8 cursor
  str_entry 2 (first_byte % 16 * 256 + second_byte) rest

abbrev str32_entry : ByteOrder → List ℕ → Result (List ℕ × List ℕ)
str32_entry order cursor = do (len, rest) ← cursor_le order 4 cursor; str_entry 5 len rest

-- The tests of the first byte, masks and all, as quotients.
unfoldable pub entry_of : ByteOrder → ℕ → List ℕ → Result (List ℕ × List ℕ)
entry_of order first_byte cursor =
    if first_byte / 128 == 0
    then small_entry (first_byte % 128) cursor
    else if first_byte / 64 == 2
    then str_entry 1 (first_byte % 64) cursor
    else if first_byte / 32 == 6
    then int13_entry first_byte cursor
    else if first_byte == 0xf1
    then wide_entry order 2 2 cursor
    else if first_byte == 0xf2
    then wide_entry order 3 4 cursor
    else if first_byte == 0xf3
    then wide_entry order 4 5 cursor
    else if first_byte == 0xf4
    then wide_entry order 8 9 cursor
    else if first_byte / 16 == 14
    then str12_entry first_byte cursor
    else if first_byte == 0xf0
    then str32_entry order cursor
    else err redis_rdb_error

unfoldable pub read_listpack_entry : ByteOrder → List ℕ → Result (List ℕ × List ℕ)
read_listpack_entry order cursor = do
  (first_byte, rest) ← cursor_u8 cursor
  entry_of order first_byte rest

unfoldable pub read_entries : ByteOrder → ℕ → List ℕ → Result (List (List ℕ) × List ℕ)
read_entries order zero cursor = ok ([], cursor)
read_entries order (suc n) cursor = do
  (ele, rest) ← read_listpack_entry order cursor
  (elements, rest') ← read_entries order n rest
  ok (ele ∷ elements, rest')

-- the elements of a string that holds a list pack
unfoldable pub list_pack_of : ByteOrder → List ℕ → Result (List (List ℕ))
list_pack_of order buf = do
  (all_bytes, rest) ← cursor_le order 4 buf
  (size, rest') ← cursor_le order 2 rest
  (elements, rest'') ← read_entries order size rest'
  (last_byte, rest''') ← cursor_u8 rest''
  if last_byte == 0xff then ok elements else err redis_rdb_error

unfoldable pub read_list_pack : ByteOrder → RdbReader → Result (List (List ℕ) × RdbReader)
read_list_pack order rdb = do
  (buf, rdb') ← read_string order rdb
  elements ← list_pack_of order buf
  ok (elements, rdb')
