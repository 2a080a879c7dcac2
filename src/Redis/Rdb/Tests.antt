-- ===== src/Redis/Rdb/Tests.antt =====
-- The theorems on the RDB reader at concrete inputs.
use cubetran_core.Prelude.{
  List, [], arith, codes, dec_lt, err, list_eq, nat_eq, ok, option_eq, pair_eq, pos,
  redis_rdb_error, refl, true, ℕ, ◌++◌, ◌∷◌, ◌≡◌,
}
use cubetran_core.Redis.Rdb.{
  ByteOrder, RdbReader, as_i8, back_reference, big_endian_from, copy_back, copy_literals,
  little_endian, lzf_decompress, lzf_loop, lzf_turn, read_byte, read_bytes, read_encoded_length,
  read_i8, read_length, read_special_string, read_string, ref_of, set_at,
}
use cubetran_core.Redis.Rdb.Lzf.{Lzf, at_end, literals, repeated, short_reference}
use cubetran_core.Redis.Rdb.Length.{after, before, length_bytes, read_length-length_bytes}
use cubetran_core.Redis.Decimal.{below-Acc, decimal, decimal_from, lt_wf, to_string}
use cubetran_core.Redis.Rdb.Decompress.{lzf_decompress_lem}

-- "abc", then six bytes from three bytes back
abbrev packed : List ℕ
packed = 2 ∷ 97 ∷ 98 ∷ 99 ∷ 128 ∷ 2 ∷ []

unpacked : Lzf packed [] (codes "abcabcabc")
unpacked = literals 2 (codes "abc") (128 ∷ 2 ∷ []) [] (codes "abcabcabc") (omega arith) refl (
    short_reference 128 2 [] (codes "abc") (codes "abcabcabc") (omega arith) (omega arith)
      (omega arith) (unfold repeated in at_end (codes "abcabcabc")))

lzf_decompress_lem_example : lzf_decompress packed 9 ≡ ok (codes "abcabcabc")
lzf_decompress_lem_example = lzf_decompress_lem packed (codes "abcabcabc") unpacked

wrong_length : lzf_decompress packed 10 ≡ err redis_rdb_error
unfolding lzf_decompress lzf_loop lzf_turn copy_literals back_reference ref_of copy_back set_at
wrong_length = refl

abbrev order : ByteOrder
order = record {
  signed_le = λ bytes. pos (big_endian_from 0 bytes);
  unsigned_be = big_endian_from 0;
  unsigned_le = little_endian;
  unsigned_be_lem = λ bytes. refl;
  unsigned_le_lem = λ bytes. refl;
}

abbrev fresh : RdbReader
fresh = record { conn = []; position = 3; copy_raw = true; raw_bytes = 7 ∷ [] }

read_length-length_bytes_example :
    read_length order (before (length_bytes 300 ++ codes "rest") fresh)
    ≡ ok (300, after (length_bytes 300) (codes "rest") fresh)
read_length-length_bytes_example =
    read_length-length_bytes order 300 (codes "rest") fresh (omega arith)

-- an 8-bit integer as a string
minus_two :
    read_string order (before (0xc0 ∷ 0xfe ∷ []) fresh)
    ≡ ok (codes "-2", after (0xc0 ∷ 0xfe ∷ []) [] fresh)
unfolding read_string read_special_string read_encoded_length read_i8 read_byte read_bytes as_i8
    to_string decimal decimal_from lt_wf below-Acc dec_lt
minus_two = refl

-- 5, "ab" and -2
abbrev pack : List ℕ
pack = 5 ∷ 1 ∷ 130 ∷ 97 ∷ 98 ∷ 3 ∷ 0xf1 ∷ 0xfe ∷ 0xff ∷ 1 ∷ []
