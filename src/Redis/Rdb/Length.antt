-- ===== src/Redis/Rdb/Length.antt =====
-- The lengths of the RDB format, and that `read_length` reads them.

use cubetran_core.Prelude.{
  Bool, List, [], ap, append_assoc, ap₂, arith, drop, drop-append, false, if◌then◌else◌, length,
  length-append, list_eq, ltb, ltb→lt, nat_eq, ok, option_eq, pair_eq, refl, sym, take, take-append,
  true, ℕ, ◌%◌, ◌*◌, ◌++◌, ◌+◌, ◌/◌, ◌<◌, ◌==◌, ◌^◌, ◌∙◌, ◌∷◌, ◌≡◌,
}
use cubetran_core.Redis.Rdb.{
  ByteOrder, RdbReader, big_endian_from, read_be, read_byte, read_bytes, read_encoded_length,
  read_length,
}

-- the reader after it has taken `bytes`
abbrev pub after : List ℕ → List ℕ → RdbReader → RdbReader
after bytes rest rdb = record rdb {
  conn = rest;
  position = rdb.position + length bytes;
  raw_bytes = if rdb.copy_raw then rdb.raw_bytes ++ bytes else rdb.raw_bytes;
}

abbrev pub before : List ℕ → RdbReader → RdbReader
before conn rdb = record rdb { conn = conn }

take_all : (s t : List ℕ) → take (length s) (s ++ t) ≡ s
take_all s t = take-append s t

drop_all : (s t : List ℕ) → drop (length s) (s ++ t) ≡ t
drop_all s t =
    let e : length s ≡ length s + 0 = omega arith in ap (λ n. drop n (s ++ t)) e ∙ drop-append s t 0

read_bytes_after :
    (bytes rest : List ℕ) (rdb : RdbReader)
    → read_bytes (length bytes) (before (bytes ++ rest) rdb) ≡ ok (bytes, after bytes rest rdb)
unfolding read_bytes
read_bytes_after bytes rest rdb =
    let enough : ltb (length (bytes ++ rest)) (length bytes) ≡ false =
      ground (arith, length-append bytes rest) in
    rw (enough, take_all bytes rest, drop_all bytes rest) refl

after-after :
    (first second rest : List ℕ) (rdb : RdbReader)
    → after second rest (after first (second ++ rest) rdb) ≡ after (first ++ second) rest rdb
after-after first second rest rdb =
    ap₂ (λ p raw. record rdb { conn = rest; position = p; raw_bytes = raw })
      (omega (arith, length-append first second)) (kept rdb.copy_raw)
  where
    kept :
        (b : Bool)
        → (if b
            then (if b then rdb.raw_bytes ++ first else rdb.raw_bytes) ++ second
            else (if b then rdb.raw_bytes ++ first else rdb.raw_bytes))
          ≡ (if b then rdb.raw_bytes ++ (first ++ second) else rdb.raw_bytes)
    kept true = append_assoc rdb.raw_bytes first second
    kept false = refl

read_byte_after :
    (b : ℕ) (rest : List ℕ) (rdb : RdbReader)
    → read_byte (before (b ∷ rest) rdb) ≡ ok (b, after (b ∷ []) rest rdb)
unfolding read_byte
read_byte_after b rest rdb = rw (read_bytes_after (b ∷ []) rest rdb) refl

-- The bytes of a length: 6 bits, 14 bits, 32 bits or 64 bits, after the two bits or the byte that say
-- which.
abbrev bytes_4 : ℕ → List ℕ
bytes_4 n = n / 2 ^ 24 ∷ n / 2 ^ 16 % 256 ∷ n / 256 % 256 ∷ n % 256 ∷ []

abbrev bytes_8 : ℕ → List ℕ
bytes_8 n =
    n / 2 ^ 56 ∷ n / 2 ^ 48 % 256 ∷ n / 2 ^ 40 % 256 ∷ n / 2 ^ 32 % 256 ∷ bytes_4 (n % 2 ^ 32)

unfoldable pub length_bytes : ℕ → List ℕ
length_bytes n =
    if ltb n 64
    then n ∷ []
    else if ltb n 16384
    then (64 + n / 256) ∷ n % 256 ∷ []
    else if ltb n (2 ^ 32)
    then 0x80 ∷ bytes_4 n
    else 0x81 ∷ bytes_8 n

big_endian_4 : (n : ℕ) → n < 2 ^ 32 → big_endian_from 0 (bytes_4 n) ≡ n
unfolding big_endian_from
big_endian_4 n h = omega arith

big_endian_8 : (n : ℕ) → n < 2 ^ 64 → big_endian_from 0 (bytes_8 n) ≡ n
unfolding big_endian_from
big_endian_8 n h = omega arith

-- What `read_length` makes of `bytes`.
Reads : ByteOrder → ℕ → List ℕ → Type 0
Reads order n bytes =
    (rest : List ℕ) (rdb : RdbReader)
    → read_length order (before (bytes ++ rest) rdb) ≡ ok (n, after bytes rest rdb)

six_bits : (order : ByteOrder) (n : ℕ) → n < 64 → Reads order n (n ∷ [])
unfolding Reads read_length read_encoded_length
six_bits order n h rest rdb =
    let kind : (n / 64 == 0) ≡ true = ground arith in
    let low : n % 64 ≡ n = omega arith in rw (read_byte_after n rest rdb, kind, low) refl

fourteen_bits :
    (order : ByteOrder) (n : ℕ) → n < 16384 → Reads order n ((64 + n / 256) ∷ n % 256 ∷ [])
unfolding Reads read_length read_encoded_length
fourteen_bits order n h rest rdb =
    let kind : (64 + n / 256) / 64 ≡ 1 = omega arith in
    let low : (64 + n / 256) % 64 * 256 + n % 256 ≡ n = omega arith in
    let first = 64 + n / 256 in
    rw
      (
        read_byte_after first (n % 256 ∷ rest) rdb,
        kind,
        read_byte_after (n % 256) rest (after (first ∷ []) (n % 256 ∷ rest) rdb),
        low,
        after-after (first ∷ []) (n % 256 ∷ []) rest rdb,
      )
      refl

-- a first byte that says how many bytes the length has
reads_more :
    (order : ByteOrder) (first k n : ℕ) (bytes rest : List ℕ) (rdb : RdbReader)
    → length bytes ≡ k
    → big_endian_from 0 bytes ≡ n
    → read_be order k (after (first ∷ []) (bytes ++ rest) rdb)
      ≡ ok (n, after (first ∷ bytes) rest rdb)
unfolding read_be
reads_more order first k n bytes rest rdb size value =
    rw
      (
        sym size,
        read_bytes_after bytes rest (after (first ∷ []) (bytes ++ rest) rdb),
        order.unsigned_be_lem bytes ∙ value,
        after-after (first ∷ []) bytes rest rdb,
      )
      refl

four_bytes : (order : ByteOrder) (n : ℕ) → n < 2 ^ 32 → Reads order n (0x80 ∷ bytes_4 n)
unfolding Reads read_length read_encoded_length
four_bytes order n h rest rdb =
    rw
      (
        read_byte_after 0x80 (bytes_4 n ++ rest) rdb,
        reads_more order 0x80 4 n (bytes_4 n) rest rdb refl (big_endian_4 n h),
      )
      refl

eight_bytes : (order : ByteOrder) (n : ℕ) → n < 2 ^ 64 → Reads order n (0x81 ∷ bytes_8 n)
unfolding Reads read_length read_encoded_length
eight_bytes order n h rest rdb =
    rw
      (
        read_byte_after 0x81 (bytes_8 n ++ rest) rdb,
        reads_more order 0x81 8 n (bytes_8 n) rest rdb refl (big_endian_8 n h),
      )
      refl

if_Reads :
    (order : ByteOrder) (b : Bool) (n : ℕ) (s t : List ℕ)
    → (b ≡ true → Reads order n s)
    → (b ≡ false → Reads order n t)
    → Reads order n (if b then s else t)
if_Reads order true n s t hs ht = hs refl
if_Reads order false n s t hs ht = ht refl

-- Every length below 2^64, in the shortest of the four forms of the RDB format, is read as that length
-- whatever follows, and the reader counts and keeps exactly its bytes.
pub read_length-length_bytes :
    (order : ByteOrder) (n : ℕ) (rest : List ℕ) (rdb : RdbReader)
    → n < 2 ^ 64
    → read_length order (before (length_bytes n ++ rest) rdb)
      ≡ ok (n, after (length_bytes n) rest rdb)
unfolding Reads length_bytes
read_length-length_bytes order n rest rdb h =
    if_Reads order (ltb n 64) n _ _ (λ e. six_bits order n (ltb→lt n 64 e))
      (λ _.
        if_Reads order (ltb n 16384) n _ _ (λ e. fourteen_bits order n (ltb→lt n 16384 e))
          (λ _.
            if_Reads order (ltb n (2 ^ 32)) n _ _ (λ e. four_bytes order n (ltb→lt n (2 ^ 32) e))
              (λ _. eight_bytes order n h)))
      rest rdb
