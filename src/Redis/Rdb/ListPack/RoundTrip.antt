-- ===== src/Redis/Rdb/ListPack/RoundTrip.antt =====
-- The entries of the list pack format, and how the strings and integers in them are read.

use cubetran_core.Prelude.{
  List, ap, arith, drop, drop-append, false, length, length-append, list_eq, ltb, nat_eq, negsuc,
  ok, option_eq, pair_eq, pos, refl, sym, take-append, ℕ, ℤ, ◌%◌, ◌*◌, ◌++◌, ◌+◌, ◌-◌, ◌/◌, ◌<◌,
  ◌^◌, ◌∙◌, ◌∷◌, ◌≡◌,
}
use cubetran_core.Redis.Rdb.{ByteOrder, int_text, little_endian}
use cubetran_core.Redis.Rdb.ListPack.{
  cursor_bytes, cursor_le, entry_of, int_entry, lp_encode_backlen, str_entry, to_signed, wide_entry,
}

-- an integer of `w` bits, as an unsigned number
abbrev pub complement : ℕ → ℤ → ℕ
complement w (pos n) = n
complement w (negsuc n) = 2 ^ w - 1 - n

-- it fits into `w` bits
abbrev pub FitsIn : ℕ → ℤ → Type 0
FitsIn w (pos n) = n < 2 ^ (w - 1)
FitsIn w (negsuc n) = n < 2 ^ (w - 1)

-- the first byte of the integers of two, three, four and eight bytes, and the length that the source
-- takes for them, which is one too small for the first
pub data Wide : ℕ → ℕ → ℕ → Type 0 where
  int16 : Wide 0xf1 2 2
  int24 : Wide 0xf2 3 4
  int32 : Wide 0xf3 4 5
  int64 : Wide 0xf4 8 9

-- `Entry order bytes text`: the bytes are an entry, which stands for the text. `back` is the length of
-- the entry, from which it is read backwards.
pub data Entry : List ℕ → List ℕ → Type 0 where
  uint7 : (n : ℕ) (back : List ℕ) → n < 128 → length back ≡ 1 → Entry (n ∷ back) (int_text (pos n))
  str6 :
      (s back : List ℕ)
      → length s < 64
      → length back ≡ lp_encode_backlen (1 + length s)
      → Entry ((128 + length s) ∷ (s ++ back)) s
  int13 :
      (z : ℤ) (back : List ℕ)
      → FitsIn 13 z
      → length back ≡ 1
      → Entry ((192 + complement 13 z / 256) ∷ complement 13 z % 256 ∷ back) (int_text z)
  wide :
      (first n len : ℕ) (z : ℤ) (bytes back : List ℕ)
      → Wide first n len
      → FitsIn (8 * n) z
      → length bytes ≡ n
      → little_endian bytes ≡ complement (8 * n) z
      → length back ≡ 1
      → Entry (first ∷ (bytes ++ back)) (int_text z)
  str12 :
      (s back : List ℕ)
      → length s < 4096
      → length back ≡ lp_encode_backlen (2 + length s)
      → Entry ((224 + length s / 256) ∷ length s % 256 ∷ (s ++ back)) s

pub to_signed_pos : (n p m : ℕ) → n < p → to_signed n p m ≡ pos n
unfolding to_signed
to_signed_pos n p m h = ground arith

to_signed_neg : (n p m : ℕ) → n < p → m + 1 ≡ 2 * p → to_signed (m - n) p m ≡ negsuc n
unfolding to_signed
to_signed_neg n p m h e = ground arith

pub to_signed_13 : (z : ℤ) → FitsIn 13 z → to_signed (complement 13 z) (2 ^ 12) 8191 ≡ z
to_signed_13 (pos n) h = to_signed_pos n (2 ^ 12) 8191 h
to_signed_13 (negsuc n) h = to_signed_neg n (2 ^ 12) 8191 h refl

to_signed-Wide :
    (first n len : ℕ) (z : ℤ)
    → Wide first n len
    → FitsIn (8 * n) z
    → to_signed (complement (8 * n) z) (2 ^ (8 * n - 1)) (2 ^ (8 * n) - 1) ≡ z
to_signed-Wide _ n _ (pos k) w h = to_signed_pos k (2 ^ (8 * n - 1)) (2 ^ (8 * n) - 1) h
to_signed-Wide _ _ _ (negsuc k) int16 h = to_signed_neg k (2 ^ 15) (2 ^ 16 - 1) h refl
to_signed-Wide _ _ _ (negsuc k) int24 h = to_signed_neg k (2 ^ 23) (2 ^ 24 - 1) h refl
to_signed-Wide _ _ _ (negsuc k) int32 h = to_signed_neg k (2 ^ 31) (2 ^ 32 - 1) h refl
to_signed-Wide _ _ _ (negsuc k) int64 h = to_signed_neg k (2 ^ 63) (2 ^ 64 - 1) h refl

pub cursor_bytes_lem :
    (s rest : List ℕ) (n : ℕ) → length s ≡ n → cursor_bytes n (s ++ rest) ≡ ok (s, rest)
unfolding cursor_bytes
cursor_bytes_lem s rest n e =
    let enough : ltb (length (s ++ rest)) (length s) ≡ false =
      ground (arith, length-append s rest) in
    let all : length s ≡ length s + 0 = omega arith in
    rw (sym e, enough, take-append s rest, ap (λ k. drop k (s ++ rest)) all ∙ drop-append s rest 0)
      refl

skipped : (back rest : List ℕ) (n : ℕ) → length back ≡ n → drop n (back ++ rest) ≡ rest
skipped back rest n e =
    let all : n ≡ length back + 0 = omega (arith, e) in
    ap (λ k. drop k (back ++ rest)) all ∙ drop-append back rest 0

pub str_entry_lem :
    (header : ℕ) (s back rest : List ℕ)
    → length back ≡ lp_encode_backlen (header + length s)
    → str_entry header (length s) (s ++ (back ++ rest)) ≡ ok (s, rest)
unfolding str_entry
str_entry_lem header s back rest e =
    rw (cursor_bytes_lem s (back ++ rest) (length s) refl, skipped back rest _ e) refl

pub int_entry_lem :
    (uval negstart negmax len : ℕ) (z : ℤ) (back rest : List ℕ)
    → to_signed uval negstart negmax ≡ z
    → length back ≡ lp_encode_backlen len
    → int_entry uval negstart negmax len (back ++ rest) ≡ ok (int_text z, rest)
unfolding int_entry
int_entry_lem uval negstart negmax len z back rest value e = rw (value, skipped back rest _ e) refl

lp_encode_backlen-Wide : (first n len : ℕ) → Wide first n len → 1 ≡ lp_encode_backlen len
unfolding lp_encode_backlen
lp_encode_backlen-Wide _ _ _ int16 = refl
lp_encode_backlen-Wide _ _ _ int24 = refl
lp_encode_backlen-Wide _ _ _ int32 = refl
lp_encode_backlen-Wide _ _ _ int64 = refl

module _ (order : ByteOrder) where
  pub entry_of-Wide :
      (first n len : ℕ) (cursor : List ℕ)
      → Wide first n len
      → entry_of order first cursor ≡ wide_entry order n len cursor
  unfolding entry_of
  entry_of-Wide _ _ _ cursor int16 = refl
  entry_of-Wide _ _ _ cursor int24 = refl
  entry_of-Wide _ _ _ cursor int32 = refl
  entry_of-Wide _ _ _ cursor int64 = refl

  pub wide_entry_lem :
      (first n len : ℕ) (z : ℤ) (bytes back rest : List ℕ)
      → Wide first n len
      → FitsIn (8 * n) z
      → length bytes ≡ n
      → little_endian bytes ≡ complement (8 * n) z
      → length back ≡ 1
      → wide_entry order n len (bytes ++ (back ++ rest)) ≡ ok (int_text z, rest)
  unfolding wide_entry cursor_le
  wide_entry_lem first n len z bytes back rest w fits size value one =
      rw (cursor_bytes_lem bytes (back ++ rest) n size, order.unsigned_le_lem bytes, value)
        (int_entry_lem (complement (8 * n) z) (2 ^ (8 * n - 1)) (2 ^ (8 * n) - 1) len z back rest
          (to_signed-Wide first n len z w fits) (one ∙ lp_encode_backlen-Wide first n len w))
