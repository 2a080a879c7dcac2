-- ===== src/Meta/ColValue.antt =====
-- dt-common/src/meta/col_value.rs: a column's value.
-- Signed integers are ℤ, unsigned ones ℕ, `f32` and `f64` their bit patterns, `String` its scalar
-- values and `Vec<u8>` its bytes.
pub mod Equality
pub mod ToString
use cubetran_core.Prelude.{
  Bool, Option, Text, [], false, if◌then◌else◌, length, list_beq, list_eq, ltb, nat_eq, negsuc, not,
  option_eq, pair_eq, pos, some, true, ℕ, ℤ, ◌%◌, ◌&&◌, ◌+◌, ◌==◌, ◌^◌, ◌||◌, ◌∷◌,
}

-- A `serde_json::Value` or a BSON `Document`: its text, and what its `==` compares, which is not the
-- text: the order of the fields does not count, the types of the numbers do. `none` equals nothing,
-- itself included: the document holds a NaN.
pub record Document : Type 0 where
  pub text : Text
  pub compared : Option Text

pub data ColValue : Type 0 where
  none : ColValue
  bool : Bool → ColValue
  tiny : ℤ → ColValue
  unsigned_tiny : ℕ → ColValue
  short : ℤ → ColValue
  unsigned_short : ℕ → ColValue
  long : ℤ → ColValue
  unsigned_long : ℕ → ColValue
  long_long : ℤ → ColValue
  unsigned_long_long : ℕ → ColValue
  float : ℕ → ColValue
  double : ℕ → ColValue
  decimal : Text → ColValue
  time : Text → ColValue
  date : Text → ColValue
  date_time : Text → ColValue
  timestamp : Text → ColValue
  year : ℕ → ColValue
  string : Text → ColValue
  raw_string : Text → ColValue
  blob : Text → ColValue
  bit : ℕ → ColValue
  set : ℕ → ColValue
  enum : ℕ → ColValue
  set2 : Text → ColValue
  enum2 : Text → ColValue
  json : Text → ColValue
  json2 : Text → ColValue
  json3 : Document → ColValue
  mongo_doc : Document → ColValue

-- What a variant carries; the derived `PartialEq` compares the variants and what they carry.
pub data Payload : Type 0 where
  nothing : Payload
  flag : Bool → Payload
  int : ℤ → Payload
  nat : ℕ → Payload
  single : ℕ → Payload
  real : ℕ → Payload
  bytes : Text → Payload
  document : Document → Payload

pub discriminant : ColValue → ℕ
discriminant none = 0
discriminant (bool v) = 1
discriminant (tiny v) = 2
discriminant (unsigned_tiny v) = 3
discriminant (short v) = 4
discriminant (unsigned_short v) = 5
discriminant (long v) = 6
discriminant (unsigned_long v) = 7
discriminant (long_long v) = 8
discriminant (unsigned_long_long v) = 9
discriminant (float v) = 10
discriminant (double v) = 11
discriminant (decimal v) = 12
discriminant (time v) = 13
discriminant (date v) = 14
discriminant (date_time v) = 15
discriminant (timestamp v) = 16
discriminant (year v) = 17
discriminant (string v) = 18
discriminant (raw_string v) = 19
discriminant (blob v) = 20
discriminant (bit v) = 21
discriminant (set v) = 22
discriminant (enum v) = 23
discriminant (set2 v) = 24
discriminant (enum2 v) = 25
discriminant (json v) = 26
discriminant (json2 v) = 27
discriminant (json3 v) = 28
discriminant (mongo_doc v) = 29

pub payload : ColValue → Payload
payload none = nothing
payload (bool v) = flag v
payload (tiny v) = int v
payload (unsigned_tiny v) = nat v
payload (short v) = int v
payload (unsigned_short v) = nat v
payload (long v) = int v
payload (unsigned_long v) = nat v
payload (long_long v) = int v
payload (unsigned_long_long v) = nat v
payload (float v) = single v
payload (double v) = real v
payload (decimal v) = bytes v
payload (time v) = bytes v
payload (date v) = bytes v
payload (date_time v) = bytes v
payload (timestamp v) = bytes v
payload (year v) = nat v
payload (string v) = bytes v
payload (raw_string v) = bytes v
payload (blob v) = bytes v
payload (bit v) = nat v
payload (set v) = nat v
payload (enum v) = nat v
payload (set2 v) = bytes v
payload (enum2 v) = bytes v
payload (json v) = bytes v
payload (json2 v) = bytes v
payload (json3 v) = document v
payload (mongo_doc v) = document v

-- IEEE 754: the exponent is all ones and the fraction is not zero.
abbrev nan_single : ℕ → Bool
nan_single b = ltb 0x7f80_0000 (b % 2 ^ 31)

abbrev nan_real : ℕ → Bool
nan_real b = ltb 0x7ff0_0000_0000_0000 (b % 2 ^ 63)

-- `==` on floats: a NaN equals nothing, and the two zeros are equal.
single_eq : ℕ → ℕ → Bool
single_eq a b =
    not (nan_single a) && not (nan_single b) && (a == b || (a % 2 ^ 31 == 0 && b % 2 ^ 31 == 0))

real_eq : ℕ → ℕ → Bool
real_eq a b =
    not (nan_real a) && not (nan_real b) && (a == b || (a % 2 ^ 63 == 0 && b % 2 ^ 63 == 0))

bool_eq : Bool → Bool → Bool
bool_eq true b = b
bool_eq false b = not b

int_eq : ℤ → ℤ → Bool
int_eq (pos a) (pos b) = a == b
int_eq (negsuc a) (negsuc b) = a == b
int_eq _ _ = false

compared_eq : Option Text → Option Text → Bool
compared_eq (some a) (some b) = list_beq a b
compared_eq _ _ = false

payload_eq : Payload → Payload → Bool
unfolding bool_eq int_eq single_eq real_eq compared_eq
payload_eq nothing nothing = true
payload_eq (flag a) (flag b) = bool_eq a b
payload_eq (int a) (int b) = int_eq a b
payload_eq (nat a) (nat b) = a == b
payload_eq (single a) (single b) = single_eq a b
payload_eq (real a) (real b) = real_eq a b
payload_eq (bytes a) (bytes b) = list_beq a b
payload_eq (document a) (document b) = compared_eq a.compared b.compared
payload_eq _ _ = false

-- derive(PartialEq)
unfoldable pub eq : ColValue → ColValue → Bool
unfolding discriminant payload payload_eq
eq a b = discriminant a == discriminant b && payload_eq (payload a) (payload b)

unfoldable pub is_nan : ColValue → Bool
is_nan (float v) = nan_single v
is_nan (double v) = nan_real v
is_nan _ = false

-- The standard library's formatting and `DefaultHasher` are the parameter `hasher`.
unfoldable pub hash_code : (ColValue → ℕ) → ColValue → ℕ
hash_code hasher none = 0
hash_code hasher v = hasher v

-- the bytes of a scalar value in UTF-8
abbrev utf8_width : ℕ → ℕ
utf8_width c = if ltb c 0x80 then 1 else if ltb c 0x800 then 2 else if ltb c 0x1_0000 then 3 else 4

-- `len` of a `String`: its bytes in UTF-8
unfoldable pub utf8_len : Text → ℕ
utf8_len [] = 0
utf8_len (c ∷ s) = utf8_width c + utf8_len s

unfoldable pub get_malloc_size : ColValue → ℕ
unfolding utf8_len
get_malloc_size none = 0
get_malloc_size (bool v) = 1
get_malloc_size (tiny v) = 1
get_malloc_size (unsigned_tiny v) = 1
get_malloc_size (short v) = 2
get_malloc_size (unsigned_short v) = 2
get_malloc_size (year v) = 2
get_malloc_size (long v) = 4
get_malloc_size (unsigned_long v) = 4
get_malloc_size (float v) = 4
get_malloc_size (enum v) = 4
get_malloc_size (long_long v) = 8
get_malloc_size (unsigned_long_long v) = 8
get_malloc_size (double v) = 8
get_malloc_size (bit v) = 8
get_malloc_size (set v) = 8
get_malloc_size (decimal v) = utf8_len v
get_malloc_size (time v) = utf8_len v
get_malloc_size (date v) = utf8_len v
get_malloc_size (date_time v) = utf8_len v
get_malloc_size (timestamp v) = utf8_len v
get_malloc_size (string v) = utf8_len v
get_malloc_size (set2 v) = utf8_len v
get_malloc_size (enum2 v) = utf8_len v
get_malloc_size (json2 v) = utf8_len v
get_malloc_size (json v) = length v
get_malloc_size (blob v) = length v
get_malloc_size (raw_string v) = length v
get_malloc_size (json3 v) = utf8_len v.text
get_malloc_size (mongo_doc v) = utf8_len v.text
