-- ===== src/Redis/Decimal.antt =====
-- What the redis code uses of the standard library: `usize::to_string`, `str::parse::<i64>` and
-- `String::from_utf8`, on bytes.
use mathlib.Core.Bool.{◌||◌, ◌&&◌}
use mathlib.Core.Logic.{dite, ite}
use mathlib.Core.WellFounded as Wf
use mathlib.Core.WellFounded.{Acc, Acc-prop, WellFounded}
use Prim.{Dec, yes, no}
use cubetran_core.Prelude.{
  All, Bool, List, Option, [], arith, dec_lt, false, if◌then◌else◌, leb, list_eq, ltb, nat_eq,
  negsuc, none, option_eq, pair_eq, pos, refl, some, suc, true, zero, ℕ, ℤ, ◌%◌, ◌&&◌, ◌*◌, ◌+◌,
  ◌-◌, ◌/◌, ◌<◌, ◌==◌, ◌^◌, ◌||◌, ◌∙◌, ◌∷◌, ◌≡◌, ◌≢◌, ◌≤◌,
}

unfoldable pub below-Acc : (k n : ℕ) → n < k → Acc ◌<◌ n
below-Acc zero n h = absurd (omega arith)
below-Acc (suc k) n h = Acc.intro n λ m lt. below-Acc k m (omega arith)

unfoldable pub lt_wf : WellFounded ◌<◌
unfolding below-Acc
lt_wf = record { apply = λ n. below-Acc (suc n) n (omega arith) }

abbrev pub digit : ℕ → ℕ
digit n = 48 + n % 10

abbrev pub tenth_lt : (n : ℕ) → 9 < n → n / 10 < n
tenth_lt n h = omega arith

-- the digits of `n`, then `out`
unfoldable pub decimal_from : (n : ℕ) → Acc ◌<◌ n → List ℕ → List ℕ
decimal_from n (Acc.intro _ below) out =
    dite (dec_lt 9 n) (λ h. decimal_from (n / 10) (below (n / 10) (tenth_lt n h)) (digit n ∷ out))
      (λ _. digit n ∷ out)

unfoldable pub decimal : ℕ → List ℕ → List ℕ
decimal n = decimal_from n (lt_wf.apply n)

-- usize::to_string
unfoldable pub to_string : ℕ → List ℕ
to_string n = decimal n []

-- The digits of a number of at most `limit`: checked_mul and checked_add.
unfoldable pub parse_digits : ℕ → List ℕ → ℕ → Option ℕ
parse_digits limit [] n = some n
parse_digits limit (c ∷ s) n =
    let rest = parse_digits limit s (n * 10 + (c - 48)) in
    if ltb c 48 || ltb 57 c then none else if ltb limit (n * 10 + (c - 48)) then none else rest

abbrev pub max_i64 : ℕ
max_i64 = 2 ^ 63 - 1

abbrev pub negated : ℕ → ℤ
negated zero = pos 0
negated (suc n) = negsuc n

abbrev pub unsigned : List ℕ → Option ℕ
unfolding parse_digits
unsigned [] = none
unsigned (c ∷ s) = parse_digits max_i64 (c ∷ s) 0

abbrev pub negative : List ℕ → Option ℤ
unfolding parse_digits
negative [] = none
negative (c ∷ s) = elim (parse_digits (2 ^ 63) (c ∷ s) 0) [
  | none ↦ none
  | some n ↦ some (negated n)
]

abbrev pub positive : List ℕ → Option ℤ
positive s = elim (unsigned s) [ none ↦ none | some n ↦ some (pos n) ]

-- str::parse::<i64>: a sign that digits follow, or digits
unfoldable pub parse_i64 : List ℕ → Option ℤ
parse_i64 [] = none
parse_i64 (c ∷ s) = if c == 43 then positive s else if c == 45 then negative s else positive (c ∷ s)

-- The ranges that the bytes after `b` are to be in, where `b` starts a character.
unfoldable pub following : ℕ → Option (List (ℕ × ℕ))
following b =
    if ltb b 128
    then some []
    else if leb 194 b && leb b 223
    then some ((128, 191) ∷ [])
    else if b == 224
    then some ((160, 191) ∷ (128, 191) ∷ [])
    else if b == 237
    then some ((128, 159) ∷ (128, 191) ∷ [])
    else if leb 225 b && leb b 239
    then some ((128, 191) ∷ (128, 191) ∷ [])
    else if b == 240
    then some ((144, 191) ∷ (128, 191) ∷ (128, 191) ∷ [])
    else if leb 241 b && leb b 243
    then some ((128, 191) ∷ (128, 191) ∷ (128, 191) ∷ [])
    else if b == 244
    then some ((128, 143) ∷ (128, 191) ∷ (128, 191) ∷ [])
    else none

unfoldable pub utf8_from : List (ℕ × ℕ) → List ℕ → Bool
utf8_from [] [] = true
utf8_from (_ ∷ _) [] = false
utf8_from [] (b ∷ bytes) = elim (following b) [ none ↦ false | some next ↦ utf8_from next bytes ]
utf8_from ((low, high) ∷ next) (b ∷ bytes) =
    let rest = utf8_from next bytes in leb low b && leb b high && rest

-- String::from_utf8 succeeds
unfoldable pub is_utf8 : List ℕ → Bool
is_utf8 = utf8_from []

-- The loop, whatever the proof of its end.
decimal_from_step :
    (n : ℕ) (w : Acc ◌<◌ n) (w' : Acc ◌<◌ (n / 10)) (out : List ℕ)
    → decimal_from n w out
      ≡ ite (dec_lt 9 n) (decimal_from (n / 10) w' (digit n ∷ out)) (digit n ∷ out)
unfolding decimal_from
decimal_from_step n (Acc.intro _ below) w' out = λ i.
    dite (dec_lt 9 n)
      (λ h. decimal_from (n / 10) (Acc-prop (below (n / 10) (tenth_lt n h)) w' i) (digit n ∷ out))
      (λ _. digit n ∷ out)

decimal_step :
    (n : ℕ) (out : List ℕ)
    → decimal n out ≡ ite (dec_lt 9 n) (decimal (n / 10) (digit n ∷ out)) (digit n ∷ out)
unfolding decimal
decimal_step n = decimal_from_step n _ _

last_digit :
    (limit n : ℕ) (out : List ℕ)
    → n ≤ limit
    → parse_digits limit (digit n ∷ out) (n / 10) ≡ parse_digits limit out n
unfolding parse_digits
last_digit limit n out h = ground arith

parse_digits-decimal :
    (limit n : ℕ) (out : List ℕ)
    → n ≤ limit
    → parse_digits limit (decimal n out) 0 ≡ parse_digits limit out n
parse_digits-decimal limit n =
    Wf.induction lt_wf
      {C = λ m.
        (out : List ℕ)
        → m ≤ limit
        → parse_digits limit (decimal m out) 0 ≡ parse_digits limit out m}
      n λ m ih out fits. grind (arith, decimal_step m out, last_digit limit m out fits, ih (m / 10))

abbrev pub IsDigit : ℕ → Type 0
IsDigit c = (48 ≤ c) × (c ≤ 57)

digit-IsDigit : (n : ℕ) → IsDigit (digit n)
digit-IsDigit n = (omega arith, omega arith)

decimal-IsDigit : (n : ℕ) (out : List ℕ) → All IsDigit out → All IsDigit (decimal n out)
decimal-IsDigit n =
    Wf.induction lt_wf {C = λ m. (out : List ℕ) → All IsDigit out → All IsDigit (decimal m out)} n
      λ m ih out h. rw (decimal_step m out) (by_size m (dec_lt 9 m) out ih h)
  where
    by_size :
        (m : ℕ) (d : Dec (9 < m)) (out : List ℕ)
        → ((k : ℕ) → k < m → (o : List ℕ) → All IsDigit o → All IsDigit (decimal k o))
        → All IsDigit out
        → All IsDigit (ite d (decimal (m / 10) (digit m ∷ out)) (digit m ∷ out))
    by_size m (yes big) out ih h = ih (m / 10) (tenth_lt m big) (digit m ∷ out) (digit-IsDigit m, h)
    by_size m (no small) out ih h = (digit-IsDigit m, h)

decimal-≢ : (n : ℕ) (out : List ℕ) → decimal n out ≢ []
decimal-≢ n =
    Wf.induction lt_wf {C = λ m. (out : List ℕ) → decimal m out ≢ []} n
      λ m ih out. grind (arith, decimal_step m out, ih (m / 10))

unsigned_start : (c : ℕ) (s : List ℕ) → 48 ≤ c → c ≤ 57 → parse_i64 (c ∷ s) ≡ positive (c ∷ s)
unfolding parse_i64
unsigned_start c s low high = ground arith

parse_i64_digits :
    (s : List ℕ) (n : ℕ)
    → s ≢ []
    → All IsDigit s
    → parse_digits max_i64 s 0 ≡ some n
    → parse_i64 s ≡ some (pos n)
unfolding parse_i64 unsigned
parse_i64_digits [] n e h p = absurd (e refl)
parse_i64_digits (c ∷ s) n e ((low, high), h) p =
    unsigned_start c s low high ∙ rw (p, positive, unsigned) refl

pub to_string-IsDigit : (n : ℕ) → All IsDigit (to_string n)
unfolding to_string
to_string-IsDigit n = decimal-IsDigit n [] tt

pub to_string-≢ : (n : ℕ) → to_string n ≢ []
unfolding to_string
to_string-≢ n = decimal-≢ n []

-- A length that is written is the number that is read back.
pub parse_i64-to_string : (n : ℕ) → n ≤ max_i64 → parse_i64 (to_string n) ≡ some (pos n)
unfolding to_string parse_digits
parse_i64-to_string n h =
    parse_i64_digits (to_string n) n (to_string-≢ n) (to_string-IsDigit n)
      (parse_digits-decimal max_i64 n [] h)

ascii : (c : ℕ) → c < 128 → following c ≡ some []
unfolding following
ascii c h = ground arith

pub digits-is_utf8 : (s : List ℕ) → All IsDigit s → is_utf8 s ≡ true
unfolding is_utf8 utf8_from
digits-is_utf8 [] h = refl
digits-is_utf8 (c ∷ s) ((low, high), h) = rw (ascii c (omega arith), utf8_from) (digits-is_utf8 s h)
