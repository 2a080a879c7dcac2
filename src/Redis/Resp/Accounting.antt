-- ===== src/Redis/Resp/Accounting.antt =====
-- What the reader counts, and that it ends.

use cubetran_core.Prelude.{
  Bool, List, Option, [], arith, false, if◌then◌else◌, leb, length, length-drop, list_eq, ltb,
  nat_eq, negsuc, none, option_eq, pair_eq, pos, refl, some, subst, suc, true, zero, ℕ, ℤ, ◌+◌, ◌<◌,
  ◌==◌, ◌∙◌, ◌∷◌, ◌≟◌, ◌≡◌, ◌≢◌, ◌≤◌,
}
use cubetran_core.Redis.Resp.{
  RedisRespReader, Reply, Value, and_then, bulk, decode, decode_on, done, failed, found_int, int,
  invalid_integer, invalid_type, invalid_utf8, is_crlf, nil, none_left, okay, out_of_fuel,
  parse_integer, read_array, read_bulk, read_bytes, read_error, read_items, read_line, read_status,
  read_typed, read_until, resp_max_size, server_error, status, then_reply,
}
use cubetran_core.Redis.Decimal.{is_utf8, parse_i64}
use cubetran_core.Redis.Resp.Lines.{reader}

-- The reply is no failure of the fuel; a reader that comes back has counted the bytes it took.
unfoldable pub Counts {ℓ} : {A : Type ℓ} → RedisRespReader → Reply A → Type 0
Counts r (failed e) = e ≢ out_of_fuel
Counts r (done a r') =
    (r'.read_len + length r'.input ≡ r.read_len + length r.input)
    × (length r'.input ≤ length r.input)

if-Counts {ℓ} :
    {A : Type ℓ} (r : RedisRespReader) (b : Bool) (x y : Reply A)
    → (b ≡ true → Counts r x)
    → (b ≡ false → Counts r y)
    → Counts r (if b then x else y)
if-Counts r true x y hx hy = hx refl
if-Counts r false x y hx hy = hy refl

then_reply-Counts {ℓ κ} :
    {A : Type ℓ} {B : Type κ} (r : RedisRespReader) (m : Reply A)
    (next : A → RedisRespReader → Reply B)
    → Counts r m
    → ((a : A) (r' : RedisRespReader) → length r'.input ≤ length r.input → Counts r' (next a r'))
    → Counts r (then_reply m next)
unfolding Counts
then_reply-Counts r (failed e) next hm hn = hm
then_reply-Counts {B = B} r (done a r') next (count, shorter) hn =
    onwards (next a r') (hn a r' shorter)
  where
    onwards : (m : Reply B) → Counts r' m → Counts r m
    onwards (failed e) h = h
    onwards (done b r'') (count', shorter') = (count' ∙ count, omega arith)

done-Counts {ℓ} : {A : Type ℓ} (r : RedisRespReader) (a : A) → Counts r (done a r)
unfolding Counts
done-Counts r a = (refl, omega arith)

parse_integer-Counts : (text : List ℕ) (r : RedisRespReader) → Counts r (parse_integer text r)
unfolding parse_integer Counts
parse_integer-Counts text r =
    if-Counts r (is_utf8 text) _ _ (λ _. parsed (parse_i64 text)) λ _ e. cc
  where
    parsed :
        (o : Option ℤ) → Counts r (elim o [ none ↦ failed invalid_integer | some n ↦ done n r ])
    parsed none = λ e. cc
    parsed (some n) = done-Counts r n

read_bytes-Counts : (n : ℕ) (r : RedisRespReader) → Counts r (read_bytes n r)
unfolding read_bytes Counts
read_bytes-Counts n r =
    if-Counts r (ltb (length r.input) (n + 2)) _ _ (λ _ e. cc)
      λ enough.
        if-Counts r (is_crlf _ _) _ _
          (λ _. (
            ground (arith, enough, length-drop (n + 2) r.input),
            omega (arith, length-drop (n + 2) r.input),
          ))
          λ _ e. cc

read_bulk-Counts : (n : ℤ) (r : RedisRespReader) → Counts r (read_bulk n r)
unfolding read_bulk Counts
read_bulk-Counts (negsuc zero) r = done-Counts r nil
read_bulk-Counts (negsuc (suc _)) r = λ e. cc
read_bulk-Counts (pos n) r =
    if-Counts r (leb resp_max_size n) _ _ (λ _ e. cc) λ _. read_bytes-Counts n r

-- `read` counts on every reader with fewer bytes than there is fuel.
abbrev CountsBelow : ℕ → (RedisRespReader → Reply Value) → Type 0
CountsBelow fuel read = (r : RedisRespReader) → length r.input < fuel → Counts r (read r)

read_items-Counts :
    (fuel : ℕ) (read : RedisRespReader → Reply Value) (n : ℕ) (r : RedisRespReader)
    → CountsBelow fuel read
    → length r.input < fuel
    → Counts r (read_items read n r)
unfolding read_items
read_items-Counts fuel read zero r h lt = done-Counts r none_left
read_items-Counts fuel read (suc n) r h lt = then_reply-Counts r (read r) _ (h r lt) λ v r' shorter.
    then_reply-Counts r' (read_items read n r') _ (read_items-Counts fuel read n r' h (omega arith))
      λ vs r'' _. done-Counts r'' (and_then v vs)

read_array-Counts :
    (fuel : ℕ) (read : RedisRespReader → Reply Value) (n : ℤ) (r : RedisRespReader)
    → CountsBelow fuel read
    → length r.input < fuel
    → Counts r (read_array read n r)
unfolding read_array Counts
read_array-Counts fuel read (negsuc zero) r h lt = done-Counts r nil
read_array-Counts fuel read (negsuc (suc _)) r h lt = λ e. cc
read_array-Counts fuel read (pos n) r h lt =
    if-Counts r (leb resp_max_size n) _ _ (λ _ e. cc)
      λ _.
        then_reply-Counts r (read_items read n r) _ (read_items-Counts fuel read n r h lt)
          λ vs r' _. done-Counts r' (bulk vs)

read_status-Counts : (text : List ℕ) (r : RedisRespReader) → Counts r (read_status text r)
unfolding read_status Counts
read_status-Counts text r =
    if-Counts r (text ≟ 79 ∷ 75 ∷ []) _ _ (λ _. done-Counts r okay)
      λ _. if-Counts r (is_utf8 text) _ _ (λ _. done-Counts r (status text)) λ _ e. cc

read_error-Counts : (text : List ℕ) (r : RedisRespReader) → Counts r (read_error text)
unfolding read_error Counts
read_error-Counts text r = named (is_utf8 text)
  where
    named : (b : Bool) → (if b then server_error text else invalid_utf8) ≢ out_of_fuel
    named true = λ e. cc
    named false = λ e. cc

read_typed-Counts :
    (fuel : ℕ) (read : RedisRespReader → Reply Value) (kind : ℕ) (text : List ℕ)
    (r : RedisRespReader)
    → CountsBelow fuel read
    → length r.input < fuel
    → Counts r (read_typed read kind text r)
unfolding read_typed
read_typed-Counts fuel read kind text r h lt =
    if-Counts r (kind == 43) _ _ (λ _. read_status-Counts text r)
      λ _.
        if-Counts r (kind == 45) _ _ (λ _. read_error-Counts text r)
          λ _.
            if-Counts r (kind == 58) _ _
              (λ _. then_reply-Counts r number found_int parsed λ n r' _. done-Counts r' (int n))
              λ _.
                if-Counts r (kind == 36) _ _
                  (λ _. then_reply-Counts r number read_bulk parsed λ n r' _. read_bulk-Counts n r')
                  λ _.
                    if-Counts r (kind == 42) _ _
                      (λ _.
                        then_reply-Counts r number (read_array read) parsed
                          λ n r' shorter. read_array-Counts fuel read n r' h (omega arith))
                      λ _. not_a_kind
  where
    number : Reply ℤ
    number = parse_integer text r

    parsed : Counts r number
    parsed = parse_integer-Counts text r

    wrong : Reply Value
    wrong = failed (invalid_type kind)

    not_a_kind : Counts r wrong
    not_a_kind = unfold Counts in λ e. cc

-- What a line and the rest come to is what there was.
length-read_until :
    (delimiter : ℕ) (input : List ℕ)
    → length (read_until delimiter input).0 + length (read_until delimiter input).1 ≡ length input
unfolding read_until
length-read_until delimiter [] = refl
length-read_until delimiter (b ∷ input) = ground (arith, length-read_until delimiter input)

read_line-Counts :
    (fuel : ℕ) (read : RedisRespReader → Reply Value) (line : List ℕ) (r : RedisRespReader)
    → CountsBelow fuel read
    → (line ≢ [] → length r.input < fuel)
    → Counts r (read_line read line r)
unfolding read_line Counts
read_line-Counts fuel read [] r h lt = λ e. cc
read_line-Counts fuel read (b ∷ line) r h lt =
    if-Counts r (length (b ∷ line) == 1) _ _ (λ _. done-Counts r nil)
      λ _.
        if-Counts r (ltb (length (b ∷ line)) 3) _ _ (λ _ e. cc)
          λ _.
            if-Counts r (is_crlf _ _) _ _ (λ _. read_typed-Counts fuel read _ _ r h (lt λ e. cc))
              λ _ e. cc

-- A reader that has taken some bytes and counted them goes on as the one before it.
before-Counts :
    (r r' : RedisRespReader) (reply : Reply Value)
    → r'.read_len + length r'.input ≡ r.read_len + length r.input
    → length r'.input ≤ length r.input
    → Counts r' reply
    → Counts r reply
unfolding Counts
before-Counts r r' (failed e) count shorter h = h
before-Counts r r' (done v r'') count shorter (count', shorter') = (count' ∙ count, omega arith)

pub decode_on-Counts :
    (fuel : ℕ) (r : RedisRespReader) → length r.input < fuel → Counts r (decode_on fuel r)
unfolding decode_on
decode_on-Counts zero r lt = absurd (omega arith)
decode_on-Counts (suc fuel) r lt =
    let total = length-read_until 10 r.input in
    before-Counts r (after r) _ (omega (arith, total)) (omega (arith, total)) (
      read_line-Counts fuel (decode_on fuel) (read_until 10 r.input).0 (after r)
        (decode_on-Counts fuel) λ some_line. within (read_until 10 r.input).0 some_line total)
  where
    after : RedisRespReader → RedisRespReader
    after r = reader (r.read_len + length (read_until 10 r.input).0) (read_until 10 r.input).1

    within :
        (line : List ℕ)
        → line ≢ []
        → length line + length (read_until 10 r.input).1 ≡ length r.input
        → length (read_until 10 r.input).1 < fuel
    within [] full e = absurd (full refl)
    within (b ∷ line) full e = omega arith

-- `decode` never runs out of the fuel that it is given: arrays inside arrays are read to their end
-- or fail.
pub decode_total : (r : RedisRespReader) → decode r ≢ failed out_of_fuel
unfolding decode Counts
decode_total r =
    λ e. subst (Counts r) e (decode_on-Counts (suc (length r.input)) r (omega arith)) refl

-- When `decode` returns a value, read_len has grown by exactly the bytes that it took off the
-- connection, in whatever nesting of arrays.
pub decode-read_len :
    (r : RedisRespReader) (v : Value) (r' : RedisRespReader)
    → decode r ≡ done v r'
    → (r'.read_len + length r'.input ≡ r.read_len + length r.input)
      × (length r'.input ≤ length r.input)
unfolding decode Counts
decode-read_len r v r' e =
    subst (Counts r) e (decode_on-Counts (suc (length r.input)) r (omega arith))
