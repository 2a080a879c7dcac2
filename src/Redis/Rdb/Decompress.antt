-- ===== src/Redis/Rdb/Decompress.antt =====
-- `lzf_decompress` reads the LZF format.

use cubetran_core.Prelude.{
  ==_iff, List, [], ap, append-nil, arith, false, length, length-append, list_eq, ltb, nat_eq, ok,
  option_eq, pair_eq, refl, replicate, suc, sym, true, zero, ℕ, ◌%◌, ◌*◌, ◌++◌, ◌+◌, ◌-◌, ◌/◌, ◌<◌,
  ◌==◌, ◌∙◌, ◌∷◌, ◌≡◌, ◌≤◌,
}
use cubetran_core.Redis.Rdb.{back_reference, lzf_decompress, lzf_loop, lzf_turn, ref_of}
use cubetran_core.Redis.Rdb.Lzf.{
  Lzf, at_end, buffer, copy_back-buffer, copy_literals-buffer, length-repeated, literals, long_back,
  repeated, short_reference,
}

Lzf-≤ : (input written out : List ℕ) → Lzf input written out → length written ≤ length out
Lzf-≤ _ _ _ (at_end written) = omega arith
Lzf-≤ _ _ _ (literals ctrl run input written out small len next) =
    omega (arith, Lzf-≤ input (written ++ run) out next, length-append written run)
Lzf-≤ _ _ _ (short_reference ctrl low input written out low_end high within next) = omega (
  arith,
  Lzf-≤ input (repeated (ctrl / 32 + 2) (ctrl % 32 * 256 + low + 1) written) out next,
  length-repeated (ctrl / 32 + 2) (ctrl % 32 * 256 + low + 1) written,
)
Lzf-≤ _ _ _ (long_back ctrl more low input written out low_end high within next) = omega (
  arith,
  Lzf-≤ input (repeated (7 + more + 2) (ctrl % 32 * 256 + low + 1) written) out next,
  length-repeated (7 + more + 2) (ctrl % 32 * 256 + low + 1) written,
)

literal_turn :
    (ctrl : ℕ) (run input written : List ℕ) (room : ℕ)
    → ctrl < 32
    → length run ≡ ctrl + 1
    → lzf_turn ctrl (run ++ input) (buffer written (length run + room)) (length written)
      ≡ ok (input, (buffer (written ++ run) room, length (written ++ run)))
unfolding lzf_turn
literal_turn ctrl run input written room small len =
    let below : ltb ctrl 32 ≡ true = ground arith in
    let size : length written + length run ≡ length (written ++ run) =
      sym (length-append written run) in
    rw (below, sym len, copy_literals-buffer run input written room, size) refl

reference_at :
    (ctrl len low : ℕ) (input written : List ℕ) (room : ℕ)
    → ctrl % 32 * 256 + low + 1 ≤ length written
    → back_reference ctrl len (low ∷ input) (buffer written (len + 2 + room)) (length written)
      ≡ ok (
        input,
        (
          buffer (repeated (len + 2) (ctrl % 32 * 256 + low + 1) written) room,
          length (repeated (len + 2) (ctrl % 32 * 256 + low + 1) written),
        ),
      )
unfolding back_reference ref_of
reference_at ctrl len low input written room within =
    let distance = ctrl % 32 * 256 + low + 1 in
    let inside : ltb (length written) distance ≡ false = ground arith in
    let size : length written + (len + 2) ≡ length (repeated (len + 2) distance written) =
      sym (length-repeated (len + 2) distance written) in
    rw (inside, copy_back-buffer (len + 2) distance written room (omega arith) within, size) refl

short_turn :
    (ctrl low : ℕ) (input written : List ℕ) (room : ℕ)
    → 32 ≤ ctrl
    → ctrl < 224
    → ctrl % 32 * 256 + low + 1 ≤ length written
    → lzf_turn ctrl (low ∷ input) (buffer written (ctrl / 32 + 2 + room)) (length written)
      ≡ ok (
        input,
        (
          buffer (repeated (ctrl / 32 + 2) (ctrl % 32 * 256 + low + 1) written) room,
          length (repeated (ctrl / 32 + 2) (ctrl % 32 * 256 + low + 1) written),
        ),
      )
unfolding lzf_turn
short_turn ctrl low input written room low_end high within =
    let above : ltb ctrl 32 ≡ false = ground arith in
    let short : (ctrl / 32 == 7) ≡ false = ground arith in
    rw (above, short) (reference_at ctrl (ctrl / 32) low input written room within)

long_turn :
    (ctrl more low : ℕ) (input written : List ℕ) (room : ℕ)
    → 224 ≤ ctrl
    → ctrl < 256
    → ctrl % 32 * 256 + low + 1 ≤ length written
    → lzf_turn ctrl (more ∷ low ∷ input) (buffer written (7 + more + 2 + room)) (length written)
      ≡ ok (
        input,
        (
          buffer (repeated (7 + more + 2) (ctrl % 32 * 256 + low + 1) written) room,
          length (repeated (7 + more + 2) (ctrl % 32 * 256 + low + 1) written),
        ),
      )
unfolding lzf_turn
long_turn ctrl more low input written room low_end high within =
    let above : ltb ctrl 32 ≡ false = ground arith in
    let long : (ctrl / 32 == 7) ≡ true = ground arith in
    rw (above, long) (reference_at ctrl (7 + more) low input written room within)

-- The loop, from a point where `written` is in the buffer.
Reads : List ℕ → List ℕ → List ℕ → Type 0
Reads input written out =
    (fuel : ℕ)
    → length input ≤ fuel
    → lzf_loop fuel input (buffer written (length out - length written)) (length written)
      ≡ ok (out, length out)

turn_Reads :
    (ctrl n : ℕ) (input input' written written' out : List ℕ)
    → ((room : ℕ)
        → lzf_turn ctrl input (buffer written (n + room)) (length written)
          ≡ ok (input', (buffer written' room, length written')))
    → length input' ≤ length input
    → length written' ≡ length written + n
    → length written' ≤ length out
    → Reads input' written' out
    → Reads (ctrl ∷ input) written out
unfolding lzf_loop Reads
turn_Reads ctrl n input input' written written' out turn shorter size fits next zero enough =
    absurd (omega arith)
turn_Reads ctrl n input input' written written' out turn shorter size fits next (suc fuel) enough =
    let room : length out - length written ≡ n + (length out - length written') = omega arith in
    rw (room, turn (length out - length written')) (next fuel (omega arith))

Lzf-Reads : (input written out : List ℕ) → Lzf input written out → Reads input written out
unfolding Reads lzf_loop
Lzf-Reads _ _ _ (at_end written) = λ fuel enough.
    let none_left : length written - length written ≡ 0 = omega arith in
    rw none_left (ap (λ w. ok (w, length written)) (append-nil written))
Lzf-Reads _ _ _ (literals ctrl run input written out small len next) =
    turn_Reads ctrl (length run) (run ++ input) input written (written ++ run) out
      (λ room. literal_turn ctrl run input written room small len)
      (omega (arith, length-append run input)) (length-append written run)
      (Lzf-≤ input (written ++ run) out next) (Lzf-Reads input (written ++ run) out next)
Lzf-Reads _ _ _ (short_reference ctrl low input written out low_end high within next) =
    let n = ctrl / 32 + 2 in
    let distance = ctrl % 32 * 256 + low + 1 in
    turn_Reads ctrl n (low ∷ input) input written (repeated n distance written) out
      (λ room. short_turn ctrl low input written room low_end high within) (omega arith)
      (length-repeated n distance written) (Lzf-≤ input (repeated n distance written) out next)
      (Lzf-Reads input (repeated n distance written) out next)
Lzf-Reads _ _ _ (long_back ctrl more low input written out low_end high within next) =
    let n = 7 + more + 2 in
    let distance = ctrl % 32 * 256 + low + 1 in
    turn_Reads ctrl n (more ∷ low ∷ input) input written (repeated n distance written) out
      (λ room. long_turn ctrl more low input written room low_end high within) (omega arith)
      (length-repeated n distance written) (Lzf-≤ input (repeated n distance written) out next)
      (Lzf-Reads input (repeated n distance written) out next)

loop_of_format :
    (in_buf out : List ℕ)
    → Lzf in_buf [] out
    → lzf_loop (length in_buf) in_buf (replicate (length out) 0) 0 ≡ ok (out, length out)
unfolding Reads
loop_of_format in_buf out h =
    let room : length out ≡ length out - 0 = omega arith in
    ap (λ n. lzf_loop (length in_buf) in_buf (replicate n 0) 0) room
    ∙ Lzf-Reads in_buf [] out h (length in_buf) (omega arith)

-- What the LZF format says that a compressed text stands for is what `lzf_decompress` returns, when it
-- is told the right length: no index is out of range, the loop ends, and nothing is left unwritten.
pub lzf_decompress_lem :
    (in_buf out : List ℕ) → Lzf in_buf [] out → lzf_decompress in_buf (length out) ≡ ok out
unfolding lzf_decompress
lzf_decompress_lem in_buf out h =
    let same : (length out == length out) ≡ true = (==_iff (length out) (length out)).1 refl in
    rw (loop_of_format in_buf out h, same) refl
