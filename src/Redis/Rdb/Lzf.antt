-- ===== src/Redis/Rdb/Lzf.antt =====
-- The LZF format, and what the copying loops do to a buffer that is partly written.

use cubetran_core.Prelude.{
  List, [], ap, append-nil, append_assoc, ap₂, arith, get_elem?, get_or, length, length-append,
  list_eq, nat_eq, ok, option_eq, pair_eq, refl, replicate, some, suc, sym, zero, ℕ, ◌%◌, ◌*◌, ◌++◌,
  ◌+◌, ◌-◌, ◌/◌, ◌<◌, ◌∙◌, ◌∷◌, ◌≡◌, ◌≤◌,
}
use cubetran_core.Redis.Rdb.{copy_back, copy_literals, set_at}

-- `n` more bytes, each the one that is `distance` before the end
unfoldable pub repeated : ℕ → ℕ → List ℕ → List ℕ
repeated zero distance written = written
repeated (suc n) distance written =
    repeated n distance (written ++ get_or written (length written - distance) 0 ∷ [])

-- `Lzf input written out`: what is left of the input takes what is written to `out`. A control byte
-- below 32 has that many bytes and one more after it. Any other one goes back: its upper three bits
-- are the number of bytes less 2, with a further byte when they are 7, and its lower five bits are the
-- upper ones of the distance less 1.
pub data Lzf : List ℕ → List ℕ → List ℕ → Type 0 where
  at_end : (written : List ℕ) → Lzf [] written written
  literals :
      (ctrl : ℕ) (run input written out : List ℕ)
      → ctrl < 32
      → length run ≡ ctrl + 1
      → Lzf input (written ++ run) out
      → Lzf (ctrl ∷ run ++ input) written out
  short_reference :
      (ctrl low : ℕ) (input written out : List ℕ)
      → 32 ≤ ctrl
      → ctrl < 224
      → ctrl % 32 * 256 + low + 1 ≤ length written
      → Lzf input (repeated (ctrl / 32 + 2) (ctrl % 32 * 256 + low + 1) written) out
      → Lzf (ctrl ∷ low ∷ input) written out
  long_back :
      (ctrl more low : ℕ) (input written out : List ℕ)
      → 224 ≤ ctrl
      → ctrl < 256
      → ctrl % 32 * 256 + low + 1 ≤ length written
      → Lzf input (repeated (7 + more + 2) (ctrl % 32 * 256 + low + 1) written) out
      → Lzf (ctrl ∷ more ∷ low ∷ input) written out

-- the buffer when `written` is in it
abbrev pub buffer : List ℕ → ℕ → List ℕ
buffer written room = written ++ replicate room 0

set_at-buffer :
    (written : List ℕ) (room b : ℕ)
    → set_at (length written) b (buffer written (suc room)) ≡ ok (buffer (written ++ b ∷ []) room)
unfolding set_at
set_at-buffer [] room b = refl
set_at-buffer (x ∷ written) room b = rw (set_at-buffer written room b) refl

length-snoc : (written : List ℕ) (b : ℕ) → length (written ++ b ∷ []) ≡ length written + 1
length-snoc written b = length-append written (b ∷ [])

pub copy_literals-buffer :
    (run input written : List ℕ) (room : ℕ)
    → copy_literals
        (length run)
        (run ++ input)
        (buffer written (length run + room))
        (length written)
      ≡ ok (input, buffer (written ++ run) room)
unfolding copy_literals
copy_literals-buffer [] input written room =
    let e : 0 + room ≡ room = omega arith in
    ap₂ (λ n w. ok (input, buffer w n)) e (sym (append-nil written))
copy_literals-buffer (b ∷ run) input written room =
    let e : suc (length run) + room ≡ suc (length run + room) = omega arith in
    let next : length written + 1 ≡ length (written ++ b ∷ []) = sym (length-snoc written b) in
    rw (e, set_at-buffer written (length run + room) b, next)
      (copy_literals-buffer run input (written ++ b ∷ []) room
        ∙ ap (λ w. ok (input, buffer w room)) (append_assoc written (b ∷ []) run))

get_written :
    (written rest : List ℕ) (i : ℕ)
    → i < length written
    → get_elem? (written ++ rest) i ≡ some (get_or written i 0)
get_written [] rest i lt = absurd (omega arith)
get_written (x ∷ written) rest zero lt = refl
get_written (x ∷ written) rest (suc i) lt = get_written written rest i (omega arith)

pub copy_back-buffer :
    (n distance : ℕ) (written : List ℕ) (room : ℕ)
    → 0 < distance
    → distance ≤ length written
    → copy_back n (length written - distance) (buffer written (n + room)) (length written)
      ≡ ok (buffer (repeated n distance written) room)
unfolding copy_back repeated
copy_back-buffer zero distance written room some_back within =
    let e : 0 + room ≡ room = omega arith in ap (λ n. ok (buffer written n)) e
copy_back-buffer (suc n) distance written room some_back within =
    let e : suc n + room ≡ suc (n + room) = omega arith in
    let b = get_or written (length written - distance) 0 in
    let next : length written + 1 ≡ length (written ++ b ∷ []) = sym (length-snoc written b) in
    let ref : length written - distance + 1 ≡ length (written ++ b ∷ []) - distance =
      omega (arith, length-snoc written b) in
    rw
      (
        e,
        get_written written (replicate (suc (n + room)) 0) (length written - distance)
            (omega arith),
        set_at-buffer written (n + room) b,
        ref,
        next,
      )
      (copy_back-buffer n distance (written ++ b ∷ []) room some_back
        (omega (arith, length-snoc written b)))

pub length-repeated :
    (n distance : ℕ) (written : List ℕ) → length (repeated n distance written) ≡ length written + n
unfolding repeated
length-repeated zero distance written = omega arith
length-repeated (suc n) distance written = omega (
  arith,
  length-repeated n distance (written ++ get_or written (length written - distance) 0 ∷ []),
  length-snoc written (get_or written (length written - distance) 0),
)
