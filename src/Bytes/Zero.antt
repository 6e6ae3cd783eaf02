-- ===== src/Bytes/Zero.antt =====
-- The test for zero bytes, which reads 16 bytes at a time.
use elusiv.Base.{
  leb, ◌==◌, if◌then◌else◌, le→leb, length, drop, take, length-drop, take-append-drop, ℕ, zero, suc,
  ◌+◌, ◌*◌, ◌/◌, ◌≤◌, ◌<◌, ◌≡◌, refl, sym, ap, ◌∙◌, true, false, List, [], ◌∷◌, ◌++◌, arith, dec_le,
}
use elusiv.Bytes.{is_zero, is_zero_from, all_zero, from_be_bytes}

from_be_bytes_pos : (acc : ℕ) (bs : List ℕ) → 0 < acc → (from_be_bytes acc bs == 0) ≡ false
unfolding from_be_bytes
from_be_bytes_pos acc [] h = ground arith
from_be_bytes_pos acc (b ∷ bs) h = from_be_bytes_pos (acc * 256 + b) bs (omega arith)

-- A big-endian number is zero exactly when its bytes are.
from_be_bytes_zero : (bs : List ℕ) → (from_be_bytes 0 bs == 0) ≡ all_zero bs
unfolding from_be_bytes all_zero
from_be_bytes_zero [] = ground arith
from_be_bytes_zero (zero ∷ bs) =
    let e : 0 * 256 + zero ≡ 0 = omega arith in rw e (from_be_bytes_zero bs ∙ ground arith)
from_be_bytes_zero (suc b ∷ bs) =
    rw (from_be_bytes_pos (0 * 256 + suc b) bs (omega arith)) (ground arith)

all_zero-append :
    (xs ys : List ℕ) → all_zero (xs ++ ys) ≡ (if all_zero xs then all_zero ys else false)
unfolding all_zero
all_zero-append [] ys = refl
all_zero-append (x ∷ xs) ys = ground (arith, all_zero-append xs ys)

is_zero_from_lem :
    (rounds : ℕ) (s : List ℕ) → length s ≤ rounds * 16 → is_zero_from rounds s ≡ all_zero s
unfolding is_zero_from all_zero
is_zero_from_lem zero [] h = refl
is_zero_from_lem zero (b ∷ bs) h = absurd (omega arith)
is_zero_from_lem (suc rounds) s h = elim (dec_le 16 (length s)) [
  | yes more ↦
      let ih = is_zero_from_lem rounds (drop 16 s) (omega (arith, length-drop 16 s)) in
      let full : leb 16 (length s) ≡ true = le→leb _ _ more in
      rw (full, from_be_bytes_zero (take 16 s), ih)
        (sym (all_zero-append (take 16 s) (drop 16 s)) ∙ ap all_zero (take-append-drop 16 s))
  | no less ↦ let part : leb 16 (length s) ≡ false = ground arith in rw part
]

-- `is_zero` holds exactly for the bytes that are all zero, at every length.
pub is_zero_lem : (s : List ℕ) → is_zero s ≡ all_zero s
unfolding is_zero
is_zero_lem s = is_zero_from_lem ((length s + 15) / 16) s (omega arith)
