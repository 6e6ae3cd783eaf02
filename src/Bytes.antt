-- ===== src/Bytes.antt =====
-- elusiv/src/bytes.rs: rounding division, and the search for a value in the bytes of an array.
pub mod Division
pub mod Find
pub mod Zero
mod Tests
use elusiv.Base.{
  ltb, leb, ◌==◌, if◌then◌else◌, length, get_elem?, drop, take, ◌>>=◌, ◌>>◌, unwrap, ProgramError,
  Result, ok, panic, ℕ, zero, suc, ◌+◌, ◌-◌, ◌*◌, ◌/◌, ◌%◌, Bool, true, false, Option, none, some,
  List, [], ◌∷◌,
}

-- `div_ceiling!`, at the modulus of its type.
unfoldable pub div_ceiling : ℕ → ℕ → ℕ → Result ProgramError ℕ
div_ceiling m divident divisor =
    if divisor == 0 then panic else ok ((divident + divisor + m - 1) % m / divisor)

-- `safe_num_downcast!`, at the modulus of the lower type.
pub downcast_safe : ℕ → ℕ → Result ProgramError ℕ
downcast_safe m u = if ltb u m then ok u else panic

module _ (size : ℕ) (bytes content : List ℕ) where
  -- The inner loop of `find` from `j`, with the rounds left: does the rest of the value match?
  pub matches_from : ℕ → ℕ → ℕ → Result ProgramError Bool
  matches_from zero j offset = ok false
  matches_from (suc rounds) j offset =
      let rest = matches_from rounds (j + 1) offset in
      elim (get_elem? content (offset + j)) [
        | none ↦ panic
        | some a ↦ elim (get_elem? bytes j) [
          | none ↦ panic
          | some b ↦ if a == b then (if j == size - 1 then ok true else rest) else ok false
        ]
      ]

  -- The outer loop from `i`, with the rounds left.
  pub find_from : ℕ → ℕ → ℕ → Result ProgramError (Option ℕ)
  unfolding matches_from
  find_from zero i offset = ok none
  find_from (suc rounds) i offset =
      let rest = find_from rounds (i + 1) (offset + size) in
      do
        a ← unwrap (get_elem? content offset)
        b ← unwrap (get_elem? bytes 0)
        found ← (if a == b then matches_from (size - 1) 1 offset else ok false)
        if found then ok (some i) else rest

  -- `bytes` is the value's serialization, of `N::SIZE` bytes.
  pub find : ℕ → Result ProgramError (Option ℕ)
  unfolding find_from
  find rounds = if leb rounds (length content) then find_from rounds 0 0 else panic

  pub contains : Result ProgramError Bool
  unfolding find
  contains = do
    position ← find (length content / size)
    ok (elim position [ none ↦ false | some _ ↦ true ])

-- `u128::from_be_bytes`.
unfoldable pub from_be_bytes : ℕ → List ℕ → ℕ
from_be_bytes acc [] = acc
from_be_bytes acc (b ∷ bs) = from_be_bytes (acc * 256 + b) bs

unfoldable pub all_zero : List ℕ → Bool
all_zero [] = true
all_zero (b ∷ bs) = if b == 0 then all_zero bs else false

-- The loop of `is_zero` over the bytes from `i` on, in steps of 16, with the rounds left.
pub is_zero_from : ℕ → List ℕ → Bool
unfolding from_be_bytes all_zero
is_zero_from zero s = true
is_zero_from (suc rounds) s =
    let rest = is_zero_from rounds (drop 16 s) in
    if leb 16 (length s)
    then (if from_be_bytes 0 (take 16 s) == 0 then rest else false)
    else all_zero s

pub is_zero : List ℕ → Bool
unfolding is_zero_from
is_zero s = is_zero_from ((length s + 15) / 16) s
