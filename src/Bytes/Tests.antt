-- ===== src/Bytes/Tests.antt =====
-- Runs of the byte searches and of the rounding division.
use elusiv.Base.{length, ok, ℕ, ◌≡◌, refl, false, List, [], ◌∷◌, arith}
use elusiv.Bytes.{find}
use elusiv.Bytes.Find.{position_from, concat, find_lem}
use elusiv.Bytes.{is_zero, is_zero_from}

abbrev pairs : List (List ℕ)
pairs = (1 ∷ 2 ∷ []) ∷ (1 ∷ 3 ∷ []) ∷ (2 ∷ 1 ∷ []) ∷ []

find_example :
    find 2 (1 ∷ 3 ∷ []) (concat pairs) (length pairs) ≡ ok (position_from 0 (1 ∷ 3 ∷ []) pairs)
find_example = find_lem 2 (1 ∷ 3 ∷ []) (omega arith) refl pairs (refl, (refl, (refl, tt)))

is_zero_test : is_zero (0 ∷ 0 ∷ 1 ∷ []) ≡ false
unfolding is_zero is_zero_from
is_zero_test = refl
