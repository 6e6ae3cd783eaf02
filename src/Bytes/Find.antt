-- ===== src/Bytes/Find.antt =====
-- The byte search, beside the first position of a value in a list of values.
use elusiv.Base.{
  leb, ◌==◌, if◌then◌else◌, le→leb, ==_refl, Bool-cases, length, get_elem?, drop, length-append,
  get_elem?_in_range, get_elem?-append_left, drop_at, drop_all, get_elem?-append_right, ok, ℕ, zero,
  suc, ◌+◌, ◌-◌, ◌*◌, ◌/◌, ◌≤◌, ◌<◌, ◌≡◌, refl, ap, ◌∙◌, inl, inr, Bool, true, false, Option, none,
  some, List, [], ◌∷◌, ◌++◌, arith,
}
use mathlib.Core.List.{append_assoc}
use native.Mathlib.Nat.{mul-div_cancel}
use elusiv.Bytes.{find, find_from, matches_from, contains}

unfoldable pub eq_bytes : List ℕ → List ℕ → Bool
eq_bytes [] [] = true
eq_bytes [] (y ∷ ys) = false
eq_bytes (x ∷ xs) [] = false
eq_bytes (x ∷ xs) (y ∷ ys) = if x == y then eq_bytes xs ys else false

eq_bytes_head :
    (c v : List ℕ) (x y : ℕ)
    → get_elem? c 0 ≡ some x
    → get_elem? v 0 ≡ some y
    → eq_bytes c v ≡ (if x == y then eq_bytes (drop 1 c) (drop 1 v) else false)
unfolding eq_bytes
eq_bytes_head [] v x y e f = cc
eq_bytes_head (a ∷ c) [] x y e f = cc
eq_bytes_head (a ∷ c) (b ∷ v) x y e f = ground arith

-- The position of the first equal value, counted from `i`.
unfoldable pub position_from : ℕ → List ℕ → List (List ℕ) → Option ℕ
position_from i v [] = none
position_from i v (c ∷ cs) = if eq_bytes c v then some i else position_from (i + 1) v cs

-- The bytes of an array: its values' bytes, one after the other.
abbrev pub concat : List (List ℕ) → List ℕ
concat [] = []
concat (c ∷ cs) = c ++ concat cs

-- Each value takes `size` bytes.
abbrev pub AllSized : ℕ → List (List ℕ) → Type 0
AllSized size [] = Unit {0}
AllSized size (c ∷ cs) = (length c ≡ size) × AllSized size cs

length-concat :
    (size : ℕ) (cs : List (List ℕ)) → 1 ≤ size → AllSized size cs → length cs ≤ length (concat cs)
length-concat size [] h s = omega arith
length-concat size (c ∷ cs) h s =
    omega (arith, length-append c (concat cs), length-concat size cs h s.1, s.0)

length-concat_exact :
    (size : ℕ) (cs : List (List ℕ)) → AllSized size cs → length (concat cs) ≡ length cs * size
length-concat_exact size [] s = omega arith
length-concat_exact size (c ∷ cs) s =
    omega (arith, length-append c (concat cs), length-concat_exact size cs s.1, s.0)

module _ (size : ℕ) (v content : List ℕ) where
  matches_step :
      (rounds j offset a b : ℕ)
      → get_elem? content (offset + j) ≡ some a
      → get_elem? v j ≡ some b
      → matches_from size v content (suc rounds) j offset ≡ (
          if a == b
          then (if j == size - 1
              then ok true
              else matches_from size v content rounds (j + 1) offset)
          else ok false)
  unfolding matches_from
  matches_step rounds j offset a b ca vb = ground arith

  find_step :
      (rounds i offset a b : ℕ)
      → get_elem? content offset ≡ some a
      → get_elem? v 0 ≡ some b
      → (same : Bool)
      → (if a == b then matches_from size v content (size - 1) 1 offset else ok false) ≡ ok same
      → find_from size v content (suc rounds) i offset
        ≡ (if same then ok (some i) else find_from size v content rounds (i + 1) (offset + size))
  unfolding find_from
  find_step rounds i offset a b ca vb same m = rw (ca, vb, m)

module _ (size : ℕ) (v : List ℕ) (before : List ℕ) (c rest : List ℕ) (sized : length c ≡ size)
    (v_sized : length v ≡ size) where
  abbrev all_bytes : List ℕ
  all_bytes = before ++ (c ++ rest)

  byte_of : (j : ℕ) → j < size → get_elem? all_bytes (length before + j) ≡ get_elem? c j
  byte_of j h =
      get_elem?-append_right before (c ++ rest) j ∙ get_elem?-append_left c rest j (omega arith)

  -- The inner loop compares the rest of the two values.
  matches_from_lem :
      (rounds j : ℕ)
      → suc rounds + j ≡ size
      → matches_from size v all_bytes (suc rounds) j (length before)
        ≡ ok (eq_bytes (drop j c) (drop j v))
  unfolding eq_bytes
  matches_from_lem zero j e =
      let (x, cx) = get_elem?_in_range c j (omega arith) in
      let (y, vy) = get_elem?_in_range v j (omega arith) in
      let end : (j == size - 1) ≡ true = ground arith in
      rw
        (
          matches_step size v all_bytes zero j (length before) x y (byte_of j (omega arith) ∙ cx)
              vy,
          drop_at c j x cx,
          drop_at v j y vy,
          end,
          drop_all c (suc j) (omega arith),
          drop_all v (suc j) (omega arith),
        )
        (ground arith)
  matches_from_lem (suc rounds) j e =
      let (x, cx) = get_elem?_in_range c j (omega arith) in
      let (y, vy) = get_elem?_in_range v j (omega arith) in
      let inside : (j == size - 1) ≡ false = ground arith in
      let next : j + 1 ≡ suc j = omega arith in
      rw
        (
          matches_step size v all_bytes (suc rounds) j (length before) x y
              (byte_of j (omega arith) ∙ cx) vy,
          drop_at c j x cx,
          drop_at v j y vy,
          inside,
          next,
          matches_from_lem rounds (suc j) (omega arith),
        )
        (ground arith)

  -- One round of the outer loop compares the two values.
  round_lem :
      2 ≤ size
      → (x y : ℕ) → get_elem? c 0 ≡ some x
      → get_elem? v 0 ≡ some y
      → (if x == y then matches_from size v all_bytes (size - 1) 1 (length before) else ok false)
        ≡ ok (eq_bytes c v)
  round_lem h x y cx vy =
      let e : size - 1 ≡ suc (size - 2) = omega arith in
      rw (e, matches_from_lem (size - 2) 1 (omega arith), eq_bytes_head c v x y cx vy)
        (ground arith)

module _ (size : ℕ) (v : List ℕ) (large : 2 ≤ size) (v_sized : length v ≡ size) where
  find_round :
      (before c : List ℕ) (cs : List (List ℕ)) (i offset x y : ℕ)
      → AllSized size (c ∷ cs)
      → offset ≡ length before
      → get_elem? c 0 ≡ some x
      → get_elem? v 0 ≡ some y
      → find_from size v (before ++ (c ++ concat cs)) (length cs) (i + 1) (offset + size)
        ≡ ok (position_from (i + 1) v cs)
      → find_from size v (before ++ (c ++ concat cs)) (suc (length cs)) i offset
        ≡ ok (position_from i v (c ∷ cs))
  unfolding position_from
  find_round before c cs i offset x y s e cx vy tail =
      let bytes = before ++ (c ++ concat cs) in
      let here : get_elem? bytes offset ≡ some x =
        ap (get_elem? bytes) (omega arith)
        ∙ byte_of size v before c (concat cs) s.0 v_sized 0 (omega arith)
        ∙ cx in
      let same : (if x == y then matches_from size v bytes (size - 1) 1 offset else ok false)
          ≡ ok (eq_bytes c v) =
        rw e (round_lem size v before c (concat cs) s.0 v_sized large x y cx vy) in
      rw (find_step size v bytes (length cs) i offset x y here vy (eq_bytes c v) same, tail)
        (ground arith)

  find_from_lem :
      (before : List ℕ) (cs : List (List ℕ)) (i offset : ℕ)
      → AllSized size cs
      → offset ≡ length before
      → find_from size v (before ++ concat cs) (length cs) i offset ≡ ok (position_from i v cs)
  unfolding find_from position_from
  find_from_lem before [] i offset s e = refl
  find_from_lem before (c ∷ cs) i offset s e =
      let (x, cx) = get_elem?_in_range c 0 (omega arith) in
      let (y, vy) = get_elem?_in_range v 0 (omega arith) in
      find_round before c cs i offset x y s e cx vy (
        rw append_assoc at (
          find_from_lem (before ++ c) cs (i + 1) (offset + size) s.1
            (omega (arith, length-append before c))))

  -- `contains` tells whether some value is equal to the one sought.
  pub contains_lem :
      (cs : List (List ℕ))
      → AllSized size cs
      → contains size v (concat cs)
        ≡ ok (elim (position_from 0 v cs) [ none ↦ false | some _ ↦ true ])
  unfolding contains find
  contains_lem cs s =
      let count : length (concat cs) / size ≡ length cs =
        rw (length-concat_exact size cs s) (mul-div_cancel (length cs) {n = size} (omega arith)) in
      let fits : leb (length cs) (length (concat cs)) ≡ true =
        le→leb _ _ (length-concat size cs (omega arith) s) in
      rw (count, fits, find_from_lem [] cs 0 0 s refl)

  -- `find` over an array of values of at least two bytes each returns the position of the first value
  -- that is equal to the one sought, and never panics.
  pub find_lem :
      (cs : List (List ℕ))
      → AllSized size cs
      → find size v (concat cs) (length cs) ≡ ok (position_from 0 v cs)
  unfolding find
  find_lem cs s =
      let fits : leb (length cs) (length (concat cs)) ≡ true =
        le→leb _ _ (length-concat size cs (omega arith) s) in
      rw fits (find_from_lem [] cs 0 0 s refl)

pub eq_bytes_refl : (c : List ℕ) → eq_bytes c c ≡ true
unfolding eq_bytes
eq_bytes_refl [] = refl
eq_bytes_refl (x ∷ c) = rw (==_refl x, eq_bytes_refl c)

-- A value that stands in the array is found.
pub position_from_found :
    (i : ℕ) (v : List ℕ) (cs : List (List ℕ)) (p : ℕ)
    → get_elem? cs p ≡ some v
    → (k : ℕ) × (position_from i v cs ≡ some k)
unfolding position_from
position_from_found i v [] p e = cc
position_from_found i v (c ∷ cs) zero e = let same : c ≡ v = cc in (i, rw (same, eq_bytes_refl v))
position_from_found i v (c ∷ cs) (suc p) e =
    let (k, later) = position_from_found (i + 1) v cs p e in
    elim (Bool-cases (eq_bytes c v)) [ inl y ↦ (i, rw y) | inr n ↦ (k, rw n later) ]
