-- ===== src/Token/Amounts.antt =====
-- Sums, differences and limits of token amounts.
use elusiv.Base.{
  ltb, leb, ◌==◌, if◌then◌else◌, ==_iff, Bool-cases, length, get_elem?, ok_or, unwrap, >>=-eq-ok,
  ok_or-eq-ok, >>=-ok, ok_or-ok, unwrap-eq-ok, token_invalid_amount, underflow, overflow, ok, err,
  u64_mod, checked_add, checked_sub, ℕ, ◌+◌, ◌≤◌, ◌<◌, ◌≡◌, refl, ◌∙◌, inl, inr, true, false, ◌||◌,
  some, List, arith, dec_le,
}
use elusiv.Token.{
  ElusivToken, Token, lamports_token, spl_token, token_id, amount, new_spl, new, new_checked,
  enforce_token_equality, add, sub,
}

-- The id of an SPL token is not zero, and the amount is a `u64`.
abbrev pub IsToken : Token → Type 0
IsToken (lamports_token a) = a < u64_mod
IsToken (spl_token id a) = (0 < id) × (a < u64_mod)

pub new_lem : (id a : ℕ) (t : Token) → new id a ≡ ok t → (token_id t ≡ id) × (amount t ≡ a)
unfolding new new_spl token_id amount
new_lem id a t h = ground arith

new_of : (t : Token) → IsToken t → new (token_id t) (amount t) ≡ ok t
unfolding new new_spl token_id amount
new_of (lamports_token a) h = refl
new_of (spl_token id a) (pos, h) = let e : (id == 0) ≡ false = ground arith in rw e refl

equal_ids :
    (x y : Token) (id : ℕ)
    → enforce_token_equality x y ≡ ok id
    → (token_id x ≡ token_id y) × (id ≡ token_id x)
unfolding enforce_token_equality
equal_ids x y id h = ground arith

equal_ids_ok :
    (x y : Token) → token_id x ≡ token_id y → enforce_token_equality x y ≡ ok (token_id x)
unfolding enforce_token_equality
equal_ids_ok x y h =
    let e : (token_id x == token_id y) ≡ true = (==_iff (token_id x) (token_id y)).1 h in rw e refl

added : (a b c : ℕ) → checked_add u64_mod a b ≡ some c → (c ≡ a + b) × (c < u64_mod)
added a b c h = ground arith

taken_away : (a b : ℕ) → checked_sub (a + b) b ≡ some a
taken_away a b = ground arith

pub add_lem :
    (x y z : Token)
    → add x y ≡ ok z
    → (token_id x ≡ token_id y)
      × (token_id z ≡ token_id x)
      × (amount z ≡ amount x + amount y)
      × (amount z < u64_mod)
unfolding add
add_lem x y z h =
    let (id, e, h) = >>=-eq-ok (enforce_token_equality x y) _ h in
    let (sum, f, h) = >>=-eq-ok (ok_or (checked_add u64_mod (amount x) (amount y)) overflow) _ h in
    let (same, id_eq) = equal_ids x y id e in
    let (c, lt) =
      added (amount x) (amount y) sum
        (ok_or-eq-ok (checked_add u64_mod (amount x) (amount y)) overflow f) in
    let (i, a) = new_lem id sum z h in (same, i ∙ id_eq, a ∙ c, rw a lt)

-- What has been added to a token amount can be taken away again, and the amount before is left: where
-- the sum is returned, the difference is returned as well.
sub-add : (x y z : Token) → IsToken x → add x y ≡ ok z → sub z y ≡ ok x
unfolding sub
sub-add x y z valid h =
    let (same, id, sum, _) = add_lem x y z h in
    let left : checked_sub (amount z) (amount y) ≡ some (amount x) =
      rw sum (taken_away (amount x) (amount y)) in
    >>=-ok _ (equal_ids_ok z y (id ∙ same))
      (>>=-ok _ (ok_or-ok underflow left) (rw id (new_of x valid)))

checked_amount :
    (t : ElusivToken) (id a : ℕ) (x : Token)
    → (if ltb a t.min_amount || ltb t.max_amount a then err token_invalid_amount else new id a)
      ≡ ok x
    → (t.min_amount ≤ a) × (a ≤ t.max_amount) × (new id a ≡ ok x)
checked_amount t id a x h = elim (dec_le t.min_amount a) [
  | yes low ↦ elim (dec_le a t.max_amount) [
    | yes high ↦
        let e : (ltb a t.min_amount || ltb t.max_amount a) ≡ false = ground arith in
        (low, high, rw e at h)
    | no above ↦
        let e : (ltb a t.min_amount || ltb t.max_amount a) ≡ true = ground arith in
        let q = rw e at h in cc
  ]
  | no below ↦
      let e : (ltb a t.min_amount || ltb t.max_amount a) ≡ true = ground arith in
      let q = rw e at h in cc
]

-- A token that `new_checked` returns is of the id and the amount asked for, its id is in the table of
-- tokens, and its amount is within the limits of that token, both included.
pub new_checked-limits :
    (tokens : List ElusivToken) (id a : ℕ) (x : Token)
    → new_checked tokens id a ≡ ok x
    → (t : ElusivToken) × (get_elem? tokens id ≡ some t)
      × (token_id x ≡ id)
      × (amount x ≡ a)
      × (t.min_amount ≤ a)
      × (a ≤ t.max_amount)
unfolding new_checked
new_checked-limits tokens id a x h = elim (Bool-cases (leb (length tokens) id)) [
  | inl outside ↦ let q = rw outside at h in cc
  | inr inside ↦
      let q = rw inside at h in
      let (t, e, q) = >>=-eq-ok (unwrap (get_elem? tokens id)) _ q in
      let (low, high, made) = checked_amount t id a x q in
      let (i, m) = new_lem id a x made in (t, unwrap-eq-ok (get_elem? tokens id) e, i, m, low, high)
]
