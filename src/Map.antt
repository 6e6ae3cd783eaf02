-- ===== src/Map.antt =====
-- elusiv/src/map.rs: `ElusivMap`, the insertion sorted map that the nullifier accounts use.
-- The two key types of the program, `u32` and `OrdU256`, are ordered as the numbers that they hold, so
-- a key is a number. A pointer is an index of the four arrays; a read out of range panics.
pub mod Insert
pub mod Search
pub mod Length
pub mod Pointers
pub mod Membership
pub mod Full
mod Tests
use elusiv.Base.{
  ltb, leb, ◌==◌, if◌then◌else◌, length, get_elem?, set, ◌>>◌, add_u32, mul_u32, ℕ, zero, suc, ◌+◌,
  ◌-◌, ◌/◌, ◌^◌, Bool, ◌||◌, none, some, List,
}
use Prim.Native.Nat.{compare, Ordering}

pub data ElusivMapError {ℓ} (V : Type ℓ) : Type ℓ where
  duplicate : V → ElusivMapError V
  key_too_large : ElusivMapError V
  key_not_found : ElusivMapError V

pub record ElusivMap {ℓ} (V : Type ℓ) : Type ℓ where
  pub len : ℕ
  pub min_ptr : ℕ
  pub max_ptr : ℕ
  pub mid_ptr : List ℕ
  pub next : List ℕ
  pub prev : List ℕ
  pub keys : List ℕ
  pub values : List V

-- What a method returns: a value, the error of the map, or a panic.
pub data Outcome {ℓ κ} (V : Type ℓ) (A : Type κ) : Type (ℓ ⊔ κ) where
  done : A → Outcome V A
  refused : ElusivMapError V → Outcome V A
  aborted : Outcome V A

infixl 5 ◌>>=◌
abbrev pub ◌>>=◌ {ℓ κ μ} :
    {V : Type ℓ} {A : Type κ} {B : Type μ} → Outcome V A → (A → Outcome V B) → Outcome V B
done a >>= f = f a
refused e >>= f = refused e
aborted >>= f = aborted

-- A read at a pointer.
abbrev pub at {ℓ κ} : {V : Type ℓ} {A : Type κ} → List A → ℕ → Outcome V A
at xs i = elim (get_elem? xs i) [ none ↦ aborted | some a ↦ done a ]

-- A write at a pointer.
abbrev pub put {ℓ κ} : {V : Type ℓ} {A : Type κ} → List A → ℕ → A → Outcome V (List A)
put xs i a = if ltb i (length xs) then done (set xs i a) else aborted

abbrev pub mid_ptr_height : ℕ
mid_ptr_height = 3

abbrev pub mid_ptr_count : ℕ
mid_ptr_count = 2 ^ (mid_ptr_height + 1) - 1

abbrev pub subsections : ℕ
subsections = mid_ptr_count + 1

unfoldable pub compute_mid : ℕ → ℕ → ℕ
compute_mid mid_ptr_index len = mul_u32 (add_u32 1 mid_ptr_index) len / subsections

-- Where the descent through the tree of mid-pointers stops: at a mid-pointer that is the one sought, or
-- at a leaf of the tree.
pub data Descent : Type 0 where
  hit leaf : ℕ → Descent

-- The `for` loop of `get_ptr`, with the rounds left: at `suc r` rounds left the step is `2 ^ r`.
unfoldable pub descend : ℕ → ℕ → ℕ → ℕ → Descent
unfolding compute_mid
descend zero index len m = leaf m
descend (suc r) index len m =
    let left = descend r index len (m - 2 ^ r) in
    let right = descend r index len (m + 2 ^ r) in
    elim (compare index (compute_mid m len)) [
      | Ordering.lt ↦ left
      | Ordering.eq ↦ hit m
      | Ordering.gt ↦ right
    ]

module _ {ℓ} {V : Type ℓ} where
  unfoldable pub is_empty : ElusivMap V → Bool
  is_empty m = m.len == 0

  abbrev pub key : ElusivMap V → ℕ → Outcome V ℕ
  key m ptr = at m.keys ptr

  abbrev pub value : ElusivMap V → ℕ → Outcome V V
  value m ptr = at m.values ptr

  abbrev pub get_prev : ElusivMap V → ℕ → Outcome V ℕ
  get_prev m ptr = at m.prev ptr

  abbrev pub get_next : ElusivMap V → ℕ → Outcome V ℕ
  get_next m ptr = at m.next ptr

  -- `offset` steps along `next`.
  unfoldable pub get_next_ptr : ElusivMap V → ℕ → ℕ → Outcome V ℕ
  get_next_ptr m base zero = done base
  get_next_ptr m base (suc offset) = do ptr ← get_next m base; get_next_ptr m ptr offset

  -- The walk from the last mid-pointer before the place, or from `base_ptr` if that is nearer.
  unfoldable pub get_ptr_near : ElusivMap V → ℕ → ℕ → ℕ × ℕ → Outcome V ℕ
  unfolding get_next_ptr
  get_ptr_near m base_ptr offset (d, ptr) =
      if ltb offset d then get_next_ptr m base_ptr offset else get_next_ptr m ptr d

  unfoldable pub get_ptr_leaf : ElusivMap V → ℕ → ℕ → ℕ → ℕ → Outcome V ℕ
  unfolding compute_mid get_ptr_near
  get_ptr_leaf m base_ptr offset index i = elim (compare index (compute_mid i m.len)) [
    | Ordering.lt ↦ if i == 0 then get_ptr_near m base_ptr offset (index, m.min_ptr) else do
      ptr ← at m.mid_ptr (i - 1)
      get_ptr_near m base_ptr offset (index - compute_mid (i - 1) m.len, ptr)
    | Ordering.eq ↦ at m.mid_ptr i
    | Ordering.gt ↦ do
      ptr ← at m.mid_ptr i
      get_ptr_near m base_ptr offset (index - compute_mid i m.len, ptr)
  ]

  -- The pointer `offset` places behind `base_ptr`, which stands at `base_ptr_offset`.
  unfoldable pub get_ptr : ElusivMap V → ℕ → ℕ → ℕ → Outcome V ℕ
  unfolding get_next_ptr get_ptr_leaf descend
  get_ptr m base_ptr base_ptr_offset offset =
      let distance = m.len / (mid_ptr_count + 1) in
      let index = add_u32 base_ptr_offset offset in
      if distance == 0 || leb offset 1
      then get_next_ptr m base_ptr offset
      else elim (descend mid_ptr_height index m.len (mid_ptr_count / 2)) [
        | hit i ↦ at m.mid_ptr i
        | leaf i ↦ get_ptr_leaf m base_ptr offset index i
      ]
