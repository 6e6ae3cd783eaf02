-- ===== src/Map/Pointers.antt =====
-- The walks along the pointers of a map, and the errors of the map.
use elusiv.Base.{
  ltb, leb, ◌==◌, if◌then◌else◌, Bool-cases, Option-cases, get_elem?, add_u32, ℕ, zero, suc, ◌+◌,
  ◌-◌, ◌/◌, refl, ◌≢◌, inl, inr, Bool, true, false, ◌||◌, List,
}
use Prim.Native.Nat.{compare, Ordering}
use elusiv.Map.{
  ElusivMap, ElusivMapError, Outcome, done, refused, aborted, ◌>>=◌, at, get_next, get_next_ptr,
  get_ptr_near, get_ptr_leaf, get_ptr, Descent, hit, leaf, descend, mid_ptr_height, mid_ptr_count,
  compute_mid,
}

module _ {ℓ} {V : Type ℓ} where
  -- No error of the map is returned.
  abbrev pub NeverRefuses {κ} : {A : Type κ} → Outcome V A → Type (ℓ ⊔ κ)
  NeverRefuses o = (e : ElusivMapError V) → o ≢ refused e

  pub at-NeverRefuses {κ} : {A : Type κ} (xs : List A) (i : ℕ) → NeverRefuses (at xs i)
  at-NeverRefuses xs i e h = elim (Option-cases (get_elem? xs i)) [
    | inl e₁ ↦ let q = rw (e₁, at) at h in cc
    | inr (a, e₁) ↦ let q = rw (e₁, at) at h in cc
  ]

  pub >>=-NeverRefuses {κ} :
      {A : Type 0} {B : Type κ} (o : Outcome V A) (f : A → Outcome V B)
      → NeverRefuses o
      → ((a : A) → NeverRefuses (f a))
      → NeverRefuses (o >>= f)
  >>=-NeverRefuses (done a) f p q = q a
  >>=-NeverRefuses (refused e) f p q = absurd (p e refl)
  >>=-NeverRefuses aborted f p q = λ e h. cc

  get_next_ptr-NeverRefuses :
      (m : ElusivMap V) (base offset : ℕ) → NeverRefuses (get_next_ptr m base offset)
  unfolding get_next_ptr
  get_next_ptr-NeverRefuses m base zero = λ e h. cc
  get_next_ptr-NeverRefuses m base (suc offset) =
      >>=-NeverRefuses (get_next m base) (λ ptr. get_next_ptr m ptr offset)
        (at-NeverRefuses m.next base) (λ ptr. get_next_ptr-NeverRefuses m ptr offset)

  get_ptr_near-NeverRefuses :
      (m : ElusivMap V) (base_ptr offset d ptr : ℕ)
      → NeverRefuses (get_ptr_near m base_ptr offset (d, ptr))
  unfolding get_ptr_near
  get_ptr_near-NeverRefuses m base_ptr offset d ptr = elim (Bool-cases (ltb offset d)) [
    | inl y ↦ rw y (get_next_ptr-NeverRefuses m base_ptr offset)
    | inr n ↦ rw n (get_next_ptr-NeverRefuses m ptr d)
  ]

  compare-NeverRefuses :
      (o : Ordering) (a b c : Outcome V ℕ)
      → NeverRefuses a
      → NeverRefuses b
      → NeverRefuses c
      → NeverRefuses (elim o [ Ordering.lt ↦ a | Ordering.eq ↦ b | Ordering.gt ↦ c ])
  compare-NeverRefuses Ordering.lt a b c p q r = p
  compare-NeverRefuses Ordering.eq a b c p q r = q
  compare-NeverRefuses Ordering.gt a b c p q r = r

  Descent-NeverRefuses :
      (d : Descent) (f g : ℕ → Outcome V ℕ)
      → ((i : ℕ) → NeverRefuses (f i))
      → ((i : ℕ) → NeverRefuses (g i))
      → NeverRefuses (elim d [ hit i ↦ f i | leaf i ↦ g i ])
  Descent-NeverRefuses (hit i) f g p q = p i
  Descent-NeverRefuses (leaf i) f g p q = q i

  if-NeverRefuses :
      (b : Bool) (x y : Outcome V ℕ)
      → NeverRefuses x
      → NeverRefuses y
      → NeverRefuses (if b then x else y)
  if-NeverRefuses true x y p q = p
  if-NeverRefuses false x y p q = q

  get_ptr_leaf-NeverRefuses :
      (m : ElusivMap V) (base_ptr offset index i : ℕ)
      → NeverRefuses (get_ptr_leaf m base_ptr offset index i)
  unfolding get_ptr_leaf
  get_ptr_leaf-NeverRefuses m base_ptr offset index i =
      let near = get_ptr_near-NeverRefuses m base_ptr offset in
      let from : (j d : ℕ)
          → NeverRefuses (at m.mid_ptr j >>= λ ptr. get_ptr_near m base_ptr offset (d, ptr)) =
        λ j d.
          >>=-NeverRefuses (at m.mid_ptr j) (λ ptr. get_ptr_near m base_ptr offset (d, ptr))
            (at-NeverRefuses m.mid_ptr j) (near d) in
      compare-NeverRefuses (compare index (compute_mid i m.len)) _ _ _
        (if-NeverRefuses (i == 0) _ _ (near index m.min_ptr)
          (from (i - 1) (index - compute_mid (i - 1) m.len)))
        (at-NeverRefuses m.mid_ptr i) (from i (index - compute_mid i m.len))

  pub get_ptr-NeverRefuses :
      (m : ElusivMap V) (base_ptr base offset : ℕ) → NeverRefuses (get_ptr m base_ptr base offset)
  unfolding get_ptr
  get_ptr-NeverRefuses m base_ptr base offset =
      let index = add_u32 base offset in
      if-NeverRefuses (m.len / (mid_ptr_count + 1) == 0 || leb offset 1) _ _
        (get_next_ptr-NeverRefuses m base_ptr offset)
        (Descent-NeverRefuses (descend mid_ptr_height index m.len (mid_ptr_count / 2))
          (λ i. at m.mid_ptr i) (λ i. get_ptr_leaf m base_ptr offset index i)
          (λ i. at-NeverRefuses m.mid_ptr i)
          (λ i. get_ptr_leaf-NeverRefuses m base_ptr offset index i))
