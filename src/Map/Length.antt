-- ===== src/Map/Length.antt =====
-- The parts of an insertion into a map, and what they leave alone.
use elusiv.Base.{
  ◌==◌, Bool-cases, get_elem?, set, ℕ, zero, suc, ◌+◌, ◌-◌, min, ◌≡◌, refl, ◌∙◌, ◌≢◌, inl, inr,
  false, Option, some, List, arith,
}
use elusiv.Map.{
  ElusivMap, Outcome, done, refused, aborted, ◌>>=◌, at, key, value, get_prev, get_next, get_ptr,
  mid_ptr_count,
}
use elusiv.Map.Insert.{
  set_entry, link_ptrs, update_mid_ptr, update_mid_ptrs_from, update_mid_ptrs, link_new,
  max_ptr_after, place_entry, insert_full,
}

module _ {ℓ κ μ} {V : Type ℓ} {A : Type κ} {B : Type μ} where
  pub >>=-eq-done :
      (o : Outcome V A) (f : A → Outcome V B) {b : B}
      → (o >>= f) ≡ done b
      → (a : A) × (o ≡ done a) × (f a ≡ done b)
  >>=-eq-done (done a) f h = (a, refl, h)
  >>=-eq-done (refused e) f h = cc
  >>=-eq-done aborted f h = cc

module _ {ℓ κ} {V : Type ℓ} {A : Type κ} where
  at-eq-done : (xs : List A) (i : ℕ) (a : A) → at {V = V} xs i ≡ done a → get_elem? xs i ≡ some a
  at-eq-done xs i a h = ground arith

module _ {ℓ} {V : Type ℓ} where
  -- The entries and the length are the same.
  pub record SameEntries (m m' : ElusivMap V) : Type ℓ where
    pub len_eq : m'.len ≡ m.len
    pub keys_eq : m'.keys ≡ m.keys
    pub values_eq : m'.values ≡ m.values

  pub SameEntries-refl : (m : ElusivMap V) → SameEntries m m
  SameEntries-refl m = record { len_eq = refl; keys_eq = refl; values_eq = refl }

  pub SameEntries-trans :
      {a b c : ElusivMap V} → SameEntries a b → SameEntries b c → SameEntries a c
  SameEntries-trans p q = record {
    len_eq = q.len_eq ∙ p.len_eq;
    keys_eq = q.keys_eq ∙ p.keys_eq;
    values_eq = q.values_eq ∙ p.values_eq;
  }

  pub link_ptrs_lem :
      (m m' : ElusivMap V) (a b : ℕ)
      → link_ptrs m a b ≡ done m'
      → SameEntries m m' × (m'.min_ptr ≡ m.min_ptr) × (m'.max_ptr ≡ m.max_ptr)
  unfolding link_ptrs
  link_ptrs_lem m m' a b h = ground arith

  link_twice_lem :
      (m m' : ElusivMap V) (a b c : ℕ)
      → (link_ptrs m a b >>= λ m₁. link_ptrs m₁ b c) ≡ done m'
      → SameEntries m m' × (m'.min_ptr ≡ m.min_ptr)
  link_twice_lem m m' a b c h =
      let (m₁, first, second) = >>=-eq-done (link_ptrs m a b) (λ m₁. link_ptrs m₁ b c) h in
      let (s, p, _) = link_ptrs_lem m m₁ a b first in
      let (t, q, _) = link_ptrs_lem m₁ m' b c second in (SameEntries-trans s t, q ∙ p)

  link_front :
      (m m' : ElusivMap V) (ptr : ℕ)
      → (link_ptrs m ptr m.min_ptr >>= λ m₁. done (record m₁ { min_ptr = ptr })) ≡ done m'
      → SameEntries m m'
  unfolding link_ptrs
  link_front m m' ptr h = ground arith

  link_back :
      (m m' : ElusivMap V) (ptr : ℕ)
      → (link_ptrs m m.max_ptr ptr >>= λ m₁. done (record m₁ { max_ptr = ptr })) ≡ done m'
      → SameEntries m m' × (m'.min_ptr ≡ m.min_ptr)
  unfolding link_ptrs
  link_back m m' ptr h = ground arith

  link_inside :
      (m m' : ElusivMap V) (ptr : ℕ) (place : Outcome V ℕ)
      → (place >>= λ prev.
          get_next m prev >>= λ next. link_ptrs m prev ptr >>= λ m₁. link_ptrs m₁ ptr next)
        ≡ done m'
      → SameEntries m m' × (m'.min_ptr ≡ m.min_ptr)
  link_inside m m' ptr place h =
      let (prev, _, f) =
        >>=-eq-done place
          (λ prev. get_next m prev >>= λ next. link_ptrs m prev ptr >>= λ m₁. link_ptrs m₁ ptr next)
          h in
      let (next, _, g) =
        >>=-eq-done (get_next m prev) (λ next. link_ptrs m prev ptr >>= λ m₁. link_ptrs m₁ ptr next)
          f in
      link_twice_lem m m' prev ptr next g

  -- Linking the new pointer moves no entry, and the minimum only at index 0.
  pub link_new_lem :
      (m m' : ElusivMap V) (ptr index : ℕ)
      → link_new m ptr index ≡ done m'
      → SameEntries m m' × (index ≢ 0 → m'.min_ptr ≡ m.min_ptr)
  unfolding link_new
  link_new_lem m m' ptr zero h = (link_front m m' ptr h, λ e. absurd (e refl))
  link_new_lem m m' ptr (suc i) h =
      let ne : (suc i == 0) ≡ false = ground arith in
      let h = rw ne at h in
      elim (Bool-cases (suc i == m.len)) [
        | inl back ↦ let (s, e) = link_back m m' ptr (rw back at h) in (s, λ _. e)
        | inr inside ↦
            let (s, e) =
              link_inside m m' ptr (get_ptr m m.min_ptr 0 (suc i - 1)) (rw inside at h) in
            (s, λ _. e)
      ]

module _ {ℓ} {V : Type ℓ} (capacity : ℕ) where
  update_mid_ptr_lem :
      (m m' : ElusivMap V) (index i : ℕ)
      → update_mid_ptr capacity m index i ≡ done m'
      → SameEntries m m' × (m'.min_ptr ≡ m.min_ptr) × (m'.max_ptr ≡ m.max_ptr)
  unfolding update_mid_ptr
  update_mid_ptr_lem m m' index i h = ground arith

  update_mid_ptrs_from_lem :
      (rounds i : ℕ) (m m' : ElusivMap V) (index : ℕ)
      → update_mid_ptrs_from capacity rounds i m index ≡ done m'
      → SameEntries m m' × (m'.min_ptr ≡ m.min_ptr) × (m'.max_ptr ≡ m.max_ptr)
  unfolding update_mid_ptrs_from
  update_mid_ptrs_from_lem zero i m m' index h = ground arith
  update_mid_ptrs_from_lem (suc rounds) i m m' index h =
      let (m₁, first, later) =
        >>=-eq-done (update_mid_ptr capacity m index i)
          (λ m₁. update_mid_ptrs_from capacity rounds (i + 1) m₁ index) h in
      let (s, p, q) = update_mid_ptr_lem m m₁ index i first in
      let (t, p', q') = update_mid_ptrs_from_lem rounds (i + 1) m₁ m' index later in
      (SameEntries-trans s t, p' ∙ p, q' ∙ q)

  pub update_mid_ptrs_lem :
      (m m' : ElusivMap V) (index : ℕ)
      → update_mid_ptrs capacity m index ≡ done m'
      → SameEntries m m' × (m'.min_ptr ≡ m.min_ptr) × (m'.max_ptr ≡ m.max_ptr)
  unfolding update_mid_ptrs
  update_mid_ptrs_lem m m' index h = update_mid_ptrs_from_lem mid_ptr_count 0 m m' index h

  pub set_entry_lem :
      (m m' : ElusivMap V) (ptr k : ℕ) (v : V)
      → set_entry m ptr k v ≡ done m'
      → (m'.keys ≡ set m.keys ptr k)
        × (m'.len ≡ m.len)
        × (m'.min_ptr ≡ m.min_ptr)
        × (m'.max_ptr ≡ m.max_ptr)
        × (m'.next ≡ m.next)
        × (m'.prev ≡ m.prev)
  unfolding set_entry
  set_entry_lem m m' ptr k v h = ground arith

  pub place_entry_lem :
      (m m' : ElusivMap V) (ptr k : ℕ) (v : V) (index : ℕ)
      → place_entry capacity m ptr k v index ≡ done m'
      → (m'.keys ≡ set m.keys ptr k) × (m'.len ≡ m.len) × (index ≢ 0 → m'.min_ptr ≡ m.min_ptr)
  unfolding place_entry
  place_entry_lem m m' ptr k v index h =
      let (m₁, e, h) =
        >>=-eq-done (set_entry m ptr k v)
          (λ m₁. link_new m₁ ptr index >>= λ m₂. update_mid_ptrs capacity m₂ index) h in
      let (m₂, f, h) =
        >>=-eq-done (link_new m₁ ptr index) (λ m₂. update_mid_ptrs capacity m₂ index) h in
      let (keys, len, min, _, _, _) = set_entry_lem m m₁ ptr k v e in
      let (s, link_min) = link_new_lem m₁ m₂ ptr index f in
      let (t, mid_min, _) = update_mid_ptrs_lem m₂ m' index h in
      (t.keys_eq ∙ s.keys_eq ∙ keys, t.len_eq ∙ s.len_eq ∙ len, λ ne. mid_min ∙ link_min ne ∙ min)

  -- The parts of an insertion into a full map, taken apart.
  pub insert_full_parts :
      (m m' : ElusivMap V) (k : ℕ) (v : V) (index : ℕ) (out : Option (ℕ × V))
      → insert_full capacity m k v index ≡ done (m', out)
      → (before : ℕ) × (m₃ : ElusivMap V) × (get_elem? m.prev m.max_ptr ≡ some before)
        × (place_entry capacity m m.max_ptr k v index ≡ done m₃)
        × (m' ≡ record m₃ { max_ptr = max_ptr_after index m₃.len m.max_ptr before })
  unfolding insert_full
  insert_full_parts m m' k v index out h =
      let closed : ℕ → V → ℕ → ElusivMap V → Outcome V (ElusivMap V × Option (ℕ × V)) =
        λ max_key max_value before m₃. done (
          record m₃ { max_ptr = max_ptr_after index m₃.len m.max_ptr before },
          some (max_key, max_value),
        ) in
      let placed = place_entry capacity m m.max_ptr k v index in
      let (max_key, _, h) =
        >>=-eq-done (key m m.max_ptr)
          (λ max_key. value m m.max_ptr >>= λ max_value.
            get_prev m m.max_ptr >>= λ before. placed >>= closed max_key max_value before)
          h in
      let (max_value, _, h) =
        >>=-eq-done (value m m.max_ptr)
          (λ max_value.
            get_prev m m.max_ptr >>= λ before. placed >>= closed max_key max_value before)
          h in
      let (before, e, h) =
        >>=-eq-done (get_prev m m.max_ptr) (λ before. placed >>= closed max_key max_value before)
          h in
      let (m₃, f, h) = >>=-eq-done placed (closed max_key max_value before) h in
      (before, m₃, at-eq-done m.prev m.max_ptr before e, f, cc)
