-- ===== src/Storage/Nodes.antt =====
-- Writing and reading the nodes of the tree.
use elusiv.Base.{
  ltb, leb, if◌then◌else◌, ltb→lt, Bool-cases, length, get_elem?, set, get_elem?-set_self,
  get_elem?-set_ne, in_range_of, ◌>>=◌, ok_or, unwrap, >>=-eq-ok, ok_injective, ok_or-eq-ok, >>=-ok,
  unwrap-eq-ok, unwrap-ok, >>=-congruent, not_enough_account_keys, ok, panic, ℕ, ◌-◌, ◌<◌, ◌≡◌,
  refl, sym, ap, ◌∙◌, ◌≢◌, inl, inr, true, false, Option, some, List, ℕ_discrete,
}
use elusiv.Storage.{
  StorageAccount, mt_height, use_default_value, mt_array_index, account_and_local_index, read_child,
  write_place, write_child, set_node, get_node,
}
use elusiv.Storage.Index.{mt_array_index_injective, account_and_local_index_injective}

module _ {ℓ} {N : Type ℓ} where
  read_child_at :
      (children : List (Option (List N))) (a p : ℕ) (values : List N) (v : N)
      → get_elem? children a ≡ some (some values)
      → get_elem? values p ≡ some v
      → read_child children (a, p) ≡ ok v
  unfolding read_child
  read_child_at children a p values v e f = >>=-ok _ (unwrap-ok e) (unwrap-ok f)

  write_child_parts :
      (children children' : List (Option (List N))) (a p : ℕ) (v : N)
      → write_child children (a, p) v ≡ ok children'
      → (values : List N) × (get_elem? children a ≡ some (some values))
        × (p < length values)
        × (children' ≡ set children a (some (set values p v)))
  unfolding write_child write_place
  write_child_parts children children' a p v h =
      let (child, e, h) = >>=-eq-ok (unwrap (get_elem? children a)) _ h in
      let (values, f, h) = >>=-eq-ok (ok_or child not_enough_account_keys) _ h in
      elim (Bool-cases (ltb p (length values))) [
        | inl inside ↦ (
          values,
          unwrap-eq-ok (get_elem? children a) e
              ∙ ap some (ok_or-eq-ok child not_enough_account_keys f),
          ltb→lt p (length values) inside,
          let q = rw inside at h in sym (ok_injective q),
        )
        | inr outside ↦ let q = rw outside at h in cc
      ]

  pub read_child-write_child_self :
      (children children' : List (Option (List N))) (a p : ℕ) (v : N)
      → write_child children (a, p) v ≡ ok children'
      → read_child children' (a, p) ≡ ok v
  read_child-write_child_self children children' a p v h =
      let (values, e, lt, eq) = write_child_parts children children' a p v h in
      rw eq (
        read_child_at (set children a (some (set values p v))) a p (set values p v) v
          (get_elem?-set_self children a (some (set values p v)) (in_range_of children a e))
          (get_elem?-set_self values p v lt))

  read_child_cong :
      (c c' : List (Option (List N))) (b q : ℕ)
      → get_elem? c' b ≡ get_elem? c b
      → read_child c' (b, q) ≡ read_child c (b, q)
  unfolding read_child
  read_child_cong c c' b q e = rw e refl

  read_child_values :
      (c c' : List (Option (List N))) (b q : ℕ) (xs ys : List N)
      → get_elem? c' b ≡ some (some xs)
      → get_elem? c b ≡ some (some ys)
      → get_elem? xs q ≡ get_elem? ys q
      → read_child c' (b, q) ≡ read_child c (b, q)
  unfolding read_child
  read_child_values c c' b q xs ys e f g = rw (e, f, unwrap, ◌>>=◌, ok_or, g) refl

  pub read_child-write_child_other :
      (children children' : List (Option (List N))) (a p b q : ℕ) (v : N)
      → write_child children (a, p) v ≡ ok children'
      → ◌≢◌ {A = ℕ × ℕ} (a, p) (b, q)
      → read_child children' (b, q) ≡ read_child children (b, q)
  read_child-write_child_other children children' a p b q v h differ =
      let (values, e, lt, eq) = write_child_parts children children' a p v h in
      let new = set values p v in
      elim (ℕ_discrete a b) [
        | no other ↦ rw eq (
            read_child_cong children (set children a (some new)) b q
              (get_elem?-set_ne children a b (some new) other))
        | yes same ↦
            let ne : p ≢ q = λ z. differ (cc) in
            rw (eq, ← same)
              (read_child_values children (set children a (some new)) a q new values
                (get_elem?-set_self children a (some new) (in_range_of children a e)) e
                (get_elem?-set_ne values p q v ne))
      ]

  pub set_node_parts :
      (s s' : StorageAccount N) (v : N) (i l : ℕ)
      → set_node s v i l ≡ ok s'
      → (leb l mt_height ≡ true)
        × (p : ℕ) × (c : List (Option (List N))) × (mt_array_index i l ≡ ok p)
        × (write_child s.children (account_and_local_index p) v ≡ ok c)
        × (s' ≡ record s { children = c })
  unfolding set_node
  set_node_parts s s' v i l h = elim (Bool-cases (leb l mt_height)) [
    | inr deep ↦ let q = rw deep at h in cc
    | inl fine ↦
        let q = rw fine at h in
        let (p, e, q) = >>=-eq-ok (mt_array_index i l) _ q in
        let (c, f, q) = >>=-eq-ok (write_child s.children (account_and_local_index p) v) _ q in
        (fine, p, c, e, f, sym (ok_injective q))
  ]

module _ {ℓ} {N : Type ℓ} (empty_tree : List N) where
  get_node_stored :
      (s : StorageAccount N) (i l p : ℕ)
      → leb l mt_height ≡ true
      → use_default_value i l s.next_commitment_ptr ≡ false
      → mt_array_index i l ≡ ok p
      → get_node empty_tree s i l ≡ read_child s.children (account_and_local_index p)
  unfolding get_node
  get_node_stored s i l p a b e = rw (a, b) (>>=-ok _ e refl)

  -- A node that has been set and lies in the filled part of the tree is read back.
  pub get_node-set_node_self :
      (s s' : StorageAccount N) (v : N) (i l : ℕ)
      → set_node s v i l ≡ ok s'
      → use_default_value i l s.next_commitment_ptr ≡ false
      → get_node empty_tree s' i l ≡ ok v
  get_node-set_node_self s s' v i l h filled =
      let (fine, p, c, e, f, eq) = set_node_parts s s' v i l h in
      let (a, q) = account_and_local_index p in
      rw eq (
        get_node_stored (record s { children = c }) i l p fine filled e
        ∙ read_child-write_child_self s.children c a q v f)

  get_node_children :
      (s : StorageAccount N) (c : List (Option (List N))) (j k : ℕ)
      → ((q : ℕ)
          → mt_array_index j k ≡ ok q
          → read_child c (account_and_local_index q)
            ≡ read_child s.children (account_and_local_index q))
      → get_node empty_tree (record s { children = c }) j k ≡ get_node empty_tree s j k
  unfolding get_node
  get_node_children s c j k h =
      let place = mt_array_index j k in
      ap
        (λ t.
          if leb k mt_height
          then (if use_default_value j k s.next_commitment_ptr
              then unwrap (get_elem? empty_tree (mt_height - k))
              else t)
          else panic)
        (>>=-congruent place (λ q. read_child c (account_and_local_index q))
          (λ q. read_child s.children (account_and_local_index q)) h)

  -- Setting a node changes no other node of the tree, whatever the levels of the two.
  pub get_node-set_node_other :
      (s s' : StorageAccount N) (v : N) (i l j k : ℕ)
      → set_node s v i l ≡ ok s'
      → ◌≢◌ {A = ℕ × ℕ} (i, l) (j, k)
      → get_node empty_tree s' j k ≡ get_node empty_tree s j k
  get_node-set_node_other s s' v i l j k h differ =
      let (fine, p, c, e, f, eq) = set_node_parts s s' v i l h in
      let (a, b) = account_and_local_index p in
      rw eq (
        get_node_children s c j k (λ q e'.
          let (a', b') = account_and_local_index q in
          read_child-write_child_other s.children c a b a' b' v f (λ same.
            let place : p ≡ q = account_and_local_index_injective p q same in
            let (node, level) = mt_array_index_injective i j l k q (e ∙ ap ok place) e' in
            differ (rw (node, level) refl))))
