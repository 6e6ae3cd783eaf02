-- ===== src/Proof/Check/Different.antt =====
-- The inputs of an accepted proof: their nullifier hashes differ tree by tree, and are new.
use elusiv.Base.{
  ltb, leb, ◌==◌, if◌then◌else◌, ==_iff, Bool-cases, Option-cases, length, get_elem?, length-append,
  ◌>>=◌, guard, from_elusiv, >>=-eq-ok, guard-eq-ok, ok_injective, unwrap-eq-ok,
  invalid_instruction_data, invalid_amount, invalid_merkle_root, could_not_insert_nullifier,
  invalid_recent_commitment_index, invalid_public_inputs, ProgramError, Result, ok, read, ℕ, zero,
  suc, ◌+◌, ◌≡◌, sym, ap, ◌∙◌, subst, ◌≢◌, inl, inr, Bool, true, false, not, ◌&&◌, ◌||◌, none, some,
  List, [], ◌∷◌, ◌++◌, arith,
}
use mathlib.Core.List.{append-nil, append_assoc}
use elusiv.Storage.{StorageAccount, is_root_valid}
use elusiv.Nullifier.{join_split_max_n_arity, NullifierAccount, can_insert_nullifier_hash}
use elusiv.Proof.{InputCommitment, JoinSplitPublicInputs}
use elusiv.Commitment.Processor.{verify_recent_commitment_index}
use elusiv.Proof.Check.{
  is_vec_duplicate_free, max_mt_count, Trees, check_duplicates, check_root, check_roots,
  check_nullifiers, check_join_split_public_inputs,
}

-- The tree of each input: an input with a root starts the next tree, one without is of the first tree.
unfoldable pub trees_of : ℕ → List InputCommitment → List ℕ
trees_of seen [] = []
trees_of seen (c ∷ cs) = elim c.root [
  | none ↦ 0 ∷ trees_of seen cs
  | some root ↦ seen ∷ trees_of (suc seen) cs
]

duplicate_step :
    (tree_index : List ℕ) (i : ℕ) (c : InputCommitment) (j : ℕ) (d : InputCommitment)
    (ds : List InputCommitment)
    → check_duplicates tree_index i c j (d ∷ ds) ≡ ok tt
    → (check_duplicates tree_index i c (suc j) ds ≡ ok tt)
      × (i ≢ j
          → c.nullifier_hash ≡ d.nullifier_hash
          → (t : ℕ) → get_elem? tree_index i ≡ some t
          → get_elem? tree_index j ≢ some t)
unfolding check_duplicates
duplicate_step tree_index i c j d ds h =
    let same = c.nullifier_hash == d.nullifier_hash in
    elim (Bool-cases (i == j)) [
      | inl p ↦ (rw p at h, λ ne. absurd (ne ((==_iff i j).0 p)))
      | inr p ↦ elim (Bool-cases same) [
        | inr q ↦ (rw (p, q) at h, λ ne e. absurd (let r : same ≡ true = (==_iff _ _).1 e in cc))
        | inl q ↦
            let h = rw (p, q) at h in
            let (x, e, h) = >>=-eq-ok (read {E = ProgramError} tree_index i) _ h in
            let (y, f, h) = >>=-eq-ok (read {E = ProgramError} tree_index j) _ h in
            let (u, g, h) =
              >>=-eq-ok (guard (not (x == y)) (from_elusiv invalid_public_inputs)) _ h in
            let differ : not (x == y) ≡ true = guard-eq-ok (not (x == y)) _ g in
            (
              h,
              λ ne e' t a b.
                  let first : get_elem? tree_index i ≡ some x = unwrap-eq-ok _ e in
                  let second : get_elem? tree_index j ≡ some y = unwrap-eq-ok _ f in
                  let equal : x ≡ y = cc in
                  let one : (x == y) ≡ true = (==_iff x y).1 equal in
                  let zero : not (x == y) ≡ false = ap not one in absurd (cc),
            )
      ]
    ]

duplicates_differ :
    (tree_index : List ℕ) (i : ℕ) (c : InputCommitment) (j : ℕ) (ds : List InputCommitment)
    → check_duplicates tree_index i c j ds ≡ ok tt
    → (k : ℕ) (d : InputCommitment) (t : ℕ) → get_elem? ds k ≡ some d
    → i ≢ j + k
    → get_elem? tree_index i ≡ some t
    → get_elem? tree_index (j + k) ≡ some t
    → c.nullifier_hash ≢ d.nullifier_hash
unfolding check_duplicates
duplicates_differ tree_index i c j [] h k d t e ne a b same = absurd (cc)
duplicates_differ tree_index i c j (d ∷ ds) h zero d' t e ne a b same =
    let z : j + 0 ≡ j = omega arith in
    let which : d ≡ d' = cc in
    (duplicate_step tree_index i c j d ds h).1 (rw z at ne)
      (same ∙ ap (λ x. x.nullifier_hash) (sym which)) t a (rw z at b)
duplicates_differ tree_index i c j (d ∷ ds) h (suc k) d' t e ne a b same =
    let shift : j + suc k ≡ suc j + k = omega arith in
    duplicates_differ tree_index i c (suc j) ds (duplicate_step tree_index i c j d ds h).0 k d' t e
      (rw shift at ne) a (rw shift at b) same

module _ (reduce : ℕ → ℕ) (zero_commitment_raw : ℕ) (empty_tree : List ℕ) where
  abbrev root_check :
      StorageAccount ℕ → List NullifierAccount → Trees → ℕ → ℕ → Result ProgramError Bool
  unfolding is_root_valid
  root_check storage accounts t tree root =
      if tree == storage.trees_count
      then is_root_valid empty_tree ◌==◌ storage (reduce root)
      else (read accounts (length t.roots) >>= λ a. ok (reduce root == a.root))

  check_root_tree :
      (storage : StorageAccount ℕ) (accounts : List NullifierAccount) (tree_indices : List ℕ)
      (c : InputCommitment) (cs : List InputCommitment) (t t' : Trees)
      → check_root reduce zero_commitment_raw empty_tree storage accounts tree_indices c t ≡ ok t'
      → t.tree_index ++ trees_of (length t.roots) (c ∷ cs)
        ≡ t'.tree_index ++ trees_of (length t'.roots) cs
  unfolding check_root trees_of
  check_root_tree storage accounts tree_indices c cs t t' h = elim (Option-cases c.root) [
    | inl q ↦
        let h = rw q at h in
        let (first, e, h) = >>=-eq-ok (read {E = ProgramError} t.nullifier_hashes 0) _ h in
        subst
          (λ x.
            t.tree_index ++ trees_of (length t.roots) (c ∷ cs)
            ≡ x.tree_index ++ trees_of (length x.roots) cs)
          (ok_injective h)
          (rw q (sym (append_assoc t.tree_index (0 ∷ []) (trees_of (length t.roots) cs))))
    | inr (root, q) ↦
        let h = rw q at h in
        let (tree, e, h) = >>=-eq-ok (read {E = ProgramError} tree_indices (length t.roots)) _ h in
        let (valid, v, h) = >>=-eq-ok (root_check storage accounts t tree root) _ h in
        let (u, g, h) = >>=-eq-ok (guard valid (from_elusiv invalid_merkle_root)) _ h in
        subst
          (λ x.
            t.tree_index ++ trees_of (length t.roots) (c ∷ cs)
            ≡ x.tree_index ++ trees_of (length x.roots) cs)
          (ok_injective h)
          (rw q (
            let longer : length (t.roots ++ root ∷ []) ≡ suc (length t.roots) =
              length-append t.roots (root ∷ []) ∙ (omega arith) in
            rw longer (
              sym (
                append_assoc t.tree_index (length t.roots ∷ [])
                  (trees_of (suc (length t.roots)) cs)))))
  ]

  check_roots_trees :
      (storage : StorageAccount ℕ) (accounts : List NullifierAccount) (tree_indices : List ℕ)
      (cs : List InputCommitment) (t t' : Trees)
      → check_roots reduce zero_commitment_raw empty_tree storage accounts tree_indices cs t ≡ ok t'
      → t'.tree_index ≡ t.tree_index ++ trees_of (length t.roots) cs
  unfolding check_roots trees_of
  check_roots_trees storage accounts tree_indices [] t t' h =
      (let same : t ≡ t' = ok_injective h in
        ap (λ x. x.tree_index) (sym same) ∙ sym (append-nil t.tree_index))
  check_roots_trees storage accounts tree_indices (c ∷ cs) t t' h =
      (let (m, e, h) =
          >>=-eq-ok
            (check_root reduce zero_commitment_raw empty_tree storage accounts tree_indices c t) _
            h in
        check_roots_trees storage accounts tree_indices cs m t' h
        ∙ sym (check_root_tree storage accounts tree_indices c cs t m e))

  -- The input's nullifier hash can be inserted into its tree.
  pub record IsNew (accounts : List NullifierAccount) (c : InputCommitment) (tree : ℕ)
      : Type 0 where
    pub account : NullifierAccount
    pub of_tree : get_elem? accounts tree ≡ some account
    pub free : can_insert_nullifier_hash account (reduce c.nullifier_hash) ≡ ok true

  nullifiers_checked :
      (accounts : List NullifierAccount) (tree_index : List ℕ) (inputs : List InputCommitment)
      (i : ℕ) (cs : List InputCommitment)
      → check_nullifiers reduce zero_commitment_raw empty_tree accounts tree_index inputs i cs
        ≡ ok tt
      → (k : ℕ) (c : InputCommitment) (tree : ℕ) → get_elem? cs k ≡ some c
      → get_elem? tree_index (i + k) ≡ some tree
      → (check_duplicates tree_index (i + k) c 0 inputs ≡ ok tt) × IsNew accounts c tree
  unfolding check_nullifiers
  nullifiers_checked accounts tree_index inputs i [] h k c tree e at = absurd (cc)
  nullifiers_checked accounts tree_index inputs i (d ∷ ds) h k c tree e at =
      let (u, differ, h) = >>=-eq-ok (check_duplicates tree_index i d 0 inputs) _ h in
      let (tree', r, h) = >>=-eq-ok (read {E = ProgramError} tree_index i) _ h in
      let (account, f, h) = >>=-eq-ok (read {E = ProgramError} accounts tree') _ h in
      let (free, g, h) =
        >>=-eq-ok (can_insert_nullifier_hash account (reduce d.nullifier_hash)) _ h in
      let (v, p, h) = >>=-eq-ok (guard free (from_elusiv could_not_insert_nullifier)) _ h in
      elim k
          as (λ k.
            get_elem? (d ∷ ds) k ≡ some c
            → get_elem? tree_index (i + k) ≡ some tree
            → (check_duplicates tree_index (i + k) c 0 inputs ≡ ok tt) × IsNew accounts c tree) [
              | zero ↦ λ e at.
                  let z : i + 0 ≡ i = omega arith in
                  let which : d ≡ c = cc in
                  let at = rw z at at in
                  let first : get_elem? tree_index i ≡ some tree' = unwrap-eq-ok _ r in
                  let same : tree' ≡ tree = cc in
                  let is_free : free ≡ true = guard-eq-ok free _ p in
                  let place : get_elem? accounts tree' ≡ some account = unwrap-eq-ok _ f in
                  (
                    rw z (
                        subst (λ x. check_duplicates tree_index i x 0 inputs ≡ ok tt) which differ),
                    subst (λ x. IsNew accounts x tree) which
                        (subst (IsNew accounts d) same (record {
                          account = account;
                          of_tree = place;
                          free = g ∙ ap ok is_free;
                        })),
                  )
              | suc k ↦ λ e at.
                  let shift : i + suc k ≡ suc i + k = omega arith in
                  rw shift (
                    nullifiers_checked accounts tree_index inputs (suc i) ds h k c tree e
                      (rw shift at at))
            ]
        e at

  abbrev check :
      JoinSplitPublicInputs
      → StorageAccount ℕ
      → List NullifierAccount
      → List ℕ
      → Result ProgramError (Unit {0})
  check = check_join_split_public_inputs reduce zero_commitment_raw empty_tree

  -- Both loops have gone through, the second one with the trees that the first one has found.
  loops_passed :
      (j : JoinSplitPublicInputs) (storage : StorageAccount ℕ) (accounts : List NullifierAccount)
      (tree_indices : List ℕ)
      → check j storage accounts tree_indices ≡ ok tt
      → (t : Trees) × (t.tree_index ≡ trees_of 0 j.input_commitments)
        × (check_nullifiers reduce zero_commitment_raw empty_tree accounts t.tree_index
              j.input_commitments 0 j.input_commitments
            ≡ ok tt)
  unfolding check_join_split_public_inputs
  loops_passed j storage accounts tree_indices h =
      let inputs = j.input_commitments in
      let invalid = from_elusiv invalid_public_inputs in
      let none_yet : Trees = record { roots = []; tree_index = []; nullifier_hashes = [] } in
      let (u, g, h) =
        >>=-eq-ok (guard (not (j.output_commitment == zero_commitment_raw)) invalid) _ h in
      let (first, r, h) = >>=-eq-ok (read {E = ProgramError} inputs 0) _ h in
      let (u, g, h) =
        >>=-eq-ok (guard (elim (first.root) [ none ↦ false | some r ↦ true ]) invalid) _ h in
      let (u, g, h) = >>=-eq-ok (guard (leb (length inputs) join_split_max_n_arity) invalid) _ h in
      let (u, g, h) =
        >>=-eq-ok
          (guard (verify_recent_commitment_index j.recent_commitment_index storage)
            (from_elusiv invalid_recent_commitment_index))
          _ h in
      let (u, g, h) =
        >>=-eq-ok (guard (leb (j.optional_fee.amount) j.amount) (from_elusiv invalid_amount)) _ h in
      let (t, e, h) =
        >>=-eq-ok
          (check_roots reduce zero_commitment_raw empty_tree storage accounts tree_indices inputs
            none_yet)
          _ h in
      let count = length t.roots in
      let (u, g, h) = >>=-eq-ok (guard (not (count == 0) && leb count max_mt_count) invalid) _ h in
      let (u, g, h) = >>=-eq-ok (guard (leb count (length tree_indices)) invalid) _ h in
      let (u, g, h) =
        >>=-eq-ok
          (guard (not (ltb 1 count) || is_vec_duplicate_free tree_indices)
            (from_elusiv invalid_instruction_data))
          _ h in
      (t, check_roots_trees storage accounts tree_indices inputs none_yet t e, h)

  -- Of public inputs that the check accepts, every input's nullifier hash can be inserted into the account of
  -- the input's tree, and two inputs of the same tree have different nullifier hashes. The tree of an
  -- input is the number of the roots before it, or the first tree if it has no root.
  pub check_join_split_public_inputs_lem :
      (j : JoinSplitPublicInputs) (storage : StorageAccount ℕ) (accounts : List NullifierAccount)
      (tree_indices : List ℕ)
      → check_join_split_public_inputs reduce zero_commitment_raw empty_tree j storage accounts
          tree_indices
        ≡ ok tt
      → (i : ℕ) (c : InputCommitment) (tree : ℕ) → get_elem? j.input_commitments i ≡ some c
      → get_elem? (trees_of 0 j.input_commitments) i ≡ some tree
      → IsNew accounts c tree
        × ((k : ℕ) (d : InputCommitment)
            → i ≢ k
            → get_elem? j.input_commitments k ≡ some d
            → get_elem? (trees_of 0 j.input_commitments) k ≡ some tree
            → c.nullifier_hash ≢ d.nullifier_hash)
  check_join_split_public_inputs_lem j storage accounts tree_indices h i c tree e at =
      let (t, trees, passed) = loops_passed j storage accounts tree_indices h in
      let at' : get_elem? t.tree_index i ≡ some tree = rw trees at in
      let z : 0 + i ≡ i = omega arith in
      let (differ, new) =
        nullifiers_checked accounts t.tree_index j.input_commitments 0 j.input_commitments passed i
          c tree e (rw z at') in
      (
        new,
        λ k d ne f b.
            let z' : 0 + k ≡ k = omega arith in
            duplicates_differ t.tree_index i c 0 j.input_commitments (rw z at differ) k d tree f
              (rw z' ne) at' (rw (z', trees) b),
      )
