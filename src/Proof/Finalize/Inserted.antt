-- ===== src/Proof/Finalize/Inserted.antt =====
-- The instructions that insert the nullifiers, one after the other.
use elusiv.Base.{
  ltb, leb, ◌==◌, if◌then◌else◌, ltb→lt, ==_iff, Bool-cases, length, get_elem?, take,
  get_elem?_in_range, guard, from_elusiv, >>=-eq-ok, guard-eq-ok, ok_injective,
  invalid_account_state, ok, u32_mod, add_u32, sub_u64, ℕ, zero, suc, ◌+◌, ◌≤◌, ◌<◌, ◌≡◌, refl, sym,
  ap, ◌∙◌, subst, ◌≢◌, inl, inr, Bool, true, not, ◌&&◌, some, List, [], ◌∷◌, ◌++◌, map, arith,
}
use elusiv.Nullifier.{
  NullifierAccount, try_insert_nullifier_hash, move_nullifier_hashes_to_next_account,
  is_moved_nullifier_empty,
}
use elusiv.Proof.{
  InputCommitment, send, SendPublicInputs, VerificationAccount, VerificationState, initialized,
  fee_transferred, proof_setup, insert_nullifiers, finalized, closed,
}
use elusiv.Proof.Finalize.{
  is_inserting, after_insertion, requests_send, tree_at, trees_seen, insert_input, insert_or_move,
  finalize_verification_insert_nullifier,
}

pub inserting_of : (v : VerificationState) → is_inserting v ≡ true → v ≡ insert_nullifiers
inserting_of insert_nullifiers h = refl
inserting_of initialized h = cc
inserting_of fee_transferred h = cc
inserting_of proof_setup h = cc
inserting_of finalized h = cc
inserting_of closed h = cc

stepped :
    (index count : ℕ)
    → index ≤ count
    → count < u32_mod
    → ((if ltb index count then add_u32 index 1 else index)
        ≡ (if ltb index count then index + 1 else index))
      × ((if ltb index count then add_u32 index 1 else index) ≤ count)
stepped index count within few = ground arith

last_step :
    (index count : ℕ) (empty : Bool)
    → 0 < count
    → count < u32_mod
    → index ≤ count
    → (leb (sub_u64 count 1) index && empty) ≡ true
    → (if ltb index count then add_u32 index 1 else index) ≡ count
last_step index count empty some_input few within last = ground arith

module _ (reduce : ℕ → ℕ) where
  -- The nullifier hashes have been inserted one after the other, with moves in between.
  pub data IsInserted : List ℕ → NullifierAccount → NullifierAccount → Type 0 where
    none_inserted : (n : NullifierAccount) → IsInserted [] n n
    insertion :
        (hashes : List ℕ) (n m k : NullifierAccount) (hash : ℕ)
        → IsInserted hashes n m
        → try_insert_nullifier_hash m hash ≡ ok k
        → IsInserted (hashes ++ hash ∷ []) n k
    movement :
        (hashes : List ℕ) (n m k : NullifierAccount)
        → IsInserted hashes n m
        → move_nullifier_hashes_to_next_account m ≡ ok k
        → IsInserted hashes n k

  -- The reduced nullifier hashes of the first inputs.
  abbrev pub hashes_of : ℕ → List InputCommitment → List ℕ
  hashes_of count inputs = map (λ c. reduce c.nullifier_hash) (take count inputs)

  insert_step :
      (sought index tree_index : ℕ) (d : InputCommitment) (ds : List InputCommitment)
      (n m : NullifierAccount)
      → insert_input reduce sought index tree_index (d ∷ ds) n ≡ ok m
      → (index ≡ sought → try_insert_nullifier_hash n (reduce d.nullifier_hash) ≡ ok m)
        × (index ≢ sought
            → insert_input reduce sought (suc index) (trees_seen d tree_index) ds n ≡ ok m)
  unfolding insert_input
  insert_step sought index tree_index d ds n m h = elim (Bool-cases (tree_at d tree_index == 0)) [
    | inr p ↦ absurd (let h = rw p at h in cc)
    | inl p ↦ elim (Bool-cases (index == sought)) [
      | inl q ↦ (λ e. rw (p, q) at h, λ ne. absurd (ne ((==_iff index sought).0 q)))
      | inr q ↦ (
        λ e. absurd (let r : (index == sought) ≡ true = (==_iff index sought).1 e in cc),
        λ ne. rw (p, q) at h,
      )
    ]
  ]

  insert_input_hash :
      (k index tree_index : ℕ) (cs : List InputCommitment) (n m : NullifierAccount)
      (c : InputCommitment)
      → get_elem? cs k ≡ some c
      → insert_input reduce (index + k) index tree_index cs n ≡ ok m
      → try_insert_nullifier_hash n (reduce c.nullifier_hash) ≡ ok m
  insert_input_hash k index tree_index [] n m c e h = absurd (cc)
  insert_input_hash zero index tree_index (d ∷ ds) n m c e h =
      let z : index ≡ index + 0 = omega arith in
      let which : d ≡ c = cc in
      subst (λ x. try_insert_nullifier_hash n (reduce x.nullifier_hash) ≡ ok m) which
        ((insert_step (index + 0) index tree_index d ds n m h).0 z)
  insert_input_hash (suc k) index tree_index (d ∷ ds) n m c e h =
      let ne : index ≢ index + suc k = omega arith in
      let shift : index + suc k ≡ suc index + k = omega arith in
      let h = (insert_step (index + suc k) index tree_index d ds n m h).1 ne in
      insert_input_hash k (suc index) (trees_seen d tree_index) ds n m c e (rw shift at h)

  hashes_of-suc :
      (inputs : List InputCommitment) (k : ℕ) (c : InputCommitment)
      → get_elem? inputs k ≡ some c
      → hashes_of (suc k) inputs ≡ hashes_of k inputs ++ reduce c.nullifier_hash ∷ []
  hashes_of-suc [] k c e = absurd (cc)
  hashes_of-suc (d ∷ ds) zero c e =
      let which : d ≡ c = cc in ap (λ x. reduce x.nullifier_hash ∷ []) which
  hashes_of-suc (d ∷ ds) (suc k) c e =
      ap (λ x. reduce d.nullifier_hash ∷ x) (hashes_of-suc ds k c e)

  insert_or_move-IsInserted :
      (index : ℕ) (inputs : List InputCommitment) (begun n m : NullifierAccount)
      → index ≤ length inputs
      → IsInserted (hashes_of index inputs) begun n
      → insert_or_move reduce index inputs n ≡ ok m
      → IsInserted
          (hashes_of (if ltb index (length inputs) then index + 1 else index) inputs)
          begun
          m
  unfolding insert_or_move
  insert_or_move-IsInserted index inputs begun n m within so_far h =
      elim (Bool-cases (ltb index (length inputs))) [
        | inl p ↦
            let (c, e) = get_elem?_in_range inputs index (ltb→lt index (length inputs) p) in
            let z : index ≡ 0 + index = omega arith in
            let h = rw (p, z) at h in
            let next : index + 1 ≡ suc index = omega arith in
            let hashes : hashes_of (index + 1) inputs
                ≡ hashes_of index inputs ++ reduce c.nullifier_hash ∷ [] =
              rw next (hashes_of-suc inputs index c e) in
            let inserted = insert_input_hash index 0 0 inputs n m c e h in
            rw (p, hashes)
              (insertion (hashes_of index inputs) begun n m (reduce c.nullifier_hash) so_far
                inserted)
        | inr p ↦
            let h = rw p at h in
            elim (Bool-cases (not (is_moved_nullifier_empty n))) [
              | inl r ↦ rw p (movement (hashes_of index inputs) begun n m so_far (rw r at h))
              | inr r ↦ rw p (
                  subst (IsInserted (hashes_of index inputs) begun) (ok_injective (rw r at h))
                    so_far)
            ]
      ]

  module _ {P C : Type 0} where
    -- The account inserts the nullifiers of the inputs, and has come as far as its instruction says.
    pub record IsInserting (inputs : List InputCommitment) (begun : NullifierAccount)
        (s : VerificationAccount P C) (n : NullifierAccount) : Type 0 where
      pub within : s.instruction ≤ length inputs
      pub so_far : IsInserted (hashes_of s.instruction inputs) begun n
      pub complete : s.state ≡ finalized → s.instruction ≡ length inputs

    -- Some calls of the instruction, all of which return.
    pub data IsRun
        : VerificationAccount P C
          → NullifierAccount
          → VerificationAccount P C
          → NullifierAccount
          → Type 0 where
      no_call : (s : VerificationAccount P C) (n : NullifierAccount) → IsRun s n s n
      next_call :
          (s s' t : VerificationAccount P C) (n n' m : NullifierAccount)
          → IsRun s n s' n'
          → finalize_verification_insert_nullifier reduce s' n' ≡ ok (t, m)
          → IsRun s n t m

    -- The account's request is the send, and it inserts its inputs.
    pub record IsSendInserting (q : SendPublicInputs) (begun : NullifierAccount)
        (s : VerificationAccount P C) (n : NullifierAccount) : Type 0 where
      pub request : s.request ≡ send q
      pub inserting : IsInserting (q.join_split.input_commitments) begun s n

    called :
        (q : SendPublicInputs) (s t : VerificationAccount P C) (n m : NullifierAccount)
        → s.request ≡ send q
        → finalize_verification_insert_nullifier reduce s n ≡ ok (t, m)
        → (s.state ≡ insert_nullifiers)
          × (insert_or_move reduce s.instruction (q.join_split.input_commitments) n ≡ ok m)
          × (after_insertion reduce (q.join_split.input_commitments) m s ≡ t)
    unfolding finalize_verification_insert_nullifier
    called q s t n m r h =
        let inserting = is_inserting s.state in
        let (u, p, h) = >>=-eq-ok (guard inserting (from_elusiv invalid_account_state)) _ h in
        let (q', e, h) = >>=-eq-ok (requests_send s.request) _ h in
        let same : q' ≡ q = ok_injective (sym e ∙ ap requests_send r) in
        let (m', f, h) =
          >>=-eq-ok (insert_or_move reduce s.instruction (q'.join_split.input_commitments) n) _ h in
        let result = ok_injective h in
        let of_result : m' ≡ m = ap (λ x. x.1) result in
        let t_is = ap (λ x. x.0) result in
        let inserted =
          subst
            (λ x. insert_or_move reduce s.instruction (q'.join_split.input_commitments) n ≡ ok x)
            of_result f in
        let written =
          subst (λ x. after_insertion reduce (q'.join_split.input_commitments) x s ≡ t) of_result
            t_is in
        let (inserted, written) =
          subst
            (λ x.
              (insert_or_move reduce s.instruction (x.join_split.input_commitments) n ≡ ok m)
              × (after_insertion reduce (x.join_split.input_commitments) m s ≡ t))
            same (inserted, written) in
        (
          inserting_of s.state (guard-eq-ok inserting (from_elusiv invalid_account_state) p),
          inserted,
          written,
        )

    call-IsSendInserting :
        (q : SendPublicInputs) (begun : NullifierAccount) (s t : VerificationAccount P C)
        (n m : NullifierAccount)
        → 0 < length (q.join_split.input_commitments)
        → length (q.join_split.input_commitments) < u32_mod
        → IsSendInserting q begun s n
        → finalize_verification_insert_nullifier reduce s n ≡ ok (t, m)
        → IsSendInserting q begun t m
    unfolding after_insertion
    call-IsSendInserting q begun s t n m some_input few i h =
        let inputs = q.join_split.input_commitments in
        let (state, moved, written) = called q s t n m i.request h in
        let so_far =
          insert_or_move-IsInserted s.instruction inputs begun n m (i.inserting.within)
            (i.inserting.so_far) moved in
        let (counted, within) = stepped s.instruction (length inputs) (i.inserting.within) few in
        subst (λ x. IsSendInserting q begun x m) written
          (record {
            request = i.request;
            inserting = record {
              within = within;
              so_far = rw counted so_far;
              complete = λ done.
                  elim (Bool-cases
                    (leb (sub_u64 (length inputs) 1) s.instruction && is_moved_nullifier_empty m)) [
                      | inl p ↦
                          last_step s.instruction (length inputs) (is_moved_nullifier_empty m)
                            some_input few (i.inserting.within) p
                      | inr p ↦ let done = rw (p, state) at done in absurd (cc)
                    ];
            };
          })

    -- A verification inserts the nullifiers of a send with at least one input, of which there are fewer
    -- than 2^32. After any number of calls of the instruction that return, from the state that
    -- finalize_verification_send leaves, the account of the nullifiers comes from the first one by
    -- insertions of the nullifier hashes of the first inputs, in their order, as many as the
    -- verification's instruction says, and by moves; and once the verification is finalized, all
    -- inputs' nullifier hashes are inserted.
    pub run-IsSendInserting :
        (q : SendPublicInputs) (s t : VerificationAccount P C) (n m : NullifierAccount)
        → 0 < length (q.join_split.input_commitments)
        → length (q.join_split.input_commitments) < u32_mod
        → s.request ≡ send q
        → s.state ≡ insert_nullifiers
        → s.instruction ≡ 0
        → IsRun s n t m
        → IsSendInserting q n t m
    run-IsSendInserting q _ _ _ _ some_input few r state zero_index (no_call s n) = record {
      request = r;
      inserting = record {
        within = rw zero_index (omega arith);
        so_far =
            subst (λ k. IsInserted (hashes_of k (q.join_split.input_commitments)) n n)
              (sym zero_index) (none_inserted n);
        complete = λ done. absurd (cc);
      };
    }
    run-IsSendInserting q _ _ _ _ some_input few r state zero_index
          (next_call s s' t n n' m run call) =
        call-IsSendInserting q n s' t n' m some_input few
          (run-IsSendInserting q s s' n n' some_input few r state zero_index run) call
