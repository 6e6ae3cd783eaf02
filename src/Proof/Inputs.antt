-- ===== src/Proof/Inputs.antt =====
-- elusiv/src/types.rs: the public inputs of the two circuits. The hash of the SDK is the parameter `hash`,
-- from the bytes to the 32 bytes of the digest.
use elusiv.Base.{
  ltb, ◌==◌, if◌then◌else◌, length, replicate, ◌>>=◌, unwrap, ProgramError, Result, ok, panic, read,
  ℕ, ◌+◌, ◌-◌, ◌*◌, ◌%◌, ◌^◌, Bool, true, false, Option, none, some, List, [], ◌∷◌, ◌++◌, map,
}
use elusiv.Nullifier.{join_split_max_n_arity}
use elusiv.Proof.{
  InputCommitment, OptionalFee, SendPublicInputs, MigratePublicInputs, ProofRequest, send, migrate,
  send_quadra_vkey, total_amount, le_bytes,
}

-- `input_commitments[0].root.is_none()`, negated; a list without elements panics.
unfoldable pub has_first_root : List InputCommitment → Result ProgramError Bool
has_first_root inputs = do
  first ← read inputs 0
  ok (elim first.root [ none ↦ false | some r ↦ true ])

unfoldable pub verify_send_constraints : SendPublicInputs → Result ProgramError Bool
unfolding has_first_root
verify_send_constraints p =
    let inputs = p.join_split.input_commitments in
    let first = has_first_root inputs in
    if ltb join_split_max_n_arity (length inputs)
    then ok false
    else if length inputs == 0
    then ok false
    else first

unfoldable pub verify_migrate_constraints : MigratePublicInputs → Result ProgramError Bool
unfolding has_first_root
verify_migrate_constraints p =
    let inputs = p.join_split.input_commitments in
    if length inputs == 1 then has_first_root inputs else ok false

abbrev pub root_or_zero : InputCommitment → ℕ
root_or_zero c = elim c.root [ none ↦ 0 | some r ↦ r ]

-- The inputs, and zeros up to the arity.
abbrev pub filled : List ℕ → List ℕ
filled xs = xs ++ replicate (join_split_max_n_arity - length xs) 0

unfoldable pub send_public_signals : SendPublicInputs → Result ProgramError (List ℕ)
send_public_signals p =
    let j = p.join_split in
    let signals =
      filled (map (λ c. c.nullifier_hash) j.input_commitments)
      ++ (filled (map root_or_zero j.input_commitments)
          ++ (total_amount j
              ∷ j.output_commitment
              ∷ j.recent_commitment_index
              ∷ j.fee_version
              ∷ j.token_id
              ∷ p.hashed_inputs
              ∷ [])) in
    if length signals == send_quadra_vkey.1 then ok signals else panic

unfoldable pub migrate_public_signals : MigratePublicInputs → Result ProgramError (List ℕ)
migrate_public_signals p = do
  first ← read p.join_split.input_commitments 0
  root ← unwrap first.root
  ok (
      first.nullifier_hash
      ∷ root
      ∷ p.join_split.output_commitment
      ∷ p.join_split.recent_commitment_index
      ∷ p.current_nsmt_root
      ∷ p.next_nsmt_root
      ∷ total_amount p.join_split
      ∷ [])

unfoldable pub public_signals : ProofRequest → Result ProgramError (List ℕ)
unfolding send_public_signals migrate_public_signals
public_signals (send p) = send_public_signals p
public_signals (migrate p) = migrate_public_signals p

unfoldable pub from_le_bytes : List ℕ → ℕ
from_le_bytes [] = 0
from_le_bytes (b ∷ bs) = b + 256 * from_le_bytes bs

abbrev pub memo_bytes : Option (List ℕ) → List ℕ
memo_bytes none = []
memo_bytes (some memo) = memo

-- The digest of the inputs, with the three highest bits of the last byte cleared.
unfoldable pub generate_hashed_inputs :
    (List ℕ → List ℕ) → ℕ → ℕ → ℕ → ℕ → ℕ → Bool → List ℕ → OptionalFee → Option (List ℕ) → ℕ
unfolding le_bytes from_le_bytes
generate_hashed_inputs hash recipient identifier iv encrypted_owner transaction_reference
      is_associated_token_account metadata optional_fee memo =
    let bytes =
      le_bytes 32 recipient
      ++ (le_bytes 32 identifier
          ++ (le_bytes 32 iv
              ++ (le_bytes 32 encrypted_owner
                  ++ (le_bytes 32 transaction_reference
                      ++ ((if is_associated_token_account then 1 else 0)
                          ∷ (metadata
                              ++ (le_bytes 32 optional_fee.collector
                                  ++ (le_bytes 8 optional_fee.amount ++ memo_bytes memo)))))))) in
    from_le_bytes (hash bytes) % 2 ^ 253
