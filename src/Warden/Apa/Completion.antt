-- ===== src/Warden/Apa/Completion.antt =====
-- Where `complete_application` stores the second half of a quote.
use elusiv.Base.{
  ◌==◌, ==_iff, Bool-cases, set, >>=-eq-ok, ok_injective, ok, read, ℕ, zero, suc, ◌+◌, ◌<◌, ◌≡◌,
  sym, ap, ◌∙◌, ◌⊎◌, inl, inr, some, List, arith,
}
use elusiv.Warden.Apa.{ApaWardenNetwork, apa_network_size, find_member, complete_application}
use elusiv.Warden.Apa.Phases.{IsValid, complete_application_lem}

find_member_step :
    (members : List ℕ) (rounds i id member : ℕ)
    → find_member members (suc rounds) i id ≡ ok member
    → (member ≡ id) ⊎ (find_member members rounds (i + 1) id ≡ ok member)
unfolding find_member
find_member_step members rounds i id member h =
    let (held, _, h) = >>=-eq-ok (read members i) _ h in
    elim (Bool-cases (held == id)) [
      | inl same ↦ inl (let q = rw same at h in sym (ok_injective q) ∙ (==_iff held id).0 same)
      | inr other ↦ inr (rw other at h)
    ]

-- What is found is the id that is sought, not its position.
find_member_lem :
    (members : List ℕ) (rounds i id member : ℕ)
    → find_member members rounds i id ≡ ok member
    → member ≡ id
unfolding find_member
find_member_lem members zero i id member h = cc
find_member_lem members (suc rounds) i id member h =
    elim (find_member_step members rounds i id member h) [
      | inl same ↦ same
      | inr later ↦ find_member_lem members rounds (i + 1) id member later
    ]

-- In a valid network, a completed application stores the quote at the place whose number is the warden's
-- id, whatever the place of the member; so a warden whose id is not below the network's size completes
-- none.
pub complete_application-index :
    (n n' : ApaWardenNetwork) (id : ℕ) (end : List ℕ)
    → IsValid n
    → complete_application n id end ≡ ok n'
    → (id < apa_network_size) × (n'.quote_ends ≡ set n.quote_ends id (some end))
complete_application-index n n' id end v h =
    let (_, i, found, lt, eq) = complete_application_lem n n' id end h in
    let same : i ≡ id = find_member_lem n.members n.members_count 0 id i found in
    (
      omega (arith, v.ends_size, same),
      ap (λ q. q.quote_ends) eq ∙ ap (λ k. set n.quote_ends k (some end)) same,
    )
