-- ===== src/Warden/Apa/Steps.antt =====
-- The sequences of calls on the APA network, and what they keep.
use elusiv.Base.{
  Bool-cases, get_elem?, set, replicate, length-set, ◌>>=◌, >>=-eq-ok, ok_injective, ok, ℕ, zero,
  suc, ◌+◌, ◌<◌, ◌≡◌, refl, sym, ap, ◌∙◌, ◌≢◌, inl, inr, Bool, true, false, some, List, arith,
}
use elusiv.Warden.Apa.{
  all_confirmed, ApaWardenNetwork, apa_network_size, is_application_phase, is_confirmed,
  is_confirmation_phase, user_data_bytes, start_application, complete_application, get_all_quotes,
  quotes_from, confirmation_message, confirm_others,
}
use elusiv.Warden.Apa.Phases.{
  IsValid, genesis, start_application_lem, complete_application_lem, not-true,
  confirm_others-IsConfirmation,
}

-- A call that returned, from one state of the account to the next.
pub data Step (hashv : List (List ℕ) → List ℕ) : ApaWardenNetwork → ApaWardenNetwork → Type 0 where
  started :
      (n n' : ApaWardenNetwork) (id index : ℕ) (start : List ℕ)
      → start_application n id start ≡ ok (n', index)
      → Step hashv n n'
  completed :
      (n n' : ApaWardenNetwork) (id : ℕ) (end : List ℕ)
      → complete_application n id end ≡ ok n'
      → Step hashv n n'
  confirmed :
      (n n' : ApaWardenNetwork) (i : ℕ) (signer message : List ℕ)
      → confirm_others hashv n i signer message ≡ ok n'
      → Step hashv n n'

pub data Reachable (hashv : List (List ℕ) → List ℕ) : ApaWardenNetwork → Type 0 where
  reach_genesis : Reachable hashv genesis
  reach_step : (n n' : ApaWardenNetwork) → Reachable hashv n → Step hashv n n' → Reachable hashv n'

confirmation_not_application :
    (n : ApaWardenNetwork) → is_confirmation_phase n ≡ ok true → is_application_phase n ≡ false
unfolding is_confirmation_phase
confirmation_not_application n h = elim (Bool-cases (is_application_phase n)) [
  | inl y ↦ let q = rw y at h in cc
  | inr no_more ↦ no_more
]

not_all_confirmed :
    (n : ApaWardenNetwork) → is_confirmation_phase n ≡ ok true → is_confirmed n ≡ ok false
unfolding is_confirmation_phase is_confirmed
not_all_confirmed n h = elim (Bool-cases (is_application_phase n)) [
  | inl y ↦ absurd (let q = rw y at h in cc)
  | inr y ↦
      let (b, e, q) = >>=-eq-ok (all_confirmed n.confirmations n.members_count 0) _ (rw y at h) in
      rw y (e ∙ ap ok (not-true b (ok_injective q)))
]

phase_of_quotes :
    (n : ApaWardenNetwork) (c : List Bool)
    → is_application_phase (record n { confirmations = c }) ≡ is_application_phase n
unfolding is_application_phase
phase_of_quotes n c = refl

true-false : true ≢ false
true-false h = cc

quotes_of :
    (n : ApaWardenNetwork) (c : List Bool) (rounds i : ℕ)
    → quotes_from (record n { confirmations = c }) rounds i ≡ quotes_from n rounds i
unfolding quotes_from
quotes_of n c zero i = refl
quotes_of n c (suc rounds) i = rw (quotes_of n c rounds (i + 1)) refl

module _ (hashv : List (List ℕ) → List ℕ) where
  Step-IsValid : (n n' : ApaWardenNetwork) → IsValid n → Step hashv n n' → IsValid n'
  Step-IsValid n n' v (started _ _ id index start h) =
      let (phase, room, _, eq) = start_application_lem n n' id index start h in
      rw eq (record {
        count_le = ground (arith, v.members_size);
        members_size = rw (length-set n.members n.members_count id) v.members_size;
        starts_size = rw (length-set n.quote_starts n.members_count start) v.starts_size;
        ends_size = v.ends_size;
        keys_size =
            rw (length-set n.exchange_keys n.members_count (user_data_bytes start)) v.keys_size;
        confirmations_size = v.confirmations_size;
        unconfirmed = λ _. v.unconfirmed phase;
      })
  Step-IsValid n n' v (completed _ _ id end h) =
      let (phase, i, _, _, eq) = complete_application_lem n n' id end h in
      rw eq (record {
        count_le = v.count_le;
        members_size = v.members_size;
        starts_size = v.starts_size;
        ends_size = rw (length-set n.quote_ends i (some end)) v.ends_size;
        keys_size = v.keys_size;
        confirmations_size = v.confirmations_size;
        unconfirmed = λ _. v.unconfirmed phase;
      })
  Step-IsValid n n' v (confirmed _ _ i signer message h) =
      let c = confirm_others-IsConfirmation hashv n n' i signer message h in
      let closed = confirmation_not_application n c.phase in
      rw c.result (record {
        count_le = v.count_le;
        members_size = v.members_size;
        starts_size = v.starts_size;
        ends_size = v.ends_size;
        keys_size = v.keys_size;
        confirmations_size = rw (length-set n.confirmations i true) v.confirmations_size;
        unconfirmed = λ again. absurd (
            let e = phase_of_quotes n (set n.confirmations i true) in
            true-false (sym again ∙ e ∙ closed));
      })

  get_elem?-replicate-false : (m i : ℕ) → i < m → get_elem? (replicate m false) i ≡ some false
  get_elem?-replicate-false zero i h = elim h [ ]
  get_elem?-replicate-false (suc m) zero h = refl
  get_elem?-replicate-false (suc m) (suc i) h = get_elem?-replicate-false m i (omega arith)

  genesis-IsValid : IsValid genesis
  genesis-IsValid = record {
    count_le = omega arith;
    members_size = refl;
    starts_size = refl;
    ends_size = refl;
    keys_size = refl;
    confirmations_size = refl;
    unconfirmed = λ _ i h. get_elem?-replicate-false apa_network_size i h;
  }

  -- After every sequence of calls the network has at most six members, its arrays have their length, and
  -- no member has confirmed while applications are open.
  pub Reachable-IsValid : (n : ApaWardenNetwork) → Reachable hashv n → IsValid n
  Reachable-IsValid n reach_genesis = genesis-IsValid
  Reachable-IsValid n (reach_step before _ r s) =
      Step-IsValid before n (Reachable-IsValid before r) s

  message_of_quotes :
      (n : ApaWardenNetwork) (c : List Bool)
      → confirmation_message hashv (record n { confirmations = c }) ≡ confirmation_message hashv n
  unfolding confirmation_message get_all_quotes
  message_of_quotes n c =
      ap (λ q. q >>= λ quotes. ok (hashv quotes)) (quotes_of n c n.members_count 0)

  -- Once the applications are closed, a call that returns leaves the members and the message that all
  -- confirm as they are and the applications closed, and the members had not all confirmed before it.
  pub Step-after_applications :
      (n n' : ApaWardenNetwork)
      → Step hashv n n'
      → is_application_phase n ≡ false
      → (n'.members ≡ n.members)
        × (is_application_phase n' ≡ false)
        × (confirmation_message hashv n' ≡ confirmation_message hashv n)
        × (is_confirmed n ≡ ok false)
  Step-after_applications n n' (started _ _ id index start h) closed =
      let (phase, _, _, _) = start_application_lem n n' id index start h in
      absurd (true-false (sym phase ∙ closed))
  Step-after_applications n n' (completed _ _ id end h) closed =
      let (phase, _, _, _, _) = complete_application_lem n n' id end h in
      absurd (true-false (sym phase ∙ closed))
  Step-after_applications n n' (confirmed _ _ i signer message h) closed =
      let c = confirm_others-IsConfirmation hashv n n' i signer message h in
      rw c.result (
        refl,
        phase_of_quotes n (set n.confirmations i true) ∙ closed,
        message_of_quotes n (set n.confirmations i true),
        not_all_confirmed n c.phase,
      )
