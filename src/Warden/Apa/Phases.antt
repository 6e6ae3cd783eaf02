-- ===== src/Warden/Apa/Phases.antt =====
-- The phases of the APA network: applications, then confirmations. The calls are steps.
use elusiv.Base.{
  ◌==◌, ==_iff, Bool-cases, length, get_elem?, set, replicate, get_elem?-set_self, guard,
  from_warden, >>=-eq-ok, guard-eq-ok, ok_injective, unwrap-eq-ok, warden_registration_error,
  invalid_confirmation_message, signer_and_warden_id_mismatch, not_in_confirmation_phase,
  warden_already_confirmed, ProgramError, ok, add_u32, read, write, ℕ, ◌≤◌, ◌<◌, ◌≡◌, refl, sym, ap,
  ◌∙◌, inl, inr, Bool, true, false, not, Option, none, some, List, [], ◌∷◌, arith,
}
use elusiv.Bytes.Find.{eq_bytes}
use elusiv.Warden.Apa.{
  ApaWardenNetwork, apa_network_size, is_application_phase, is_confirmation_phase, user_data_bytes,
  start_application, find_member, complete_application, confirmation_message, confirm_others,
}

write-eq-ok {ℓ} :
    {E : Type 0} {A : Type ℓ} (xs xs' : List A) (i : ℕ) (a : A)
    → write {E = E} xs i a ≡ ok xs'
    → (i < length xs) × (xs' ≡ set xs i a)
write-eq-ok xs xs' i a h = ground arith

-- The account a network starts as: a `QuoteStart` has 558 bytes, a key 32.
abbrev pub genesis : ApaWardenNetwork
genesis = record {
  members_count = 0;
  apa_key = none;
  members = replicate apa_network_size 0;
  quote_starts = replicate apa_network_size (replicate 558 0);
  quote_ends = replicate apa_network_size none;
  exchange_keys = replicate apa_network_size (replicate 32 0);
  confirmations = replicate apa_network_size false;
}

abbrev NoneConfirmed : ApaWardenNetwork → Type 0
NoneConfirmed n = (i : ℕ) → i < apa_network_size → get_elem? n.confirmations i ≡ some false

-- The arrays have their length, the members fit, and no one confirms while applications are open.
pub record IsValid (n : ApaWardenNetwork) : Type 0 where
  pub count_le : n.members_count ≤ apa_network_size
  pub members_size : length n.members ≡ apa_network_size
  pub starts_size : length n.quote_starts ≡ apa_network_size
  pub ends_size : length n.quote_ends ≡ apa_network_size
  pub keys_size : length n.exchange_keys ≡ apa_network_size
  pub confirmations_size : length n.confirmations ≡ apa_network_size
  pub unconfirmed : is_application_phase n ≡ true → NoneConfirmed n

pub start_application_lem :
    (n n' : ApaWardenNetwork) (id index : ℕ) (start : List ℕ)
    → start_application n id start ≡ ok (n', index)
    → (is_application_phase n ≡ true)
      × (n.members_count < length n.members)
      × (index ≡ n.members_count)
      × (n' ≡ record n {
        members_count = add_u32 n.members_count 1;
        members = set n.members n.members_count id;
        quote_starts = set n.quote_starts n.members_count start;
        exchange_keys = set n.exchange_keys n.members_count (user_data_bytes start);
      })
unfolding start_application
start_application_lem n n' id index start h = ground arith

pub complete_application_lem :
    (n n' : ApaWardenNetwork) (id : ℕ) (end : List ℕ)
    → complete_application n id end ≡ ok n'
    → (is_application_phase n ≡ true)
      × (i : ℕ) × (find_member n.members n.members_count 0 id ≡ ok i)
      × (i < length n.quote_ends)
      × (n' ≡ record n { quote_ends = set n.quote_ends i (some end) })
unfolding complete_application
complete_application_lem n n' id end h =
    let (_, a, h) =
      >>=-eq-ok (guard (is_application_phase n) (from_warden warden_registration_error)) _ h in
    let (i, b, h) = >>=-eq-ok (find_member n.members n.members_count 0 id) _ h in
    let (ends, c, h) = >>=-eq-ok (write n.quote_ends i (some end)) _ h in
    let (lt, eq) = write-eq-ok n.quote_ends ends i (some end) c in
    (
      guard-eq-ok (is_application_phase n) (from_warden warden_registration_error) a,
      i,
      b,
      lt,
      sym (ok_injective h)
          ∙ ap {A = List (Option (List ℕ))} {B = ApaWardenNetwork}
              (λ q. record n { quote_ends = q }) eq,
    )

pub not-true : (b : Bool) → not b ≡ true → b ≡ false
not-true true h = cc
not-true false h = refl

eq_bytes-eq : (a b : List ℕ) → eq_bytes a b ≡ true → a ≡ b
unfolding eq_bytes
eq_bytes-eq [] [] h = refl
eq_bytes-eq [] (y ∷ b) h = cc
eq_bytes-eq (x ∷ a) [] h = cc
eq_bytes-eq (x ∷ a) (y ∷ b) h = elim (Bool-cases (x == y)) [
  | inl e ↦
      let tail = eq_bytes-eq a b (rw e at h) in let head = (==_iff x y).0 e in rw (head, tail) refl
  | inr e ↦ absurd (let q = rw e at h in cc)
]

read-eq-ok {ℓ} :
    {A : Type ℓ} (xs : List A) (i : ℕ) (a : A)
    → read {E = ProgramError} xs i ≡ ok a
    → get_elem? xs i ≡ some a
read-eq-ok xs i a h = unwrap-eq-ok (get_elem? xs i) h

module _ (hashv : List (List ℕ) → List ℕ) where
  -- What a confirmation that returned has found and left.
  pub record IsConfirmation (n n' : ApaWardenNetwork) (i : ℕ) (signer message : List ℕ)
      : Type 0 where
    pub phase : is_confirmation_phase n ≡ ok true
    pub signed : get_elem? n.exchange_keys i ≡ some signer
    pub agreed : confirmation_message hashv n ≡ ok message
    pub before : get_elem? n.confirmations i ≡ some false
    pub after : get_elem? n'.confirmations i ≡ some true
    pub result : n' ≡ record n { confirmations = set n.confirmations i true }

  -- A confirmation returns only in the confirmation phase, for a member that signs with its exchange key,
  -- gives the hash of the quotes of all members and has not confirmed before; then that member has
  -- confirmed, and nothing else has changed.
  pub confirm_others-IsConfirmation :
      (n n' : ApaWardenNetwork) (i : ℕ) (signer message : List ℕ)
      → confirm_others hashv n i signer message ≡ ok n'
      → IsConfirmation n n' i signer message
  unfolding confirm_others
  confirm_others-IsConfirmation n n' i signer message h =
      let (in_phase, a, h) = >>=-eq-ok (is_confirmation_phase n) _ h in
      let (_, b, h) = >>=-eq-ok (guard in_phase (from_warden not_in_confirmation_phase)) _ h in
      let (key, k, h) = >>=-eq-ok (read n.exchange_keys i) _ h in
      let (_, l, h) =
        >>=-eq-ok (guard (eq_bytes key signer) (from_warden signer_and_warden_id_mismatch)) _ h in
      let (expected, m, h) = >>=-eq-ok (confirmation_message hashv n) _ h in
      let (_, o, h) =
        >>=-eq-ok (guard (eq_bytes expected message) (from_warden invalid_confirmation_message)) _
          h in
      let (confirmed, c, h) = >>=-eq-ok (read n.confirmations i) _ h in
      let (_, d, h) =
        >>=-eq-ok (guard (not confirmed) (from_warden warden_already_confirmed)) _ h in
      let (after, e, h) = >>=-eq-ok (write n.confirmations i true) _ h in
      let (inside, eq) = write-eq-ok n.confirmations after i true e in
      let in_phase_eq = guard-eq-ok in_phase (from_warden not_in_confirmation_phase) b in
      let unconfirmed =
        not-true confirmed (guard-eq-ok (not confirmed) (from_warden warden_already_confirmed) d) in
      let key_eq =
        eq_bytes-eq key signer
          (guard-eq-ok (eq_bytes key signer) (from_warden signer_and_warden_id_mismatch) l) in
      let message_eq =
        eq_bytes-eq expected message
          (guard-eq-ok (eq_bytes expected message) (from_warden invalid_confirmation_message) o) in
      record {
        phase = a ∙ ap ok in_phase_eq;
        signed = read-eq-ok n.exchange_keys i key k ∙ ap some key_eq;
        agreed = m ∙ ap ok message_eq;
        before = read-eq-ok n.confirmations i confirmed c ∙ ap some unconfirmed;
        after =
            sym (ap (λ q. get_elem? q.confirmations i) (ok_injective h))
            ∙ ap (λ q. get_elem? q i) eq
            ∙ get_elem?-set_self n.confirmations i true inside;
        result =
            sym (ok_injective h)
            ∙ ap {A = List Bool} {B = ApaWardenNetwork} (λ q. record n { confirmations = q }) eq;
      }
