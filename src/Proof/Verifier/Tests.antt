-- ===== src/Proof/Verifier/Tests.antt =====
-- The preparation of one public input, on a curve of numbers.
use elusiv.Base.{
  ◌==◌, length, get_elem?, replicate, ok, ℕ, zero, suc, ◌+◌, ◌≤◌, ◌≡◌, refl, sym, ap, Option, none,
  some, List, [], ◌∷◌, map, arith,
}
use elusiv.Proof.{send, le_bytes, public_input_preparation, proof_setup}
use elusiv.Proof.Preparation.{
  Curve, InputsKey, G1Projective, prepare_public_inputs_instructions, input_costs,
}
use elusiv.Proof.Preparation.Rounds.{IsSized}
use elusiv.Bytes.Find.{eq_bytes}
use elusiv.Proof.Verifier.{Verification, Pairing}
use elusiv.Proof.Verifier.Calls.{verify_calls, IsPrepared, verify_calls-IsPrepared}
use elusiv.Proof.Samples.{verification, sent_inputs}

-- A point is its first coordinate.
abbrev point : ℕ → G1Projective ℕ
point n = record { x = n; y = 0; z = 0 }

abbrev curve : Curve ℕ ℕ
curve = record {
  zero_point = point 0;
  add_mixed = λ p a. point (p.x + a);
  add_points = λ p q. point (p.x + q.x);
  into_affine = λ p. p.x;
}

abbrev key : InputsKey ℕ ℕ
key = record {
  public_inputs_count = 1;
  gamma_abc_base = point 1;
  gamma_abc = λ input window value. value;
}

abbrev pairing : Pairing ℕ ℕ ℕ ℕ ℕ (Unit {0})
pairing = record {
  miller_instructions = [];
  miller_total_rounds = 0;
  miller_round = λ proof inputs round m. ok (m, none);
  exponentiation_instructions = [];
  exponentiation_total_rounds = 0;
  exponentiation_round = λ f round rams. (rams, ok none);
  alpha_beta = 0;
  eq_fq12 = ◌==◌;
}

abbrev account : Verification ℕ ℕ ℕ ℕ ℕ (Unit {0})
account = record {
  instruction = 0;
  round = 0;
  prepare_inputs_instructions_count = 1;
  prepare_inputs_instructions = 33 ∷ [];
  vkey_id = 0;
  step = public_input_preparation;
  state = proof_setup;
  public_input = 5 ∷ [];
  proof = record { a = 0; b = 0; c = 0 };
  computation = record {
    ram_fq = replicate 6 0;
    rams = tt;
    prepared_inputs = 0;
    r = 0;
    f = 0;
    alt_b = 0;
    coeff_index = 0;
  };
  is_verified = none;
  other_data = verification.other_data;
  request = send sent_inputs;
  tree_indices = [];
}

some_injective : {A : Type 0} {a b : A} → ◌≡◌ {A = Option A} (some a) (some b) → a ≡ b
some_injective h = cc

bytes_test :
    (i : ℕ) (x : List ℕ) → get_elem? (map (le_bytes 32) (5 ∷ [])) i ≡ some x → length x ≡ 32
unfolding le_bytes
bytes_test zero x h = ap length (sym (some_injective h))
bytes_test (suc i) x h = absurd (cc)

sized : IsSized curve key (map (le_bytes 32) (5 ∷ []))
sized = record { count = refl; some_input = omega arith; few = omega arith; bytes = bytes_test }

table_test : prepare_public_inputs_instructions (map (le_bytes 32) (5 ∷ [])) 1 ≡ ok (33 ∷ [])
unfolding prepare_public_inputs_instructions input_costs le_bytes eq_bytes
table_test = refl

verify_calls-IsPrepared_example :
    (count : ℕ) × (s' : Verification ℕ ℕ ℕ ℕ ℕ (Unit {0})) × (count ≤ 1)
    × (verify_calls curve key pairing count account ≡ ok s')
    × IsPrepared curve key pairing account s'
verify_calls-IsPrepared_example =
    verify_calls-IsPrepared curve key pairing (33 ∷ []) account refl sized refl refl table_test refl
      refl
