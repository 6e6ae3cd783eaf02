-- ===== src/Proof/Preparation/Rounds.antt =====
-- What the rounds of the preparation have computed: round 33i + j has added j windows of the input i.
use elusiv.Base.{
  ltb, ◌==◌, if◌then◌else◌, lt→ltb, ge→ltb, ==_iff, length, get_elem?, take, take_all,
  get_elem?_in_range, >>=-ok, ElusivError, Result, ok, u32_mod, sub_u64, ℕ, zero, suc, ◌+◌, ◌*◌,
  ◌/◌, ◌%◌, ◌≤◌, ◌<◌, ◌≡◌, refl, sym, ap, ◌∙◌, ◌⊎◌, inl, inr, true, false, Option, none, some, List,
  arith, dec_lt,
}
use elusiv.Bytes.Find.{eq_bytes}
use elusiv.Proof.Preparation.{
  G1Projective, Curve, InputsKey, Preparing, zero_input, read_g1_projective, write_g1_projective,
  add_input, preparation_round, preparation_rounds, add_windows, add_inputs,
  precomputed_input_preparation,
}
use elusiv.Proof.Preparation.Sums.{two_points, add_windows-next, add_inputs-next}

module _ {F A : Type 0} (c : Curve F A) (vkey : InputsKey F A) (inputs : List (List ℕ)) where
  -- The inputs are those of the key, each of 32 bytes.
  pub record IsSized : Type 0 where
    pub count : length inputs ≡ vkey.public_inputs_count
    pub some_input : 0 < vkey.public_inputs_count
    pub few : 33 * vkey.public_inputs_count < u32_mod
    pub bytes : (i : ℕ) (x : List ℕ) → get_elem? inputs i ≡ some x → length x ≡ 32

  abbrev pub sum_before : ℕ → G1Projective F
  sum_before i = add_inputs c vkey 0 (take i inputs) vkey.gamma_abc_base

  abbrev pub windows_before : ℕ → List ℕ → ℕ → G1Projective F
  windows_before i input j = add_windows c vkey i 0 (take j input) c.zero_point

  -- The loop stands before the window `j` of the input `i`.
  pub record IsAt (i j : ℕ) (s : Preparing F A) : Type 0 where
    pub base : G1Projective F
    pub spare : G1Projective F
    pub ram : s.ram ≡ two_points base spare
    pub index : s.input_index ≡ i
    pub input : get_elem? inputs i ≡ some s.public_input
    pub sum : 0 < i → base ≡ sum_before i
    pub windows : 0 < j → s.acc ≡ windows_before i s.public_input j
    pub going : s.returned ≡ none

  window_begun :
      (i j : ℕ) (s : Preparing F A)
      → IsAt i j s
      → (if j == 0 then c.zero_point else s.acc) ≡ windows_before i s.public_input j
  unfolding add_windows
  window_begun i zero s p = refl
  window_begun i (suc j) s p =
      let more : (suc j == 0) ≡ false = ground arith in rw more (p.windows (omega arith))

  window_added :
      (i j w : ℕ) (s : Preparing F A)
      → IsAt i j s
      → j < 32
      → get_elem? s.public_input j ≡ some w
      → (let s' = record s {
        acc =
            c.add_mixed (if j == 0 then c.zero_point else s.acc) (vkey.gamma_abc s.input_index j w);
      } in
          (preparation_round c vkey inputs (33 * i + j) s ≡ ok s') × IsAt i (suc j) s')
  unfolding preparation_round
  window_added i j w s p inside found =
      let r : (33 * i + j) % 33 ≡ j = omega arith in
      let low : ltb j 32 ≡ true = lt→ltb j 32 inside in
      let z : 0 + j ≡ j = omega arith in
      (
        rw (r, low, found) refl,
        record {
          base = p.base;
          spare = p.spare;
          ram = p.ram;
          index = p.index;
          input = p.input;
          sum = p.sum;
          windows = λ _.
              rw
                (
                  window_begun i j s p,
                  p.index,
                  add_windows-next c vkey i 0 j w s.public_input c.zero_point found,
                  z,
                )
                refl;
          going = p.going;
        },
      )

  window_round :
      (i j : ℕ) (s : Preparing F A)
      → IsSized
      → IsAt i j s
      → j < 32
      → (s' : Preparing F A) × (preparation_round c vkey inputs (33 * i + j) s ≡ ok s')
        × IsAt i (suc j) s'
  window_round i j s z p inside =
      let (w, found) =
        get_elem?_in_range s.public_input j (omega (arith, z.bytes i s.public_input p.input)) in
      let (e, q) = window_added i j w s p inside found in (_, e, q)

  sum_read :
      (i : ℕ) (s : Preparing F A) {j : ℕ}
      → IsAt i j s
      → (if s.input_index == 0 then ok vkey.gamma_abc_base else read_g1_projective s.ram 0)
        ≡ ok (sum_before i)
  unfolding read_g1_projective add_inputs
  sum_read zero s p = rw p.index refl
  sum_read (suc i) s p =
      let more : (suc i == 0) ≡ false = ground arith in
      rw (p.index, more, p.ram) (ap ok (p.sum (omega arith)))

  -- What the last round of an input has to add.
  added :
      (i : ℕ) (s : Preparing F A)
      → IsSized
      → IsAt i 32 s
      → (before : G1Projective F) × ((if s.input_index == 0
            then ok vkey.gamma_abc_base
            else read_g1_projective s.ram 0)
          ≡ ok before)
        × ((if eq_bytes s.public_input zero_input then before else c.add_points before s.acc)
            ≡ sum_before (suc i))
  unfolding read_g1_projective
  added i s z p =
      let full : s.acc ≡ add_windows c vkey i 0 s.public_input c.zero_point =
        p.windows (omega arith)
        ∙ ap (λ xs. add_windows c vkey i 0 xs c.zero_point)
            (rw⁻¹ (z.bytes i s.public_input p.input) (take_all s.public_input)) in
      let next = add_inputs-next c vkey 0 i s.public_input inputs vkey.gamma_abc_base p.input in
      let e : 0 + i ≡ i = omega arith in (sum_before i, sum_read i s p, rw (next, e, full) refl)

  pub input_exists :
      (i : ℕ)
      → IsSized
      → i < vkey.public_inputs_count
      → (x : List ℕ) × (get_elem? inputs i ≡ some x)
  input_exists i z inside = get_elem?_in_range inputs i (omega (arith, z.count))

  input_round :
      (i : ℕ) (s : Preparing F A)
      → IsSized
      → IsAt i 32 s
      → suc i < vkey.public_inputs_count
      → (s' : Preparing F A) × (preparation_round c vkey inputs (33 * i + 32) s ≡ ok s')
        × IsAt (suc i) 0 s'
  unfolding preparation_round add_input write_g1_projective
  input_round i s z p more =
      let r : (33 * i + 32) % 33 ≡ 32 = omega arith in
      let (before, e, sum) = added i s z p in
      let (next, found) = input_exists (suc i) z more in
      let low : ltb s.input_index (sub_u64 vkey.public_inputs_count 1) ≡ true =
        lt→ltb _ _ (omega (arith, p.index, z.few)) in
      let step : s.input_index + 1 ≡ suc i = omega (arith, p.index) in
      (
        record s {
          ram = two_points (sum_before (suc i)) p.spare;
          input_index = s.input_index + 1;
          public_input = next;
        },
        rw r (>>=-ok _ e (rw (sum, low, p.ram, step, found) refl)),
        record {
          base = sum_before (suc i);
          spare = p.spare;
          ram = refl;
          index = omega (arith, p.index);
          input = found;
          sum = λ _. refl;
          windows = λ l. absurd (omega arith);
          going = p.going;
        },
      )

  abbrev pub prepared : A
  prepared = c.into_affine (add_inputs c vkey 0 inputs vkey.gamma_abc_base)

  pub precomputed_input_preparation-prepared :
      IsSized → precomputed_input_preparation c vkey inputs ≡ some prepared
  unfolding precomputed_input_preparation
  precomputed_input_preparation-prepared z =
      let same : (length inputs == vkey.public_inputs_count) ≡ true = (==_iff _ _).1 z.count in
      rw same refl

  last_round :
      (i : ℕ) (s : Preparing F A)
      → IsSized
      → IsAt i 32 s
      → suc i ≡ vkey.public_inputs_count
      → (s' : Preparing F A) × (preparation_round c vkey inputs (33 * i + 32) s ≡ ok s')
        × (s'.returned ≡ some prepared)
        × (length s'.ram ≡ 6)
  unfolding preparation_round add_input
  last_round i s z p end =
      let r : (33 * i + 32) % 33 ≡ 32 = omega arith in
      let (before, e, sum) = added i s z p in
      let high : ltb s.input_index (sub_u64 vkey.public_inputs_count 1) ≡ false =
        ge→ltb _ _ (omega (arith, p.index, z.few)) in
      let all : take (suc i) inputs ≡ inputs =
        ap (λ k. take k inputs) (end ∙ sym z.count) ∙ take_all inputs in
      (
        record s { returned = some (c.into_affine (sum_before (suc i))) },
        rw r (>>=-ok _ e (rw (sum, high) refl)),
        ap (λ xs. some (c.into_affine (add_inputs c vkey 0 xs vkey.gamma_abc_base))) all,
        rw p.ram refl,
      )

  goes_on :
      (count r : ℕ) (s s' : Preparing F A) (out : Result ElusivError (Preparing F A))
      → preparation_round c vkey inputs r s ≡ ok s'
      → s'.returned ≡ none
      → preparation_rounds c vkey inputs count (suc r) s' ≡ out
      → preparation_rounds c vkey inputs (suc count) r s ≡ out
  unfolding preparation_rounds
  goes_on count r s s' out e going f = >>=-ok _ e (go s'.returned going)
    where
      go :
          (o : Option A)
          → o ≡ none
          → (elim o [ some p ↦ ok s' | none ↦ preparation_rounds c vkey inputs count (suc r) s' ])
            ≡ out
      go none h = f
      go (some p) h = cc

  returns :
      (count r : ℕ) (s s' : Preparing F A)
      → preparation_round c vkey inputs r s ≡ ok s'
      → s'.returned ≡ some prepared
      → preparation_rounds c vkey inputs (suc count) r s ≡ ok s'
  unfolding preparation_rounds
  returns count r s s' e answer = >>=-ok _ e (go s'.returned answer)
    where
      go :
          (o : Option A)
          → o ≡ some prepared
          → (elim o [ some p ↦ ok s' | none ↦ preparation_rounds c vkey inputs count (suc r) s' ])
            ≡ ok s'
      go none h = cc
      go (some p) h = refl

  -- After the rounds: the loop stands where they end, or has returned the prepared inputs.
  pub preparation_rounds_lem :
      (count r : ℕ) (s : Preparing F A)
      → IsSized
      → IsAt (r / 33) (r % 33) s
      → r + count ≤ 33 * vkey.public_inputs_count
      → (s' : Preparing F A) × (preparation_rounds c vkey inputs count r s ≡ ok s')
        × (IsAt ((r + count) / 33) ((r + count) % 33) s'
            ⊎ ((r + count ≡ 33 * vkey.public_inputs_count)
                × (s'.returned ≡ some prepared)
                × (length s'.ram ≡ 6)))
  unfolding preparation_rounds
  preparation_rounds_lem zero r s z p fits =
      let e : r + 0 ≡ r = omega arith in (s, refl, inl (rw e p))
  preparation_rounds_lem (suc count) r s z p fits =
      let at : 33 * (r / 33) + r % 33 ≡ r = omega arith in
      let next : r + suc count ≡ suc r + count = omega arith in
      elim (dec_lt (r % 33) 32) [
        | yes window ↦
            let (s1, e, q) = window_round (r / 33) (r % 33) s z p window in
            let i1 : suc r / 33 ≡ r / 33 = omega arith in
            let j1 : suc r % 33 ≡ suc (r % 33) = omega arith in
            let (s', f, out) =
              preparation_rounds_lem count (suc r) s1 z (rw (i1, j1) q) (omega arith) in
            (s', goes_on count r s s1 (ok s') (rw at at e) q.going f, rw next out)
        | no last ↦
            let top : r % 33 ≡ 32 = omega arith in
            let at' : 33 * (r / 33) + 32 ≡ r = omega arith in
            elim (dec_lt (suc (r / 33)) vkey.public_inputs_count) [
              | yes more ↦
                  let (s1, e, q) = input_round (r / 33) s z (rw top at p) more in
                  let i1 : suc r / 33 ≡ suc (r / 33) = omega arith in
                  let j1 : suc r % 33 ≡ 0 = omega arith in
                  let (s', f, out) =
                    preparation_rounds_lem count (suc r) s1 z (rw (i1, j1) q) (omega arith) in
                  (s', goes_on count r s s1 (ok s') (rw at' at e) q.going f, rw next out)
              | no end ↦
                  let (s1, e, answer, room) = last_round (r / 33) s z (rw top at p) (omega arith) in
                  (s1, returns count r s s1 (rw at' at e) answer, inr (omega arith, answer, room))
            ]
      ]
