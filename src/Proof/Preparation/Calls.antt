-- ===== src/Proof/Preparation/Calls.antt =====
-- What a call of the preparation leaves in the RAM, from which the next one goes on.
use elusiv.Base.{
  length, get_elem?, get_elem?_out, >>=-ok, unwrap-ok, ok, ℕ, ◌+◌, ◌*◌, ◌/◌, ◌%◌, ◌≤◌, ◌<◌, ◌≡◌,
  refl, ◌⊎◌, inl, inr, Option, none, some, List, arith, dec_lt,
}
use elusiv.Proof.Preparation.{
  G1Projective, Curve, InputsKey, Preparing, read_g1_projective, write_g1_projective, keep_acc,
  prepare_public_inputs_partial,
}
use elusiv.Proof.Preparation.Rounds.{
  IsSized, IsAt, sum_before, windows_before, input_exists, prepared, preparation_rounds_lem,
}
use elusiv.Proof.Preparation.Sums.{two_points, two_points_exist}

module _ {F A : Type 0} (c : Curve F A) (vkey : InputsKey F A) (inputs : List (List ℕ)) where
  -- The RAM before the round `r`: the sum of the inputs before, and that of the windows before.
  pub record IsBoundary (r : ℕ) (ram : List F) : Type 0 where
    pub base : G1Projective F
    pub acc : G1Projective F
    pub stored : ram ≡ two_points base acc
    pub sum : 0 < r / 33 → base ≡ sum_before c vkey inputs (r / 33)
    pub windows :
        (x : List ℕ)
        → get_elem? inputs (r / 33) ≡ some x
        → 0 < r % 33
        → acc ≡ windows_before c vkey inputs (r / 33) x (r % 33)

  pub IsBoundary-start : (ram : List F) → length ram ≡ 6 → IsBoundary 0 ram
  IsBoundary-start ram size =
      let (base, acc, e) = two_points_exist ram size in
      record {
        base = base;
        acc = acc;
        stored = e;
        sum = λ l. absurd (omega arith);
        windows = λ x h l. absurd (omega arith);
      }

  -- What a call from the round `r` on with `n` rounds returns.
  abbrev pub Called : ℕ → ℕ → List F × Option A → Type 0
  Called r n out =
      ((r + n < 33 * vkey.public_inputs_count) × (out.1 ≡ none) × IsBoundary (r + n) out.0)
      ⊎ ((r + n ≡ 33 * vkey.public_inputs_count) × (out.1 ≡ some (prepared c vkey inputs)))

  ended :
      (r n : ℕ) (s : Preparing F A)
      → IsSized c vkey inputs
      → r + n ≤ 33 * vkey.public_inputs_count
      → (IsAt c vkey inputs ((r + n) / 33) ((r + n) % 33) s
          ⊎ ((r + n ≡ 33 * vkey.public_inputs_count)
              × (s.returned ≡ some (prepared c vkey inputs))
              × (length s.ram ≡ 6)))
      → (out : List F × Option A) × (keep_acc s.returned s.ram s.acc ≡ ok out) × Called r n out
  unfolding keep_acc write_g1_projective
  ended r n s z fits (inr (end, answer, room)) =
      ((s.ram, some (prepared c vkey inputs)), rw answer refl, inr (end, refl))
  ended r n s z fits (inl p) = elim (dec_lt (r + n) (33 * vkey.public_inputs_count)) [
    | yes more ↦ (
      (two_points p.base s.acc, none),
      rw (p.going, p.ram) refl,
      inl (
        more,
        refl,
        record {
          base = p.base;
          acc = s.acc;
          stored = refl;
          sum = p.sum;
          windows =
              λ x h l. let same : s.public_input ≡ x = cc (p.input, h) in rw same at (p.windows l);
        },
      ),
    )
    | no over ↦
        let out = get_elem?_out inputs ((r + n) / 33) (omega (arith, z.count)) in
        absurd (cc (p.input, out))
  ]

  acc_read : (r : ℕ) (ram : List F) (b : IsBoundary r ram) → read_g1_projective ram 3 ≡ ok b.acc
  unfolding read_g1_projective
  acc_read r ram b = rw b.stored refl

  pub prepare_public_inputs_partial_lem :
      (r n : ℕ) (ram : List F)
      → IsSized c vkey inputs
      → IsBoundary r ram
      → r < 33 * vkey.public_inputs_count
      → r + n ≤ 33 * vkey.public_inputs_count
      → (out : List F × Option A) × (prepare_public_inputs_partial c vkey inputs r n ram ≡ ok out)
        × Called r n out
  unfolding prepare_public_inputs_partial keep_acc
  prepare_public_inputs_partial_lem r n ram z b more fits =
      let (x, found) = input_exists c vkey inputs (r / 33) z (omega arith) in
      let (s, e, end) =
        preparation_rounds_lem c vkey inputs n r
          (record {
            ram = ram;
            acc = b.acc;
            input_index = r / 33;
            public_input = x;
            returned = none;
          })
          z
          (record {
            base = b.base;
            spare = b.acc;
            ram = b.stored;
            index = refl;
            input = found;
            sum = b.sum;
            windows = b.windows x found;
            going = refl;
          })
          fits in
      let (out, f, called) = ended r n s z fits end in
      (out, >>=-ok _ (acc_read r ram b) (>>=-ok _ (unwrap-ok found) (>>=-ok _ e f)), called)
