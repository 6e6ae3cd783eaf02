-- ===== src/Proof/Verifier/Calls.antt =====
-- The calls of `verify_partial` that prepare the public inputs.
use elusiv.Base.{
  ◌==◌, ==_iff, length, get_elem?, take, get_elem?-take, ◌>>=◌, >>=-ok, unwrap-ok, ElusivError,
  Result, ok, u32_mod, add_u32, ℕ, zero, suc, ◌+◌, ◌*◌, ◌≤◌, ◌<◌, ◌≡◌, refl, sym, ap, ◌∙◌, subst,
  ◌⊎◌, inl, inr, true, false, none, some, List, [], ◌∷◌, map, arith,
}
use elusiv.Base.Action.{and_then, lift, update}
use elusiv.Computation.Budget.{total}
use elusiv.Proof.{public_input_preparation, combined_miller_loop, le_bytes}
use elusiv.Proof.Preparation.{
  Curve, InputsKey, precomputed_input_preparation, prepare_public_inputs_instructions,
}
use elusiv.Proof.Preparation.Instructions.{prepare_public_inputs_instructions_lem}
use elusiv.Proof.Preparation.Rounds.{IsSized, prepared, precomputed_input_preparation-prepared}
use elusiv.Proof.Preparation.Calls.{IsBoundary, IsBoundary-start, prepare_public_inputs_partial_lem}
use elusiv.Proof.Verifier.{Verification, Pairing, prepare_public_inputs}
use elusiv.Proof.Verifier.Steps.{verify_step, verify_partial}

module _ {F A B R T W : Type 0} (c : Curve F A) (vkey : InputsKey F A)
    (p : Pairing F A B R T W) where
  -- Calls of the last instruction of a transaction, `count` of them.
  unfoldable pub verify_calls :
      ℕ → Verification F A B R T W → Result ElusivError (Verification F A B R T W)
  unfolding verify_partial
  verify_calls zero s = ok s
  verify_calls (suc count) s =
      let (s', result) = verify_partial c vkey p 6 s in result >>= λ _. verify_calls count s'

  -- The instructions `ns` are left.
  pub record IsPreparing (ns : List ℕ) (s : Verification F A B R T W) : Type 0 where
    pub preparing : s.step ≡ public_input_preparation
    pub sized : IsSized c vkey (map (le_bytes 32) s.public_input)
    pub more : s.round < 33 * vkey.public_inputs_count
    pub all : s.round + total ns ≡ 33 * vkey.public_inputs_count
    pub few : s.instruction + length ns < u32_mod
    pub table :
        (j : ℕ)
        → j < length ns
        → get_elem? s.prepare_inputs_instructions (s.instruction + j) ≡ get_elem? ns j
    pub boundary : IsBoundary c vkey (map (le_bytes 32) s.public_input) s.round s.computation.ram_fq

  -- The account after the last call.
  pub record IsPrepared (s s' : Verification F A B R T W) : Type 0 where
    pub next_step : s'.step ≡ combined_miller_loop
    pub inputs :
        precomputed_input_preparation c vkey (map (le_bytes 32) s.public_input)
        ≡ some s'.computation.prepared_inputs
    pub from_start : s'.round ≡ 0
    pub first : s'.instruction ≡ 0
    pub state : s'.state ≡ s.state

  updated :
      (f : Verification F A B R T W → Result ElusivError (Verification F A B R T W))
      (s s' : Verification F A B R T W)
      → f s ≡ ok s'
      → update f s ≡ (s', ok tt)
  updated f s s' h = rw (h, update) refl

  call :
      (s s' : Verification F A B R T W)
      → s.step ≡ public_input_preparation
      → prepare_public_inputs c vkey s.instruction s.round s ≡ ok s'
      → (count : ℕ) (out : Verification F A B R T W) → verify_calls count s' ≡ ok out
      → verify_calls (suc count) s ≡ ok out
  unfolding verify_calls verify_partial verify_step
  call s s' step e count out f =
      let eq : verify_partial c vkey p 6 s ≡ (s', ok none) =
        ap (λ st. verify_step c vkey p 6 st s) step
        ∙ ap (λ x. and_then x (λ _. lift (ok none)))
            (updated (prepare_public_inputs c vkey s.instruction s.round) s s' e) in
      ap (λ x. x.1 >>= λ _. verify_calls count x.0) eq ∙ f

  abbrev went_on : Verification F A B R T W → ℕ → List F → Verification F A B R T W
  went_on s n ram = record s {
    computation = record (s.computation) { ram_fq = ram };
    round = add_u32 s.round n;
    instruction = add_u32 s.instruction 1;
  }

  abbrev ended : Verification F A B R T W → List F → A → Verification F A B R T W
  ended s ram prepared_inputs = record s {
    computation = record (s.computation) { ram_fq = ram; prepared_inputs = prepared_inputs };
    step = combined_miller_loop;
    round = 0;
    instruction = 0;
  }

  one_call :
      (n : ℕ) (ns : List ℕ) (s : Verification F A B R T W)
      → IsPreparing (n ∷ ns) s
      → (ram : List F) × (((prepare_public_inputs c vkey s.instruction s.round s
              ≡ ok (went_on s n ram))
            × IsPreparing ns (went_on s n ram))
          ⊎ (prepare_public_inputs c vkey s.instruction s.round s
              ≡ ok (ended s ram (prepared c vkey (map (le_bytes 32) s.public_input)))))
  unfolding prepare_public_inputs total
  one_call n ns s q =
      let start : s.instruction + 0 ≡ s.instruction = omega arith in
      let found : get_elem? s.prepare_inputs_instructions s.instruction ≡ some n =
        rw start at (q.table 0 (omega arith)) in
      let (out, e, called) =
        prepare_public_inputs_partial_lem c vkey (map (le_bytes 32) s.public_input) s.round n
          s.computation.ram_fq q.sized q.boundary q.more (omega (arith, q.all)) in
      let next : add_u32 s.instruction 1 ≡ s.instruction + 1 = omega (arith, q.few) in
      let round : add_u32 s.round n ≡ s.round + n = omega (arith, q.all, q.sized.few) in
      (
        out.0,
        elim called [
          | inl (more, none_yet, boundary) ↦
              let test : (s.round + n == 33 * vkey.public_inputs_count) ≡ false = ground arith in
              inl (
                >>=-ok _ (unwrap-ok found) (>>=-ok _ e (rw test refl)),
                record {
                  preparing = q.preparing;
                  sized = q.sized;
                  more = omega (arith, more, round);
                  all = omega (arith, q.all, round);
                  few = omega (arith, q.few, next);
                  table = λ j l.
                      let place : add_u32 s.instruction 1 + j ≡ s.instruction + suc j =
                        omega (arith, next) in
                      rw place (q.table (suc j) (omega arith));
                  boundary =
                      subst (λ k. IsBoundary c vkey (map (le_bytes 32) s.public_input) k out.0)
                        (sym round) boundary;
                },
              )
          | inr (end, answer) ↦
              let test : (s.round + n == 33 * vkey.public_inputs_count) ≡ true =
                (==_iff _ _).1 end in
              inr (>>=-ok _ (unwrap-ok found) (>>=-ok _ e (rw (test, answer) refl)))
        ],
      )

  preparation_ends :
      (ns : List ℕ) (s : Verification F A B R T W)
      → IsPreparing ns s
      → (count : ℕ) × (s' : Verification F A B R T W) × (count ≤ length ns)
        × (verify_calls count s ≡ ok s')
        × IsPrepared s s'
  unfolding total verify_calls
  preparation_ends [] s q = absurd (omega (arith, q.more, q.all))
  preparation_ends (n ∷ ns) s q =
      let (ram, one) = one_call n ns s q in
      elim one [
        | inl (e, q') ↦
            let (count, s', few, f, d) = preparation_ends ns (went_on s n ram) q' in
            (
              suc count,
              s',
              omega arith,
              call s (went_on s n ram) q.preparing e count s' f,
              record {
                next_step = d.next_step;
                inputs = d.inputs;
                from_start = d.from_start;
                first = d.first;
                state = d.state;
              },
            )
        | inr e ↦
            let s' = ended s ram (prepared c vkey (map (le_bytes 32) s.public_input)) in
            (
              1,
              s',
              omega arith,
              call s s' q.preparing e 0 s' refl,
              record {
                next_step = refl;
                inputs =
                    precomputed_input_preparation-prepared c vkey (map (le_bytes 32) s.public_input)
                      q.sized;
                from_start = refl;
                first = refl;
                state = refl;
              },
            )
      ]

  -- For an account that starts with the instructions that prepare_public_inputs_instructions makes of its
  -- public inputs, one for each of the key's, some number of calls of verify_partial, at most that of the
  -- instructions, ends the preparation: the prepared inputs are those that precomputed_input_preparation
  -- computes at once, and the Miller loop follows from its start.
  pub verify_calls-IsPrepared :
      (ns : List ℕ) (s : Verification F A B R T W)
      → s.step ≡ public_input_preparation
      → IsSized c vkey (map (le_bytes 32) s.public_input)
      → s.round ≡ 0
      → s.instruction ≡ 0
      → prepare_public_inputs_instructions
          (map (le_bytes 32) s.public_input)
          vkey.public_inputs_count
        ≡ ok ns
      → take (length ns) s.prepare_inputs_instructions ≡ ns
      → length s.computation.ram_fq ≡ 6
      → (count : ℕ) × (s' : Verification F A B R T W) × (count ≤ length ns)
        × (verify_calls count s ≡ ok s')
        × IsPrepared s s'
  verify_calls-IsPrepared ns s step sized round instruction made table room =
      let (all, few) =
        prepare_public_inputs_instructions_lem (map (le_bytes 32) s.public_input)
          vkey.public_inputs_count ns made (omega (arith, sized.few)) in
      preparation_ends ns s (record {
        preparing = step;
        sized = sized;
        more = omega (arith, sized.some_input);
        all = omega arith;
        few = omega arith;
        table = λ j l.
            let e : s.instruction + j ≡ j = omega (arith, instruction) in
            rw e (
              sym (get_elem?-take (length ns) s.prepare_inputs_instructions j l)
              ∙ ap (λ xs. get_elem? xs j) table);
        boundary =
            subst (λ k. IsBoundary c vkey (map (le_bytes 32) s.public_input) k s.computation.ram_fq)
              (sym round)
              (IsBoundary-start c vkey (map (le_bytes 32) s.public_input) s.computation.ram_fq
                room);
      })
