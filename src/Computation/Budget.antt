-- ===== src/Computation/Budget.antt =====
-- What the instructions of a computation amount to: a split of its rounds, each within the limit.
use elusiv.Base.{
  ltb, lt→ltb, ge→ltb, Bool-cases, length, drop, take, length-append, u32_mod, add_u32, sub_u32, ℕ,
  ◌+◌, ◌*◌, ◌≤◌, ◌<◌, ◌≡◌, refl, sym, ap, ◌∙◌, inl, inr, true, false, List, [], ◌∷◌, ◌++◌, arith,
}
use mathlib.Core.List.{append-nil, append_assoc}
use elusiv.Computation.{
  finish, Batching, batch_round, batch_rounds, compute_unit_instructions, compute_unit_padding,
  no_batching,
}

unfoldable pub total : List ℕ → ℕ
total [] = 0
total (x ∷ xs) = x + total xs

-- The instructions take the costs one after the other, each within the limit, and leave none.
unfoldable pub IsSplit : ℕ → List ℕ → List ℕ → Type 0
unfolding total
IsSplit limit costs [] = length costs ≡ 0
IsSplit limit costs (n ∷ ns) =
    (n ≤ length costs) × (total (take n costs) ≤ limit) × IsSplit limit (drop n costs) ns

unfoldable pub IsBounded : ℕ → List ℕ → Type 0
IsBounded limit [] = Unit {0}
IsBounded limit (c ∷ cs) = (c ≤ limit) × IsBounded limit cs

take_front : (xs ys : List ℕ) → take (length xs) (xs ++ ys) ≡ xs
take_front [] ys = refl
take_front (x ∷ xs) ys = ap (◌∷◌ x) (take_front xs ys)

drop_front : (xs ys : List ℕ) → drop (length xs) (xs ++ ys) ≡ ys
drop_front [] ys = refl
drop_front (x ∷ xs) ys = drop_front xs ys

total_append : (xs : List ℕ) (y : ℕ) → total (xs ++ y ∷ []) ≡ total xs + y
unfolding total
total_append [] y = omega arith
total_append (x ∷ xs) y = omega (arith, total_append xs y)

IsSplit-front :
    (limit : ℕ) (front costs ns : List ℕ)
    → total front ≤ limit
    → IsSplit limit costs ns
    → IsSplit limit (front ++ costs) (length front ∷ ns)
unfolding IsSplit
IsSplit-front limit front costs ns h s = (
  omega (arith, length-append front costs),
  rw (take_front front costs) h,
  rw (drop_front front costs) s,
)

-- The batch of the loop stands for `pending`, the rounds that no instruction has yet.
record IsPending (limit : ℕ) (pending : List ℕ) (b : Batching) : Type 0 where
  count : length pending ≡ b.rounds
  cost : total pending ≡ b.compute_units
  cheap : total pending ≤ limit

finish-IsSplit :
    (limit : ℕ) (pending : List ℕ) (b : Batching)
    → IsPending limit pending b
    → (ns : List ℕ) × (finish b.instructions b.rounds ≡ b.instructions ++ ns)
      × IsSplit limit (pending ++ []) ns
unfolding finish IsSplit
finish-IsSplit limit [] b p =
    let none_left : ltb 0 b.rounds ≡ false = ge→ltb 0 b.rounds (omega (arith, p.count)) in
    rw none_left ([], sym (append-nil b.instructions), refl)
finish-IsSplit limit (x ∷ pending) b p =
    let some_left : ltb 0 b.rounds ≡ true = lt→ltb 0 b.rounds (omega (arith, p.count)) in
    rw (some_left, ← p.count)
      (length (x ∷ pending) ∷ [], refl, IsSplit-front limit (x ∷ pending) [] [] p.cheap refl)

pushed-IsPending :
    (limit : ℕ) (pending : List ℕ) (b : Batching) (r : ℕ)
    → IsPending limit pending b
    → b.rounds + 1 < u32_mod
    → b.compute_units + r ≤ limit
    → limit < u32_mod
    → IsPending limit
        (pending ++ r ∷ [])
        (record b { rounds = add_u32 b.rounds 1; compute_units = add_u32 b.compute_units r })
pushed-IsPending limit pending b r p few fits small = record {
  count = omega (arith, p.count, length-append pending (r ∷ []));
  cost = omega (arith, p.cost, total_append pending r);
  cheap = omega (arith, p.cost, total_append pending r);
}

total_one : (r : ℕ) → total (r ∷ []) ≡ r
unfolding total
total_one r = omega arith

-- The batch after a round that begins an instruction, and after one that does not.
abbrev begun : Batching → ℕ → Batching
begun b r = record { instructions = b.instructions ++ b.rounds ∷ []; rounds = 1; compute_units = r }

abbrev extended : Batching → ℕ → Batching
extended b r = record b { rounds = add_u32 b.rounds 1; compute_units = add_u32 b.compute_units r }

batch_round_over :
    (limit : ℕ) (b : Batching) (r : ℕ) (rs : List ℕ)
    → ltb limit (add_u32 b.compute_units r) ≡ true
    → batch_rounds limit b (r ∷ rs) ≡ batch_rounds limit (begun b r) rs
unfolding batch_rounds batch_round
batch_round_over limit b r rs over =
    let e : batch_round limit b r ≡ begun b r = rw over refl in ap (λ x. batch_rounds limit x rs) e

batch_round_under :
    (limit : ℕ) (b : Batching) (r : ℕ) (rs : List ℕ)
    → ltb limit (add_u32 b.compute_units r) ≡ false
    → batch_rounds limit b (r ∷ rs) ≡ batch_rounds limit (extended b r) rs
unfolding batch_rounds batch_round
batch_round_under limit b r rs under =
    let e : batch_round limit b r ≡ extended b r = rw under refl in
    ap (λ x. batch_rounds limit x rs) e

batch_rounds-IsSplit :
    (limit : ℕ) (pending : List ℕ) (b : Batching) (costs : List ℕ)
    → IsPending limit pending b
    → IsBounded limit costs
    → 2 * limit < u32_mod
    → length pending + length costs < u32_mod
    → (ns : List ℕ) × (finish
          (batch_rounds limit b costs).instructions
          (batch_rounds limit b costs).rounds
        ≡ b.instructions ++ ns)
      × IsSplit limit (pending ++ costs) ns
unfolding batch_rounds IsBounded
batch_rounds-IsSplit limit pending b [] p bounded small few = finish-IsSplit limit pending b p
batch_rounds-IsSplit limit pending b (r ∷ rs) p (fits, bounded) small few =
    elim (Bool-cases (ltb limit (add_u32 b.compute_units r))) [
      | inl over ↦
          let alone : IsPending limit (r ∷ []) (begun b r) = record {
            count = refl;
            cost = total_one r;
            cheap = omega (arith, total_one r);
          } in
          let (ns, e, s) =
            batch_rounds-IsSplit limit (r ∷ []) (begun b r) rs alone bounded small (omega arith) in
          rw (batch_round_over limit b r rs over) (
            b.rounds ∷ ns,
            e ∙ append_assoc b.instructions (b.rounds ∷ []) ns,
            rw p.count at (IsSplit-front limit pending (r ∷ rs) ns p.cheap s),
          )
      | inr under ↦
          let room : b.compute_units + r ≤ limit = ground (arith, p.cost, p.cheap) in
          let q =
            pushed-IsPending limit pending b r p (omega (arith, p.count)) room (omega arith) in
          let (ns, e, s) =
            batch_rounds-IsSplit limit (pending ++ r ∷ []) (extended b r) rs q bounded small
              (omega (arith, length-append pending (r ∷ []))) in
          rw (batch_round_under limit b r rs under)
            (ns, e, rw (append_assoc pending (r ∷ []) rs) at s)
    ]

no_batch : IsPending 0 [] no_batching
unfolding total
no_batch = record { count = refl; cost = refl; cheap = omega arith }

-- Where each round fits into the limit, which is the maximum without the padding and below 2^31, and
-- the rounds are fewer than 2^32, the instructions of compute_unit_instructions take the rounds in
-- their order, all of them, and each instruction's rounds cost at most the limit.
pub compute_unit_instructions-IsSplit :
    (costs : List ℕ) (limit : ℕ)
    → IsBounded limit costs
    → 2 * limit < u32_mod
    → length costs < u32_mod
    → IsSplit limit costs (compute_unit_instructions costs (limit + compute_unit_padding))
unfolding compute_unit_instructions
compute_unit_instructions-IsSplit costs limit bounded small few =
    let budget : sub_u32 (limit + compute_unit_padding) compute_unit_padding ≡ limit =
      omega arith in
    let (ns, e, s) =
      batch_rounds-IsSplit limit [] no_batching costs
        (record { count = refl; cost = no_batch.cost; cheap = omega (arith, no_batch.cost) })
        bounded small (omega arith) in
    rw (budget, e) s
