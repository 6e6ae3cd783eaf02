-- ===== src/Proof/Preparation/Sums.antt =====
-- One more window, and one more input, in the sums that the preparation computes.
use elusiv.Base.{
  if◌then◌else◌, length, get_elem?, take, ℕ, zero, suc, ◌+◌, ◌≡◌, refl, some, List, [], ◌∷◌, arith,
}
use elusiv.Bytes.Find.{eq_bytes}
use elusiv.Proof.Preparation.{G1Projective, Curve, InputsKey, zero_input, add_windows, add_inputs}

-- The RAM that holds two points.
abbrev pub two_points : {F : Type 0} → G1Projective F → G1Projective F → List F
two_points g a = g.x ∷ g.y ∷ g.z ∷ a.x ∷ a.y ∷ a.z ∷ []

pub two_points_exist :
    {F : Type 0} (ram : List F) → length ram ≡ 6 → (g a : G1Projective F) × (ram ≡ two_points g a)
two_points_exist (a ∷ b ∷ c ∷ d ∷ e ∷ f ∷ []) h =
    (record { x = a; y = b; z = c }, record { x = d; y = e; z = f }, refl)
two_points_exist [] h = absurd (omega arith)
two_points_exist (a ∷ []) h = absurd (omega arith)
two_points_exist (a ∷ b ∷ []) h = absurd (omega arith)
two_points_exist (a ∷ b ∷ c ∷ []) h = absurd (omega arith)
two_points_exist (a ∷ b ∷ c ∷ d ∷ []) h = absurd (omega arith)
two_points_exist (a ∷ b ∷ c ∷ d ∷ e ∷ []) h = absurd (omega arith)
two_points_exist (a ∷ b ∷ c ∷ d ∷ e ∷ f ∷ g ∷ rest) h = absurd (omega arith)

module _ {F A : Type 0} (c : Curve F A) (vkey : InputsKey F A) where
  pub add_windows-next :
      (i k j w : ℕ) (input : List ℕ) (acc : G1Projective F)
      → get_elem? input j ≡ some w
      → add_windows c vkey i k (take (suc j) input) acc
        ≡ c.add_mixed (add_windows c vkey i k (take j input) acc) (vkey.gamma_abc i (k + j) w)
  unfolding add_windows
  add_windows-next i k j w [] acc h = absurd (cc)
  add_windows-next i k zero w (x ∷ input) acc h =
      let e : x ≡ w = cc in let z : k + 0 ≡ k = omega arith in rw (e, z) refl
  add_windows-next i k (suc j) w (x ∷ input) acc h =
      let e : k + suc j ≡ suc k + j = omega arith in
      rw e (add_windows-next i (suc k) j w input (c.add_mixed acc (vkey.gamma_abc i k x)) h)

  pub add_inputs-next :
      (k i : ℕ) (x : List ℕ) (inputs : List (List ℕ)) (g : G1Projective F)
      → get_elem? inputs i ≡ some x
      → add_inputs c vkey k (take (suc i) inputs) g ≡ (
          let before = add_inputs c vkey k (take i inputs) g in
          if eq_bytes x zero_input
          then before
          else c.add_points before (add_windows c vkey (k + i) 0 x c.zero_point))
  unfolding add_inputs
  add_inputs-next k i x [] g h = absurd (cc)
  add_inputs-next k zero x (y ∷ inputs) g h =
      let e : y ≡ x = cc in let z : k + 0 ≡ k = omega arith in rw (e, z) refl
  add_inputs-next k (suc i) x (y ∷ inputs) g h =
      let e : k + suc i ≡ suc k + i = omega arith in rw e (add_inputs-next (suc k) i x inputs _ h)
