-- ===== src/Simulation/RobotSim/Found.antt =====
-- What the loops of robot_sim.cpp find.
use franka_gazebo.Prelude.{
  ℕ, zero, suc, ◌+◌, ◌<◌, ◌≡◌, refl, sym, subst, arith, Bool, true, false, Option, none, some, List,
  [], ◌∷◌, all, Both, get_elem?, Option-cases, inl, inr,
}
use franka_gazebo.Simulation.RobotSim.{fill_array}

abbrev pub is_some {ℓ} : {A : Type ℓ} → Option A → Bool
is_some none = false
is_some (some a) = true

-- `count` numbers from `n` on.
abbrev pub range : (count n : ℕ) → List ℕ
range zero n = []
range (suc count) n = n ∷ range count (n + 1)

module _ {A : Type 0} (step : ℕ → Option A) where
  -- The loop succeeds exactly if each of its rounds does.
  pub fill_array-all :
      (count n : ℕ)
      → is_some (fill_array step count n) ≡ all (λ i. is_some (step i)) (range count n)
  fill_array-all zero n = refl
  fill_array-all (suc count) n = elim (Option-cases (step n)) [
    | inl e ↦ ground (arith, e)
    | inr (a, e) ↦ elim (Option-cases (fill_array step count (n + 1))) [
      | inl f ↦ ground (arith, e, f, fill_array-all count (n + 1))
      | inr (xs, f) ↦ ground (arith, e, f, fill_array-all count (n + 1))
    ]
  ]

  -- The loop found these elements, one in each round.
  abbrev pub Filled : (count n : ℕ) → List A → Type 0
  Filled count n xs = Both (λ i a. step i ≡ some a) (range count n) xs

  pub fill_array-Filled :
      (count n : ℕ) (xs : List A) → fill_array step count n ≡ some xs → Filled count n xs
  fill_array-Filled zero n [] h = tt
  fill_array-Filled zero n (x ∷ xs) h = absurd (cc)
  fill_array-Filled (suc count) n xs h = elim (Option-cases (step n)) [
    | inl e ↦ absurd (ground (arith, e))
    | inr (b, e) ↦ elim (Option-cases (fill_array step count (n + 1))) [
      | inl f ↦ absurd (ground (arith, e, f))
      | inr (bs, f) ↦
          let same : b ∷ bs ≡ xs = ground (arith, e, f) in
          subst (λ ys. Filled (suc count) n ys) same (e, fill_array-Filled count (n + 1) bs f)
    ]
  ]

  pub Filled-get :
      (count n : ℕ) (xs : List A) (i : ℕ)
      → Filled count n xs
      → i < count
      → get_elem? xs i ≡ step (n + i)
  Filled-get zero n xs i h l = absurd (omega arith)
  Filled-get (suc count) n [] i h l = absurd h
  Filled-get (suc count) n (x ∷ xs) zero h l = sym (subst (λ k. step k ≡ some x) (omega arith) h.0)
  Filled-get (suc count) n (x ∷ xs) (suc i) h l =
      subst (λ k. get_elem? xs i ≡ step k) (omega arith)
        (Filled-get count (n + 1) xs i h.1 (omega arith))
