-- ===== src/Hardware/Loop.antt =====
-- The loops over `arms_` of the hardware interfaces: `for (auto& arm : arms_)`, with `return ERROR` in
-- the body.
use franka_gazebo.Prelude.{
  Option, none, some, [], ◌∷◌, ◌≡◌, ◌⊎◌, ◌↔◌, inl, inr, refl, arith, Name, Map, Both, Option-cases,
}
use franka_gazebo.Common.Kinds.{ReturnType, ok, error}

module _ {A : Type 0} where
  abbrev pub keep : Name → A → Map A × ReturnType → Map A × ReturnType
  keep k a (rest, r) = ((k, a) ∷ rest, r)

  -- The body `f` gives `none` where it returns ERROR, before it changes its arm.
  unfoldable pub for_arms : (Name → A → Option A) → Map A → Map A × ReturnType
  for_arms f [] = ([], ok)
  for_arms f ((k, a) ∷ arms) = elim (f k a) [
    | none ↦ ((k, a) ∷ arms, error)
    | some a' ↦ keep k a' (for_arms f arms)
  ]

  abbrev pub Done : (Name → A → Option A) → Name × A → Name × A → Type 0
  Done f p q = (q.0 ≡ p.0) × (f p.0 p.1 ≡ some q.1)

  -- The loop goes through exactly when the body does for every arm, and then every arm is what the
  -- body made of it.
  pub for_arms-ok :
      (f : Name → A → Option A) (arms : Map A)
      → (for_arms f arms).1 ≡ ok
      → Both (Done f) arms (for_arms f arms).0
  unfolding for_arms
  for_arms-ok f [] h = tt
  for_arms-ok f ((k, a) ∷ arms) h = elim (Option-cases (f k a)) [
    | inl e ↦ absurd (ground arith)
    | inr (b, e) ↦ rw (e, for_arms) ((refl, e), for_arms-ok f arms (ground arith))
  ]

  Both-self :
      (R : A → A → Type 0)
      → ((a : A) → R a a)
      → (arms : Map A) → Both (λ p q. (q.0 ≡ p.0) × R p.1 q.1) arms arms
  Both-self R same [] = tt
  Both-self R same ((k, a) ∷ arms) = ((refl, same a), Both-self R same arms)

  -- A relation that holds between an arm and itself, and between an arm and what the body makes of it,
  -- holds between the arms before and after the loop, also where it returns ERROR.
  pub for_arms-keeps :
      (R : A → A → Type 0) (f : Name → A → Option A)
      → ((a : A) → R a a)
      → ((k : Name) (a b : A) → f k a ≡ some b → R a b)
      → (arms : Map A) → Both (λ p q. (q.0 ≡ p.0) × R p.1 q.1) arms (for_arms f arms).0
  unfolding for_arms
  for_arms-keeps R f same step [] = tt
  for_arms-keeps R f same step ((k, a) ∷ arms) = elim (Option-cases (f k a)) [
    | inl e ↦ rw (e, for_arms) ((refl, same a), Both-self R same arms)
    | inr (b, e) ↦ rw (e, for_arms) ((refl, step k a b e), for_arms-keeps R f same step arms)
  ]

  -- Some arm has the property.
  abbrev pub Has : (Name → A → Type 0) → Map A → Type 0
  Has P [] = ⊥
  Has P ((k, a) ∷ arms) = P k a ⊎ Has P arms

  -- The loop returns ERROR exactly when the body does for some arm as it stood before the loop.
  pub for_arms-error :
      (f : Name → A → Option A) (arms : Map A)
      → ((for_arms f arms).1 ≡ error) ↔ Has (λ k a. f k a ≡ none) arms
  unfolding for_arms
  for_arms-error f [] = (λ e. cc, λ h. absurd h)
  for_arms-error f ((k, a) ∷ arms) = elim (Option-cases (f k a)) [
    | inl e ↦ rw (e, for_arms) (λ h. inl refl, λ h. refl)
    | inr (b, e) ↦ ground (arith, e, for_arms-error f arms)
  ]
