-- ===== src/Simulation/RobotSim/Keys.antt =====
-- Maps in which no key stands twice, as the insertions of `initSim` leave them.
use franka_gazebo.Prelude.{
  ◌≡◌, ◌≢◌, sym, subst, arith, true, none, [], ◌∷◌, Name, same, same_refl, Map, find, assign,
  before, All, Bool-cases, inl, inr,
}

module _ {ℓ} {V : Type ℓ} where
  abbrev pub KeysApart : Map V → Type 0
  KeysApart [] = Unit
  KeysApart (p ∷ m) = All (λ q. p.0 ≢ q.0) m × KeysApart m

  find-none : (k : Name) (m : Map V) → find k m ≡ none → All (λ q. k ≢ q.0) m
  find-none k [] h = tt
  find-none k ((j, v) ∷ m) h = elim (Bool-cases (same j k)) [
    | inl e ↦ absurd (ground (arith, e))
    | inr e ↦ (
      λ q. absurd (ground (arith, e, subst (λ x. same x k ≡ true) q (same_refl k))),
      find-none k m (ground (arith, e)),
    )
  ]

  pub assign-All_pairs {κ} :
      (P : Name × V → Type κ) (k : Name) (v : V) (m : Map V)
      → P (k, v)
      → All P m
      → All P (assign k v m)
  assign-All_pairs P k v [] h hs = (h, tt)
  assign-All_pairs P k v ((j, w) ∷ m) h hs = elim (Bool-cases (same j k)) [
    | inl e ↦ rw e (h, hs.1)
    | inr e ↦ elim (Bool-cases (before k j)) [
      | inl f ↦ rw (e, f) (h, hs)
      | inr f ↦ rw (e, f) (hs.0, assign-All_pairs P k v m h hs.1)
    ]
  ]

  pub assign-KeysApart :
      (k : Name) (v : V) (m : Map V) → find k m ≡ none → KeysApart m → KeysApart (assign k v m)
  assign-KeysApart k v [] h d = (tt, tt)
  assign-KeysApart k v ((j, w) ∷ m) h d =
      let (ne, free) = find-none k ((j, w) ∷ m) h in
      elim (Bool-cases (same j k)) [
        | inl e ↦ absurd (ground (arith, e))
        | inr e ↦ elim (Bool-cases (before k j)) [
          | inl f ↦ rw (e, f) ((ne, free), d)
          | inr f ↦
              rw (e, f)
                (
                  assign-All_pairs (λ q. j ≢ q.0) k v m (λ q. ne (sym q)) d.0,
                  assign-KeysApart k v m (ground (arith, e)) d.1,
                )
        ]
      ]
