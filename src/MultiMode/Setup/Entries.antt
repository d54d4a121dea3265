-- ===== src/MultiMode/Setup/Entries.antt =====
-- What stands in a `std::map` after an assignment or an insertion, as `initControllers` of
-- multi_mode_controller.cpp makes them.
use franka_gazebo.Prelude.{
  ◌≡◌, refl, sym, ap, ◌∙◌, arith, true, Option, none, some, [], ◌∷◌, if◌then◌else◌, Name, Map, find,
  assign, before, same, same-eq, same_refl, Option-cases, Bool-cases, inl, inr,
}
use franka_gazebo.MultiMode.Setup.{insert_new}

same-both : (j k r : Name) → same j r ≡ true → same k r ≡ true → same j k ≡ true
same-both j k r p q = rw (same-eq j r p, same-eq k r q) (same_refl r)

same-moves : (j k r : Name) → same j k ≡ true → same j r ≡ same k r
same-moves j k r p = ap (λ t. same t r) (same-eq j k p)

pub find-assign {ℓ} :
    {V : Type ℓ} (k r : Name) (v : V) (m : Map V)
    → find r (assign k v m) ≡ (if same k r then some v else find r m)
find-assign k r v [] = refl
find-assign k r v ((j, w) ∷ m) = elim (Bool-cases (same j k)) [
  | inl e ↦ elim (Bool-cases (same k r)) [
    | inl p ↦ rw (e, p) refl
    | inr p ↦ rw (e, p, same-moves j k r e, p) refl
  ]
  | inr e ↦ elim (Bool-cases (before k j)) [
    | inl b ↦ rw (e, b) refl
    | inr b ↦ elim (Bool-cases (same j r)) [
      | inr q ↦ rw (e, b, q) (find-assign k r v m)
      | inl q ↦ elim (Bool-cases (same k r)) [
        | inl p ↦ absurd (ground (arith, e, same-both j k r q p))
        | inr p ↦ rw (e, b, q, p) refl
      ]
    ]
  ]
]

abbrev pub or_else {ℓ} : {V : Type ℓ} → Option V → Option V → Option V
or_else (some w) o = some w
or_else none o = o

insert_new-assign {ℓ} :
    {V : Type ℓ} (k : Name) (v : V) (m : Map V) → find k m ≡ none → insert_new k v m ≡ assign k v m
insert_new-assign k v m e = rw (e, insert_new) refl

insert_new_there {ℓ} :
    {V : Type ℓ} (k : Name) (v w : V) (m : Map V) → find k m ≡ some w → insert_new k v m ≡ m
insert_new_there k v w m e = rw (e, insert_new) refl

or_else-none {ℓ} : {V : Type ℓ} (o : Option V) → or_else o none ≡ o
or_else-none none = refl
or_else-none (some w) = refl

pub find-insert_new {ℓ} :
    {V : Type ℓ} (k r : Name) (v : V) (m : Map V)
    → find r (insert_new k v m) ≡ or_else (find r m) (if same k r then some v else none)
find-insert_new k r v m = elim (Option-cases (find k m)) [
  | inl e ↦
      ap (find r) (insert_new-assign k v m e) ∙ find-assign k r v m ∙ elim (Bool-cases (same k r)) [
        | inl p ↦ rw (p, ← same-eq k r p, e) refl
        | inr p ↦ rw p (sym (or_else-none (find r m)))
      ]
  | inr (u, e) ↦ ap (find r) (insert_new_there k v u m e) ∙ elim (Bool-cases (same k r)) [
    | inl p ↦ rw (p, ← same-eq k r p, e) refl
    | inr p ↦ rw p (sym (or_else-none (find r m)))
  ]
]
