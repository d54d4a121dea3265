-- ===== src/MultiMode/Resources/Conversions.antt =====
-- Between a resource and the names of its arms, as in conversions.h.
use franka_gazebo.Prelude.{
  ℕ, zero, suc, ◌+◌, ◌<◌, Bool, true, not, ◌≡◌, ◌≢◌, refl, arith, none, some, List, [], ◌∷◌, ◌++◌,
  ◌==◌, if◌then◌else◌, Name, length, all, All, append-nil, append_assoc, Option-cases, inl, inr, ap,
  ◌∙◌,
}
use franka_gazebo.MultiMode.Resources.{
  split_first, push_back_resources, resource_to_vector, joined, vector_to_resource,
}

-- The parts between the "&", without an empty last one, by recursion on the characters.
abbrev onto_first : ℕ → List Name → List Name
onto_first c [] = (c ∷ []) ∷ []
onto_first c (p ∷ ps) = (c ∷ p) ∷ ps

pub parts : Name → List Name
parts [] = []
parts (c ∷ s) = if c == b'&' then [] ∷ parts s else onto_first c (parts s)

abbrev no_amp : Name → Bool
no_amp = all λ c. not (c == b'&')

parts-none : (c : ℕ) (s : Name) → split_first (c ∷ s) ≡ none → parts (c ∷ s) ≡ (c ∷ s) ∷ []
unfolding split_first parts
parts-none c [] h = ground arith
parts-none c (d ∷ s) h = ground (arith, parts-none d s)

parts-some :
    (s front back : Name)
    → split_first s ≡ some (front, back)
    → (parts s ≡ front ∷ parts back) × (length back < length s)
unfolding split_first parts
parts-some [] front back h = absurd (cc)
parts-some (c ∷ s) front back h = elim (Option-cases (split_first s)) [
  | inl e ↦ ground arith
  | inr (p, e) ↦ ground (arith, parts-some s p.0 p.1 e)
]

push_back_resources-eq-parts :
    (f : ℕ) (out : List Name) (res : Name)
    → length res < f
    → push_back_resources f out res ≡ out ++ parts res
unfolding push_back_resources parts
push_back_resources-eq-parts zero out res h = absurd (omega arith)
push_back_resources-eq-parts (suc f) out [] h = simp append-nil
push_back_resources-eq-parts (suc f) out (c ∷ s) h = elim (Option-cases (split_first (c ∷ s))) [
  | inl e ↦ rw (e, push_back_resources, parts-none c s e)
  | inr (p, e) ↦
      let (split, shorter) = parts-some (c ∷ s) p.0 p.1 e in
      rw (e, push_back_resources, split)
        (push_back_resources-eq-parts f (out ++ p.0 ∷ []) p.1 (omega (arith, shorter))
          ∙ append_assoc out (p.0 ∷ []) (parts p.1))
]

-- The fuel of `resource_to_vector` is enough: the recursion on `substr` gives the parts.
pub resource_to_vector-eq-parts : (res : Name) → resource_to_vector res ≡ parts res
unfolding resource_to_vector
resource_to_vector-eq-parts res = push_back_resources-eq-parts (length res + 1) [] res (omega arith)

parts-plain : (n s : Name) → no_amp n ≡ true → parts (n ++ b'&' ∷ s) ≡ n ∷ parts s
unfolding parts
parts-plain [] s h = ground arith
parts-plain (c ∷ n) s h = ground (arith, parts-plain n s)

parts_single : (c : ℕ) (n : Name) → no_amp (c ∷ n) ≡ true → parts (c ∷ n) ≡ (c ∷ n) ∷ []
unfolding parts
parts_single c [] h = ground arith
parts_single c (d ∷ n) h = ground (arith, parts_single d n)

abbrev pub IsArmName : Name → Type 0
IsArmName n = (no_amp n ≡ true) × (n ≢ [])

parts-joined :
    (n : Name) (ns : List Name) → All IsArmName (n ∷ ns) → parts (n ++ joined ns) ≡ n ∷ ns
unfolding joined
parts-joined [] [] h = absurd (h.0.1 refl)
parts-joined (c ∷ n) [] h = rw append-nil (parts_single c n h.0.0)
parts-joined n (m ∷ ns) h =
    parts-plain n (m ++ joined ns) h.0.0 ∙ ap (λ (l : List Name). n ∷ l) (parts-joined m ns h.1)

-- Names that are not empty and have no "&" in them come back from the resource that they are joined to.
pub resource_to_vector-vector_to_resource :
    (ns : List Name) → All IsArmName ns → resource_to_vector (vector_to_resource ns) ≡ ns
unfolding vector_to_resource parts
resource_to_vector-vector_to_resource [] h = resource_to_vector-eq-parts []
resource_to_vector-vector_to_resource (n ∷ ns) h =
    resource_to_vector-eq-parts (n ++ joined ns) ∙ parts-joined n ns h
