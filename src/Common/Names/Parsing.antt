-- ===== src/Common/Names/Parsing.antt =====
-- The names that `get_ns` and `get_joint_no` of helper_functions.cpp take apart.
use franka_gazebo.Prelude.{
  ℕ, ◌+◌, ◌-◌, ◌≤◌, ◌≡◌, refl, Bool, true, not, none, some, List, [], ◌∷◌, ◌++◌, arith, ◌==◌, Name,
  all, get_elem?, ℤ, sub_ℕ,
}
use franka_gazebo.Common.Names.{before_last, get_ns, back, get_joint_no, at}

abbrev plain : Name → Bool
plain = all λ c. not (c == b'_')

before_last-plain : (t : Name) → plain t ≡ true → before_last t ≡ none
unfolding before_last
before_last-plain [] h = refl
before_last-plain (c ∷ t) h = ground (arith, before_last-plain t)

before_last-append : (s t : Name) → plain t ≡ true → before_last (s ++ b'_' ∷ t) ≡ some s
unfolding before_last
before_last-append [] t h = ground (arith, before_last-plain t)
before_last-append (c ∷ s) t h = ground (arith, before_last-append s t)

-- The namespace of `ns ++ "_" ++ t` is `ns`, for every `ns` and every `t` without a '_' in it.
pub get_ns-append : (ns t : Name) → plain t ≡ true → get_ns (ns ++ b'_' ∷ t) ≡ ns
unfolding get_ns
get_ns-append ns t h = ground (arith, before_last-append ns t)

back-append : (s : Name) (c : ℕ) → back (s ++ c ∷ []) ≡ some c
unfolding back
back-append [] c = refl
back-append (d ∷ []) c = refl
back-append (d ∷ e ∷ s) c = back-append (e ∷ s) c

-- A name that ends in the digit `k`, for `k` of at least 1, stands for entry `k - 1` of an array; `at`
-- throws where the array is too short.
pub at-get_joint_no {ℓ} :
    {A : Type ℓ} (xs : List A) (s : Name) (k : ℕ)
    → 1 ≤ k
    → (j : ℤ) × (get_joint_no (s ++ (b'0' + k) ∷ []) ≡ some j) × (at xs j ≡ get_elem? xs (k - 1))
unfolding get_joint_no at
at-get_joint_no xs s k h =
    (sub_ℕ (b'0' + k) (b'0' + 1), rw (back-append s (b'0' + k), get_joint_no), ground arith)
