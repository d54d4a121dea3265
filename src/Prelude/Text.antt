-- ===== src/Prelude/Text.antt =====
-- Names as lists of character codes, with the operations of `std::string` that the sources use.
use Prim.Native.Nat.{ℕ}
use Prim.Native.Char.{code}
use Prim.Native.String.{String}
use mathlib.Core.Path.{◌≡◌, refl, ap}
use mathlib.Core.Logic.{inl, inr}
use mathlib.Core.Bool.{Bool, true, false, ◌&&◌, ◌||◌}
use mathlib.Core.List.{List, [], ◌∷◌, ◌++◌}
use native.Mathlib.Omega.{arith}
use franka_gazebo.Prelude.Tests.{◌==◌, Bool-cases}

abbrev pub Name : Type 0
Name = List ℕ

-- The bytes of an ASCII text. `String` has its own `[]` and `∷`.
abbrev pub codes : String → Name
codes String.[] = []
codes (String.◌∷◌ c s) = code c ∷ codes s

-- `==` of two strings.
abbrev pub same : Name → Name → Bool
same [] [] = true
same [] (d ∷ t) = false
same (c ∷ s) [] = false
same (c ∷ s) (d ∷ t) = c == d && same s t

-- `p` stands at the front of `s`.
abbrev pub is_prefix : Name → Name → Bool
is_prefix [] s = true
is_prefix (c ∷ p) [] = false
is_prefix (c ∷ p) (d ∷ s) = c == d && is_prefix p s

-- `s.find(p) != std::string::npos`: some suffix of `s` starts with `p`.
unfoldable pub contains : Name → Name → Bool
contains p [] = is_prefix p []
contains p (d ∷ s) = is_prefix p (d ∷ s) || contains p s

pub same-eq : (s t : Name) → same s t ≡ true → s ≡ t
same-eq [] [] h = refl
same-eq [] (d ∷ t) h = cc
same-eq (c ∷ s) [] h = cc
same-eq (c ∷ s) (d ∷ t) h = ground (arith, same-eq s t)

pub same_refl : (s : Name) → same s s ≡ true
same_refl [] = refl
same_refl (c ∷ s) = ground (arith, same_refl s)

pub is_prefix-append : (p s : Name) → is_prefix p (p ++ s) ≡ true
is_prefix-append [] s = refl
is_prefix-append (c ∷ p) s = ground (arith, is_prefix-append p s)

pub is_prefix-split : (p s : Name) → is_prefix p s ≡ true → (r : Name) × (s ≡ p ++ r)
is_prefix-split [] s h = (s, refl)
is_prefix-split (c ∷ p) [] h = absurd (cc)
is_prefix-split (c ∷ p) (d ∷ s) h =
    let (r, e) = is_prefix-split p s (ground arith) in (r, ground (arith, e))

pub contains-append : (p a b : Name) → contains p (a ++ p ++ b) ≡ true
unfolding contains
contains-append [] [] [] = refl
contains-append [] [] (d ∷ b) = refl
contains-append (c ∷ p) [] b = ground (arith, is_prefix-append p b)
contains-append p (d ∷ a) b = ground (arith, contains-append p a b)

pub contains-split :
    (p s : Name) → contains p s ≡ true → (a : Name) × (b : Name) × (s ≡ (a ++ p) ++ b)
unfolding contains
contains-split p [] h = let (r, e) = is_prefix-split p [] h in ([], r, e)
contains-split p (d ∷ s) h = elim (Bool-cases (is_prefix p (d ∷ s))) [
  | inl here ↦ let (r, e) = is_prefix-split p (d ∷ s) here in ([], r, e)
  | inr later ↦
      let (a, b, e) = contains-split p s (ground arith) in (d ∷ a, b, ap (λ (t : Name). d ∷ t) e)
]
