-- ===== src/MultiMode/ControlSet/Usage.antt =====
-- What the vector `resource_usage` of `setupControlSet` counts.
use franka_gazebo.Prelude.{
  ℕ, zero, suc, ◌+◌, ◌<◌, ◌≡◌, refl, ◌∙◌, arith, List, [], ◌∷◌, ◌++◌, ◌==◌, if◌then◌else◌, Name,
  Map, map, length, get_or, set, replicate,
}
use franka_gazebo.MultiMode.Resources.{resource_to_vector}
use franka_gazebo.MultiMode.ControlSet.{Controller, index_of, count_usage, count_usages}

abbrev pub count : ℕ → List ℕ → ℕ
count i [] = 0
count i (n ∷ ns) = (if i == n then 1 else 0) + count i ns

pub count-append : (i : ℕ) (xs ys : List ℕ) → count i (xs ++ ys) ≡ count i xs + count i ys
count-append i [] ys = omega arith
count-append i (x ∷ xs) ys = omega (arith, count-append i xs ys)

get_or-set :
    (xs : List ℕ) (i j v : ℕ)
    → i < length xs
    → get_or (set xs i v) j 0 ≡ (if j == i then v else get_or xs j 0)
get_or-set [] i j v h = absurd (omega arith)
get_or-set (x ∷ xs) zero zero v h = refl
get_or-set (x ∷ xs) zero (suc j) v h = ground arith
get_or-set (x ∷ xs) (suc i) zero v h = ground arith
get_or-set (x ∷ xs) (suc i) (suc j) v h = ground (arith, get_or-set xs i j v)

length-set : (xs : List ℕ) (i v : ℕ) → length (set xs i v) ≡ length xs
length-set [] i v = refl
length-set (x ∷ xs) zero v = refl
length-set (x ∷ xs) (suc i) v = omega (arith, length-set xs i v)

pub get_or-replicate : (n i : ℕ) → get_or {A = ℕ} (replicate n 0) i 0 ≡ 0
get_or-replicate zero i = refl
get_or-replicate (suc n) zero = refl
get_or-replicate (suc n) (suc i) = get_or-replicate n i

-- The indices of the arms that a control set uses, with repetitions.
abbrev pub indices : Map ℕ → List Name → List ℕ
indices m = map (index_of m)

abbrev pub uses : Map ℕ → List Controller → List ℕ
uses m [] = []
uses m (c ∷ cs) = indices m (resource_to_vector c.info.resource) ++ uses m cs

count_usage_lem :
    (m : Map ℕ) (names : List Name) (usage : List ℕ) (i : ℕ)
    → ((r : Name) → index_of m r < length usage)
    → (length (count_usage m names usage) ≡ length usage)
      × (get_or (count_usage m names usage) i 0 ≡ get_or usage i 0 + count i (indices m names))
unfolding count_usage
count_usage_lem m [] usage i h = (refl, omega arith)
count_usage_lem m (r ∷ rs) usage i h =
    let j = index_of m r in
    let usage' = set usage j (get_or usage j 0 + 1) in
    let size = length-set usage j (get_or usage j 0 + 1) in
    let (same, total) = count_usage_lem m rs usage' i (λ q. omega (arith, h q, size)) in
    (same ∙ size, ground (arith, total, get_or-set usage j i (get_or usage j 0 + 1) (h r)))

pub count_usages_lem :
    (m : Map ℕ) (cs : List Controller) (usage : List ℕ) (i : ℕ)
    → ((r : Name) → index_of m r < length usage)
    → get_or (count_usages m cs usage) i 0 ≡ get_or usage i 0 + count i (uses m cs)
unfolding count_usages
count_usages_lem m [] usage i h = omega arith
count_usages_lem m (c ∷ cs) usage i h =
    let names = resource_to_vector c.info.resource in
    let (same, total) = count_usage_lem m names usage i h in
    omega (
      arith,
      count_usages_lem m cs (count_usage m names usage) i (λ q. omega (arith, h q, same)),
      total,
      count-append i (indices m names) (uses m cs),
    )
