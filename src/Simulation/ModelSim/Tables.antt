-- ===== src/Simulation/ModelSim/Tables.antt =====
-- The nested loops of model_sim.hpp that fill a matrix.
use franka_gazebo.Prelude.{
  ℕ, zero, suc, ◌+◌, ◌*◌, ◌<◌, ◌≡◌, refl, ap, ◌∙◌, arith, some, List, [], ◌∷◌, ◌++◌, length,
  get_elem?, get_or,
}
use franka_gazebo.Simulation.ModelSim.{values, table, to_col_major}

module _ {A : Type 0} where
  length-values : (f : ℕ → A) (count n : ℕ) → length (values f count n) ≡ count
  length-values f zero n = refl
  length-values f (suc count) n = ap suc (length-values f count (n + 1))

  pub values-get :
      (f : ℕ → A) (count n i : ℕ) → i < count → get_elem? (values f count n) i ≡ some (f (n + i))
  values-get f zero n i l = absurd (omega arith)
  values-get f (suc count) n zero l = ap (λ k. some (f k)) (omega arith)
  values-get f (suc count) n (suc i) l =
      values-get f count (n + 1) i (omega arith) ∙ ap (λ k. some (f k)) (omega arith)

  get-front : (xs ys : List A) (i : ℕ) → i < length xs → get_elem? (xs ++ ys) i ≡ get_elem? xs i
  get-front [] ys i l = absurd (omega arith)
  get-front (x ∷ xs) ys zero l = refl
  get-front (x ∷ xs) ys (suc i) l = get-front xs ys i (omega arith)

  get-behind :
      (xs ys : List A) (k i : ℕ) → k ≡ length xs + i → get_elem? (xs ++ ys) k ≡ get_elem? ys i
  get-behind [] ys k i e = let same : k ≡ i = omega (arith, e) in ap (get_elem? ys) same
  get-behind (x ∷ xs) ys zero i e = absurd (omega arith)
  get-behind (x ∷ xs) ys (suc k) i e = get-behind xs ys k i (omega arith)

  -- The loops put the entry of row `i` and column `j` where it belongs.
  pub table-get :
      (f : ℕ → ℕ → A) (rows cols n i j : ℕ)
      → i < rows
      → j < cols
      → get_elem? (table f rows cols n) (i * cols + j) ≡ some (f (n + i) j)
  table-get f zero cols n i j l m = absurd (omega arith)
  table-get f (suc rows) cols n zero j l m =
      get-front (values (f n) cols 0) (table f rows cols (n + 1)) (zero * cols + j)
        (omega (arith, length-values (f n) cols 0))
      ∙ ap (get_elem? (values (f n) cols 0)) (omega arith)
      ∙ values-get (f n) cols 0 j m
      ∙ ap (λ k. some (f n k)) (omega arith)
      ∙ ap (λ k. some (f k j)) (omega arith)
  table-get f (suc rows) cols n (suc i) j l m =
      get-behind (values (f n) cols 0) (table f rows cols (n + 1)) (suc i * cols + j) (i * cols + j)
        (omega (arith, length-values (f n) cols 0))
      ∙ table-get f rows cols (n + 1) i j (omega arith) m
      ∙ ap (λ k. some (f k j)) (omega arith)

  values-equal :
      (f g : ℕ → A) (count n : ℕ)
      → ((j : ℕ) → j < n + count → f j ≡ g j)
      → values f count n ≡ values g count n
  values-equal f g zero n h = refl
  values-equal f g (suc count) n h =
      let rest = values-equal f g count (n + 1) (λ j l. h j (omega arith)) in
      let front = h n (omega arith) in cc

  pub table-equal :
      (f g : ℕ → ℕ → A) (rows cols n : ℕ)
      → ((i j : ℕ) → i < n + rows → j < cols → f i j ≡ g i j)
      → table f rows cols n ≡ table g rows cols n
  table-equal f g zero cols n h = refl
  table-equal f g (suc rows) cols n h =
      let rest = table-equal f g rows cols (n + 1) (λ i j l m. h i j (omega arith) m) in
      let front = values-equal (f n) (g n) cols 0 (λ j l. h n j (omega arith) (omega arith)) in
      ap (λ xs. xs ++ table f rows cols (n + 1)) front ∙ ap (λ ys. values (g n) cols 0 ++ ys) rest

  get_or-some : (xs : List A) (i : ℕ) (d x : A) → get_elem? xs i ≡ some x → get_or xs i d ≡ x
  get_or-some [] i d x h = absurd (cc)
  get_or-some (y ∷ xs) zero d x h = cc
  get_or-some (y ∷ xs) (suc i) d x h = get_or-some xs i d x h

  pub table-get_or :
      (f : ℕ → ℕ → A) (rows cols i j : ℕ) (d : A)
      → i < rows
      → j < cols
      → get_or (table f rows cols 0) (i * cols + j) d ≡ f i j
  table-get_or f rows cols i j d l m =
      get_or-some (table f rows cols 0) (i * cols + j) d (f i j)
        (table-get f rows cols 0 i j l m ∙ ap (λ k. some (f k j)) (omega arith))

  -- The conversion moves the entry of row `r` and column `c` of the row-major array to its place in the
  -- column-major one.
  pub to_col_major-get :
      (rows cols : ℕ) (a : ℕ → A) (r c : ℕ)
      → r < rows
      → c < cols
      → get_elem? (to_col_major rows cols a) (c * rows + r) ≡ some (a (r * cols + c))
  unfolding to_col_major
  to_col_major-get rows cols a r c l m =
      table-get (λ col row. a (row * cols + col)) cols rows 0 c r m l
      ∙ ap (λ k. some (a (r * cols + k))) (omega arith)

  -- Converted twice, a matrix is what it was.
  pub to_col_major-twice :
      (rows cols : ℕ) (f : ℕ → ℕ → A) (d : A)
      → to_col_major cols rows
          (λ i. get_or (to_col_major rows cols (λ k. get_or (table f rows cols 0) k d)) i d)
        ≡ table f rows cols 0
  unfolding to_col_major
  to_col_major-twice rows cols f d =
      table-equal
        (λ r c.
          get_or (to_col_major rows cols (λ k. get_or (table f rows cols 0) k d)) (c * rows + r) d)
        f rows cols 0
        (λ r c l m.
          table-get_or (λ c' r'. get_or (table f rows cols 0) (r' * cols + c') d) cols rows c r d m
            (omega arith)
          ∙ table-get_or f rows cols r c d (omega arith) m)
