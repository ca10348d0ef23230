-- ===== src/Network/Matrix/Shuffle.antt =====
-- nn.h: `mat_shuffle_rows`.
use zfl.Base.{
  ℕ, zero, suc, ◌+◌, ◌-◌, ◌%◌, ◌≤◌, ◌<◌, ◌≡◌, refl, ap, ap₂, ◌∙◌, Bool-cases, inl, inr, ◌⊎◌, true,
  false, Option, some, ◌>>=◌, ◌==◌, ltb, if◌then◌else◌, for_loop, for_loop-states, update_cell,
  get_elem?-cells, arith,
}
use native.Mathlib.Nat.{mod-lt}
use zfl.Common.{Floats}
use zfl.Network.Matrix.{Mat, mat_at, mat_put}
use zfl.Network.Matrix.Cells.{mat, mat_put-mat, mat_ext}

module _ (floats : Floats) where
  open floats use {Float}

  -- The inner loop's body, for column `k` of the rows `i` and `j`.
  unfoldable pub swap_cell : ℕ → ℕ → ℕ → Mat floats → Option (Mat floats)
  swap_cell i j k m = do
    t ← mat_at floats m i k
    x ← mat_at floats m j k
    m' ← mat_put floats m i k x
    mat_put floats m' j k t

  unfoldable pub swap_rows : ℕ → ℕ → Mat floats → Option (Mat floats)
  swap_rows i j m = if i == j then some m else for_loop m.cols (swap_cell i j) m

  -- `rand i` is what the call of rand for row `i` returns.
  unfoldable pub mat_shuffle_rows : (ℕ → ℕ) → Mat floats → Option (Mat floats)
  mat_shuffle_rows rand m = for_loop m.rows (λ i m'. swap_rows i (i + rand i % (m.rows - i)) m') m

  -- Two rows change places.
  abbrev pub swapped : ℕ → ℕ → ℕ → ℕ
  swapped i j a = if a == i then j else if a == j then i else a

  -- Behind `k` columns.
  abbrev partly : (ℕ → ℕ → Float) → ℕ → ℕ → ℕ → ℕ → ℕ → Float
  partly f i j k a b = if ltb b k then f (swapped i j a) b else f a b

  one_column :
      (f : ℕ → ℕ → Float) (i j k a b : ℕ)
      → update_cell (update_cell (partly f i j k) i k (f j k)) j k (f i k) a b
        ≡ partly f i j (suc k) a b
  one_column f i j k a b = grind arith

  not_yet : (k : ℕ) (u v : Float) → (if ltb k k then u else v) ≡ v
  not_yet k u v = ground arith

  swap_cell-partly :
      (r c : ℕ) (f : ℕ → ℕ → Float) (i j k : ℕ)
      → i < r
      → j < r
      → k < c
      → swap_cell i j k (mat floats r c (partly f i j k))
        ≡ some (mat floats r c (partly f i j (suc k)))
  unfolding swap_cell
  swap_cell-partly r c f i j k hi hj hk =
      ap₂
        (λ o p. o >>= λ t.
          p >>= λ x. mat_put floats (mat floats r c s) i k x >>= λ m'. mat_put floats m' j k t)
        (get_elem?-cells r c s i k hi hk ∙ ap some (not_yet k (f (swapped i j i) k) (f i k)))
        (get_elem?-cells r c s j k hj hk ∙ ap some (not_yet k (f (swapped i j j) k) (f j k)))
      ∙ ap (λ o. o >>= λ m'. mat_put floats m' j k (f i k))
          (mat_put-mat floats r c s i k (f j k) hi hk)
      ∙ mat_put-mat floats r c (update_cell s i k (f j k)) j k (f i k) hj hk
      ∙ ap some (mat_ext floats r c _ _ (λ a b ha hb. one_column f i j k a b))
    where
      s : ℕ → ℕ → Float
      s = partly f i j k

  all_columns :
      (f : ℕ → ℕ → Float) (i j c a b : ℕ) → b < c → partly f i j c a b ≡ f (swapped i j a) b
  all_columns f i j c a b h = ground arith

  no_column : (f : ℕ → ℕ → Float) (i j a b : ℕ) → f a b ≡ partly f i j 0 a b
  no_column f i j a b = ground arith

  one_row : (f : ℕ → ℕ → Float) (i j a b : ℕ) → (i == j) ≡ true → f a b ≡ f (swapped i j a) b
  one_row f i j a b e = ap (λ x. f x b) (stays i j a e)
    where
      stays : (i j a : ℕ) → (i == j) ≡ true → a ≡ swapped i j a
      stays i j a e = ground arith

  swap_rows-swapped :
      (r c : ℕ) (f : ℕ → ℕ → Float) (i j : ℕ)
      → i < r
      → j < r
      → swap_rows i j (mat floats r c f) ≡ some (mat floats r c (λ a b. f (swapped i j a) b))
  unfolding swap_rows
  swap_rows-swapped r c f i j hi hj = either (Bool-cases (i == j))
    where
      two_rows :
          for_loop c (swap_cell i j) (mat floats r c f)
          ≡ some (mat floats r c (λ a b. f (swapped i j a) b))
      two_rows =
          ap (for_loop c (swap_cell i j))
            (mat_ext floats r c _ _ (λ a b ha hb. no_column f i j a b))
          ∙ for_loop-states c (swap_cell i j) (λ k. mat floats r c (partly f i j k))
              (λ k hk. swap_cell-partly r c f i j k hi hj hk)
          ∙ ap some (mat_ext floats r c _ _ (λ a b ha hb. all_columns f i j c a b hb))

      either :
          ((i == j) ≡ true) ⊎ ((i == j) ≡ false)
          → (if i == j
              then some (mat floats r c f)
              else for_loop c (swap_cell i j) (mat floats r c f))
            ≡ some (mat floats r c (λ a b. f (swapped i j a) b))
      either (inl e) = rw e (ap some (mat_ext floats r c _ _ (λ a b ha hb. one_row f i j a b e)))
      either (inr e) = rw e two_rows

  -- The row of before that stands in each place behind `k` rounds, and the place that each row went to.
  abbrev pub order : (ℕ → ℕ) → ℕ → ℕ → ℕ → ℕ
  order rand r zero a = a
  order rand r (suc k) a = order rand r k (swapped k (k + rand k % (r - k)) a)

  abbrev pub place : (ℕ → ℕ) → ℕ → ℕ → ℕ → ℕ
  place rand r zero a = a
  place rand r (suc k) a = swapped k (k + rand k % (r - k)) (place rand r k a)

  swapped-swapped : (i j a : ℕ) → swapped i j (swapped i j a) ≡ a
  swapped-swapped i j a = ground arith

  swapped-lt : (i j a r : ℕ) → i < r → j < r → a < r → swapped i j a < r
  swapped-lt i j a r hi hj ha = ground arith

  chosen-lt : (rand : ℕ → ℕ) (r k : ℕ) → k < r → k + rand k % (r - k) < r
  chosen-lt rand r k h = omega (arith, below (rand k) (r - k) (omega arith))
    where
      below : (x m : ℕ) → 0 < m → x % m < m
      below x m = mod-lt x

  order-lt : (rand : ℕ → ℕ) (r k a : ℕ) → k ≤ r → a < r → order rand r k a < r
  order-lt rand r zero a h ha = ha
  order-lt rand r (suc k) a h ha =
      order-lt rand r k (swapped k (k + rand k % (r - k)) a) (omega arith) (
        swapped-lt k (k + rand k % (r - k)) a r (omega arith) (chosen-lt rand r k (omega arith)) ha)

  order-place : (rand : ℕ → ℕ) (r k a : ℕ) → order rand r k (place rand r k a) ≡ a
  order-place rand r zero a = refl
  order-place rand r (suc k) a =
      ap (order rand r k) (swapped-swapped k (k + rand k % (r - k)) (place rand r k a))
      ∙ order-place rand r k a

  place-order : (rand : ℕ → ℕ) (r k a : ℕ) → place rand r k (order rand r k a) ≡ a
  place-order rand r zero a = refl
  place-order rand r (suc k) a =
      ap (swapped k (k + rand k % (r - k)))
        (place-order rand r k (swapped k (k + rand k % (r - k)) a))
      ∙ swapped-swapped k (k + rand k % (r - k)) a

  -- Whatever rand returns, `mat_shuffle_rows` returns the rows of before in an order that has every row
  -- once: each place has a row of the matrix, and each row a place of its own.
  pub mat_shuffle_rows-order :
      (rand : ℕ → ℕ) (r c : ℕ) (f : ℕ → ℕ → Float)
      → (mat_shuffle_rows rand (mat floats r c f)
          ≡ some (mat floats r c (λ a b. f (order rand r r a) b)))
        × ((a : ℕ) → a < r → order rand r r a < r)
        × ((a : ℕ) → order rand r r (place rand r r a) ≡ a)
        × ((a : ℕ) → place rand r r (order rand r r a) ≡ a)
  unfolding mat_shuffle_rows
  mat_shuffle_rows-order rand r c f = (
    for_loop-states r (λ i m'. swap_rows i (i + rand i % (r - i)) m')
        (λ k. mat floats r c (λ a b. f (order rand r k a) b))
        (λ k hk.
          swap_rows-swapped r c (λ a b. f (order rand r k a) b) k (k + rand k % (r - k)) hk
            (chosen-lt rand r k hk)),
    λ a h. order-lt rand r r a (omega arith) h,
    λ a. order-place rand r r a,
    λ a. place-order rand r r a,
  )
