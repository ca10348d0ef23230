-- ===== src/Network/Matrix/Dot.antt =====
-- nn.h: `mat_dot` against the sums of products.
use zfl.Base.{
  ℕ, zero, suc, ◌<◌, ◌≡◌, sym, ap, ap₂, ◌∙◌, true, ◌&&◌, Option, none, some, ◌>>=◌, ◌==◌, ==_iff,
  if◌then◌else◌, for_loop, get_elem?-cells, three_loops, update_cell, arith,
}
use zfl.Common.{Floats, Math}
use zfl.Network.Matrix.{Mat, mat_at, mat_put, mat_fill, mat_dot}
use zfl.Network.Matrix.Cells.{mat, Reads, mat_put-mat, mat_ext, mat_fill-mat}

module _ (floats : Floats) (math : Math (floats.Float)) where
  open floats use {Float, zero_float, add_float}
  open math use {mul_float}

  -- 0 + x(0) y(0) + x(1) y(1) + ..., summed from the left.
  abbrev pub dot : ℕ → (ℕ → Float) → (ℕ → Float) → Float
  dot zero x y = zero_float
  dot (suc k) x y = add_float (dot k x y) (mul_float (x k) (y k))

  abbrev dot_cell : Mat floats → Mat floats → ℕ → ℕ → ℕ → Mat floats → Option (Mat floats)
  dot_cell a b i k j d = mat_at floats d i j >>= λ x. mat_at floats a i k >>= λ y.
      mat_at floats b k j >>= λ z. mat_put floats d i j (add_float x (mul_float y z))

  -- The product of matrices that fit each other has the sums of products as its cells, whatever the
  -- destination held.
  pub mat_dot-mat :
      (r n c : ℕ) (f x y : ℕ → ℕ → Float) (a b : Mat floats)
      → (a.rows ≡ r) × (a.cols ≡ n)
      → (b.rows ≡ n) × (b.cols ≡ c)
      → Reads floats a x
      → Reads floats b y
      → mat_dot floats math (mat floats r c f) a b
        ≡ some (mat floats r c (λ i j. dot n (x i) (λ k. y k j)))
  unfolding mat_dot
  mat_dot-mat r n c f x y a b (er, ek) (fk, fc) ra rb =
      ap (λ t. if t then mat_fill floats (mat floats r c f) zero_float >>= loops a.cols else none)
        fits
      ∙ ap (λ o. o >>= loops a.cols) (mat_fill-mat floats r c f zero_float)
      ∙ ap (λ m. loops m (mat floats r c (λ i j. zero_float))) ek
      ∙ three_loops (λ k i j. dot k (x i) (λ l. y l j)) n r c (mat floats r c) (mat_ext floats r c)
          (dot_cell a b) step
    where
      loops : ℕ → Mat floats → Option (Mat floats)
      loops m zeros =
          for_loop r (λ i d1. for_loop m (λ k d2. for_loop c (dot_cell a b i k) d2) d1) zeros

      fits : ((a.cols == b.rows) && ((r == a.rows) && (c == b.cols))) ≡ true
      fits = rw (
        (==_iff a.cols b.rows).1 (ek ∙ sym fk),
        (==_iff r a.rows).1 (sym er),
        (==_iff c b.cols).1 (sym fc),
      )

      step :
          (s : ℕ → ℕ → Float) (i k j : ℕ)
          → i < r
          → k < n
          → j < c
          → s i j ≡ dot k (x i) (λ l. y l j)
          → dot_cell a b i k j (mat floats r c s)
            ≡ some (mat floats r c (update_cell s i j (dot (suc k) (x i) (λ l. y l j))))
      step s i k j hi hk hj e =
          ap
            (λ o. o >>= λ u. mat_at floats a i k >>= λ v. mat_at floats b k j >>= λ w.
              mat_put floats (mat floats r c s) i j (add_float u (mul_float v w)))
            (get_elem?-cells r c s i j hi hj ∙ ap some e)
          ∙ ap₂
              (λ o p. o >>= λ v. p >>= λ w.
                mat_put floats (mat floats r c s) i j
                  (add_float (dot k (x i) (λ l. y l j)) (mul_float v w)))
              (ra i k (omega arith) (omega arith)) (rb k j (omega arith) (omega arith))
          ∙ mat_put-mat floats r c s i j (dot (suc k) (x i) (λ l. y l j)) hi hj
