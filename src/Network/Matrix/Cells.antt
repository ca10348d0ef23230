-- ===== src/Network/Matrix/Cells.antt =====
-- nn.h: the functions on matrices that treat every cell alone.
use zfl.Base.{
  ℕ, ◌+◌, ◌*◌, ◌<◌, ◌≡◌, sym, ap, ap₂, ◌∙◌, true, ◌&&◌, Option, none, some, ◌>>=◌, length, ◌==◌,
  ==_iff, ltb_of_lt, if◌then◌else◌, cells, cells_ext, length-cells, get_elem?-cells, update_cell,
  set-cells, place-lt, two_loops, arith,
}
use zfl.Memory.{store}
use zfl.Common.{Floats, Math}
use zfl.Network.Matrix.{
  Mat, mat_at, mat_put, each_cell, mat_fill, mat_copy, mat_sum, mat_act, actf, Act,
}

module _ (floats : Floats) where
  open floats use {Float, zero_float, add_float}

  -- The matrix of a function of the row and the column.
  abbrev pub mat : ℕ → ℕ → (ℕ → ℕ → Float) → Mat floats
  mat r c f = record { rows = r; cols = c; elements = cells r c f }

  -- A matrix, or a slice of a larger one, that reads as the function.
  abbrev pub Reads : Mat floats → (ℕ → ℕ → Float) → Type 0
  Reads m f = (i j : ℕ) → i < m.rows → j < m.cols → mat_at floats m i j ≡ some (f i j)

  pub mat-Reads : (r c : ℕ) (f : ℕ → ℕ → Float) → Reads (mat r c f) f
  mat-Reads r c f i j hi hj = get_elem?-cells r c f i j hi hj

  pub mat_put-mat :
      (r c : ℕ) (f : ℕ → ℕ → Float) (i j : ℕ) (x : Float)
      → i < r
      → j < c
      → mat_put floats (mat r c f) i j x ≡ some (mat r c (update_cell f i j x))
  unfolding mat_put store
  mat_put-mat r c f i j x hi hj =
      rw
        (ltb_of_lt (i * c + j) (length (cells r c f))
          (omega (arith, length-cells r c f, place-lt i j r c hi hj)))
        (ap (λ l. some (record { rows = r; cols = c; elements = l })) (set-cells r c f i j x hi hj))

  pub mat_ext :
      (r c : ℕ) (f g : ℕ → ℕ → Float)
      → ((i j : ℕ) → i < r → j < c → f i j ≡ g i j)
      → mat r c f ≡ mat r c g
  mat_ext r c f g h = ap (λ l. record { rows = r; cols = c; elements = l }) (cells_ext r c f g h)

  -- A body that replaces each cell by that of `h`, where it finds the one of `f`.
  pub each_cell-mat :
      (r c : ℕ) (f h : ℕ → ℕ → Float) (body : ℕ → ℕ → Mat floats → Option (Mat floats))
      → ((s : ℕ → ℕ → Float) (i j : ℕ)
          → i < r
          → j < c
          → s i j ≡ f i j
          → body i j (mat r c s) ≡ some (mat r c (update_cell s i j (h i j))))
      → each_cell floats (mat r c f) body ≡ some (mat r c h)
  unfolding each_cell
  each_cell-mat r c f h body step = two_loops r c (mat r c) (mat_ext r c) body f h step

  pub mat_fill-mat :
      (r c : ℕ) (f : ℕ → ℕ → Float) (x : Float)
      → mat_fill floats (mat r c f) x ≡ some (mat r c (λ i j. x))
  unfolding mat_fill
  mat_fill-mat r c f x =
      each_cell-mat r c f (λ i j. x) _ (λ s i j hi hj e. mat_put-mat r c s i j x hi hj)

  shapes :
      (m : Mat floats) (r c : ℕ) → m.rows ≡ r → m.cols ≡ c → ((r == m.rows) && (c == m.cols)) ≡ true
  shapes m r c er ec = rw ((==_iff r m.rows).1 (sym er), (==_iff c m.cols).1 (sym ec))

  abbrev copy_cell : Mat floats → ℕ → ℕ → Mat floats → Option (Mat floats)
  copy_cell src i j d = mat_at floats src i j >>= λ x. mat_put floats d i j x

  abbrev sum_cell : Mat floats → ℕ → ℕ → Mat floats → Option (Mat floats)
  sum_cell a i j d =
      mat_at floats d i j >>= λ x. mat_at floats a i j >>= λ y. mat_put floats d i j (add_float x y)

  pub mat_copy-mat :
      (r c : ℕ) (f g : ℕ → ℕ → Float) (src : Mat floats)
      → src.rows ≡ r
      → src.cols ≡ c
      → Reads src g
      → mat_copy floats (mat r c f) src ≡ some (mat r c g)
  unfolding mat_copy
  mat_copy-mat r c f g src er ec reads =
      ap (λ b. if b then each_cell floats (mat r c f) (copy_cell src) else none)
        (shapes src r c er ec)
      ∙ each_cell-mat r c f g (copy_cell src) (λ s i j hi hj e.
        ap (λ o. o >>= λ x. mat_put floats (mat r c s) i j x)
          (reads i j (omega arith) (omega arith))
        ∙ mat_put-mat r c s i j (g i j) hi hj)

  pub mat_sum-mat :
      (r c : ℕ) (f g : ℕ → ℕ → Float) (a : Mat floats)
      → a.rows ≡ r
      → a.cols ≡ c
      → Reads a g
      → mat_sum floats (mat r c f) a ≡ some (mat r c (λ i j. add_float (f i j) (g i j)))
  unfolding mat_sum
  mat_sum-mat r c f g a er ec reads =
      ap (λ b. if b then each_cell floats (mat r c f) (sum_cell a) else none) (shapes a r c er ec)
      ∙ each_cell-mat r c f (λ i j. add_float (f i j) (g i j)) (sum_cell a)
          (λ s i j hi hj e.
            ap₂ (λ o p. o >>= λ x. p >>= λ y. mat_put floats (mat r c s) i j (add_float x y))
              (get_elem?-cells r c s i j hi hj ∙ ap some e) (reads i j (omega arith) (omega arith))
            ∙ mat_put-mat r c s i j (add_float (f i j) (g i j)) hi hj)

  module _ (math : Math Float) where
    pub mat_act-mat :
        (r c : ℕ) (f : ℕ → ℕ → Float) (act : Act)
        → mat_act floats math (mat r c f) act ≡ some (mat r c (λ i j. actf floats math (f i j) act))
    unfolding mat_act
    mat_act-mat r c f act =
        each_cell-mat r c f (λ i j. actf floats math (f i j) act) _
          (λ s i j hi hj e.
            ap (λ o. o >>= λ x. mat_put floats (mat r c s) i j (actf floats math x act))
              (get_elem?-cells r c s i j hi hj ∙ ap some e)
            ∙ mat_put-mat r c s i j (actf floats math (f i j) act) hi hj)
