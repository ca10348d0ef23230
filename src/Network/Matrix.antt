-- ===== src/Network/Matrix.antt =====
-- nn.h: matrices and rows. A failed assertion, or an access outside of the elements, is `none`. The
-- elements of a slice go on behind it, as they do in memory. No destination shares cells with a
-- source: the code never calls these functions so.
pub mod Cells
pub mod Shuffle
pub mod Dot
use zfl.Base.{
  ℕ, zero, suc, ◌+◌, ◌*◌, Bool, true, false, Option, none, some, List, [], ◌∷◌, ◌>>=◌, get_elem?,
  drop, ◌==◌, ◌&&◌, leb, ltb, if◌then◌else◌, for_loop,
}
use zfl.Memory.{store}
use zfl.Common.{Floats, Math}

pub data Act : Type 0 where
  act_sig act_relu act_tanh act_sin act_softmax : Act

module _ (floats : Floats) where
  open floats use {Float, zero_float, add_float}

  pub record Mat : Type 0 where
    pub rows : ℕ
    pub cols : ℕ
    pub elements : List Float

  pub record Row : Type 0 where
    pub cols : ℕ
    pub elements : List Float

  -- `MAT_AT(m, i, j)`, read and written.
  abbrev pub mat_at : Mat → ℕ → ℕ → Option Float
  mat_at m i j = get_elem? m.elements (i * m.cols + j)

  unfoldable pub mat_put : Mat → ℕ → ℕ → Float → Option Mat
  mat_put m i j x = do
    elements ← store m.elements (i * m.cols + j) x
    some (record m { elements = elements })

  -- `ROW_AT(row, j)`
  abbrev pub row_at : Row → ℕ → Option Float
  row_at row j = get_elem? row.elements j

  unfoldable pub row_put : Row → ℕ → Float → Option Row
  row_put row j x = do elements ← store row.elements j x; some (record row { elements = elements })

  abbrev pub row_as_mat : Row → Mat
  row_as_mat row = record { rows = 1; cols = row.cols; elements = row.elements }

  -- A row that was worked on as a matrix.
  abbrev pub as_row : Mat → Row
  as_row m = record { cols = m.cols; elements = m.elements }

  abbrev pub mat_row : Mat → ℕ → Row
  mat_row m row = record { cols = m.cols; elements = drop (row * m.cols) m.elements }

  unfoldable pub row_slice : Row → ℕ → ℕ → Option Row
  row_slice row i cols =
      if ltb i row.cols && leb (i + cols) row.cols
      then some (record { cols = cols; elements = drop i row.elements })
      else none

  abbrev pub mat_slice : Mat → ℕ → ℕ → Mat
  mat_slice m from n = record {
    rows = n;
    cols = m.cols;
    elements = drop (from * m.cols) m.elements;
  }

  -- The two loops over the cells of `m` that most functions begin with.
  unfoldable pub each_cell : Mat → (ℕ → ℕ → Mat → Option Mat) → Option Mat
  each_cell m body = for_loop m.rows (λ i m1. for_loop m.cols (λ j m2. body i j m2) m1) m

  abbrev pub same_shape : Mat → Mat → Bool
  same_shape a b = (a.rows == b.rows) && (a.cols == b.cols)

  unfoldable pub mat_fill : Mat → Float → Option Mat
  mat_fill m x = each_cell m (λ i j m'. mat_put m' i j x)

  unfoldable pub mat_copy : Mat → Mat → Option Mat
  mat_copy dst src =
      if same_shape dst src
      then each_cell dst (λ i j d. mat_at src i j >>= λ x. mat_put d i j x)
      else none

  unfoldable pub mat_sum : Mat → Mat → Option Mat
  mat_sum dst a =
      if same_shape dst a
      then each_cell dst
          (λ i j d. mat_at d i j >>= λ x. mat_at a i j >>= λ y. mat_put d i j (add_float x y))
      else none

  module _ (math : Math Float) where
    open math use {
      one_float, relu_param, negate, sub_float, mul_float, quot_float, greater, equal, expf, exp,
      sinf, cosf, asinf,
    }

    unfoldable pub actf : Float → Act → Float
    actf x act_sig = quot_float one_float (add_float one_float (expf (negate x)))
    actf x act_relu = if greater x zero_float then x else mul_float x relu_param
    actf x act_tanh =
        quot_float (sub_float (expf x) (expf (negate x))) (add_float (expf x) (expf (negate x)))
    actf x act_sin = sinf x
    actf x act_softmax = exp x

    -- `y >= 0` is `greater` or `equal`.
    unfoldable pub dactf : Float → Act → Float
    dactf y act_sig = mul_float y (sub_float one_float y)
    dactf y act_relu =
        if greater y zero_float
        then one_float
        else if equal y zero_float
        then one_float
        else relu_param
    dactf y act_tanh = sub_float one_float (mul_float y y)
    dactf y act_sin = cosf (asinf y)
    dactf y act_softmax = y

    unfoldable pub mat_act : Mat → Act → Option Mat
    mat_act m act = each_cell m (λ i j m'. mat_at m' i j >>= λ x. mat_put m' i j (actf x act))

    -- `rands` are the values of `rand_float`, from the first call on.
    unfoldable pub mat_rand : (ℕ → Float) → Mat → Float → Float → Option Mat
    mat_rand rands m low high = each_cell m (λ i j m'.
        mat_put m' i j (add_float (mul_float (rands (i * m.cols + j)) (sub_float high low)) low))

    -- The product is summed in `dst`, which is filled with zeros first.
    unfoldable pub mat_dot : Mat → Mat → Mat → Option Mat
    mat_dot dst a b =
        if (a.cols == b.rows) && ((dst.rows == a.rows) && (dst.cols == b.cols))
        then (mat_fill dst zero_float >>= λ zeros.
            for_loop dst.rows
              (λ i d1.
                for_loop a.cols
                  (λ k d2.
                    for_loop dst.cols
                      (λ j d3. mat_at d3 i j >>= λ x. mat_at a i k >>= λ y.
                        mat_at b k j >>= λ z. mat_put d3 i j (add_float x (mul_float y z)))
                      d2)
                  d1)
              zeros)
        else none
