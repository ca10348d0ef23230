-- ===== src/Network/Forward.antt =====
-- nn.h: networks and `nn_forward`, `nn_cost`, `nn_cross_entropy`. `arch_count` is the length of `as_rows`, the rows `as`;
-- a layer whose matrix or row is missing is `none`.
pub mod Layers
pub mod Spec
pub mod Repeat
pub mod Rows
pub mod Cost
pub mod Scores
pub mod Accuracy
use zfl.Base.{
  ℕ, zero, suc, ◌+◌, Bool, true, false, Option, none, some, List, [], ◌∷◌, ◌>>=◌, length, get_elem?,
  ◌==◌, if◌then◌else◌, for_loop,
}
use zfl.Common.{Floats, Math}
use zfl.Network.Matrix.{
  Mat, Row, Act, act_relu, row_as_mat, as_row, row_at, mat_row, row_slice, mat_at, mat_put,
  each_cell, mat_dot, mat_sum, mat_act, mat_copy,
}

module _ (floats : Floats) where
  open floats use {Float, zero_float, add_float}

  pub record Nn : Type 0 where
    pub ws : List (Mat floats)
    pub bs : List (Row floats)
    pub as_rows : List (Row floats)

  -- `NN_INPUT` and `NN_OUTPUT`
  abbrev pub nn_input : Nn → Option (Row floats)
  nn_input nn = get_elem? nn.as_rows 0

  abbrev pub last_row : Row floats → List (Row floats) → Row floats
  last_row a [] = a
  last_row a (a' ∷ acts) = last_row a' acts

  abbrev pub output_of : List (Row floats) → Option (Row floats)
  output_of [] = none
  output_of (a ∷ acts) = some (last_row a acts)

  abbrev pub nn_output : Nn → Option (Row floats)
  nn_output nn = output_of nn.as_rows

  -- `row_copy(NN_INPUT(nn), x)`
  abbrev pub put_input : Nn → Row floats → Option Nn
  put_input nn x = copy nn.as_rows
    where
      copy : List (Row floats) → Option Nn
      copy [] = none
      copy (a ∷ acts) = mat_copy floats (row_as_mat floats a) (row_as_mat floats x) >>= λ m.
          some (record nn { as_rows = as_row floats m ∷ acts })

  module _ (math : Math Float) where
    open math use {one_float, negate, sub_float, mul_float, quot_float, of_size, greater, exp, logf}

    -- The three double loops of the last layer.
    unfoldable pub max_cell : Mat floats → Option Float
    max_cell m =
        for_loop m.rows
          (λ i max1.
            for_loop m.cols
              (λ j max2. mat_at floats m i j >>= λ x. some (if greater x max2 then x else max2))
              max1)
          zero_float

    unfoldable pub exp_cells : Mat floats → Float → Option (Mat floats × Float)
    exp_cells m max =
        for_loop m.rows
          (λ i s1.
            for_loop m.cols
              (λ j s2. mat_at floats s2.0 i j >>= λ x.
                mat_put floats s2.0 i j (exp (sub_float x max)) >>= λ m'.
                mat_at floats m' i j >>= λ y. some (m', add_float s2.1 y))
              s1)
          (m, zero_float)

    unfoldable pub div_cells : Mat floats → Float → Option (Mat floats)
    div_cells m sum =
        each_cell floats m
          (λ i j m'. mat_at floats m' i j >>= λ x. mat_put floats m' i j (quot_float x sum))

    unfoldable pub softmax_cells : Mat floats → Option (Mat floats)
    softmax_cells m = do max ← max_cell m; (m', sum) ← exp_cells m max; div_cells m' sum

    -- One round of the loop: the row of activations behind `x`, in the place of `y`.
    unfoldable pub forward_layer :
        Bool → Row floats → Mat floats → Row floats → Row floats → Option (Row floats)
    forward_layer is_last x w b y = do
      m1 ← mat_dot floats math (row_as_mat floats y) (row_as_mat floats x) w
      m2 ← mat_sum floats m1 (row_as_mat floats b)
      m3 ← if is_last then softmax_cells m2 else mat_act floats math m2 act_relu
      some (as_row floats m3)

    unfoldable pub forward_from :
        List (Mat floats)
        → List (Row floats)
        → Row floats
        → List (Row floats)
        → Option (List (Row floats))
    forward_from ws bs x [] = some []
    forward_from [] bs x (y ∷ acts) = none
    forward_from (w ∷ ws) [] x (y ∷ acts) = none
    forward_from (w ∷ ws) (b ∷ bs) x (y ∷ acts) = forward_layer (length acts == 0) x w b y >>= λ y'.
        forward_from ws bs y' acts >>= λ acts'. some (y' ∷ acts')

    abbrev pub forward_as :
        List (Mat floats) → List (Row floats) → List (Row floats) → Option (List (Row floats))
    forward_as ws bs [] = some []
    forward_as ws bs (a ∷ acts) = forward_from ws bs a acts >>= λ acts'. some (a ∷ acts')

    unfoldable pub nn_forward : Nn → Option Nn
    nn_forward nn =
        forward_as nn.ws nn.bs nn.as_rows >>= λ acts. some (record nn { as_rows = acts })

    -- One round of `nn_cost`'s loop over the rows, and of `nn_cross_entropy`'s: `add` is the inner loop.
    abbrev pub over_row :
        Mat floats
        → (Row floats → Row floats → Float → Option Float)
        → ℕ
        → Nn × Float
        → Option (Nn × Float)
    over_row t add i (nn, c) = nn_input nn >>= λ input. nn_output nn >>= λ output.
        row_slice floats (mat_row floats t i) 0 input.cols >>= λ x.
        row_slice floats (mat_row floats t i) input.cols output.cols >>= λ y.
        put_input nn x >>= λ nn1.
        nn_forward nn1 >>= λ nn2. nn_output nn2 >>= λ out. add out y c >>= λ c'. some (nn2, c')

    -- The failed assertion on the columns of `t` is `none`.
    abbrev pub over_rows :
        Nn → Mat floats → (Row floats → Row floats → Float → Option Float) → Option (Nn × Float)
    over_rows nn t add = nn_input nn >>= λ input. nn_output nn >>= λ output.
        if input.cols + output.cols == t.cols
        then for_loop t.rows (over_row t add) (nn, zero_float)
        else none

    unfoldable pub add_squares : Row floats → Row floats → Float → Option Float
    add_squares out y c =
        for_loop y.cols
          (λ j c'. row_at floats out j >>= λ o. row_at floats y j >>= λ v.
            some (add_float c' (mul_float (sub_float o v) (sub_float o v))))
          c

    unfoldable pub add_logs : Row floats → Row floats → Float → Option Float
    add_logs out y c =
        for_loop y.cols (λ j c'. row_at floats out j >>= λ o. some (add_float c' (logf o))) c

    -- The network after the call, and the result.
    unfoldable pub nn_cost : Nn → Mat floats → Option (Nn × Float)
    nn_cost nn t = do
      (nn', c) ← over_rows nn t add_squares
      some (nn', quot_float c (of_size t.rows))

    unfoldable pub nn_cross_entropy : Nn → Mat floats → Option (Nn × Float)
    nn_cross_entropy nn t = do
      (nn', c) ← over_rows nn t add_logs
      some (nn', quot_float (mul_float (negate one_float) c) (of_size t.rows))
