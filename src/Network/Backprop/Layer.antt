-- ===== src/Network/Backprop/Layer.antt =====
-- nn.h: `nn_backprop` in one layer, on rows and matrices that are functions.
use zfl.Base.{
  ℕ, zero, suc, ◌<◌, ◌≡◌, ap, ap₂, ◌∙◌, ◌&&◌, ◌||◌, Option, some, ◌>>=◌, ◌==◌, if◌then◌else◌, ltb,
  for_loop, for_loop-states, update_cell, arith,
}
use zfl.Common.{Floats, Math}
use zfl.Network.Matrix.{Mat, Row, Act, row_at, row_put, mat_at, mat_put}
use zfl.Network.Matrix.Cells.{mat, mat-Reads, mat_put-mat, mat_ext}
use zfl.Network.Forward.Layers.{row}
use zfl.Network.Forward.Scores.{row_at-row}
use zfl.Network.Backprop.Rows.{replaced, row_ext, row_put-row}
use zfl.Network.Backprop.{slope, back_weight, back_column, back_layer}

module _ (floats : Floats) (math : Math (floats.Float)) (nn_act : Act) where
  open floats use {Float, zero_float, add_float}
  open math use {mul_float}

  -- `n` activations `p`, weights `w`, and `c` activations `a` with the gradients `da`.
  module _ (n c : ℕ) (p a da : ℕ → Float) (w : ℕ → ℕ → Float) where
    abbrev pub slope_of : ℕ → Float
    slope_of j = slope floats math nn_act (a j) (da j)

    outer_ext :
        (b b' : ℕ → Float) (g g' : ℕ → ℕ → Float) (e e' : ℕ → Float)
        → ((x : ℕ) → x < c → b x ≡ b' x)
        → ((y x : ℕ) → y < n → x < c → g y x ≡ g' y x)
        → ((y : ℕ) → y < n → e y ≡ e' y)
        → ◌≡◌ {A = Row floats × Mat floats × Row floats}
            (row floats math c b, mat floats n c g, row floats math n e)
            (row floats math c b', mat floats n c g', row floats math n e')
    outer_ext b b' g g' e e' hb hg he =
        ap (λ r. (r, mat floats n c g, row floats math n e)) (row_ext floats math c b b' hb)
        ∙ ap (λ m. (row floats math c b', m, row floats math n e)) (mat_ext floats n c g g' hg)
        ∙ ap (λ r. (row floats math c b', mat floats n c g', r)) (row_ext floats math n e e' he)

    -- The gradients behind one layer, from those before it.
    abbrev pub bias_gradient : (ℕ → Float) → ℕ → Float
    bias_gradient b j = add_float (b j) (slope_of j)

    abbrev pub weight_gradient : (ℕ → ℕ → Float) → ℕ → ℕ → Float
    weight_gradient g k j = add_float (g k j) (mul_float (slope_of j) (p k))

    abbrev pub sum_gradient : ℕ → (ℕ → Float) → ℕ → Float
    sum_gradient zero e k = e k
    sum_gradient (suc m) e k = add_float (sum_gradient m e k) (mul_float (slope_of m) (w k m))

    module _ (b e : ℕ → Float) (g : ℕ → ℕ → Float) where
      -- What stands where column `j` has been worked on up to row `k`.
      abbrev biases_at : ℕ → ℕ → Float
      biases_at j x = if ltb x j then bias_gradient b x else b x

      abbrev weights_at : ℕ → ℕ → ℕ → ℕ → Float
      weights_at j k y x = if ltb x j || ((x == j) && ltb y k) then weight_gradient g y x else g y x

      abbrev sums_at : ℕ → ℕ → ℕ → Float
      sums_at j k y = if ltb y k then sum_gradient (suc j) e y else sum_gradient j e y

      weights_here : (j k : ℕ) → weights_at j k k j ≡ g k j
      weights_here j k = ground arith

      weights_next :
          (j k y x : ℕ)
          → update_cell (weights_at j k) k j (weight_gradient g k j) y x ≡ weights_at j (suc k) y x
      weights_next j k y x = ground arith

      weights_column : (j y x : ℕ) → y < n → weights_at j n y x ≡ weights_at (suc j) 0 y x
      weights_column j y x h = ground arith

      sums_here : (j k : ℕ) → sums_at j k k ≡ sum_gradient j e k
      sums_here j k = ground arith

      sums_next :
          (j k y : ℕ)
          → replaced floats math (sums_at j k) k (sum_gradient (suc j) e k) y ≡ sums_at j (suc k) y
      sums_next j k y = ground arith

      sums_column : (j y : ℕ) → y < n → sums_at j n y ≡ sums_at (suc j) 0 y
      sums_column j y h = ground arith

      biases_here : (j : ℕ) → biases_at j j ≡ b j
      biases_here j = ground arith

      biases_next :
          (j x : ℕ)
          → replaced floats math (biases_at j) j (bias_gradient b j) x ≡ biases_at (suc j) x
      biases_next j x = ground arith

      weights_none : (y x : ℕ) → g y x ≡ weights_at 0 0 y x
      weights_none y x = ground arith

      sums_none : (y : ℕ) → e y ≡ sums_at 0 0 y
      sums_none y = ground arith

      biases_none : (x : ℕ) → b x ≡ biases_at 0 x
      biases_none x = ground arith

      weights_all : (y x : ℕ) → x < c → weights_at c 0 y x ≡ weight_gradient g y x
      weights_all y x h = ground arith

      sums_all : (y : ℕ) → sums_at c 0 y ≡ sum_gradient c e y
      sums_all y = ground arith

      biases_all : (x : ℕ) → x < c → biases_at c x ≡ bias_gradient b x
      biases_all x h = ground arith

      abbrev inner : ℕ → ℕ → Mat floats × Row floats
      inner j k = (mat floats n c (weights_at j k), row floats math n (sums_at j k))

      inner_step :
          (j k : ℕ)
          → j < c
          → k < n
          → back_weight floats math nn_act
              (row floats math n p)
              (mat floats n c w)
              j
              (slope_of j)
              k
              (inner j k)
            ≡ some (inner j (suc k))
      unfolding back_weight
      inner_step j k hj hk =
          ap₂ (λ o q. o >>= λ pa. q >>= λ weight. with_weight pa weight)
            (row_at-row floats math n k p hk) (mat-Reads floats n c w k j hk hj)
          ∙ ap (λ o. o >>= put_weight)
              (mat-Reads floats n c (weights_at j k) k j hk hj ∙ ap some (weights_here j k))
          ∙ ap (λ o. o >>= with_weights)
              (mat_put-mat floats n c (weights_at j k) k j (weight_gradient g k j) hk hj
                ∙ ap some (mat_ext floats n c _ _ (λ y x hy hx. weights_next j k y x)))
          ∙ ap (λ o. o >>= put_sum)
              (row_at-row floats math n k (sums_at j k) hk ∙ ap some (sums_here j k))
          ∙ ap (λ o. o >>= λ gprev. some (mat floats n c (weights_at j (suc k)), gprev))
              (row_put-row floats math n k (sums_at j k) (sum_gradient (suc j) e k) hk
                ∙ ap some (row_ext floats math n _ _ (λ y hy. sums_next j k y)))
        where
          sums : Row floats
          sums = row floats math n (sums_at j k)

          with_weight : Float → Float → Option (Mat floats × Row floats)
          with_weight pa weight = mat_at floats (mat floats n c (weights_at j k)) k j >>= λ x.
              mat_put floats (mat floats n c (weights_at j k)) k j
                (add_float x (mul_float (slope_of j) pa))
              >>= λ gw. row_at floats sums k >>= λ y.
                  row_put floats sums k (add_float y (mul_float (slope_of j) weight)) >>= λ gprev.
                  some (gw, gprev)

          with_weights : Mat floats → Option (Mat floats × Row floats)
          with_weights gw = row_at floats sums k >>= λ y.
              row_put floats sums k (add_float y (mul_float (slope_of j) (w k j))) >>= λ gprev.
              some (gw, gprev)

          put_weight : Float → Option (Mat floats × Row floats)
          put_weight x =
              mat_put floats (mat floats n c (weights_at j k)) k j
                (add_float x (mul_float (slope_of j) (p k)))
              >>= with_weights

          put_sum : Float → Option (Mat floats × Row floats)
          put_sum y =
              row_put floats sums k (add_float y (mul_float (slope_of j) (w k j))) >>= λ gprev.
              some (mat floats n c (weights_at j (suc k)), gprev)

      abbrev outer : ℕ → Row floats × Mat floats × Row floats
      outer j = (
        row floats math c (biases_at j),
        mat floats n c (weights_at j 0),
        row floats math n (sums_at j 0),
      )

      next_column :
          (j : ℕ)
          → inner j n
            ≡ (mat floats n c (weights_at (suc j) 0), row floats math n (sums_at (suc j) 0))
      next_column j =
          ap₂ (λ m r. (m, r)) (mat_ext floats n c _ _ (λ y x hy hx. weights_column j y x hy))
            (row_ext floats math n _ _ (λ y hy. sums_column j y hy))

      outer_step :
          (j : ℕ)
          → j < c
          → back_column floats math nn_act
              (row floats math n p)
              (row floats math c a)
              (mat floats n c w)
              (row floats math c da)
              j
              (outer j)
            ≡ some (outer (suc j))
      unfolding back_column
      outer_step j hj =
          ap₂ (λ o q. o >>= λ act. q >>= λ gact. with_slope (slope floats math nn_act act gact))
            (row_at-row floats math c j a hj) (row_at-row floats math c j da hj)
          ∙ ap (λ o. o >>= put_bias)
              (row_at-row floats math c j (biases_at j) hj ∙ ap some (biases_here j))
          ∙ ap (λ o. o >>= with_bias)
              (row_put-row floats math c j (biases_at j) (bias_gradient b j) hj
                ∙ ap some (row_ext floats math c _ _ (λ x hx. biases_next j x)))
          ∙ ap (λ o. o >>= λ q. some (row floats math c (biases_at (suc j)), q.0, q.1))
              (for_loop-states n
                  (back_weight floats math nn_act (row floats math n p) (mat floats n c w) j
                    (slope_of j))
                  (inner j) (λ k hk. inner_step j k hj hk)
                ∙ ap some (next_column j))
        where
          loop : Float → Option (Mat floats × Row floats)
          loop d =
              for_loop n
                (back_weight floats math nn_act (row floats math n p) (mat floats n c w) j d)
                (mat floats n c (weights_at j 0), row floats math n (sums_at j 0))

          with_slope : Float → Option (Row floats × Mat floats × Row floats)
          with_slope d = row_at floats (row floats math c (biases_at j)) j >>= λ x.
              row_put floats (row floats math c (biases_at j)) j (add_float x d) >>= λ gb.
              loop d >>= λ q. some (gb, q.0, q.1)

          with_bias : Row floats → Option (Row floats × Mat floats × Row floats)
          with_bias gb = loop (slope_of j) >>= λ q. some (gb, q.0, q.1)

          put_bias : Float → Option (Row floats × Mat floats × Row floats)
          put_bias x =
              row_put floats (row floats math c (biases_at j)) j (add_float x (slope_of j))
              >>= with_bias

      pub back_layer-gradients :
          back_layer floats math nn_act
            (row floats math n p)
            (row floats math c a)
            (mat floats n c w)
            (row floats math c da)
            (row floats math c b, mat floats n c g, row floats math n e)
          ≡ some (
            row floats math c (bias_gradient b),
            mat floats n c (weight_gradient g),
            row floats math n (sum_gradient c e),
          )
      unfolding back_layer
      back_layer-gradients =
          ap (for_loop c column) (
            outer_ext b (biases_at 0) g (weights_at 0 0) e (sums_at 0 0) (λ x hx. biases_none x)
              (λ y x hy hx. weights_none y x) (λ y hy. sums_none y))
          ∙ for_loop-states c column outer outer_step
          ∙ ap some (
              outer_ext (biases_at c) (bias_gradient b) (weights_at c 0) (weight_gradient g)
                (sums_at c 0) (sum_gradient c e) biases_all (λ y x hy hx. weights_all y x hx)
                (λ y hy. sums_all y))
        where
          column :
              ℕ
              → Row floats × Mat floats × Row floats
              → Option (Row floats × Mat floats × Row floats)
          column =
              back_column floats math nn_act (row floats math n p) (row floats math c a)
                (mat floats n c w) (row floats math c da)
