-- ===== src/Network/Forward/Layers.antt =====
-- nn.h: the last layer's loops, and one round of `nn_forward`, on rows that are functions.
use zfl.Base.{
  ℕ, zero, suc, ◌<◌, ◌≡◌, refl, ap, ◌∙◌, Bool, true, false, Option, some, ◌>>=◌, if◌then◌else◌, ltb,
  for_loop, for_loop-states, for_loop-once, update_cell, get_elem?-cells, arith,
}
use zfl.Common.{Floats, Math}
use zfl.Network.Matrix.{Mat, Row, act_relu, as_row, mat_at, mat_put, mat_sum, mat_act, actf}
use zfl.Network.Matrix.Cells.{
  mat, mat-Reads, mat_put-mat, mat_ext, each_cell-mat, mat_sum-mat, mat_act-mat,
}
use zfl.Network.Matrix.Dot.{dot, mat_dot-mat}
use zfl.Network.Forward.{max_cell, exp_cells, div_cells, softmax_cells, forward_layer}

module _ (floats : Floats) (math : Math (floats.Float)) where
  open floats use {Float, zero_float, add_float}
  open math use {sub_float, quot_float, greater, exp}

  -- The row of a function of the column.
  abbrev pub row : ℕ → (ℕ → Float) → Row floats
  row n f = as_row floats (mat floats 1 n (λ i j. f j))

  -- The largest of 0 and the first `n` values, and their sum from the left.
  abbrev pub peak : ℕ → (ℕ → Float) → Float
  peak zero f = zero_float
  peak (suc n) f = if greater (f n) (peak n f) then f n else peak n f

  abbrev pub total : ℕ → (ℕ → Float) → Float
  total zero f = zero_float
  total (suc n) f = add_float (total n f) (f n)

  abbrev shifted_exp : ℕ → (ℕ → Float) → ℕ → Float
  shifted_exp n f j = exp (sub_float (f j) (peak n f))

  abbrev pub softmax_of : ℕ → (ℕ → Float) → ℕ → Float
  softmax_of n f j = quot_float (shifted_exp n f j) (total n (shifted_exp n f))

  pub max_cell-row :
      (n : ℕ) (f : ℕ → Float) → max_cell floats math (mat floats 1 n (λ i j. f j)) ≡ some (peak n f)
  unfolding max_cell
  max_cell-row n f = for_loop-once _ zero_float (peak n f) (
      for_loop-states n _ (λ k. peak k f)
        (λ k h.
          ap (λ o. o >>= λ x. some (if greater x (peak k f) then x else peak k f))
            (mat-Reads floats 1 n (λ i j. f j) 0 k (omega arith) h)))

  abbrev worked : (ℕ → Float) → (ℕ → Float) → ℕ → ℕ → ℕ → Float
  worked f g k i j = if ltb j k then g j else f j

  worked_here : (f g : ℕ → Float) (k i : ℕ) → worked f g k i k ≡ f k
  worked_here f g k i = ground arith

  worked_next :
      (f g : ℕ → Float) (k i j : ℕ)
      → i < 1
      → update_cell (worked f g k) 0 k (g k) i j ≡ worked f g (suc k) i j
  worked_next f g k i j h = ground arith

  worked_all : (f g : ℕ → Float) (n i j : ℕ) → j < n → worked f g n i j ≡ g j
  worked_all f g n i j h = ground arith

  worked_none : (f g : ℕ → Float) (i j : ℕ) → f j ≡ worked f g 0 i j
  worked_none f g i j = ground arith

  pub exp_cells-row :
      (n : ℕ) (f : ℕ → Float) (max : Float)
      → exp_cells floats math (mat floats 1 n (λ i j. f j)) max
        ≡ some (
          mat floats 1 n (λ i j. exp (sub_float (f j) max)),
          total n (λ j. exp (sub_float (f j) max)),
        )
  unfolding exp_cells
  exp_cells-row n f max =
      for_loop-once _ (mat floats 1 n (λ i j. f j), zero_float) _
        (ap (λ m. for_loop n body (m, zero_float))
            (mat_ext floats 1 n _ _ (λ i j hi hj. worked_none f g i j))
          ∙ for_loop-states n body (λ k. (mat floats 1 n (worked f g k), total k g)) step
          ∙ ap (λ m. some (m, total n g))
              (mat_ext floats 1 n _ _ (λ i j hi hj. worked_all f g n i j hj)))
    where
      g : ℕ → Float
      g j = exp (sub_float (f j) max)

      body : ℕ → Mat floats × Float → Option (Mat floats × Float)
      body j s2 = mat_at floats s2.0 0 j >>= λ x.
          mat_put floats s2.0 0 j (exp (sub_float x max)) >>= λ m'.
          mat_at floats m' 0 j >>= λ y. some (m', add_float s2.1 y)

      step :
          (k : ℕ)
          → k < n
          → body k (mat floats 1 n (worked f g k), total k g)
            ≡ some (mat floats 1 n (worked f g (suc k)), total (suc k) g)
      step k h =
          ap
            (λ o. o >>= λ x.
              mat_put floats (mat floats 1 n (worked f g k)) 0 k (exp (sub_float x max)) >>= λ m'.
              mat_at floats m' 0 k >>= λ y. some (m', add_float (total k g) y))
            (mat-Reads floats 1 n (worked f g k) 0 k (omega arith) h
              ∙ ap some (worked_here f g k 0))
          ∙ ap (λ o. o >>= λ m'. mat_at floats m' 0 k >>= λ y. some (m', add_float (total k g) y))
              (mat_put-mat floats 1 n (worked f g k) 0 k (g k) (omega arith) h
                ∙ ap some (mat_ext floats 1 n _ _ (λ i j hi hj. worked_next f g k i j hi)))
          ∙ ap (λ o. o >>= λ y. some (mat floats 1 n (worked f g (suc k)), add_float (total k g) y))
              (mat-Reads floats 1 n (worked f g (suc k)) 0 k (omega arith) h
                ∙ ap some (worked_all f g (suc k) 0 k (omega arith)))

  pub div_cells-row :
      (n : ℕ) (f : ℕ → Float) (sum : Float)
      → div_cells floats math (mat floats 1 n (λ i j. f j)) sum
        ≡ some (mat floats 1 n (λ i j. quot_float (f j) sum))
  unfolding div_cells
  div_cells-row n f sum =
      each_cell-mat floats 1 n (λ i j. f j) (λ i j. quot_float (f j) sum) _
        (λ s i j hi hj e.
          ap (λ o. o >>= λ x. mat_put floats (mat floats 1 n s) i j (quot_float x sum))
            (get_elem?-cells 1 n s i j hi hj ∙ ap some e)
          ∙ mat_put-mat floats 1 n s i j (quot_float (f j) sum) hi hj)

  -- On a row with n columns and the values f, the loops of the last layer leave for each column the
  -- exponential of f(j) less the largest of 0 and the values, divided by the sum of all of these.
  pub softmax_cells-row :
      (n : ℕ) (f : ℕ → Float)
      → softmax_cells floats math (mat floats 1 n (λ i j. f j))
        ≡ some (mat floats 1 n (λ i j. softmax_of n f j))
  unfolding softmax_cells
  softmax_cells-row n f =
      ap
        (λ o. o >>= λ max. exp_cells floats math (mat floats 1 n (λ i j. f j)) max >>= λ p.
          div_cells floats math p.0 p.1)
        (max_cell-row n f)
      ∙ ap (λ o. o >>= λ p. div_cells floats math p.0 p.1) (exp_cells-row n f (peak n f))
      ∙ div_cells-row n (shifted_exp n f) (total n (shifted_exp n f))

  -- What a layer sums for column j, and what it makes of the sums.
  abbrev pub weighted : ℕ → (ℕ → Float) → (ℕ → ℕ → Float) → (ℕ → Float) → ℕ → Float
  weighted n x w b j = add_float (dot floats math n x (λ k. w k j)) (b j)

  abbrev pub activated : Bool → ℕ → (ℕ → Float) → ℕ → Float
  activated true n f j = softmax_of n f j
  activated false n f j = actf floats math (f j) act_relu

  pub activated-row :
      (is_last : Bool) (n : ℕ) (f : ℕ → Float)
      → (if is_last
          then softmax_cells floats math (mat floats 1 n (λ i j. f j))
          else mat_act floats math (mat floats 1 n (λ i j. f j)) act_relu)
        ≡ some (mat floats 1 n (λ i j. activated is_last n f j))
  activated-row true n f = softmax_cells-row n f
  activated-row false n f = mat_act-mat floats math 1 n (λ i j. f j) act_relu

  pub forward_layer-row :
      (is_last : Bool) (n c : ℕ) (x : ℕ → Float) (w : ℕ → ℕ → Float) (b held : ℕ → Float)
      → forward_layer floats math is_last (row n x) (mat floats n c w) (row c b) (row c held)
        ≡ some (row c (activated is_last c (weighted n x w b)))
  unfolding forward_layer
  forward_layer-row is_last n c x w b held =
      ap (λ o. o >>= λ m1. mat_sum floats m1 (mat floats 1 c (λ i j. b j)) >>= finish)
        (mat_dot-mat floats math 1 n c (λ i j. held j) (λ i k. x k) w (mat floats 1 n (λ i j. x j))
          (mat floats n c w) (refl, refl) (refl, refl) (mat-Reads floats 1 n (λ i j. x j))
          (mat-Reads floats n c w))
      ∙ ap (λ o. o >>= finish)
          (mat_sum-mat floats 1 c (λ i j. dot floats math n x (λ k. w k j)) (λ i j. b j)
            (mat floats 1 c (λ i j. b j)) refl refl (mat-Reads floats 1 c (λ i j. b j)))
      ∙ ap (λ o. o >>= λ m3. some (as_row floats m3)) (activated-row is_last c (weighted n x w b))
    where
      finish : Mat floats → Option (Row floats)
      finish m2 =
          (if is_last then softmax_cells floats math m2 else mat_act floats math m2 act_relu)
          >>= λ m3. some (as_row floats m3)
