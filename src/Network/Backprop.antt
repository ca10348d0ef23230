-- ===== src/Network/Backprop.antt =====
-- nn.h: `nn_backprop` with NN_ACT as a parameter, without NN_BACKPROP_TRADITIONAL. The region for the
-- gradients has room for them, and a block of it holds what `fresh` says.
pub mod Rows
pub mod Layer
pub mod Chain
pub mod Sample
pub mod Result
pub mod Zero
pub mod Gradients
pub mod Learned
use zfl.Base.{
  ℕ, zero, suc, ◌+◌, ◌*◌, Bool, true, false, Option, none, some, List, [], ◌∷◌, ◌>>=◌, ◌==◌,
  if◌then◌else◌, for_loop,
}
use zfl.Common.{Floats, Math}
use zfl.Network.Matrix.{
  Mat, Row, Act, row_as_mat, as_row, row_at, row_put, mat_row, row_slice, mat_at, mat_put, mat_fill,
  dactf,
}
use zfl.Network.Forward.{Nn, nn_input, nn_output, put_input, nn_forward}
use zfl.Network.Learn.{nn_alloc}

module _ (floats : Floats) (math : Math (floats.Float)) (nn_act : Act) where
  open floats use {Float, zero_float, add_float}
  open math use {one_float, sub_float, mul_float, quot_float, of_size, equal}

  -- `float s = 2`
  abbrev pub two : Float
  two = of_size 2

  -- `s * da * qa`
  abbrev pub slope : Float → Float → Float
  slope a da = mul_float (mul_float two da) (dactf floats math a nn_act)

  -- The innermost loop's body: the gradients of the weights, and those of the activations before.
  unfoldable pub back_weight :
      Row floats
      → Mat floats
      → ℕ
      → Float
      → ℕ
      → Mat floats × Row floats
      → Option (Mat floats × Row floats)
  back_weight prev w j d k (gw, gprev) = row_at floats prev k >>= λ pa.
      mat_at floats w k j >>= λ weight. mat_at floats gw k j >>= λ x.
      mat_put floats gw k j (add_float x (mul_float d pa)) >>= λ gw'. row_at floats gprev k >>= λ y.
      row_put floats gprev k (add_float y (mul_float d weight)) >>= λ gprev'. some (gw', gprev')

  -- The loop's body for column `j` of a layer, with the activations `act` and their gradients `gact`.
  unfoldable pub back_column :
      Row floats
      → Row floats
      → Mat floats
      → Row floats
      → ℕ
      → Row floats × Mat floats × Row floats
      → Option (Row floats × Mat floats × Row floats)
  back_column prev act w gact j (gb, gw, gprev) = row_at floats act j >>= λ a.
      row_at floats gact j >>= λ da. row_at floats gb j >>= λ x.
      row_put floats gb j (add_float x (slope a da)) >>= λ gb'.
      for_loop prev.cols (back_weight prev w j (slope a da)) (gw, gprev) >>= λ p.
      some (gb', p.0, p.1)

  unfoldable pub back_layer :
      Row floats
      → Row floats
      → Mat floats
      → Row floats
      → Row floats × Mat floats × Row floats
      → Option (Row floats × Mat floats × Row floats)
  back_layer prev act w gact g = for_loop act.cols (back_column prev act w gact) g

  -- A layer, behind the layers that follow it.
  abbrev pub back_before :
      Row floats
      → Row floats
      → Mat floats
      → Mat floats
      → Row floats
      → Row floats
      → List (Mat floats) × List (Row floats) × List (Row floats)
      → Option (List (Mat floats) × List (Row floats) × List (Row floats))
  back_before prev act w gw gb gprev (gws, gbs, []) = none
  back_before prev act w gw gb gprev (gws, gbs, gact ∷ gacts) =
      back_layer prev act w gact (gb, gw, gprev) >>= λ g.
      some (g.1 ∷ gws, g.0 ∷ gbs, g.2 ∷ gact ∷ gacts)

  -- The loop over the layers, from the last one to the first: the gradients of the weights, the
  -- biases, and all activations.
  unfoldable pub back_from :
      List (Mat floats)
      → Row floats
      → List (Row floats)
      → List (Mat floats)
      → List (Row floats)
      → Row floats
      → List (Row floats)
      → Option (List (Mat floats) × List (Row floats) × List (Row floats))
  back_from ws prev [] gws gbs gprev gacts = some (gws, gbs, gprev ∷ gacts)
  back_from (w ∷ ws) prev (act ∷ acts) (gw ∷ gws) (gb ∷ gbs) gprev (gact ∷ gacts) =
      back_from ws act acts gws gbs gact gacts >>= back_before prev act w gw gb gprev
  back_from [] prev (act ∷ acts) gws gbs gprev gacts = none
  back_from (w ∷ ws) prev (act ∷ acts) [] gbs gprev gacts = none
  back_from (w ∷ ws) prev (act ∷ acts) (gw ∷ gws) [] gprev gacts = none
  back_from (w ∷ ws) prev (act ∷ acts) (gw ∷ gws) (gb ∷ gbs) gprev [] = none

  -- `mat_fill` and `row_fill` with 0, for each matrix or row of a list.
  unfoldable pub zero_mats : List (Mat floats) → Option (List (Mat floats))
  zero_mats [] = some []
  zero_mats (m ∷ ms) =
      mat_fill floats m zero_float >>= λ m'. zero_mats ms >>= λ ms'. some (m' ∷ ms')

  unfoldable pub zero_rows : List (Row floats) → Option (List (Row floats))
  zero_rows [] = some []
  zero_rows (r ∷ rs) = mat_fill floats (row_as_mat floats r) zero_float >>= λ m.
      zero_rows rs >>= λ rs'. some (as_row floats m ∷ rs')

  unfoldable pub nn_zero : Nn floats → Option (Nn floats)
  nn_zero nn = do
    ws ← zero_mats nn.ws
    bs ← zero_rows nn.bs
    acts ← zero_rows nn.as_rows
    some (record { ws = ws; bs = bs; as_rows = acts })

  -- The gradients of the outputs `outs` for the labels of one of `n` rows.
  unfoldable pub set_outputs : ℕ → Row floats → Row floats → Row floats → Option (Row floats)
  set_outputs n outs labels gout =
      for_loop labels.cols
        (λ j gout'. row_at floats labels j >>= λ v. row_at floats outs j >>= λ o.
          row_put floats gout' j (
            if equal v one_float
            then quot_float (sub_float o one_float) (of_size n)
            else quot_float o (of_size n)))
        gout

  -- The rows, with the last one worked on.
  unfoldable pub on_last :
      (Row floats → Option (Row floats)) → List (Row floats) → Option (List (Row floats))
  on_last f [] = none
  on_last f (r ∷ []) = f r >>= λ r'. some (r' ∷ [])
  on_last f (r ∷ r' ∷ rs) = on_last f (r' ∷ rs) >>= λ rs'. some (r ∷ rs')

  abbrev pub back_network :
      Nn floats → Nn floats → List (Row floats) → List (Row floats) → Option (Nn floats)
  back_network nn g (prev ∷ acts) (gprev ∷ gacts) =
      back_from nn.ws prev acts g.ws g.bs gprev gacts >>= λ s.
      some (record { ws = s.0; bs = s.1; as_rows = s.2 })
  back_network nn g [] gacts = none
  back_network nn g (prev ∷ acts) [] = none

  -- Behind the forward pass of a row with the given labels.
  unfoldable pub back_sample : ℕ → Row floats → Nn floats → Nn floats → Option (Nn floats)
  back_sample n labels g nn = zero_rows g.as_rows >>= λ zeros. nn_output floats nn >>= λ outs.
      on_last (set_outputs n outs labels) zeros >>= λ gacts. back_network nn g nn.as_rows gacts

  unfoldable pub back_row : Mat floats → ℕ → Nn floats × Nn floats → Option (Nn floats × Nn floats)
  back_row t i (nn, g) = nn_input floats nn >>= λ input. nn_output floats nn >>= λ output.
      row_slice floats (mat_row floats t i) 0 input.cols >>= λ x.
      row_slice floats (mat_row floats t i) input.cols output.cols >>= λ y.
      put_input floats nn x >>= λ nn1.
      nn_forward floats math nn1 >>= λ nn2. back_sample t.rows y g nn2 >>= λ g'. some (nn2, g')

  abbrev pub row_sizes : List (Row floats) → List ℕ
  row_sizes [] = []
  row_sizes (r ∷ rs) = r.cols ∷ row_sizes rs

  -- The network behind the call, and its gradients. Its sizes are the columns of its rows.
  unfoldable pub nn_backprop :
      (ℕ → ℕ → Float) → Nn floats → Mat floats → Option (Nn floats × Nn floats)
  nn_backprop fresh nn t = nn_input floats nn >>= λ input. nn_output floats nn >>= λ output.
      if input.cols + output.cols == t.cols
      then (nn_alloc floats math fresh (row_sizes nn.as_rows) >>= λ g.
          nn_zero g >>= λ zeros. for_loop t.rows (back_row t) (nn, zeros))
      else none
