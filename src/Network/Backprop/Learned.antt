-- ===== src/Network/Backprop/Learned.antt =====
-- nn.h: `nn_learn` with the gradients that `nn_backprop` returns.
use zfl.Base.{ℕ, ◌≡◌, refl, sym, ap, ap₂, ◌∙◌, Option, some, List, [], ◌∷◌, ◌>>=◌, length, arith}
use zfl.Common.{Floats, Math}
use zfl.Network.Matrix.{Mat, Row, Act, row_as_mat, as_row}
use zfl.Network.Matrix.Cells.{mat}
use zfl.Network.Forward.{Nn}
use zfl.Network.Forward.Layers.{row}
use zfl.Network.Forward.Spec.{Layer, weights_of, biases_of, held_of, is_last, network}
use zfl.Network.Forward.Repeat.{last_size, layer_sizes}
use zfl.Network.Learn.{each_layer, put_layers, learn_cells, nn_learn}
use zfl.Network.Learn.Layers.{learn_cells-mat}
use zfl.Network.Backprop.Chain.{Traced}
use zfl.Network.Backprop.Result.{Trace, layers, sums}

module _ (floats : Floats) (math : Math (floats.Float)) (nn_act : Act) (rate : floats.Float) where
  open floats use {Float}
  open math use {sub_float, mul_float}

  abbrev moved : Float → Float → Float
  moved a g = sub_float a (mul_float rate g)

  abbrev stepped_layer : Traced floats math nn_act → Layer floats
  stepped_layer t = record (t.layer) {
    weights = λ j k. moved (t.layer.weights j k) (t.weight_sum j k);
    bias = λ k. moved (t.layer.bias k) (t.bias_sum k);
  }

  -- The layers with `rate` times the sums taken from their weights and biases.
  abbrev pub stepped : Trace floats math nn_act → List (Layer floats)
  stepped [] = []
  stepped (t ∷ ts) = stepped_layer t ∷ stepped ts

  each_layer-stepped :
      (n : ℕ) (ts : Trace floats math nn_act)
      → each_layer floats
          (length (held_of floats math (layers floats math nn_act ts)))
          (learn_cells floats math rate)
          (λ b c. learn_cells floats math rate (row_as_mat floats b) (row_as_mat floats c) >>= λ m.
            some (as_row floats m))
          (weights_of floats n (layers floats math nn_act ts))
          (biases_of floats math (layers floats math nn_act ts))
          (weights_of floats n (sums floats math nn_act ts))
          (biases_of floats math (sums floats math nn_act ts))
        ≡ some (weights_of floats n (stepped ts), biases_of floats math (stepped ts))
  unfolding each_layer
  each_layer-stepped n [] = refl
  each_layer-stepped n (t ∷ ts) =
      ap₂ (λ o p. o >>= λ w. p >>= λ b. rest >>= λ q. some (w ∷ q.0, b ∷ q.1))
        (learn_cells-mat floats math rate n t.layer.size t.layer.weights t.weight_sum)
        (ap (λ o. o >>= λ m. some (as_row floats m))
          (learn_cells-mat floats math rate 1 t.layer.size (λ a j. t.layer.bias j)
            (λ a j. t.bias_sum j)))
      ∙ ap
          (λ o. o >>= λ q. some (
            mat floats n t.layer.size (stepped_layer t).weights ∷ q.0,
            row floats math t.layer.size (stepped_layer t).bias ∷ q.1,
          ))
          (each_layer-stepped t.layer.size ts)
    where
      rest : Option (List (Mat floats) × List (Row floats))
      rest =
          each_layer floats (length (held_of floats math (layers floats math nn_act ts)))
            (learn_cells floats math rate)
            (λ b c.
              learn_cells floats math rate (row_as_mat floats b) (row_as_mat floats c) >>= λ m.
              some (as_row floats m))
            (weights_of floats t.layer.size (layers floats math nn_act ts))
            (biases_of floats math (layers floats math nn_act ts))
            (weights_of floats t.layer.size (sums floats math nn_act ts))
            (biases_of floats math (sums floats math nn_act ts))

  held_of-stepped :
      (ts : Trace floats math nn_act)
      → held_of floats math (stepped ts) ≡ held_of floats math (layers floats math nn_act ts)
  held_of-stepped [] = refl
  held_of-stepped (t ∷ ts) =
      ap (λ acts. row floats math t.layer.size t.layer.held ∷ acts) (held_of-stepped ts)

  pub nn_learn-stepped :
      (n : ℕ) (x z : ℕ → Float) (ts : Trace floats math nn_act)
      → nn_learn floats math
          (network floats math n x (layers floats math nn_act ts))
          (network floats math n z (sums floats math nn_act ts))
          rate
        ≡ some (network floats math n x (stepped ts))
  unfolding nn_learn
  nn_learn-stepped n x z ts =
      ap (λ k. put_layers floats before (over k))
        {y = length (held_of floats math (layers floats math nn_act ts))} (omega arith)
      ∙ ap (put_layers floats before) (each_layer-stepped n ts)
      ∙ ap
          (λ acts. some (record {
            ws = weights_of floats n (stepped ts);
            bs = biases_of floats math (stepped ts);
            as_rows = row floats math n x ∷ acts;
          }))
          (sym (held_of-stepped ts))
    where
      before : Nn floats
      before = network floats math n x (layers floats math nn_act ts)

      over : ℕ → Option (List (Mat floats) × List (Row floats))
      over k =
          each_layer floats k (learn_cells floats math rate)
            (λ b c.
              learn_cells floats math rate (row_as_mat floats b) (row_as_mat floats c) >>= λ m.
              some (as_row floats m))
            (weights_of floats n (layers floats math nn_act ts))
            (biases_of floats math (layers floats math nn_act ts))
            (weights_of floats n (sums floats math nn_act ts))
            (biases_of floats math (sums floats math nn_act ts))

  pub is_last-stepped :
      (ts : Trace floats math nn_act)
      → is_last floats math (stepped ts) ≡ is_last floats math (layers floats math nn_act ts)
  is_last-stepped [] = refl
  is_last-stepped (t ∷ ts) = refl

  pub last_size-stepped :
      (n : ℕ) (ts : Trace floats math nn_act)
      → last_size floats math n (stepped ts)
        ≡ last_size floats math n (layers floats math nn_act ts)
  last_size-stepped n [] = refl
  last_size-stepped n (t ∷ ts) = last_size-stepped t.layer.size ts

  pub layer_sizes-stepped :
      (ts : Trace floats math nn_act)
      → layer_sizes floats math (stepped ts)
        ≡ layer_sizes floats math (layers floats math nn_act ts)
  layer_sizes-stepped [] = refl
  layer_sizes-stepped (t ∷ ts) = ap (λ sizes. t.layer.size ∷ sizes) (layer_sizes-stepped ts)
