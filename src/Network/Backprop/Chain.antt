-- ===== src/Network/Backprop/Chain.antt =====
-- nn.h: the loop over the layers of `nn_backprop`, from the last one to the first.
use zfl.Base.{ℕ, ◌≡◌, refl, ap, ◌∙◌, some, List, [], ◌∷◌, ◌>>=◌}
use zfl.Common.{Floats, Math}
use zfl.Network.Matrix.{Act}
use zfl.Network.Matrix.Cells.{mat}
use zfl.Network.Forward.Layers.{row}
use zfl.Network.Forward.Spec.{Layer, weights_of, biases_of, held_of}
use zfl.Network.Backprop.{back_from, back_before}
use zfl.Network.Backprop.Layer.{bias_gradient, weight_gradient, sum_gradient, back_layer-gradients}

module _ (floats : Floats) (math : Math (floats.Float)) (nn_act : Act) where
  open floats use {Float}

  -- A layer, and what is summed for it so far.
  pub record Traced : Type 0 where
    pub layer : Layer floats
    pub weight_sum : ℕ → ℕ → Float
    pub bias_sum : ℕ → Float
    pub held_sum : ℕ → Float

  abbrev pub layers_of : List Traced → List (Layer floats)
  layers_of [] = []
  layers_of (t ∷ ts) = t.layer ∷ layers_of ts

  -- The network of the gradients.
  abbrev pub sums_of : List Traced → List (Layer floats)
  sums_of [] = []
  sums_of (t ∷ ts) =
      record { size = t.layer.size; weights = t.weight_sum; bias = t.bias_sum; held = t.held_sum }
      ∷ sums_of ts

  -- What one layer makes of the gradients of its activations, and of the layers behind it.
  abbrev pub traced_layer :
      ℕ → (ℕ → Float) → (ℕ → Float) → Traced → (ℕ → Float) × List Traced → (ℕ → Float) × List Traced
  traced_layer n x e t behind = (
    sum_gradient floats math nn_act n t.layer.size x t.layer.held behind.0 t.layer.weights
        t.layer.size e,
    record t {
      weight_sum =
          weight_gradient floats math nn_act n t.layer.size x t.layer.held behind.0 t.layer.weights
            t.weight_sum;
      bias_sum =
          bias_gradient floats math nn_act n t.layer.size x t.layer.held behind.0 t.layer.weights
            t.bias_sum;
      held_sum = behind.0;
    }
        ∷ behind.1,
  )

  -- The gradients of the activations `x` before the layers, and the layers with their sums, where the
  -- sums so far are given: those of a layer's activations come from the layers behind it.
  abbrev pub traced_back : ℕ → (ℕ → Float) → (ℕ → Float) → List Traced → (ℕ → Float) × List Traced
  traced_back n x e [] = (e, [])
  traced_back n x e (t ∷ ts) =
      traced_layer n x e t (traced_back t.layer.size t.layer.held t.held_sum ts)

  -- On layers of matrices and rows that fit each other, with sums of the same sizes, the loop over the
  -- layers returns. From the last layer to the first it adds to the sum of each bias the slope of its
  -- activation, to that of each weight the slope times the activation before, and to those of the
  -- activations before the slopes times the weights, where a slope is twice the activation's own sum
  -- times the derivative.
  pub back_from-traced_back :
      (n : ℕ) (x e : ℕ → Float) (ts : List Traced)
      → back_from floats math nn_act
          (weights_of floats n (layers_of ts))
          (row floats math n x)
          (held_of floats math (layers_of ts))
          (weights_of floats n (sums_of ts))
          (biases_of floats math (sums_of ts))
          (row floats math n e)
          (held_of floats math (sums_of ts))
        ≡ some (
          weights_of floats n (sums_of (traced_back n x e ts).1),
          biases_of floats math (sums_of (traced_back n x e ts).1),
          row floats math n (traced_back n x e ts).0
              ∷ held_of floats math (sums_of (traced_back n x e ts).1),
        )
  unfolding back_from
  back_from-traced_back n x e [] = refl
  back_from-traced_back n x e (t ∷ ts) =
      let l = t.layer in
      let behind = traced_back l.size l.held t.held_sum ts in
      ap
        (λ o.
          o
          >>= back_before floats math nn_act (row floats math n x) (row floats math l.size l.held)
              (mat floats n l.size l.weights) (mat floats n l.size t.weight_sum)
              (row floats math l.size t.bias_sum) (row floats math n e))
        (back_from-traced_back l.size l.held t.held_sum ts)
      ∙ ap
          (λ o. o >>= λ g. some (
            g.1 ∷ weights_of floats l.size (sums_of behind.1),
            g.0 ∷ biases_of floats math (sums_of behind.1),
            g.2 ∷ row floats math l.size behind.0 ∷ held_of floats math (sums_of behind.1),
          ))
          (back_layer-gradients floats math nn_act n l.size x l.held behind.0 l.weights t.bias_sum e
            t.weight_sum)
