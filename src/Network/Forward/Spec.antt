-- ===== src/Network/Forward/Spec.antt =====
-- nn.h: `nn_forward` against the network as functions.
use zfl.Base.{
  ℕ, suc, ◌≡◌, refl, sym, ap, ap₂, ◌∙◌, Bool, true, false, some, List, [], ◌∷◌, ◌>>=◌, length, ◌==◌,
  arith,
}
use zfl.Common.{Floats, Math}
use zfl.Network.Matrix.{Mat, Row}
use zfl.Network.Matrix.Cells.{mat}
use zfl.Network.Forward.{Nn, forward_layer, forward_from, nn_forward}
use zfl.Network.Forward.Layers.{row, weighted, activated, forward_layer-row}

module _ (floats : Floats) where
  open floats use {Float}

  -- A layer behind the input: its columns, its weights and biases, and what its row of activations
  -- holds.
  pub record Layer : Type 0 where
    pub size : ℕ
    pub weights : ℕ → ℕ → Float
    pub bias : ℕ → Float
    pub held : ℕ → Float

  abbrev pub weights_of : ℕ → List Layer → List (Mat floats)
  weights_of n [] = []
  weights_of n (l ∷ ls) = mat floats n l.size l.weights ∷ weights_of l.size ls

  module _ (math : Math Float) where
    abbrev pub biases_of : List Layer → List (Row floats)
    biases_of [] = []
    biases_of (l ∷ ls) = row floats math l.size l.bias ∷ biases_of ls

    abbrev pub held_of : List Layer → List (Row floats)
    held_of [] = []
    held_of (l ∷ ls) = row floats math l.size l.held ∷ held_of ls

    -- The network with `n` inputs, which hold `x`.
    abbrev pub network : ℕ → (ℕ → Float) → List Layer → Nn floats
    network n x ls = record {
      ws = weights_of n ls;
      bs = biases_of ls;
      as_rows = row floats math n x ∷ held_of ls;
    }

    abbrev pub is_last : List Layer → Bool
    is_last [] = true
    is_last (l ∷ ls) = false

    abbrev pub layer_output : Bool → ℕ → (ℕ → Float) → Layer → ℕ → Float
    layer_output last n x l =
        activated floats math last l.size (weighted floats math n x l.weights l.bias)

    -- The layers with what they hold behind a pass of `x`: each the output of the one before.
    abbrev pub pass : ℕ → (ℕ → Float) → List Layer → List Layer
    pass n x [] = []
    pass n x (l ∷ ls) =
        record l { held = layer_output (is_last ls) n x l }
        ∷ pass l.size (layer_output (is_last ls) n x l) ls

    length-held_of : (ls : List Layer) → (length (held_of ls) == 0) ≡ is_last ls
    length-held_of [] = refl
    length-held_of (l ∷ ls) = positive (length (held_of ls))
      where
        positive : (k : ℕ) → (suc k == 0) ≡ false
        positive k = ground arith

    weights_of-pass :
        (n : ℕ) (x : ℕ → Float) (ls : List Layer) → weights_of n (pass n x ls) ≡ weights_of n ls
    weights_of-pass n x [] = refl
    weights_of-pass n x (l ∷ ls) =
        ap (λ ws. mat floats n l.size l.weights ∷ ws)
          (weights_of-pass l.size (layer_output (is_last ls) n x l) ls)

    biases_of-pass :
        (n : ℕ) (x : ℕ → Float) (ls : List Layer) → biases_of (pass n x ls) ≡ biases_of ls
    biases_of-pass n x [] = refl
    biases_of-pass n x (l ∷ ls) =
        ap (λ bs. row floats math l.size l.bias ∷ bs)
          (biases_of-pass l.size (layer_output (is_last ls) n x l) ls)

    forward_from-pass :
        (n : ℕ) (x : ℕ → Float) (ls : List Layer)
        → forward_from floats math
            (weights_of n ls)
            (biases_of ls)
            (row floats math n x)
            (held_of ls)
          ≡ some (held_of (pass n x ls))
    unfolding forward_from
    forward_from-pass n x [] = refl
    forward_from-pass n x (l ∷ ls) =
        ap
          (λ b.
            forward_layer floats math b (row floats math n x) (mat floats n l.size l.weights)
              (row floats math l.size l.bias) (row floats math l.size l.held)
            >>= λ y'.
                forward_from floats math (weights_of l.size ls) (biases_of ls) y' (held_of ls)
                >>= λ acts. some (y' ∷ acts))
          (length-held_of ls)
        ∙ ap
            (λ o. o >>= λ y'.
              forward_from floats math (weights_of l.size ls) (biases_of ls) y' (held_of ls)
              >>= λ acts. some (y' ∷ acts))
            (forward_layer-row floats math (is_last ls) n l.size x l.weights l.bias l.held)
        ∙ ap
            (λ o.
              o >>= λ acts. some (row floats math l.size (layer_output (is_last ls) n x l) ∷ acts))
            (forward_from-pass l.size (layer_output (is_last ls) n x l) ls)

    -- On every network of matrices and rows that fit each other, `nn_forward` returns, keeps weights,
    -- biases and input, and leaves in each layer's row the layer's output on the row before: the sums
    -- of products with the weights, plus the bias, through the ReLU, or through the softmax of the last
    -- layer. What the rows held before plays no part.
    pub nn_forward-pass :
        (n : ℕ) (x : ℕ → Float) (ls : List Layer)
        → nn_forward floats math (network n x ls) ≡ some (network n x (pass n x ls))
    unfolding nn_forward
    nn_forward-pass n x ls =
        ap
          (λ o. (o >>= λ acts. some (row floats math n x ∷ acts)) >>= λ acts.
            some (record { ws = weights_of n ls; bs = biases_of ls; as_rows = acts }))
          (forward_from-pass n x ls)
        ∙ ap₂
            (λ ws bs.
              some (record {
                ws = ws;
                bs = bs;
                as_rows = row floats math n x ∷ held_of (pass n x ls);
              }))
            (sym (weights_of-pass n x ls)) (sym (biases_of-pass n x ls))
