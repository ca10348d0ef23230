-- ===== src/Network/Backprop/Gradients.antt =====
-- nn.h: the gradients that `nn_backprop` returns.
use zfl.Base.{
  ℕ, zero, suc, ◌+◌, ◌<◌, ◌≡◌, refl, sym, ap, ◌∙◌, false, Option, none, some, List, ◌∷◌, ◌>>=◌,
  ==_iff, if◌then◌else◌, for_loop, for_loop-states,
}
use zfl.Common.{Floats, Math}
use zfl.Network.Matrix.{Row, Act}
use zfl.Network.Forward.{Nn}
use zfl.Network.Forward.Layers.{row}
use zfl.Network.Forward.Spec.{Layer, network, held_of, is_last, pass}
use zfl.Network.Forward.Repeat.{
  last_size, layer_sizes, layer_sizes-pass, last_size-pass, last_row-held_of,
}
use zfl.Network.Forward.Rows.{sheet, Labelled, labels_of, labels_of-reads, row_passed}
use zfl.Network.Learn.{nn_alloc}
use zfl.Network.Backprop.{nn_zero, back_sample, back_row, row_sizes, nn_backprop}
use zfl.Network.Backprop.Result.{
  Trace, layers, sums, sampled, untraced, layers-sampled, is_last-sampled, back_sample-sampled,
  layers-untraced,
}
use zfl.Network.Backprop.Zero.{gradients_alloc}

module _ (floats : Floats) (math : Math (floats.Float)) (nn_act : Act) where
  open floats use {Float, zero_float}

  module _ (r n m : ℕ) (x y : ℕ → ℕ → Float) (z : ℕ → Float) (ls : List (Layer floats)) where
    -- Behind `k` rows: the input, the layers with the sums, and the sums for the input.
    abbrev pub input_at : ℕ → ℕ → Float
    input_at zero = z
    input_at (suc k) = x k

    abbrev pub trace_at : ℕ → Trace floats math nn_act
    trace_at zero = untraced floats math nn_act ls
    trace_at (suc k) = (sampled floats math nn_act r n (x k) (y k) (trace_at k)).1

    abbrev pub input_sum_at : ℕ → ℕ → Float
    input_sum_at zero = λ j. zero_float
    input_sum_at (suc k) = (sampled floats math nn_act r n (x k) (y k) (trace_at k)).0

    abbrev pub states_at : ℕ → Nn floats × Nn floats
    states_at k = (
      network floats math n (input_at k) (layers floats math nn_act (trace_at k)),
      network floats math n (input_sum_at k) (sums floats math nn_act (trace_at k)),
    )

    pub size_at :
        (k : ℕ)
        → last_size floats math n ls ≡ m
        → last_size floats math n (layers floats math nn_act (trace_at k)) ≡ m
    size_at zero size = ap (last_size floats math n) (layers-untraced floats math nn_act ls) ∙ size
    size_at (suc k) size =
        ap (last_size floats math n)
          (layers-sampled floats math nn_act r n (x k) (y k) (trace_at k))
        ∙ last_size-pass floats math n n (x k) (layers floats math nn_act (trace_at k))
        ∙ size_at k size

    pub is_last_at :
        (k : ℕ)
        → is_last floats math ls ≡ false
        → is_last floats math (layers floats math nn_act (trace_at k)) ≡ false
    is_last_at zero some_layer =
        ap (is_last floats math) (layers-untraced floats math nn_act ls) ∙ some_layer
    is_last_at (suc k) some_layer =
        is_last-sampled floats math nn_act r n (x k) (y k) (trace_at k) ∙ is_last_at k some_layer

    pub layer_sizes_at :
        (k : ℕ)
        → layer_sizes floats math (layers floats math nn_act (trace_at k))
          ≡ layer_sizes floats math ls
    layer_sizes_at zero = ap (layer_sizes floats math) (layers-untraced floats math nn_act ls)
    layer_sizes_at (suc k) =
        ap (layer_sizes floats math)
          (layers-sampled floats math nn_act r n (x k) (y k) (trace_at k))
        ∙ layer_sizes-pass floats math n (x k) (layers floats math nn_act (trace_at k))
        ∙ layer_sizes_at k

    back_row-step :
        (block : List Float) (k : ℕ)
        → 0 < m
        → Labelled floats math r n m x y block
        → k < r
        → is_last floats math ls ≡ false
        → last_size floats math n ls ≡ m
        → back_row floats math nn_act (sheet floats math r n m block) k (states_at k)
          ≡ some (states_at (suc k))
    unfolding back_row
    back_row-step block k positive reads hk some_layer size =
        row_passed floats math r n m positive x y block reads (input_at k)
          (layers floats math nn_act ts) k finish hk (size_at k size)
        ∙ ap
            (λ o. o >>= λ g'. some (
              network floats math n (x k) (pass floats math n (x k) (layers floats math nn_act ts)),
              g',
            ))
            (back_sample-sampled floats math nn_act r n m (x k) (y k) (input_sum_at k)
              (labels_of floats math r n m positive x y block reads k) ts (is_last_at k some_layer)
              (size_at k size) refl
              (λ j hj. labels_of-reads floats math r n m positive x y block reads k j hk hj))
        ∙ ap (λ l. some (network floats math n (x k) l, (states_at (suc k)).1))
            (sym (layers-sampled floats math nn_act r n (x k) (y k) ts))
      where
        ts : Trace floats math nn_act
        ts = trace_at k

        finish : Row floats → Nn floats → Option (Nn floats × Nn floats)
        finish yr nn2 =
            back_sample floats math nn_act r yr ((states_at k).1) nn2 >>= λ g'. some (nn2, g')

    -- On a network of matrices and rows that fit each other, with a layer and a non-empty output as wide
    -- as the labels, and a training set whose block of memory holds the inputs and labels row by
    -- row, `nn_backprop` returns, and keeps weights and biases. Its gradients start at 0,
    -- and each row of the set in order adds its own: those of the outputs are the output, less 1 where
    -- the label is 1, divided by the number of rows, and the others come from the layer behind.
    pub nn_backprop-gradients :
        (fresh : ℕ → ℕ → Float) (block : List Float)
        → 0 < m
        → Labelled floats math r n m x y block
        → is_last floats math ls ≡ false
        → last_size floats math n ls ≡ m
        → nn_backprop floats math nn_act fresh
            (network floats math n z ls)
            (sheet floats math r n m block)
          ≡ some (states_at r)
    unfolding nn_backprop
    nn_backprop-gradients fresh block positive reads some_layer size =
        ap (λ b. if b then start else none)
          ((==_iff _ (n + m)).1
            (ap (λ k. n + k) (ap (λ a. a.cols) (last_row-held_of floats math n z ls) ∙ size)))
        ∙ gradients_alloc floats math nn_act fresh n z ls
            (λ zeros. for_loop r row_step (network floats math n z ls, zeros))
        ∙ ap (λ l. for_loop r row_step (network floats math n z l, (states_at 0).1))
            (sym (layers-untraced floats math nn_act ls))
        ∙ for_loop-states r row_step states_at
            (λ k hk. back_row-step block k positive reads hk some_layer size)
      where
        row_step : ℕ → Nn floats × Nn floats → Option (Nn floats × Nn floats)
        row_step = back_row floats math nn_act (sheet floats math r n m block)

        start : Option (Nn floats × Nn floats)
        start =
            nn_alloc floats math fresh
              (row_sizes floats math nn_act (row floats math n z ∷ held_of floats math ls))
            >>= λ g. nn_zero floats math nn_act g >>= λ zeros.
                for_loop r row_step (network floats math n z ls, zeros)
