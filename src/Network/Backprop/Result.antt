-- ===== src/Network/Backprop/Result.antt =====
-- nn.h: what `nn_backprop` returns.
use zfl.Base.{ℕ, ◌<◌, ◌≡◌, refl, sym, ap, ap₂, ◌∙◌, true, false, Option, some, List, [], ◌∷◌, ◌>>=◌}
use zfl.Common.{Floats, Math}
use zfl.Network.Matrix.{Mat, Row, Act, row_at, as_row}
use zfl.Network.Matrix.Cells.{mat_fill-mat}
use zfl.Network.Forward.{Nn, last_row}
use zfl.Network.Forward.Layers.{row}
use zfl.Network.Forward.Spec.{Layer, network, weights_of, biases_of, held_of, is_last, pass}
use zfl.Network.Forward.Repeat.{last_size, last_size-pass, last_row-held_of, predict}
use zfl.Network.Backprop.{zero_rows, set_outputs, on_last, back_from, back_network, back_sample}
use zfl.Network.Backprop.Chain.{Traced, layers_of, sums_of, traced_back, back_from-traced_back}
use zfl.Network.Backprop.Sample.{
  seed, seeded, zeros_of, zero_rows-zeros_of, set_outputs-seed, on_last-seeded, layers_of-seeded,
  weights_of-seeded, biases_of-seeded,
}

module _ (floats : Floats) (math : Math (floats.Float)) (nn_act : Act) where
  open floats use {Float, zero_float}

  abbrev pub Trace : Type 0
  Trace = List (Traced floats math nn_act)

  abbrev pub layers : Trace → List (Layer floats)
  layers ts = layers_of floats math nn_act ts

  abbrev pub sums : Trace → List (Layer floats)
  sums ts = sums_of floats math nn_act ts

  -- One row of `r`, with the input `x` and the labels `v`: the forward pass, the gradients of the
  -- outputs, and the way back.
  abbrev pub sampled : ℕ → ℕ → (ℕ → Float) → (ℕ → Float) → Trace → (ℕ → Float) × Trace
  sampled r n x v ts =
      traced_back floats math nn_act n x (λ j. zero_float) (seeded floats math nn_act r v n x ts)

  abbrev pub zero_row : (n : ℕ) → Row floats
  zero_row n = row floats math n (λ j. zero_float)

  zero_rows-network :
      (n : ℕ) (e : ℕ → Float) (ts : Trace)
      → zero_rows floats math nn_act (row floats math n e ∷ held_of floats math (sums ts))
        ≡ some (zero_row n ∷ zeros_of floats math nn_act ts)
  unfolding zero_rows
  zero_rows-network n e ts =
      ap₂ (λ o q. o >>= λ m. q >>= λ rs. some (as_row floats m ∷ rs))
        (mat_fill-mat floats 1 n (λ i j. e j) zero_float) (zero_rows-zeros_of floats math nn_act ts)

  back_network-sampled :
      (r n : ℕ) (x v e : ℕ → Float) (ts : Trace)
      → back_network floats math nn_act
          (network floats math n x (pass floats math n x (layers ts)))
          (network floats math n e (sums ts))
          (row floats math n x ∷ held_of floats math (pass floats math n x (layers ts)))
          (zero_row n ∷ held_of floats math (sums (seeded floats math nn_act r v n x ts)))
        ≡ some (network floats math n ((sampled r n x v ts).0) (sums ((sampled r n x v ts).1)))
  back_network-sampled r n x v e ts =
      ap (λ ls. from ls (weights_of floats n (sums ts)) (biases_of floats math (sums ts)))
        (layers_of-seeded floats math nn_act r v n x ts)
      ∙ ap₂ (from (layers seeds)) (weights_of-seeded floats math nn_act r v n x ts)
          (biases_of-seeded floats math nn_act r v n x ts)
      ∙ ap (λ o. o >>= λ g. some (record { ws = g.0; bs = g.1; as_rows = g.2 }))
          (back_from-traced_back floats math nn_act n x (λ j. zero_float) seeds)
    where
      seeds : Trace
      seeds = seeded floats math nn_act r v n x ts

      from : List (Layer floats) → List (Mat floats) → List (Row floats) → Option (Nn floats)
      from ls ws bs =
          back_from floats math nn_act (weights_of floats n ls) (row floats math n x)
            (held_of floats math ls) ws bs (zero_row n) (held_of floats math (sums seeds))
          >>= λ g. some (record { ws = g.0; bs = g.1; as_rows = g.2 })

  pub back_sample-sampled :
      (r n m : ℕ) (x v e : ℕ → Float) (labels : Row floats) (ts : Trace)
      → is_last floats math (layers ts) ≡ false
      → last_size floats math n (layers ts) ≡ m
      → labels.cols ≡ m
      → ((j : ℕ) → j < m → row_at floats labels j ≡ some (v j))
      → back_sample floats math nn_act r labels
          (network floats math n e (sums ts))
          (network floats math n x (pass floats math n x (layers ts)))
        ≡ some (network floats math n ((sampled r n x v ts).0) (sums ((sampled r n x v ts).1)))
  unfolding back_sample on_last
  back_sample-sampled r n m x v e labels [] has_layers size width reads =
      absurd (true-ne-false has_layers)
    where
      true-ne-false : ¬ (true ≡ false)
      true-ne-false e = cc
  back_sample-sampled r n m x v e labels (t ∷ ts) has_layers size width reads =
      ap (λ o. o >>= λ zeros. with_outputs last zeros) (zero_rows-network n e (t ∷ ts))
      ∙ ap (λ outs. with_outputs outs (zero_row n ∷ zeros_of floats math nn_act (t ∷ ts)))
          (last_row-held_of floats math n x (pass floats math n x ls)
            ∙ ap (λ k. row floats math k (predict floats math n x ls))
                (last_size-pass floats math n n x ls ∙ size))
      ∙ ap (λ o. (o >>= λ rs. some (zero_row n ∷ rs)) >>= back)
          (on_last-seeded floats math nn_act outputs r v n x t ts (
            ap (λ k. outputs (zero_row k)) size
            ∙ set_outputs-seed floats math nn_act r m (predict floats math n x ls) v
                (λ j. zero_float) labels width reads
            ∙ ap
                (λ k. some (
                  row floats math k
                    (λ j. seed floats math nn_act r (predict floats math n x ls j) (v j))))
                (sym size)))
      ∙ back_network-sampled r n x v e (t ∷ ts)
    where
      ls : List (Layer floats)
      ls = layers (t ∷ ts)

      last : Row floats
      last = last_row floats (row floats math n x) (held_of floats math (pass floats math n x ls))

      outputs : Row floats → Option (Row floats)
      outputs =
          set_outputs floats math nn_act r (row floats math m (predict floats math n x ls)) labels

      back : List (Row floats) → Option (Nn floats)
      back gacts =
          back_network floats math nn_act (network floats math n x (pass floats math n x ls))
            (network floats math n e (sums (t ∷ ts)))
            (row floats math n x ∷ held_of floats math (pass floats math n x ls)) gacts

      with_outputs : Row floats → List (Row floats) → Option (Nn floats)
      with_outputs outs zeros =
          on_last floats math nn_act (set_outputs floats math nn_act r outs labels) zeros >>= back

  layers-traced_back :
      (n : ℕ) (x e : ℕ → Float) (ts : Trace)
      → layers ((traced_back floats math nn_act n x e ts).1) ≡ layers ts
  layers-traced_back n x e [] = refl
  layers-traced_back n x e (t ∷ ts) =
      ap (λ ls. t.layer ∷ ls) (layers-traced_back t.layer.size t.layer.held t.held_sum ts)

  pub layers-sampled :
      (r n : ℕ) (x v : ℕ → Float) (ts : Trace)
      → layers ((sampled r n x v ts).1) ≡ pass floats math n x (layers ts)
  layers-sampled r n x v ts =
      layers-traced_back n x (λ j. zero_float) (seeded floats math nn_act r v n x ts)
      ∙ sym (layers_of-seeded floats math nn_act r v n x ts)

  pub is_last-sampled :
      (r n : ℕ) (x v : ℕ → Float) (ts : Trace)
      → is_last floats math (layers ((sampled r n x v ts).1)) ≡ is_last floats math (layers ts)
  is_last-sampled r n x v [] = refl
  is_last-sampled r n x v (t ∷ ts) = refl

  -- The layers before the first row.
  abbrev pub untraced : List (Layer floats) → Trace
  untraced [] = []
  untraced (l ∷ ls) =
      record {
        layer = l;
        weight_sum = λ i j. zero_float;
        bias_sum = λ j. zero_float;
        held_sum = λ j. zero_float;
      }
      ∷ untraced ls

  pub layers-untraced : (ls : List (Layer floats)) → layers (untraced ls) ≡ ls
  layers-untraced [] = refl
  layers-untraced (l ∷ ls) = ap (λ rest. l ∷ rest) (layers-untraced ls)
