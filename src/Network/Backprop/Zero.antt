-- ===== src/Network/Backprop/Zero.antt =====
-- nn.h: `nn_zero`, and the gradients that `nn_backprop` begins with.
use zfl.Base.{ℕ, ◌*◌, ◌≡◌, refl, ap, ap₂, ◌∙◌, Option, some, List, [], ◌∷◌, ◌>>=◌}
use zfl.Common.{Floats, Math}
use zfl.Network.Matrix.{Act, as_row}
use zfl.Network.Matrix.Cells.{mat_fill-mat}
use zfl.Network.Forward.{Nn}
use zfl.Network.Forward.Layers.{row}
use zfl.Network.Forward.Spec.{Layer, network, weights_of, biases_of, held_of}
use zfl.Network.Learn.{nn_alloc}
use zfl.Network.Learn.Results.{blank, nn_alloc-network}
use zfl.Network.Backprop.{zero_mats, zero_rows, nn_zero, row_sizes}
use zfl.Network.Backprop.Result.{sums, untraced}

module _ (floats : Floats) (math : Math (floats.Float)) (nn_act : Act) where
  open floats use {Float, zero_float}

  -- Layers of the same sizes that are all 0.
  abbrev zeroed : List (Layer floats) → List (Layer floats)
  zeroed [] = []
  zeroed (l ∷ ls) =
      record {
        size = l.size;
        weights = λ i j. zero_float;
        bias = λ j. zero_float;
        held = λ j. zero_float;
      }
      ∷ zeroed ls

  zero_mats-zeroed :
      (n : ℕ) (ls : List (Layer floats))
      → zero_mats floats math nn_act (weights_of floats n ls)
        ≡ some (weights_of floats n (zeroed ls))
  unfolding zero_mats
  zero_mats-zeroed n [] = refl
  zero_mats-zeroed n (l ∷ ls) =
      ap₂ (λ o q. o >>= λ m. q >>= λ ms. some (m ∷ ms))
        (mat_fill-mat floats n l.size l.weights zero_float) (zero_mats-zeroed l.size ls)

  zero_biases-zeroed :
      (ls : List (Layer floats))
      → zero_rows floats math nn_act (biases_of floats math ls)
        ≡ some (biases_of floats math (zeroed ls))
  unfolding zero_rows
  zero_biases-zeroed [] = refl
  zero_biases-zeroed (l ∷ ls) =
      ap₂ (λ o q. o >>= λ m. q >>= λ rs. some (as_row floats m ∷ rs))
        (mat_fill-mat floats 1 l.size (λ i j. l.bias j) zero_float) (zero_biases-zeroed ls)

  zero_held-zeroed :
      (ls : List (Layer floats))
      → zero_rows floats math nn_act (held_of floats math ls)
        ≡ some (held_of floats math (zeroed ls))
  unfolding zero_rows
  zero_held-zeroed [] = refl
  zero_held-zeroed (l ∷ ls) =
      ap₂ (λ o q. o >>= λ m. q >>= λ rs. some (as_row floats m ∷ rs))
        (mat_fill-mat floats 1 l.size (λ i j. l.held j) zero_float) (zero_held-zeroed ls)

  pub nn_zero-zeroed :
      (n : ℕ) (x : ℕ → Float) (ls : List (Layer floats))
      → nn_zero floats math nn_act (network floats math n x ls)
        ≡ some (network floats math n (λ j. zero_float) (zeroed ls))
  unfolding nn_zero zero_rows
  nn_zero-zeroed n x ls =
      ap₂
        (λ o q. o >>= λ ws. q >>= λ bs.
          (zero_rows floats math nn_act (row floats math n x ∷ held_of floats math ls)) >>= λ acts.
          some (record { ws = ws; bs = bs; as_rows = acts }))
        (zero_mats-zeroed n ls) (zero_biases-zeroed ls)
      ∙ ap₂
          (λ o q. (o >>= λ m. q >>= λ rs. some (as_row floats m ∷ rs)) >>= λ acts. some (record {
            ws = weights_of floats n (zeroed ls);
            bs = biases_of floats math (zeroed ls);
            as_rows = acts;
          }))
          (mat_fill-mat floats 1 n (λ i j. x j) zero_float) (zero_held-zeroed ls)

  -- The sizes of the rows, which are those that the gradients get.
  abbrev sizes_of : List (Layer floats) → List ℕ
  sizes_of [] = []
  sizes_of (l ∷ ls) = l.size ∷ sizes_of ls

  row_sizes-sizes_of :
      (ls : List (Layer floats))
      → row_sizes floats math nn_act (held_of floats math ls) ≡ sizes_of ls
  row_sizes-sizes_of [] = refl
  row_sizes-sizes_of (l ∷ ls) = ap (λ sizes. l.size ∷ sizes) (row_sizes-sizes_of ls)

  abbrev blank_of : (ℕ → ℕ → Float) → ℕ → List ℕ → List (Layer floats)
  blank_of fresh n sizes = blank floats math (λ i j k. zero_float) (λ i j. zero_float) fresh n sizes

  zeroed-blank :
      (fresh : ℕ → ℕ → Float) (n : ℕ) (ls : List (Layer floats))
      → zeroed (blank_of fresh n (sizes_of ls))
        ≡ sums floats math nn_act (untraced floats math nn_act ls)
  zeroed-blank fresh n [] = refl
  zeroed-blank fresh n (l ∷ ls) =
      ap
        (λ rest.
          record {
            size = l.size;
            weights = λ i j. zero_float;
            bias = λ j. zero_float;
            held = λ j. zero_float;
          }
          ∷ rest)
        (zeroed-blank fresh l.size ls)

  -- The gradients are allocated and filled with 0.
  pub gradients_alloc :
      {S : Type 0} (fresh : ℕ → ℕ → Float) (n : ℕ) (z : ℕ → Float) (ls : List (Layer floats))
      (rest : Nn floats → Option S)
      → (nn_alloc floats math fresh
            (row_sizes floats math nn_act (row floats math n z ∷ held_of floats math ls))
          >>= λ g. nn_zero floats math nn_act g >>= rest)
        ≡ rest (
            network floats math n
              (λ j. zero_float)
              (sums floats math nn_act (untraced floats math nn_act ls)))
  gradients_alloc fresh n z ls rest =
      ap
        (λ sizes.
          nn_alloc floats math fresh (n ∷ sizes) >>= λ g. nn_zero floats math nn_act g >>= rest)
        (row_sizes-sizes_of ls)
      ∙ ap (λ o. o >>= λ g. nn_zero floats math nn_act g >>= rest)
          (nn_alloc-network floats math (λ i j k. zero_float) (λ i j. zero_float) fresh n
            (sizes_of ls))
      ∙ ap (λ o. o >>= rest) (nn_zero-zeroed n (fresh (1 * n)) (blank_of fresh n (sizes_of ls)))
      ∙ ap (λ ts. rest (network floats math n (λ j. zero_float) ts)) (zeroed-blank fresh n ls)
