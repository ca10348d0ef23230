-- ===== src/Network/Learn/Results.antt =====
-- nn.h, common.h: `insert_weights_to_nn`, `nn_learn` and `init_nn` on whole networks.
use zfl.Base.{
  ℕ, zero, suc, ◌+◌, ◌*◌, ◌<◌, ◌≡◌, refl, ap, ap₂, ◌∙◌, some, List, [], ◌∷◌, ◌>>=◌, drop, cells,
  cells_ext, tabulate_from, cells_tabulate_from, arith,
}
use zfl.Common.{Floats, Math}
use zfl.Network.Matrix.{as_row}
use zfl.Network.Forward.Layers.{row}
use zfl.Network.Forward.Spec.{Layer, weights_of, biases_of, held_of, network}
use zfl.Network.Learn.{
  insert_cells, insert_weights_to_nn, row_alloc, alloc_ws, alloc_rows, nn_alloc, init_nn,
}
use zfl.Network.Learn.Layers.{items, changed, network-changed, insert_cells-mat}

module _ (floats : Floats) (math : Math (floats.Float)) where
  open floats use {Float}
  open math use {sub_float, mul_float}

  module _ (new_w : ℕ → ℕ → ℕ → Float) (new_b : ℕ → ℕ → Float) where
    -- The values for each layer, one row of the matrix after the other.
    abbrev pub initial_weights : ℕ → List (Layer floats) → List (List Float)
    initial_weights n ls = items floats math (λ i r c. cells r c (new_w i)) 0 n ls

    abbrev pub initial_bias : ℕ → List (Layer floats) → List (List Float)
    initial_bias n ls = items floats math (λ i r c. cells 1 c (λ a j. new_b i j)) 0 n ls

    abbrev pub inserted : List (Layer floats) → List (Layer floats)
    inserted ls = changed floats math (λ i w. new_w i) (λ i b. new_b i) 0 ls

    -- On every network of matrices and rows that fit each other, with values for each of its layers,
    -- `insert_weights_to_nn` returns, puts value j * cols + k in row j and column k of the layer's
    -- matrix, and value j in column j of its biases; input and activations stay.
    pub insert_weights_to_nn-inserted :
        (n : ℕ) (x : ℕ → Float) (ls : List (Layer floats))
        → insert_weights_to_nn floats
            (network floats math n x ls)
            (initial_weights n ls)
            (initial_bias n ls)
          ≡ some (network floats math n x (inserted ls))
    unfolding insert_weights_to_nn
    insert_weights_to_nn-inserted n x ls =
        network-changed floats math (insert_cells floats) _ (λ i r c. cells r c (new_w i))
          (λ i r c. cells 1 c (λ a j. new_b i j)) (λ i w. new_w i) (λ i b. new_b i)
          (λ i r c w. insert_cells-mat floats math r c w (new_w i))
          (λ i k c b.
            ap (λ o. o >>= λ m. some (as_row floats m))
              (insert_cells-mat floats math 1 c (λ a j. b j) (λ a j. new_b i j)))
          n x ls

    module _ (fresh : ℕ → ℕ → Float) where
      -- The layers of the given sizes, with what fresh memory holds.
      abbrev pub blank : ℕ → List ℕ → List (Layer floats)
      blank n [] = []
      blank n (k ∷ sizes) =
          record {
            size = k;
            weights = λ i j. fresh (n * k) (i * k + j);
            bias = fresh (1 * k);
            held = fresh (1 * k);
          }
          ∷ blank k sizes

      in_row : (i c j : ℕ) → i < 1 → i * c + j ≡ j
      in_row zero c j h = omega arith
      in_row (suc i) c j h = absurd (omega arith)

      row_alloc-row : (c : ℕ) → row_alloc floats math fresh c ≡ row floats math c (fresh (1 * c))
      row_alloc-row c =
          ap (λ l. record { cols = c; elements = l })
            (ap (λ k. drop k (tabulate_from 0 (1 * c) (fresh (1 * c)))) {y = 0} (omega arith)
              ∙ cells_tabulate_from 1 c (fresh (1 * c))
              ∙ cells_ext 1 c _ _ (λ i j hi hj. ap (fresh (1 * c)) (in_row i c j hi)))

      alloc_ws-weights_of :
          (n : ℕ) (sizes : List ℕ)
          → alloc_ws floats math fresh n sizes ≡ weights_of floats n (blank n sizes)
      alloc_ws-weights_of n [] = refl
      alloc_ws-weights_of n (k ∷ sizes) =
          ap₂ (λ l ws. record { rows = n; cols = k; elements = l } ∷ ws)
            (cells_tabulate_from n k (fresh (n * k))) (alloc_ws-weights_of k sizes)

      alloc_rows-biases_of :
          (n : ℕ) (sizes : List ℕ)
          → alloc_rows floats math fresh sizes ≡ biases_of floats math (blank n sizes)
      alloc_rows-biases_of n [] = refl
      alloc_rows-biases_of n (k ∷ sizes) =
          ap₂ (◌∷◌) (row_alloc-row k) (alloc_rows-biases_of k sizes)

      alloc_rows-held_of :
          (n : ℕ) (sizes : List ℕ)
          → alloc_rows floats math fresh sizes ≡ held_of floats math (blank n sizes)
      alloc_rows-held_of n [] = refl
      alloc_rows-held_of n (k ∷ sizes) = ap₂ (◌∷◌) (row_alloc-row k) (alloc_rows-held_of k sizes)

      pub nn_alloc-network :
          (n : ℕ) (sizes : List ℕ)
          → nn_alloc floats math fresh (n ∷ sizes)
            ≡ some (network floats math n (fresh (1 * n)) (blank n sizes))
      unfolding nn_alloc
      nn_alloc-network n sizes =
          ap₂
            (λ ws a. some (record {
              ws = ws;
              bs = alloc_rows floats math fresh sizes;
              as_rows = a ∷ alloc_rows floats math fresh sizes;
            }))
            (alloc_ws-weights_of n sizes) (row_alloc-row n)
          ∙ ap₂
              (λ bs acts. some (record {
                ws = weights_of floats n (blank n sizes);
                bs = bs;
                as_rows = row floats math n (fresh (1 * n)) ∷ acts;
              }))
              (alloc_rows-biases_of n sizes) (alloc_rows-held_of n sizes)

      -- From nothing, with values for the layers of the sizes given, `init_nn` returns a network of
      -- matrices and rows that fit each other, of these sizes and with these values, whatever the
      -- memory held.
      pub init_nn-inserted :
          (n : ℕ) (sizes : List ℕ) (rands : ℕ → ℕ → Float)
          → init_nn floats math fresh
              (n ∷ sizes)
              rands
              (record { ws = []; bs = []; as_rows = [] })
              (some (initial_weights n (blank n sizes)))
              (some (initial_bias n (blank n sizes)))
            ≡ some (network floats math n (fresh (1 * n)) (inserted (blank n sizes)))
      unfolding init_nn
      init_nn-inserted n sizes rands =
          ap
            (λ o. o >>= λ nn'.
              insert_weights_to_nn floats nn' (initial_weights n (blank n sizes))
                (initial_bias n (blank n sizes)))
            (nn_alloc-network n sizes)
          ∙ insert_weights_to_nn-inserted n (fresh (1 * n)) (blank n sizes)
