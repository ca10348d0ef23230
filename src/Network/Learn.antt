-- ===== src/Network/Learn.antt =====
-- nn.h, common.h: the functions that set the weights and biases of a network: `nn_alloc` without a
-- region, `nn_rand`, `nn_learn`, `insert_weights_to_nn`, `init_nn`.
pub mod Layers
pub mod Results
use zfl.Base.{
  ℕ, zero, suc, ◌+◌, ◌-◌, ◌*◌, Bool, true, false, Option, none, some, List, [], ◌∷◌, ◌>>=◌, length,
  get_elem?, tabulate_from,
}
use zfl.Common.{Floats, Math}
use zfl.Network.Matrix.{Mat, Row, row_as_mat, as_row, mat_at, mat_put, each_cell, mat_rand, mat_row}
use zfl.Network.Forward.{Nn}

module _ (floats : Floats) where
  open floats use {Float}

  -- `for (i = 0; i < n; ++i)` over the layers, with one item of two further lists for each.
  unfoldable pub each_layer :
      {A B : Type 0}
      → ℕ
      → (Mat floats → A → Option (Mat floats))
      → (Row floats → B → Option (Row floats))
      → List (Mat floats)
      → List (Row floats)
      → List A
      → List B
      → Option (List (Mat floats) × List (Row floats))
  each_layer zero on_w on_b ws bs us vs = some (ws, bs)
  each_layer (suc n) on_w on_b (w ∷ ws) (b ∷ bs) (u ∷ us) (v ∷ vs) = on_w w u >>= λ w'.
      on_b b v >>= λ b'. each_layer n on_w on_b ws bs us vs >>= λ p. some (w' ∷ p.0, b' ∷ p.1)
  each_layer (suc n) on_w on_b [] bs us vs = none
  each_layer (suc n) on_w on_b (w ∷ ws) [] us vs = none
  each_layer (suc n) on_w on_b (w ∷ ws) (b ∷ bs) [] vs = none
  each_layer (suc n) on_w on_b (w ∷ ws) (b ∷ bs) (u ∷ us) [] = none

  abbrev pub put_layers :
      Nn floats → Option (List (Mat floats) × List (Row floats)) → Option (Nn floats)
  put_layers nn o = o >>= λ p. some (record nn { ws = p.0; bs = p.1 })

  -- `values[j * m.cols + k]` into each cell of `m`. A row's values are read as those of a matrix with
  -- one row.
  unfoldable pub insert_cells : Mat floats → List Float → Option (Mat floats)
  insert_cells m values =
      each_cell floats m
        (λ j k m'. get_elem? values (j * m.cols + k) >>= λ x. mat_put floats m' j k x)

  unfoldable pub insert_weights_to_nn :
      Nn floats → List (List Float) → List (List Float) → Option (Nn floats)
  insert_weights_to_nn nn initial_weights initial_bias = put_layers nn (
      each_layer (length nn.as_rows - 1) insert_cells
        (λ r values. insert_cells (row_as_mat floats r) values >>= λ m. some (as_row floats m))
        nn.ws nn.bs initial_weights initial_bias)

  module _ (math : Math Float) where
    open math use {one_float, negate, sub_float, mul_float}

    unfoldable pub learn_cells : Float → Mat floats → Mat floats → Option (Mat floats)
    learn_cells rate m g = each_cell floats m (λ j k m'. mat_at floats m' j k >>= λ x.
        mat_at floats g j k >>= λ y. mat_put floats m' j k (sub_float x (mul_float rate y)))

    unfoldable pub nn_learn : Nn floats → Nn floats → Float → Option (Nn floats)
    nn_learn nn g rate = put_layers nn (
        each_layer (length nn.as_rows - 1) (learn_cells rate)
          (λ b c. learn_cells rate (row_as_mat floats b) (row_as_mat floats c) >>= λ m.
            some (as_row floats m))
          nn.ws nn.bs g.ws g.bs)

    -- `rands i` are the values of `rand_float` for matrix `i`, weights and biases by turns.
    unfoldable pub rand_layers :
        (ℕ → ℕ → Float)
        → ℕ
        → ℕ
        → Float
        → Float
        → List (Mat floats)
        → List (Row floats)
        → Option (List (Mat floats) × List (Row floats))
    rand_layers rands i zero low high ws bs = some (ws, bs)
    rand_layers rands i (suc n) low high (w ∷ ws) (b ∷ bs) =
        mat_rand floats math (rands i) w low high >>= λ w'.
        mat_rand floats math (rands (i + 1)) (row_as_mat floats b) low high >>= λ m.
        rand_layers rands (i + 2) n low high ws bs >>= λ p. some (w' ∷ p.0, as_row floats m ∷ p.1)
    rand_layers rands i (suc n) low high [] bs = none
    rand_layers rands i (suc n) low high (w ∷ ws) [] = none

    unfoldable pub nn_rand : (ℕ → ℕ → Float) → Nn floats → Float → Float → Option (Nn floats)
    nn_rand rands nn low high =
        put_layers nn (rand_layers rands 0 (length nn.as_rows - 1) low high nn.ws nn.bs)

    module _ (fresh : ℕ → ℕ → Float) where
      -- A block of memory for `rows * cols` floats, which hold what `fresh` says.
      abbrev pub mat_alloc : ℕ → ℕ → Mat floats
      mat_alloc rows cols = record {
        rows = rows;
        cols = cols;
        elements = tabulate_from 0 (rows * cols) (fresh (rows * cols));
      }

      abbrev pub row_alloc : ℕ → Row floats
      row_alloc cols = mat_row floats (mat_alloc 1 cols) 0

      abbrev pub alloc_ws : ℕ → List ℕ → List (Mat floats)
      alloc_ws cols [] = []
      alloc_ws cols (n ∷ sizes) = mat_alloc cols n ∷ alloc_ws n sizes

      abbrev pub alloc_rows : List ℕ → List (Row floats)
      alloc_rows [] = []
      alloc_rows (n ∷ sizes) = row_alloc n ∷ alloc_rows sizes

      unfoldable pub nn_alloc : List ℕ → Option (Nn floats)
      nn_alloc [] = none
      nn_alloc (n ∷ sizes) = some (record {
        ws = alloc_ws n sizes;
        bs = alloc_rows sizes;
        as_rows = row_alloc n ∷ alloc_rows sizes;
      })

      -- A network with no rows is one of which nothing is set. `none` for the weights or the biases is
      -- the null pointer.
      unfoldable pub init_nn :
          List ℕ
          → (ℕ → ℕ → Float)
          → Nn floats
          → Option (List (List Float))
          → Option (List (List Float))
          → Option (Nn floats)
      init_nn sizes rands nn initial_weights initial_bias =
          allocated nn.as_rows >>= λ nn'. filled nn' initial_weights initial_bias
        where
          allocated : List (Row floats) → Option (Nn floats)
          allocated [] = nn_alloc sizes
          allocated (a ∷ acts) = some nn

          filled :
              Nn floats
              → Option (List (List Float))
              → Option (List (List Float))
              → Option (Nn floats)
          filled nn' (some weights) (some biases) = insert_weights_to_nn nn' weights biases
          filled nn' none biases = nn_rand rands nn' (negate one_float) one_float
          filled nn' (some weights) none = nn_rand rands nn' (negate one_float) one_float
