-- ===== src/Network/Backprop/Sample.antt =====
-- nn.h: `nn_backprop` on one row of the training set, behind the forward pass.
use zfl.Base.{
  ℕ, suc, ◌<◌, ◌≡◌, refl, ap, ap₂, ◌∙◌, false, Option, some, List, [], ◌∷◌, ◌>>=◌, if◌then◌else◌,
  ltb, for_loop, for_loop-states, arith,
}
use zfl.Common.{Floats, Math}
use zfl.Network.Matrix.{Row, Act, as_row, row_at, row_put}
use zfl.Network.Matrix.Cells.{mat, mat_fill-mat}
use zfl.Network.Forward.Layers.{row}
use zfl.Network.Forward.Spec.{weights_of, biases_of, held_of, is_last, layer_output, pass}
use zfl.Network.Forward.Repeat.{last_size, last_held}
use zfl.Network.Forward.Scores.{row_at-row}
use zfl.Network.Backprop.{zero_rows, set_outputs, on_last}
use zfl.Network.Backprop.Rows.{replaced, row_ext, row_put-row}
use zfl.Network.Backprop.Chain.{Traced, layers_of, sums_of}

module _ (floats : Floats) (math : Math (floats.Float)) (nn_act : Act) where
  open floats use {Float, zero_float}
  open math use {one_float, sub_float, quot_float, of_size, equal}

  -- The gradient of output `o` for the label `v`, of `r` rows.
  abbrev pub seed : ℕ → Float → Float → Float
  seed r o v =
      if equal v one_float
      then quot_float (sub_float o one_float) (of_size r)
      else quot_float o (of_size r)

  abbrev seeded_to : (ℕ → Float) → (ℕ → Float) → ℕ → ℕ → Float
  seeded_to f h k j = if ltb j k then h j else f j

  seeded_next :
      (f h : ℕ → Float) (k j : ℕ)
      → replaced floats math (seeded_to f h k) k (h k) j ≡ seeded_to f h (suc k) j
  seeded_next f h k j = ground arith

  seeded_none : (f h : ℕ → Float) (j : ℕ) → f j ≡ seeded_to f h 0 j
  seeded_none f h j = ground arith

  seeded_all : (f h : ℕ → Float) (n j : ℕ) → j < n → seeded_to f h n j ≡ h j
  seeded_all f h n j lt = ground arith

  pub set_outputs-seed :
      (r m : ℕ) (o v f : ℕ → Float) (labels : Row floats)
      → labels.cols ≡ m
      → ((j : ℕ) → j < m → row_at floats labels j ≡ some (v j))
      → set_outputs floats math nn_act r (row floats math m o) labels (row floats math m f)
        ≡ some (row floats math m (λ j. seed r (o j) (v j)))
  unfolding set_outputs
  set_outputs-seed r m o v f labels size reads =
      ap (λ k. for_loop k body (row floats math m f)) size
      ∙ ap (for_loop m body) (row_ext floats math m _ _ (λ j h. seeded_none f h' j))
      ∙ for_loop-states m body (λ k. row floats math m (seeded_to f h' k))
          (λ k hk.
            ap₂
              (λ q p. q >>= λ v'.
                p >>= λ o'. row_put floats (row floats math m (seeded_to f h' k)) k (seed r o' v'))
              (reads k hk) (row_at-row floats math m k o hk)
            ∙ row_put-row floats math m k (seeded_to f h' k) (h' k) hk
            ∙ ap some (row_ext floats math m _ _ (λ j hj. seeded_next f h' k j)))
      ∙ ap some (row_ext floats math m _ _ (λ j hj. seeded_all f h' m j hj))
    where
      h' : ℕ → Float
      h' j = seed r (o j) (v j)

      body : ℕ → Row floats → Option (Row floats)
      body j gout = row_at floats labels j >>= λ v'.
          row_at floats (row floats math m o) j >>= λ o'. row_put floats gout j (seed r o' v')

  -- Behind the forward pass of `x`: the layers hold their outputs, and the sums for the activations
  -- start with 0, but for those of the outputs.
  abbrev pub seeded :
      ℕ
      → (ℕ → Float)
      → ℕ
      → (ℕ → Float)
      → List (Traced floats math nn_act)
      → List (Traced floats math nn_act)
  seeded r v n x [] = []
  seeded r v n x (t ∷ ts) =
      let o =
        layer_output floats math (is_last floats math (layers_of floats math nn_act ts)) n x
          t.layer in
      record t {
        layer = record (t.layer) { held = o };
        held_sum =
            if is_last floats math (layers_of floats math nn_act ts)
            then (λ j. seed r (o j) (v j))
            else (λ j. zero_float);
      }
      ∷ seeded r v t.layer.size o ts

  pub layers_of-seeded :
      (r : ℕ) (v : ℕ → Float) (n : ℕ) (x : ℕ → Float) (ts : List (Traced floats math nn_act))
      → pass floats math n x (layers_of floats math nn_act ts)
        ≡ layers_of floats math nn_act (seeded r v n x ts)
  layers_of-seeded r v n x [] = refl
  layers_of-seeded r v n x (t ∷ ts) =
      let o =
        layer_output floats math (is_last floats math (layers_of floats math nn_act ts)) n x
          t.layer in
      ap (λ ls. record (t.layer) { held = o } ∷ ls) (layers_of-seeded r v t.layer.size o ts)

  pub weights_of-seeded :
      (r : ℕ) (v : ℕ → Float) (n : ℕ) (x : ℕ → Float) (ts : List (Traced floats math nn_act))
      → weights_of floats n (sums_of floats math nn_act ts)
        ≡ weights_of floats n (sums_of floats math nn_act (seeded r v n x ts))
  weights_of-seeded r v n x [] = refl
  weights_of-seeded r v n x (t ∷ ts) =
      ap (λ ws. mat floats n t.layer.size t.weight_sum ∷ ws)
        (weights_of-seeded r v t.layer.size _ ts)

  pub biases_of-seeded :
      (r : ℕ) (v : ℕ → Float) (n : ℕ) (x : ℕ → Float) (ts : List (Traced floats math nn_act))
      → biases_of floats math (sums_of floats math nn_act ts)
        ≡ biases_of floats math (sums_of floats math nn_act (seeded r v n x ts))
  biases_of-seeded r v n x [] = refl
  biases_of-seeded r v n x (t ∷ ts) =
      ap (λ bs. row floats math t.layer.size t.bias_sum ∷ bs)
        (biases_of-seeded r v t.layer.size _ ts)

  abbrev pub zeros_of : List (Traced floats math nn_act) → List (Row floats)
  zeros_of [] = []
  zeros_of (t ∷ ts) = row floats math t.layer.size (λ j. zero_float) ∷ zeros_of ts

  pub zero_rows-zeros_of :
      (ts : List (Traced floats math nn_act))
      → zero_rows floats math nn_act (held_of floats math (sums_of floats math nn_act ts))
        ≡ some (zeros_of ts)
  unfolding zero_rows
  zero_rows-zeros_of [] = refl
  zero_rows-zeros_of (t ∷ ts) =
      ap₂ (λ o q. o >>= λ m. q >>= λ rs. some (as_row floats m ∷ rs))
        (mat_fill-mat floats 1 t.layer.size (λ i j. t.held_sum j) zero_float)
        (zero_rows-zeros_of ts)

  pub on_last-seeded :
      (f : Row floats → Option (Row floats)) (r : ℕ) (v : ℕ → Float) (n : ℕ) (x : ℕ → Float)
      (t : Traced floats math nn_act) (ts : List (Traced floats math nn_act))
      → let ls = layers_of floats math nn_act (t ∷ ts) in
        f (row floats math (last_size floats math n ls) (λ j. zero_float))
          ≡ some (
              row floats math
                (last_size floats math n ls)
                (λ j. seed r (last_held floats math x (pass floats math n x ls) j) (v j)))
        → on_last floats math nn_act f (zeros_of (t ∷ ts))
          ≡ some (held_of floats math (sums_of floats math nn_act (seeded r v n x (t ∷ ts))))
  unfolding on_last
  on_last-seeded f r v n x t [] e = ap (λ o. o >>= λ r'. some (r' ∷ [])) e
  on_last-seeded f r v n x t (t' ∷ ts) e =
      ap (λ o. o >>= λ rs. some (row floats math t.layer.size (λ j. zero_float) ∷ rs))
        (on_last-seeded f r v t.layer.size (layer_output floats math false n x t.layer) t' ts e)
