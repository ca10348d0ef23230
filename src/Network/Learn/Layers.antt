-- ===== src/Network/Learn/Layers.antt =====
-- nn.h, common.h: what the functions that set weights and biases make of a network.
use zfl.Base.{
  ℕ, suc, ◌-◌, ◌≡◌, refl, sym, ap, ap₂, ◌∙◌, Option, some, List, [], ◌∷◌, ◌>>=◌, length, cells,
  get_elem?-cells, arith,
}
use zfl.Common.{Floats, Math}
use zfl.Network.Matrix.{Mat, Row, mat_put}
use zfl.Network.Matrix.Cells.{mat, mat-Reads, mat_put-mat, each_cell-mat}
use zfl.Network.Forward.Layers.{row}
use zfl.Network.Forward.Spec.{Layer, weights_of, biases_of, held_of, network}
use zfl.Network.Learn.{each_layer, put_layers, insert_cells, learn_cells}

module _ (floats : Floats) (math : Math (floats.Float)) where
  open floats use {Float}
  open math use {sub_float, mul_float}

  -- The items of a list for the layers from `i` on, and the layers with other weights and biases.
  abbrev pub items : {A : Type 0} → (ℕ → ℕ → ℕ → A) → ℕ → ℕ → List (Layer floats) → List A
  items item i n [] = []
  items item i n (l ∷ ls) = item i n l.size ∷ items item (suc i) l.size ls

  abbrev pub changed :
      (ℕ → (ℕ → ℕ → Float) → ℕ → ℕ → Float)
      → (ℕ → (ℕ → Float) → ℕ → Float)
      → ℕ
      → List (Layer floats)
      → List (Layer floats)
  changed new_w new_b i [] = []
  changed new_w new_b i (l ∷ ls) =
      record l { weights = new_w i l.weights; bias = new_b i l.bias }
      ∷ changed new_w new_b (suc i) ls

  held_of-changed :
      (new_w : ℕ → (ℕ → ℕ → Float) → ℕ → ℕ → Float) (new_b : ℕ → (ℕ → Float) → ℕ → Float) (i : ℕ)
      (ls : List (Layer floats))
      → held_of floats math (changed new_w new_b i ls) ≡ held_of floats math ls
  held_of-changed new_w new_b i [] = refl
  held_of-changed new_w new_b i (l ∷ ls) =
      ap (λ acts. row floats math l.size l.held ∷ acts) (held_of-changed new_w new_b (suc i) ls)

  module _ {A B : Type 0} (on_w : Mat floats → A → Option (Mat floats))
      (on_b : Row floats → B → Option (Row floats)) (item_w : ℕ → ℕ → ℕ → A)
      (item_b : ℕ → ℕ → ℕ → B) (new_w : ℕ → (ℕ → ℕ → Float) → ℕ → ℕ → Float)
      (new_b : ℕ → (ℕ → Float) → ℕ → Float)
      (on_w-new : (i r c : ℕ) (w : ℕ → ℕ → Float)
        → on_w (mat floats r c w) (item_w i r c) ≡ some (mat floats r c (new_w i w)))
      (on_b-new : (i n c : ℕ) (b : ℕ → Float)
        → on_b (row floats math c b) (item_b i n c) ≡ some (row floats math c (new_b i b))) where
    each_layer-changed :
        (i n : ℕ) (ls : List (Layer floats))
        → each_layer floats
            (length (held_of floats math ls))
            on_w
            on_b
            (weights_of floats n ls)
            (biases_of floats math ls)
            (items item_w i n ls)
            (items item_b i n ls)
          ≡ some (
            weights_of floats n (changed new_w new_b i ls),
            biases_of floats math (changed new_w new_b i ls),
          )
    unfolding each_layer
    each_layer-changed i n [] = refl
    each_layer-changed i n (l ∷ ls) =
        ap₂
          (λ o p. o >>= λ w'. p >>= λ b'.
            each_layer floats (length (held_of floats math ls)) on_w on_b
              (weights_of floats l.size ls) (biases_of floats math ls)
              (items item_w (suc i) l.size ls) (items item_b (suc i) l.size ls)
            >>= λ q. some (w' ∷ q.0, b' ∷ q.1))
          (on_w-new i n l.size l.weights) (on_b-new i n l.size l.bias)
        ∙ ap
            (λ o. o >>= λ q. some (
              mat floats n l.size (new_w i l.weights) ∷ q.0,
              row floats math l.size (new_b i l.bias) ∷ q.1,
            ))
            (each_layer-changed (suc i) l.size ls)

    pub network-changed :
        (n : ℕ) (x : ℕ → Float) (ls : List (Layer floats))
        → put_layers floats (network floats math n x ls) (
            each_layer floats
              (suc (length (held_of floats math ls)) - 1)
              on_w
              on_b
              (weights_of floats n ls)
              (biases_of floats math ls)
              (items item_w 0 n ls)
              (items item_b 0 n ls))
          ≡ some (network floats math n x (changed new_w new_b 0 ls))
    network-changed n x ls =
        ap
          (λ k. put_layers floats (network floats math n x ls) (
            each_layer floats k on_w on_b (weights_of floats n ls) (biases_of floats math ls)
              (items item_w 0 n ls) (items item_b 0 n ls)))
          {y = length (held_of floats math ls)} (omega arith)
        ∙ ap (put_layers floats (network floats math n x ls)) (each_layer-changed 0 n ls)
        ∙ ap
            (λ acts. some (record {
              ws = weights_of floats n (changed new_w new_b 0 ls);
              bs = biases_of floats math (changed new_w new_b 0 ls);
              as_rows = row floats math n x ∷ acts;
            }))
            (sym (held_of-changed new_w new_b 0 ls))

  pub insert_cells-mat :
      (r c : ℕ) (f g : ℕ → ℕ → Float)
      → insert_cells floats (mat floats r c f) (cells r c g) ≡ some (mat floats r c g)
  unfolding insert_cells
  insert_cells-mat r c f g = each_cell-mat floats r c f g _ (λ s i j hi hj e.
      ap (λ o. o >>= λ x. mat_put floats (mat floats r c s) i j x) (get_elem?-cells r c g i j hi hj)
      ∙ mat_put-mat floats r c s i j (g i j) hi hj)

  pub learn_cells-mat :
      (rate : Float) (r c : ℕ) (f g : ℕ → ℕ → Float)
      → learn_cells floats math rate (mat floats r c f) (mat floats r c g)
        ≡ some (mat floats r c (λ i j. sub_float (f i j) (mul_float rate (g i j))))
  unfolding learn_cells
  learn_cells-mat rate r c f g =
      each_cell-mat floats r c f (λ i j. sub_float (f i j) (mul_float rate (g i j))) _
        (λ s i j hi hj e.
          ap₂
            (λ o p. o >>= λ x.
              p >>= λ y. mat_put floats (mat floats r c s) i j (sub_float x (mul_float rate y)))
            (get_elem?-cells r c s i j hi hj ∙ ap some e) (mat-Reads floats r c g i j hi hj)
          ∙ mat_put-mat floats r c s i j (sub_float (f i j) (mul_float rate (g i j))) hi hj)
