-- ===== src/Common/Print.antt =====
-- common.h: `weights_to_string`, on the matrices and rows of the network (nn.h). "%f" of vsnprintf is
-- a parameter, whose text is shorter than the 1023 bytes at which sb_appendf cuts, and which does not
-- fail. Each append of the source is one piece of the text.
use zfl.Base.{
  ℕ, zero, suc, ◌+◌, ◌≡◌, refl, sym, ap, ap₂, Option, none, some, List, [], ◌∷◌, ◌++◌, ◌>>=◌, Bytes,
  codes, get_elem?, map,
}
use zfl.StringBuilder.{StringBuilder, append_all}
use zfl.Common.{Floats}
use zfl.Network.Matrix.{Mat, Row}

nil-ne-cons : {n : ℕ} {l : List ℕ} → ¬ (◌≡◌ {A = List ℕ} [] (n ∷ l))
nil-ne-cons e = cc

cons_heads : {m n : ℕ} {k l : List ℕ} → (m ∷ k) ≡ (n ∷ l) → m ≡ n
cons_heads e = cc

cons_tails : {m n : ℕ} {k l : List ℕ} → (m ∷ k) ≡ (n ∷ l) → k ≡ l
cons_tails e = cc

module _ (floats : Floats) where
  open floats use {Float}

  module _ (print : Float → Bytes) where
    -- `cols` numbers from `k` on, with commas between.
    unfoldable pub number_pieces : ℕ → ℕ → List Float → Option (List Bytes)
    number_pieces zero k xs = some []
    number_pieces (suc zero) k xs = do x ← get_elem? xs k; some (print x ∷ [])
    number_pieces (suc (suc n)) k xs = do
      x ← get_elem? xs k
      pieces ← number_pieces (suc n) (k + 1) xs
      some ((print x ++ codes ",") ∷ pieces)

    -- `rows` rows from the cell `start` on.
    unfoldable pub row_pieces : ℕ → ℕ → ℕ → List Float → Option (List Bytes)
    row_pieces zero cols start xs = some []
    row_pieces (suc zero) cols start xs = do
      row ← number_pieces cols start xs
      some (codes "[" ∷ (row ++ (codes "]" ∷ [])))
    row_pieces (suc (suc n)) cols start xs = do
      row ← number_pieces cols start xs
      rows ← row_pieces (suc n) cols (start + cols) xs
      some (codes "[" ∷ (row ++ (codes "]," ∷ rows)))

    -- The layers, with what stands behind the last one. The biases are counted by `b.cols`, and read
    -- from `w.elements`.
    unfoldable pub layer_pieces : List (Mat floats) → List (Row floats) → Option (List Bytes)
    layer_pieces [] bs = some []
    layer_pieces (w ∷ ws) [] = none
    layer_pieces (w ∷ []) (b ∷ bs) = do
      rows ← row_pieces w.rows w.cols 0 w.elements
      biases ← number_pieces b.cols 0 w.elements
      some (codes "[" ∷ (rows ++ (codes "]," ∷ codes "[" ∷ (biases ++ (codes "]" ∷ [])))))
    layer_pieces (w ∷ w' ∷ ws) (b ∷ bs) = do
      rows ← row_pieces w.rows w.cols 0 w.elements
      biases ← number_pieces b.cols 0 w.elements
      layers ← layer_pieces (w' ∷ ws) bs
      some (codes "[" ∷ (rows ++ (codes "]," ∷ codes "[" ∷ (biases ++ (codes "]," ∷ layers)))))

    unfoldable pub weights_to_string :
        (ℕ → Bytes) → StringBuilder → List (Mat floats) → List (Row floats) → Option StringBuilder
    weights_to_string fresh sb ws bs = do
      layers ← layer_pieces ws bs
      append_all fresh sb (codes "[" ∷ (layers ++ (codes "]" ∷ [])))

    layer_pieces-cols :
        (ws : List (Mat floats)) (bs bs' : List (Row floats))
        → map (λ b. b.cols) bs ≡ map (λ b. b.cols) bs'
        → layer_pieces ws bs ≡ layer_pieces ws bs'
    unfolding layer_pieces
    layer_pieces-cols [] bs bs' e = refl
    layer_pieces-cols (w ∷ ws) [] [] e = refl
    layer_pieces-cols (w ∷ ws) [] (b' ∷ bs') e = absurd (nil-ne-cons e)
    layer_pieces-cols (w ∷ ws) (b ∷ bs) [] e = absurd (nil-ne-cons (sym e))
    layer_pieces-cols (w ∷ []) (b ∷ bs) (b' ∷ bs') e =
        ap
          (λ n. row_pieces w.rows w.cols 0 w.elements >>= λ rows.
            number_pieces n 0 w.elements >>= λ biases.
            some (codes "[" ∷ (rows ++ (codes "]," ∷ codes "[" ∷ (biases ++ (codes "]" ∷ []))))))
          (cons_heads e)
    layer_pieces-cols (w ∷ w' ∷ ws) (b ∷ bs) (b' ∷ bs') e =
        ap₂
          (λ n m. row_pieces w.rows w.cols 0 w.elements >>= λ rows.
            number_pieces n 0 w.elements >>= λ biases. m >>= λ layers.
            some
              (codes "[" ∷ (rows ++ (codes "]," ∷ codes "[" ∷ (biases ++ (codes "]," ∷ layers))))))
          (cons_heads e) (layer_pieces-cols (w' ∷ ws) bs bs' (cons_tails e))

    -- The text does not depend on the biases: of two networks with the same weights and equally long
    -- rows of biases it is the same, whatever these hold.
    pub weights_to_string-cols :
        (fresh : ℕ → Bytes) (sb : StringBuilder) (ws : List (Mat floats))
        (bs bs' : List (Row floats))
        → map (λ b. b.cols) bs ≡ map (λ b. b.cols) bs'
        → weights_to_string fresh sb ws bs ≡ weights_to_string fresh sb ws bs'
    unfolding weights_to_string
    weights_to_string-cols fresh sb ws bs bs' e =
        ap (λ o. o >>= λ layers. append_all fresh sb (codes "[" ∷ (layers ++ (codes "]" ∷ []))))
          (layer_pieces-cols ws bs bs' e)
