-- ===== src/Network/Forward/Rows.antt =====
-- nn.h: one row of a training or test set, through the network.
use zfl.Base.{
  ℕ, zero, suc, ◌+◌, ◌-◌, ◌*◌, ◌≤◌, ◌<◌, ◌≡◌, refl, ap, ap₂, ◌∙◌, ◌&&◌, Option, none, some, List,
  ◌∷◌, ◌>>=◌, get_elem?, drop, ltb, leb, if◌then◌else◌, get_elem?-drop, arith,
}
use zfl.Common.{Floats, Math}
use zfl.Network.Matrix.{Mat, Row, as_row, row_as_mat, row_at, mat_row, row_slice}
use zfl.Network.Matrix.Cells.{mat, Reads, mat_copy-mat}
use zfl.Network.Forward.{nn_input, last_row, Nn, nn_output, put_input, nn_forward}
use zfl.Network.Forward.Layers.{row}
use zfl.Network.Forward.Spec.{Layer, network, held_of, pass, nn_forward-pass}
use zfl.Network.Forward.Repeat.{last_size, last_size-pass, last_row-held_of, predict}

module _ (floats : Floats) (math : Math (floats.Float)) where
  open floats use {Float, zero_float, add_float}
  open math use {one_float, negate, sub_float, mul_float, quot_float, of_size, logf}

  abbrev pub joined : ℕ → (ℕ → ℕ → Float) → (ℕ → ℕ → Float) → ℕ → ℕ → Float
  joined n x y i j = if ltb j n then x i j else y i (j - n)

  -- Rows of `n` inputs with `m` labels behind them.
  abbrev pub labelled : ℕ → ℕ → ℕ → (ℕ → ℕ → Float) → (ℕ → ℕ → Float) → Mat floats
  labelled r n m x y = mat floats r (n + m) (joined n x y)

  -- Such rows in a block of memory, which may go on behind them: the whole set, or a slice of it.
  abbrev pub sheet : ℕ → ℕ → ℕ → List Float → Mat floats
  sheet r n m block = record { rows = r; cols = n + m; elements = block }

  abbrev pub Labelled : ℕ → ℕ → ℕ → (ℕ → ℕ → Float) → (ℕ → ℕ → Float) → List Float → Type 0
  Labelled r n m x y block = Reads floats (sheet r n m block) (joined n x y)

  at_input : (n j : ℕ) (p q : Float) → j < n → (if ltb j n then p else q) ≡ p
  at_input n j p q h = ground arith

  at_label :
      (n j : ℕ) (p : Float) (q : ℕ → Float) → (if ltb (n + j) n then p else q (n + j - n)) ≡ q j
  at_label n j p q = behind n j p (q (n + j - n)) ∙ ap q (omega arith)
    where
      behind : (n j : ℕ) (p u : Float) → (if ltb (n + j) n then p else u) ≡ u
      behind n j p u = ground arith

  first_row : (a n j : ℕ) → a < 1 → a * n + j ≡ j
  first_row zero n j h = omega arith
  first_row (suc a) n j h = absurd (omega arith)

  abbrev pub part_of : Mat floats → ℕ → ℕ → ℕ → Row floats
  part_of t i a k = record { cols = k; elements = drop a (drop (i * t.cols) t.elements) }

  row_slice-part_of :
      (t : Mat floats) (i a k : ℕ)
      → a < t.cols
      → a + k ≤ t.cols
      → row_slice floats (mat_row floats t i) a k ≡ some (part_of t i a k)
  unfolding row_slice
  row_slice-part_of t i a k h le = taken a k t.cols h le
    where
      taken :
          {P : Option (Row floats)} (a k w : ℕ)
          → a < w
          → a + k ≤ w
          → (if ltb a w && leb (a + k) w then P else none) ≡ P
      taken a k w h le = ground arith

  get_elem?-part_of :
      (t : Mat floats) (i a k j : ℕ) (f : ℕ → ℕ → Float)
      → Reads floats t f
      → i < t.rows
      → a + j < t.cols
      → get_elem? (part_of t i a k).elements j ≡ some (f i (a + j))
  get_elem?-part_of t i a k j f reads hi hj =
      get_elem?-drop a j _ ∙ get_elem?-drop (i * t.cols) (a + j) _ ∙ reads i (a + j) hi hj

  module _ (r n m : ℕ) (positive : 0 < m) (x y : ℕ → ℕ → Float) (block : List Float)
      (reads : Labelled r n m x y block) where
    abbrev t : Mat floats
    t = sheet r n m block

    state_input :
        (z : ℕ → Float) (ls : List (Layer floats)) (i : ℕ)
        → i < r
        → put_input floats (network floats math n z ls) (part_of t i 0 n)
          ≡ some (network floats math n (x i) ls)
    state_input z ls i hi =
        ap
          (λ o. o >>= λ m'. some (record (network floats math n z ls) {
            as_rows = as_row floats m' ∷ held_of floats math ls;
          }))
          (mat_copy-mat floats 1 n (λ a j. z j) (λ a j. x i j) (row_as_mat floats (part_of t i 0 n))
            refl refl input_reads)
      where
        input_reads : Reads floats (row_as_mat floats (part_of t i 0 n)) (λ a j. x i j)
        input_reads a j ha hj =
            ap (get_elem? (part_of t i 0 n).elements) (first_row a n j ha)
            ∙ get_elem?-part_of t i 0 n j (joined n x y) reads hi (omega arith)
            ∙ ap (λ k. some (joined n x y i k)) (omega arith)
            ∙ ap some (at_input n j (x i j) (y i (j - n)) hj)

    -- The labels of row `i`.
    abbrev pub labels_of : ℕ → Row floats
    labels_of i = part_of t i n m

    pub labels_of-reads : (i j : ℕ) → i < r → j < m → row_at floats (labels_of i) j ≡ some (y i j)
    labels_of-reads i j hi hj =
        get_elem?-part_of t i n m j (joined n x y) reads hi (omega arith)
        ∙ ap some (at_label n j (x i (n + j)) (y i))

    -- The row is split, its input is put into the network, and goes through it.
    pub row_passed :
        {S : Type 0} (z : ℕ → Float) (ls : List (Layer floats)) (i : ℕ)
        (rest : Row floats → Nn floats → Option S)
        → i < r
        → last_size floats math n ls ≡ m
        → (nn_input floats (network floats math n z ls) >>= λ input.
            nn_output floats (network floats math n z ls) >>= λ output.
            row_slice floats (mat_row floats t i) 0 input.cols >>= λ xr.
            row_slice floats (mat_row floats t i) input.cols output.cols >>= λ yr.
            put_input floats (network floats math n z ls) xr >>= λ nn1.
            nn_forward floats math nn1 >>= λ nn2. rest yr nn2)
          ≡ rest (labels_of i) (network floats math n (x i) (pass floats math n (x i) ls))
    row_passed z ls i rest hi size =
        ap
          (λ q. row_slice floats (mat_row floats t i) 0 n >>= λ xr.
            row_slice floats (mat_row floats t i) n q >>= λ yr.
            put_input floats net xr >>= λ nn1. nn_forward floats math nn1 >>= rest yr)
          (ap (λ a. a.cols) (last_row-held_of floats math n z ls) ∙ size)
        ∙ ap₂
            (λ o p. o >>= λ xr.
              p >>= λ yr. put_input floats net xr >>= λ nn1. nn_forward floats math nn1 >>= rest yr)
            (row_slice-part_of t i 0 n (omega arith) (omega arith))
            (row_slice-part_of t i n m (omega arith) (omega arith))
        ∙ ap (λ o. o >>= λ nn1. nn_forward floats math nn1 >>= rest (labels_of i))
            (state_input z ls i hi)
        ∙ ap (λ o. o >>= rest (labels_of i)) (nn_forward-pass floats math n (x i) ls)
      where
        net : Nn floats
        net = network floats math n z ls

    -- The last row of activations behind a pass.
    pub last_row-pass :
        (v : ℕ → Float) (ls : List (Layer floats))
        → last_size floats math n ls ≡ m
        → last_row floats (row floats math n v) (held_of floats math (pass floats math n v ls))
          ≡ row floats math m (predict floats math n v ls)
    last_row-pass v ls size =
        last_row-held_of floats math n v (pass floats math n v ls)
        ∙ ap (λ k. row floats math k (predict floats math n v ls))
            (last_size-pass floats math n n v ls ∙ size)
