-- ===== src/Network/Backprop/Rows.antt =====
-- nn.h: rows that are functions, with one cell replaced.
use zfl.Base.{
  ℕ, ◌+◌, ◌*◌, ◌<◌, ◌≡◌, ap, ◌∙◌, some, ◌==◌, if◌then◌else◌, update_cell, set, length, cells,
  length-cells, set-cells, cells_ext, ltb_of_lt, arith,
}
use zfl.Memory.{store}
use zfl.Common.{Floats, Math}
use zfl.Network.Matrix.{row_put}
use zfl.Network.Forward.Layers.{row}

module _ (floats : Floats) (math : Math (floats.Float)) where
  open floats use {Float, zero_float, add_float}
  open math use {mul_float}

  abbrev pub replaced : (ℕ → Float) → ℕ → Float → ℕ → Float
  replaced f j x k = if k == j then x else f k

  pub row_ext :
      (n : ℕ) (f g : ℕ → Float)
      → ((k : ℕ) → k < n → f k ≡ g k)
      → row floats math n f ≡ row floats math n g
  row_ext n f g h =
      ap (λ l. record { cols = n; elements = l })
        (cells_ext 1 n (λ i j. f j) (λ i j. g j) (λ i j hi hj. h j hj))

  one_row_cell :
      (f : ℕ → Float) (j : ℕ) (x : Float) (a b : ℕ)
      → a < 1
      → update_cell (λ i k. f k) 0 j x a b ≡ replaced f j x b
  one_row_cell f j x a b h = ground arith

  pub row_put-row :
      (n j : ℕ) (f : ℕ → Float) (x : Float)
      → j < n
      → row_put floats (row floats math n f) j x ≡ some (row floats math n (replaced f j x))
  unfolding row_put store
  row_put-row n j f x h =
      rw
        (ltb_of_lt j (length (cells 1 n (λ i k. f k)))
          (omega (arith, length-cells 1 n (λ (i k : ℕ). f k))))
        (ap (λ l. some (record { cols = n; elements = l }))
          (ap (λ k. set (cells 1 n (λ i k. f k)) k x) {y = 0 * n + j} (omega arith)
            ∙ set-cells 1 n (λ i k. f k) 0 j x (omega arith) h
            ∙ cells_ext 1 n _ _ (λ a b ha hb. one_row_cell f j x a b ha)))
