-- ===== src/Network/Forward/Accuracy.antt =====
-- common.h: `accuracy`.
use zfl.Base.{
  ℕ, zero, suc, ◌+◌, ◌≤◌, ◌<◌, ◌≡◌, refl, ap, ap₂, ◌∙◌, Bool, true, false, Option, none, some, List,
  ◌>>=◌, ◌==◌, if◌then◌else◌, for_loop, for_loop-states, arith,
}
use zfl.Common.{Floats, Math}
use zfl.Network.Matrix.{Mat, Row, row_at}
use zfl.Network.Forward.{Nn, over_rows}
use zfl.Network.Forward.Layers.{row}
use zfl.Network.Forward.Spec.{Layer, network}
use zfl.Network.Forward.Repeat.{last_size, predict}
use zfl.Network.Forward.Rows.{sheet, Labelled}
use zfl.Network.Forward.Cost.{after, scored, over_rows-scored}
use zfl.Network.Forward.Scores.{row_at-row}

module _ (floats : Floats) (math : Math (floats.Float)) where
  open floats use {Float, zero_float, add_float}
  open math use {one_float, quot_float, of_size, greater, equal}

  -- The largest output and its column.
  unfoldable pub max_output : Row floats → ℕ → Option (Float × ℕ)
  max_output out q =
      for_loop q (λ j s. row_at floats out j >>= λ o. some (if greater o s.0 then (o, j) else s))
        (zero_float, 0)

  -- The loop that ends at the first label 1, with `q` labels left at `j`: the new count.
  unfoldable pub count_hit : ℕ → ℕ → Row floats → ℕ → Float → Option Float
  count_hit zero j y max_idx c = some c
  count_hit (suc q) j y max_idx c = row_at floats y j >>= λ v.
      if equal v one_float
      then some (if j == max_idx then add_float c one_float else c)
      else count_hit q (suc j) y max_idx c

  unfoldable pub add_hit : Row floats → Row floats → Float → Option Float
  add_hit out y c = do (max, max_idx) ← max_output out y.cols; count_hit y.cols 0 y max_idx c

  -- The network after the call, and the result.
  unfoldable pub accuracy : Nn floats → Mat floats → Option (Nn floats × Float)
  accuracy nn t = do
    (nn', c) ← over_rows floats math nn t add_hit
    some (nn', quot_float c (of_size t.rows))

  -- The first column of the largest output above 0, or column 0.
  abbrev pub best : ℕ → (ℕ → Float) → Float × ℕ
  best zero o = (zero_float, 0)
  best (suc m) o = if greater (o m) (best m o).0 then (o m, m) else best m o

  -- The first of the labels j, j + 1, ..., j + q - 1 that is 1.
  abbrev pub first_one : ℕ → ℕ → (ℕ → Float) → Option ℕ
  first_one zero j f = none
  first_one (suc q) j f = if equal (f j) one_float then some j else first_one q (suc j) f

  abbrev pub hit : Option ℕ → ℕ → Float → Float
  hit none max_idx c = c
  hit (some j) max_idx c = if j == max_idx then add_float c one_float else c

  abbrev pub count_row : ℕ → (ℕ → Float) → (ℕ → Float) → Float → Float
  count_row m o f c = hit (first_one m 0 f) (best m o).1 c

  max_output-best : (m : ℕ) (o : ℕ → Float) → max_output (row floats math m o) m ≡ some (best m o)
  unfolding max_output
  max_output-best m o =
      for_loop-states m _ (λ k. best k o)
        (λ k h.
          ap (λ p. p >>= λ u. some (if greater u (best k o).0 then (u, k) else best k o))
            (row_at-row floats math m k o h))

  hit-if :
      (b : Bool) (j max_idx : ℕ) (rest : Option ℕ) (c : Float)
      → (if b
          then some (if j == max_idx then add_float c one_float else c)
          else some (hit rest max_idx c))
        ≡ some (hit (if b then some j else rest) max_idx c)
  hit-if true j max_idx rest c = refl
  hit-if false j max_idx rest c = refl

  count_hit-hit :
      (q j m : ℕ) (f : ℕ → Float) (y : Row floats) (max_idx : ℕ) (c : Float)
      → ((k : ℕ) → k < m → row_at floats y k ≡ some (f k))
      → j + q ≤ m
      → count_hit q j y max_idx c ≡ some (hit (first_one q j f) max_idx c)
  unfolding count_hit
  count_hit-hit zero j m f y max_idx c reads h = refl
  count_hit-hit (suc q) j m f y max_idx c reads h =
      ap₂
        (λ o p. o >>= λ v.
          if equal v one_float then some (if j == max_idx then add_float c one_float else c) else p)
        (reads j (omega arith)) (count_hit-hit q (suc j) m f y max_idx c reads (omega arith))
      ∙ hit-if (equal (f j) one_float) j max_idx (first_one q (suc j) f) c

  add_hit-row :
      (m : ℕ) (o f : ℕ → Float) (labels : Row floats) (c : Float)
      → labels.cols ≡ m
      → ((j : ℕ) → j < m → row_at floats labels j ≡ some (f j))
      → add_hit (row floats math m o) labels c ≡ some (count_row m o f c)
  unfolding add_hit
  add_hit-row m o f labels c e reads =
      ap (λ q. max_output (row floats math m o) q >>= λ p. count_hit q 0 labels p.1 c) e
      ∙ ap (λ p. p >>= λ b. count_hit m 0 labels b.1 c) (max_output-best m o)
      ∙ count_hit-hit m 0 m f labels (best m o).1 c reads (omega arith)

  abbrev pub all_hits : ℕ → ℕ → (ℕ → ℕ → Float) → (ℕ → ℕ → Float) → List (Layer floats) → ℕ → Float
  all_hits n m x y ls zero = zero_float
  all_hits n m x y ls (suc k) =
      count_row m (predict floats math n (x k) ls) (y k) (all_hits n m x y ls k)

  scored-hits :
      (n m : ℕ) (x y : ℕ → ℕ → Float) (ls : List (Layer floats)) (r : ℕ)
      → scored floats math n x y (count_row m) ls r ≡ all_hits n m x y ls r
  scored-hits n m x y ls zero = refl
  scored-hits n m x y ls (suc r) =
      ap (count_row m (predict floats math n (x r) ls) (y r)) (scored-hits n m x y ls r)

  -- On a network of matrices and rows that fit each other, with a non-empty output as wide as the
  -- labels, and a set whose block of memory holds the inputs and labels row by row, `accuracy` returns
  -- how many rows have their first label 1 in the column of the largest output above 0 (the first such
  -- column, or column 0), divided by the number of rows. Weights and biases stay.
  pub accuracy-hits :
      (r n m : ℕ) (x y : ℕ → ℕ → Float) (block : List Float) (z : ℕ → Float)
      (ls : List (Layer floats))
      → Labelled floats math r n m x y block
      → 0 < m
      → last_size floats math n ls ≡ m
      → accuracy (network floats math n z ls) (sheet floats math r n m block)
        ≡ some (after floats math n x z ls r, quot_float (all_hits n m x y ls r) (of_size r))
  unfolding accuracy
  accuracy-hits r n m x y block z ls reads pos size =
      ap (λ o. o >>= λ p. some (p.0, quot_float p.1 (of_size r)))
        (over_rows-scored floats math r n m pos x y block reads add_hit (count_row m)
          (add_hit-row m) z ls size)
      ∙ ap (λ c. some (after floats math n x z ls r, quot_float c (of_size r)))
          (scored-hits n m x y ls r)
