-- ===== src/Network/Forward/Scores.antt =====
-- nn.h: what `nn_cost` and `nn_cross_entropy` return.
use zfl.Base.{
  ℕ, zero, suc, ◌+◌, ◌*◌, ◌<◌, ◌≡◌, refl, ap, ap₂, ◌∙◌, Option, some, List, ◌>>=◌, get_elem?,
  for_loop, for_loop-states, get_elem?-cells, arith,
}
use zfl.Common.{Floats, Math}
use zfl.Network.Matrix.{Row, row_at}
use zfl.Network.Forward.{add_squares, add_logs, nn_cost, nn_cross_entropy}
use zfl.Network.Forward.Layers.{row}
use zfl.Network.Forward.Spec.{Layer, network}
use zfl.Network.Forward.Repeat.{last_size, predict}
use zfl.Network.Forward.Rows.{sheet, Labelled}
use zfl.Network.Forward.Cost.{after, scored, over_rows-scored}

module _ (floats : Floats) (math : Math (floats.Float)) where
  open floats use {Float, zero_float, add_float}
  open math use {one_float, negate, sub_float, mul_float, quot_float, of_size, logf}

  -- c plus the squares of the differences, and c plus the logarithms, from the left.
  abbrev pub squares : ℕ → (ℕ → Float) → (ℕ → Float) → Float → Float
  squares zero o f c = c
  squares (suc m) o f c =
      add_float (squares m o f c) (mul_float (sub_float (o m) (f m)) (sub_float (o m) (f m)))

  abbrev pub logs : ℕ → (ℕ → Float) → Float → Float
  logs zero o c = c
  logs (suc m) o c = add_float (logs m o c) (logf (o m))

  pub row_at-row :
      (m j : ℕ) (o : ℕ → Float) → j < m → row_at floats (row floats math m o) j ≡ some (o j)
  row_at-row m j o h =
      ap (get_elem? (row floats math m o).elements) {y = 0 * m + j} (omega arith)
      ∙ get_elem?-cells 1 m (λ i k. o k) 0 j (omega arith) h

  add_squares-row :
      (m : ℕ) (o f : ℕ → Float) (labels : Row floats) (c : Float)
      → labels.cols ≡ m
      → ((j : ℕ) → j < m → row_at floats labels j ≡ some (f j))
      → add_squares floats math (row floats math m o) labels c ≡ some (squares m o f c)
  unfolding add_squares
  add_squares-row m o f labels c e reads =
      ap (λ k. for_loop k body c) e
      ∙ for_loop-states m body (λ k. squares k o f c)
          (λ k h.
            ap₂
              (λ p q. p >>= λ u. q >>= λ v.
                some (add_float (squares k o f c) (mul_float (sub_float u v) (sub_float u v))))
              (row_at-row m k o h) (reads k h))
    where
      body : ℕ → Float → Option Float
      body j c' = row_at floats (row floats math m o) j >>= λ u. row_at floats labels j >>= λ v.
          some (add_float c' (mul_float (sub_float u v) (sub_float u v)))

  add_logs-row :
      (m : ℕ) (o f : ℕ → Float) (labels : Row floats) (c : Float)
      → labels.cols ≡ m
      → ((j : ℕ) → j < m → row_at floats labels j ≡ some (f j))
      → add_logs floats math (row floats math m o) labels c ≡ some (logs m o c)
  unfolding add_logs
  add_logs-row m o f labels c e reads =
      ap (λ k. for_loop k body c) e
      ∙ for_loop-states m body (λ k. logs k o c)
          (λ k h. ap (λ p. p >>= λ u. some (add_float (logs k o c) (logf u))) (row_at-row m k o h))
    where
      body : ℕ → Float → Option Float
      body j c' = row_at floats (row floats math m o) j >>= λ u. some (add_float c' (logf u))

  -- The sums over the rows: no label in the second.
  abbrev pub all_squares :
      ℕ → ℕ → (ℕ → ℕ → Float) → (ℕ → ℕ → Float) → List (Layer floats) → ℕ → Float
  all_squares n m x y ls zero = zero_float
  all_squares n m x y ls (suc k) =
      squares m (predict floats math n (x k) ls) (y k) (all_squares n m x y ls k)

  abbrev pub all_logs : ℕ → ℕ → (ℕ → ℕ → Float) → List (Layer floats) → ℕ → Float
  all_logs n m x ls zero = zero_float
  all_logs n m x ls (suc k) = logs m (predict floats math n (x k) ls) (all_logs n m x ls k)

  scored-squares :
      (n m : ℕ) (x y : ℕ → ℕ → Float) (ls : List (Layer floats)) (r : ℕ)
      → scored floats math n x y (squares m) ls r ≡ all_squares n m x y ls r
  scored-squares n m x y ls zero = refl
  scored-squares n m x y ls (suc r) =
      ap (squares m (predict floats math n (x r) ls) (y r)) (scored-squares n m x y ls r)

  scored-logs :
      (n m : ℕ) (x y : ℕ → ℕ → Float) (ls : List (Layer floats)) (r : ℕ)
      → scored floats math n x y (λ o f. logs m o) ls r ≡ all_logs n m x ls r
  scored-logs n m x y ls zero = refl
  scored-logs n m x y ls (suc r) =
      ap (logs m (predict floats math n (x r) ls)) (scored-logs n m x y ls r)

  -- On a network of matrices and rows that fit each other, with a non-empty output as wide as the
  -- labels, and a set whose block of memory holds the inputs and labels row by row, `nn_cost` returns
  -- the squared differences of outputs and labels, summed over the columns of every row, divided by the
  -- number of rows. Weights and biases stay.
  pub nn_cost-squares :
      (r n m : ℕ) (x y : ℕ → ℕ → Float) (block : List Float) (z : ℕ → Float)
      (ls : List (Layer floats))
      → Labelled floats math r n m x y block
      → 0 < m
      → last_size floats math n ls ≡ m
      → nn_cost floats math (network floats math n z ls) (sheet floats math r n m block)
        ≡ some (after floats math n x z ls r, quot_float (all_squares n m x y ls r) (of_size r))
  unfolding nn_cost
  nn_cost-squares r n m x y block z ls reads pos size =
      ap (λ o. o >>= λ p. some (p.0, quot_float p.1 (of_size r)))
        (over_rows-scored floats math r n m pos x y block reads (add_squares floats math)
          (squares m) (add_squares-row m) z ls size)
      ∙ ap (λ c. some (after floats math n x z ls r, quot_float c (of_size r)))
          (scored-squares n m x y ls r)

  -- On the same networks and test sets, `nn_cross_entropy` returns minus the sum of the logarithms of
  -- all outputs over all rows, divided by the number of rows: the labels `y` do not occur in it.
  pub nn_cross_entropy-logs :
      (r n m : ℕ) (x y : ℕ → ℕ → Float) (block : List Float) (z : ℕ → Float)
      (ls : List (Layer floats))
      → Labelled floats math r n m x y block
      → 0 < m
      → last_size floats math n ls ≡ m
      → nn_cross_entropy floats math (network floats math n z ls) (sheet floats math r n m block)
        ≡ some (
          after floats math n x z ls r,
          quot_float (mul_float (negate one_float) (all_logs n m x ls r)) (of_size r),
        )
  unfolding nn_cross_entropy
  nn_cross_entropy-logs r n m x y block z ls reads pos size =
      ap (λ o. o >>= λ p. some (p.0, quot_float (mul_float (negate one_float) p.1) (of_size r)))
        (over_rows-scored floats math r n m pos x y block reads (add_logs floats math)
          (λ o f. logs m o) (add_logs-row m) z ls size)
      ∙ ap
          (λ c.
            some (
              after floats math n x z ls r,
              quot_float (mul_float (negate one_float) c) (of_size r),
            ))
          (scored-logs n m x y ls r)
