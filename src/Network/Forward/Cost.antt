-- ===== src/Network/Forward/Cost.antt =====
-- nn.h: `nn_cost` and `nn_cross_entropy` on a test set of inputs and labels.
use zfl.Base.{
  ℕ, zero, suc, ◌+◌, ◌<◌, ◌≡◌, refl, ap, ap₂, ◌∙◌, Option, none, some, List, ◌>>=◌, ==_iff,
  if◌then◌else◌, for_loop, for_loop-states,
}
use zfl.Common.{Floats, Math}
use zfl.Network.Matrix.{Row, row_at}
use zfl.Network.Forward.{Nn, nn_output, over_row, over_rows}
use zfl.Network.Forward.Layers.{row}
use zfl.Network.Forward.Spec.{Layer, network, pass}
use zfl.Network.Forward.Repeat.{
  pass-pass, last_size, last_size-pass, last_row-held_of, predict, predict-pass,
}
use zfl.Network.Forward.Rows.{
  sheet, Labelled, labels_of, labels_of-reads, row_passed, last_row-pass,
}

module _ (floats : Floats) (math : Math (floats.Float)) where
  open floats use {Float, zero_float, add_float}
  open math use {one_float, negate, sub_float, mul_float, quot_float, of_size, logf}

  -- The network behind `k` rows, and the sum.
  abbrev pub after : ℕ → (ℕ → ℕ → Float) → (ℕ → Float) → List (Layer floats) → ℕ → Nn floats
  after n x z ls zero = network floats math n z ls
  after n x z ls (suc k) = network floats math n (x k) (pass floats math n (x k) ls)

  abbrev pub scored :
      ℕ
      → (ℕ → ℕ → Float)
      → (ℕ → ℕ → Float)
      → ((ℕ → Float) → (ℕ → Float) → Float → Float)
      → List (Layer floats)
      → ℕ
      → Float
  scored n x y score ls zero = zero_float
  scored n x y score ls (suc k) =
      score (predict floats math n (x k) ls) (y k) (scored n x y score ls k)

  module _ (r n m : ℕ) (positive : 0 < m) (x y : ℕ → ℕ → Float) (block : List Float)
      (reads : Labelled floats math r n m x y block)
      (add : Row floats → Row floats → Float → Option Float)
      (score : (ℕ → Float) → (ℕ → Float) → Float → Float)
      (add-score : (o f : ℕ → Float) (labels : Row floats) (c : Float)
        → labels.cols ≡ m
        → ((j : ℕ) → j < m → row_at floats labels j ≡ some (f j))
        → add (row floats math m o) labels c ≡ some (score o f c)) where
    one_row :
        (z : ℕ → Float) (ls : List (Layer floats)) (i : ℕ) (c : Float)
        → i < r
        → last_size floats math n ls ≡ m
        → over_row floats math (sheet floats math r n m block) add i (network floats math n z ls, c)
          ≡ some (
            network floats math n (x i) (pass floats math n (x i) ls),
            score (predict floats math n (x i) ls) (y i) c,
          )
    one_row z ls i c hi size =
        row_passed floats math r n m positive x y block reads z ls i score_output hi size
        ∙ ap (λ out. add out labels c >>= λ c'. some (behind, c'))
            (last_row-pass floats math r n m positive x y block reads (x i) ls size)
        ∙ ap (λ o. o >>= λ c'. some (behind, c'))
            (add-score (predict floats math n (x i) ls) (y i) labels c refl
              (λ j hj. labels_of-reads floats math r n m positive x y block reads i j hi hj))
      where
        behind : Nn floats
        behind = network floats math n (x i) (pass floats math n (x i) ls)

        labels : Row floats
        labels = labels_of floats math r n m positive x y block reads i

        score_output : Row floats → Nn floats → Option (Nn floats × Float)
        score_output yr nn2 = nn_output floats nn2 >>= λ out. add out yr c >>= λ c'. some (nn2, c')

    one_more :
        (z : ℕ → Float) (ls : List (Layer floats)) (i : ℕ)
        → i < r
        → last_size floats math n ls ≡ m
        → over_row floats math
            (sheet floats math r n m block)
            add
            i
            (after n x z ls i, scored n x y score ls i)
          ≡ some (after n x z ls (suc i), scored n x y score ls (suc i))
    one_more z ls zero hi size = one_row z ls 0 zero_float hi size
    one_more z ls (suc i) hi size =
        one_row (x i) (pass floats math n (x i) ls) (suc i) (scored n x y score ls (suc i)) hi
          (last_size-pass floats math n n (x i) ls ∙ size)
        ∙ ap₂
            (λ l o. some (
              network floats math n (x (suc i)) l,
              score o (y (suc i)) (scored n x y score ls (suc i)),
            ))
            (pass-pass floats math n (x i) (x (suc i)) ls)
            (predict-pass floats math n (x i) (x (suc i)) ls)

    pub over_rows-scored :
        (z : ℕ → Float) (ls : List (Layer floats))
        → last_size floats math n ls ≡ m
        → over_rows floats math (network floats math n z ls) (sheet floats math r n m block) add
          ≡ some (after n x z ls r, scored n x y score ls r)
    over_rows-scored z ls size =
        ap
          (λ b.
            if b
            then for_loop r (over_row floats math (sheet floats math r n m block) add)
                (after n x z ls 0, zero_float)
            else none)
          ((==_iff _ (n + m)).1
            (ap (λ k. n + k) (ap (λ a. a.cols) (last_row-held_of floats math n z ls) ∙ size)))
        ∙ for_loop-states r (over_row floats math (sheet floats math r n m block) add)
            (λ k. (after n x z ls k, scored n x y score ls k)) (λ k h. one_more z ls k h size)
