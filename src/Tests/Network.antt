-- ===== src/Tests/Network.antt =====
-- nn.h and common.h on concrete inputs.
use zfl.Base.{
  cells, ℕ, ◌+◌, ◌-◌, ◌*◌, ◌/◌, ltb, ◌==◌, if◌then◌else◌, ◌≤◌, ◌≡◌, refl, some, length, List, [],
  ◌∷◌, Bytes, arith,
}
use zfl.Common.{Floats, Math}
use zfl.Network.Matrix.Cells.{mat-Reads}
use zfl.Network.Matrix.{Mat, Row, act_relu}
use zfl.Network.Backprop.{nn_backprop}
use zfl.Network.Backprop.Gradients.{states_at, nn_backprop-gradients}
use zfl.Network.Forward.{nn_forward, nn_cost, nn_cross_entropy}
use zfl.Network.Forward.Spec.{Layer, network, pass, nn_forward-pass}
use zfl.Network.Forward.Rows.{joined, labelled, Labelled}
use zfl.Network.Forward.Cost.{after}
use zfl.Network.Forward.Scores.{all_squares, all_logs, nn_cost-squares, nn_cross_entropy-logs}
use zfl.Network.Forward.Accuracy.{accuracy, all_hits, accuracy-hits}
use zfl.Network.Learn.{init_nn}
use zfl.Network.Learn.Results.{initial_weights, initial_bias, inserted, blank, init_nn-inserted}
use zfl.Tests.{zeros}
use zfl.StringBuilder.{StringBuilder, sb_init}
use zfl.Network.{Region, alloc_all}
use zfl.Network.Laws.{Laid, alloc_all-Laid}

abbrev empty : StringBuilder
empty = sb_init zeros 4

abbrev region : Region
region = record { capacity = 4; size = 1 }

alloc_all-Laid_example :
    (starts : List ℕ) × (r' : Region) × (alloc_all 8 region (8 ∷ 3 ∷ []) ≡ some (starts, r'))
    × Laid 8 1 r'.size (8 ∷ 3 ∷ []) starts
    × (r'.size ≤ 4)
    × (r'.capacity ≡ 4)
alloc_all-Laid_example = alloc_all-Laid 8 region (8 ∷ 3 ∷ []) (omega arith) (omega arith)

abbrev pub digits : Floats
digits = record {
  Float = ℕ;
  zero_float = 0;
  add_float = λ a b. a + b;
  div_float = λ a n. a;
  strtof = λ text. length text;
}

abbrev print : ℕ → Bytes
print n = (b'0' + n) ∷ []

abbrev weights : List (Mat digits)
weights = record { rows = 2; cols = 1; elements = 1 ∷ 2 ∷ [] } ∷ []

abbrev biases : ℕ → List (Row digits)
biases b = record { cols = 1; elements = b ∷ [] } ∷ []

-- Numbers in the place of floats: `exp` and the like add one, `-x` is 0.
abbrev pub numbers : Math ℕ
numbers = record {
  one_float = 1;
  relu_param = 0;
  of_size = λ n. n;
  negate = λ x. 0;
  sub_float = λ x y. x - y;
  mul_float = λ x y. x * y;
  quot_float = λ x y. x / y;
  greater = λ x y. ltb y x;
  equal = λ x y. x == y;
  expf = λ x. x + 1;
  exp = λ x. x + 1;
  logf = λ x. x + 1;
  sinf = λ x. x + 1;
  cosf = λ x. x + 1;
  asinf = λ x. x + 1;
}

-- A layer of two rows behind a layer of three, on two inputs.
abbrev pub layers : List (Layer digits)
layers =
    record { size = 3; weights = λ i j. i + j; bias = λ j. j; held = λ j. 7 }
    ∷ record { size = 2; weights = λ i j. i * j; bias = λ j. 1; held = λ j. 9 }
    ∷ []

abbrev pub input : ℕ → ℕ
input j = j + 1

nn_forward-pass_example :
    nn_forward digits numbers (network digits numbers 2 input layers)
    ≡ some (network digits numbers 2 input (pass digits numbers 2 input layers))
nn_forward-pass_example = nn_forward-pass digits numbers 2 input layers

abbrev pub inputs : ℕ → ℕ → ℕ
inputs i j = i + j

-- Label `i` of row `i` is 1.
abbrev pub labels : ℕ → ℕ → ℕ
labels i j = if i == j then 1 else 0

abbrev pub block : List ℕ
block = cells 2 4 (joined digits numbers 2 inputs labels)

pub block-Labelled : Labelled digits numbers 2 2 2 inputs labels block
block-Labelled = mat-Reads digits 2 4 (joined digits numbers 2 inputs labels)

nn_cost-squares_example :
    nn_cost digits numbers
      (network digits numbers 2 input layers)
      (labelled digits numbers 2 2 2 inputs labels)
    ≡ some (
      after digits numbers 2 inputs input layers 2,
      all_squares digits numbers 2 2 inputs labels layers 2 / 2,
    )
nn_cost-squares_example =
    nn_cost-squares digits numbers 2 2 2 inputs labels block input layers block-Labelled
      (omega arith) refl

nn_cross_entropy-logs_example :
    nn_cross_entropy digits numbers
      (network digits numbers 2 input layers)
      (labelled digits numbers 2 2 2 inputs labels)
    ≡ some (
      after digits numbers 2 inputs input layers 2,
      0 * all_logs digits numbers 2 2 inputs layers 2 / 2,
    )
nn_cross_entropy-logs_example =
    nn_cross_entropy-logs digits numbers 2 2 2 inputs labels block input layers block-Labelled
      (omega arith) refl

accuracy-hits_example :
    accuracy digits numbers
      (network digits numbers 2 input layers)
      (labelled digits numbers 2 2 2 inputs labels)
    ≡ some (
      after digits numbers 2 inputs input layers 2,
      all_hits digits numbers 2 2 inputs labels layers 2 / 2,
    )
accuracy-hits_example =
    accuracy-hits digits numbers 2 2 2 inputs labels block input layers block-Labelled (omega arith)
      refl

abbrev gradient_w : ℕ → ℕ → ℕ → ℕ
gradient_w i j k = i + j * k

abbrev gradient_b : ℕ → ℕ → ℕ
gradient_b i j = i * j

abbrev pub fresh_cells : ℕ → ℕ → ℕ
fresh_cells n x = n + x

init_nn-inserted_example :
    init_nn digits numbers fresh_cells
      (2 ∷ 3 ∷ 2 ∷ [])
      fresh_cells
      (record { ws = []; bs = []; as_rows = [] })
      (some (
        initial_weights digits numbers gradient_w gradient_b 2
          (blank digits numbers gradient_w gradient_b fresh_cells 2 (3 ∷ 2 ∷ []))))
      (some (
        initial_bias digits numbers gradient_w gradient_b 2
          (blank digits numbers gradient_w gradient_b fresh_cells 2 (3 ∷ 2 ∷ []))))
    ≡ some (
        network digits numbers 2 (fresh_cells (1 * 2)) (
          inserted digits numbers gradient_w gradient_b
            (blank digits numbers gradient_w gradient_b fresh_cells 2 (3 ∷ 2 ∷ []))))
init_nn-inserted_example =
    init_nn-inserted digits numbers gradient_w gradient_b fresh_cells 2 (3 ∷ 2 ∷ []) fresh_cells

nn_backprop-gradients_example :
    nn_backprop digits numbers act_relu fresh_cells
      (network digits numbers 2 input layers)
      (labelled digits numbers 2 2 2 inputs labels)
    ≡ some (states_at digits numbers act_relu 2 2 2 inputs labels input layers 2)
nn_backprop-gradients_example =
    nn_backprop-gradients digits numbers act_relu 2 2 2 inputs labels input layers fresh_cells block
      (omega arith) block-Labelled refl refl
