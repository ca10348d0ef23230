-- ===== src/Common/Weights.antt =====
-- common.h: `parse_weights_json`, which adds the weights of a message to the arrays of a model. A
-- dereference of NULL and an access outside an array are faults, `none`.
use zfl.Base.{
  ℕ, zero, suc, ◌+◌, ◌*◌, Bool, true, false, Option, none, some, List, [], ◌∷◌, ◌>>=◌, Bytes,
  get_elem?, set, replicate,
}
use zfl.Memory.{write}
use zfl.Cson.{Token, null, node}
use zfl.Common.{Floats}

module _ (floats : Floats) where
  open floats use {Float, zero_float, add_float, strtof}

  -- The arrays of all layers, `float **weights` or `float **biases`.
  abbrev pub Layers : Type 0
  Layers = List (List Float)

  -- `cells[i] += strtof(text, NULL)`
  unfoldable pub add_cell : List Float → ℕ → Option Bytes → Option (List Float)
  add_cell cells i none = none
  add_cell cells i (some text) = do
    old ← get_elem? cells i
    some (set cells i (add_float old (strtof text)))

  -- The inner loop: `n` numbers from the token `col` on are added from index `i` on.
  unfoldable pub add_cols : ℕ → List Float → ℕ → Token → Option (List Float)
  add_cols zero cells i col = some cells
  add_cols (suc n) cells i null = none
  add_cols (suc n) cells i (node type text child next) = do
    cells' ← add_cell cells i text
    add_cols n cells' (i + 1) next

  -- The loop over the rows of a matrix of `cols` columns, from row `j` on.
  unfoldable pub add_rows : ℕ → List Float → ℕ → ℕ → Token → Option (List Float)
  add_rows zero cells j cols row = some cells
  add_rows (suc n) cells j cols null = none
  add_rows (suc n) cells j cols (node type text child next) = do
    cells' ← add_cols cols cells (j * cols) child
    add_rows n cells' (j + 1) cols next

  abbrev pub next_of : Token → Option Token
  next_of null = none
  next_of (node type text child next) = some next

  abbrev pub child_of : Token → Option Token
  child_of null = none
  child_of (node type text child next) = some child

  -- `if (biases->next != NULL) biases = biases->next->next;`
  abbrev pub next_biases : Token → Token → Token
  next_biases biases null = biases
  next_biases biases (node type text child next) = next

  -- The loop over the layers, with the tokens of the next weights and the next biases.
  unfoldable pub add_layers : List ℕ → Layers → Layers → Token → Token → Option (Layers × Layers)
  add_layers (rows ∷ cols ∷ sizes) (w ∷ ws) (b ∷ bs) weights biases = do
    row ← child_of weights
    w' ← add_rows rows w 0 cols row
    between ← next_of weights
    weights' ← next_of between
    bias ← child_of biases
    b' ← add_cols cols b 0 bias
    behind ← next_of biases
    (ws', bs') ← add_layers (cols ∷ sizes) ws bs weights' (next_biases biases behind)
    some (w' ∷ ws', b' ∷ bs')
  add_layers (rows ∷ cols ∷ sizes) _ _ weights biases = none
  add_layers (rows ∷ []) ws bs weights biases = some (ws, bs)
  add_layers [] ws bs weights biases = some (ws, bs)

  -- The `memset` calls.
  unfoldable pub clear_layers : List ℕ → Layers → Layers → Option (Layers × Layers)
  clear_layers (rows ∷ cols ∷ sizes) (w ∷ ws) (b ∷ bs) = do
    w' ← write w 0 (replicate (rows * cols) zero_float)
    b' ← write b 0 (replicate cols zero_float)
    (ws', bs') ← clear_layers (cols ∷ sizes) ws bs
    some (w' ∷ ws', b' ∷ bs')
  clear_layers (rows ∷ cols ∷ sizes) _ _ = none
  clear_layers (rows ∷ []) ws bs = some (ws, bs)
  clear_layers [] ws bs = some (ws, bs)

  -- `sizes` is `ARCH`; without `accum` the arrays are cleared first.
  unfoldable pub parse_weights_json :
      List ℕ → Token → Layers → Layers → Bool → Option (Layers × Layers)
  parse_weights_json sizes weights ws bs accum = do
    biases ← next_of weights
    (ws', bs') ← elim accum [ true ↦ some (ws, bs) | false ↦ clear_layers sizes ws bs ]
    add_layers sizes ws' bs' weights biases
