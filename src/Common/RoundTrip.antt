-- ===== src/Common/RoundTrip.antt =====
-- common.h: the weights that `weights_to_string` writes are those that `parse_weights_json` adds.
use native.Mathlib.Nat.{div-eq_of_lt}
use zfl.Base.{
  ℕ, zero, suc, ◌+◌, ◌*◌, ◌/◌, ◌%◌, ◌<◌, ◌≡◌, refl, sym, ap, ap₂, ◌∙◌, Bool, true, false, Option,
  none, some, List, [], ◌∷◌, ◌>>=◌, ◌++◌, length, length-cells, replicate, cells, tabulate_from,
  tabulate_from_ext, length-replicate, append-nil, leb, ltb, ◌&&◌, leb_of_le, drop_all,
  if◌then◌else◌, arith,
}
use zfl.Memory.{write}
use zfl.Cson.{Token, null, node, array}
use zfl.Cson.Numbers.{Numeral}
use zfl.Cson.Syntax.{token_of, items_of}
use zfl.Common.{Floats, Math}
use zfl.Common.Weights.{
  Layers, next_of, next_biases, add_cols, add_rows, add_layers, clear_layers, parse_weights_json,
}
use zfl.Common.Text.{number_items, row_items, layer_items, flat}
use zfl.Common.Read.{link_leaf, printed, add_cols-added, add_rows-added}
use zfl.Network.Forward.Spec.{Layer}
use zfl.Network.Learn.Layers.{items}

write-whole :
    {A : Type 0} (block cells : List A)
    → length cells ≡ length block
    → write block 0 cells ≡ some cells
unfolding write
write-whole block cells e = rw (leb_of_le (0 + length cells) (length block) (omega arith)) (
    ap (λ l. some (cells ++ l)) (drop_all (0 + length cells) block (omega arith))
    ∙ ap some (append-nil cells))

replicate-tabulate_from :
    {A : Type 0} (i n : ℕ) (a : A) → replicate n a ≡ tabulate_from i n (λ x. a)
replicate-tabulate_from i zero a = refl
replicate-tabulate_from i (suc n) a = ap (λ l. a ∷ l) (replicate-tabulate_from (suc i) n a)

module _ (floats : Floats) (numeral : floats.Float → Numeral) (math : Math (floats.Float))
    (new_w : ℕ → ℕ → ℕ → floats.Float) (new_b : ℕ → ℕ → floats.Float) where
  open floats use {Float, zero_float, add_float}

  -- The number of inputs, and the sizes of the layers behind.
  abbrev pub sizes_of : List (Layer floats) → List ℕ
  sizes_of [] = []
  sizes_of (l ∷ ls) = l.size ∷ sizes_of ls

  -- Arrays for the layers from `i` on.
  abbrev pub w_arrays : (ℕ → ℕ → ℕ → Float) → ℕ → ℕ → List (Layer floats) → Layers floats
  w_arrays v i n ls = items floats math (λ a r c. cells r c (v a)) i n ls

  abbrev pub b_arrays : (ℕ → ℕ → Float) → ℕ → ℕ → List (Layer floats) → Layers floats
  b_arrays v i n ls = items floats math (λ a r c. cells 1 c (λ k j. v a j)) i n ls

  -- Arrays that held `v` and `u`, behind the call: the biases come from the first row of the weights.
  abbrev pub plus_w : (ℕ → ℕ → ℕ → Float) → ℕ → ℕ → ℕ → Float
  plus_w v a j k = add_float (v a j k) (printed floats numeral (new_w a j k))

  abbrev pub plus_b : (ℕ → ℕ → Float) → ℕ → ℕ → Float
  plus_b u a k = add_float (u a k) (printed floats numeral (new_w a 0 k))

  abbrev pub layers_token : ℕ → ℕ → List (Layer floats) → Token
  layers_token i n ls = items_of (layer_items floats numeral math new_w new_b i n ls)

  -- The tokens of the biases of layer `i`, with the layers behind.
  abbrev biases_token : ℕ → Layer floats → List (Layer floats) → Token
  biases_token i l ls =
      node array none
        (items_of
          (number_items floats numeral (l.size) 0 (flat floats numeral math new_w new_b i l.size)))
        (layers_token (suc i) l.size ls)

  layers_token-cons :
      (i n : ℕ) (l : Layer floats) (ls : List (Layer floats))
      → layers_token i n (l ∷ ls)
        ≡ node array none
            (items_of (
              row_items floats numeral n
                (l.size)
                0
                (flat floats numeral math new_w new_b i l.size)))
            (biases_token i l ls)
  unfolding items_of token_of
  layers_token-cons i n l ls =
      link_leaf array none _ _
      ∙ ap
          (node array none (
            items_of (
              row_items floats numeral n (l.size) 0
                (flat floats numeral math new_w new_b i l.size))))
          (link_leaf array none _ _)

  within :
      (size x : ℕ) (p q : Float) → x < size → (if leb 0 x && ltb x (0 + size) then p else q) ≡ p
  within size x p q h = ground arith

  add_matrix :
      (i r c : ℕ) (v : ℕ → ℕ → ℕ → Float)
      → add_rows floats r
          (cells r c (v i))
          0
          c
          (items_of (row_items floats numeral r c 0 (flat floats numeral math new_w new_b i c)))
        ≡ some (cells r c (plus_w v i))
  add_matrix i r c v =
      add_rows-added floats numeral r 0 c 0 (r * c) (λ x. v i (x / c) (x % c))
        (flat floats numeral math new_w new_b i c) (grind arith) (grind arith)
      ∙ ap some (tabulate_from_ext 0 (r * c) _ _ (λ x le lt. within (r * c) x _ _ (omega arith)))

  first_row : (c x : ℕ) (f : ℕ → ℕ → Float) → x < 1 * c → f (x / c) (x % c) ≡ f 0 (x % c)
  first_row c x f h = ap (λ k. f k (x % c)) (div-eq_of_lt (omega arith))

  add_bias :
      (i c : ℕ) (u : ℕ → ℕ → Float)
      → add_cols floats c
          (cells 1 c (λ k j. u i j))
          0
          (items_of (number_items floats numeral c 0 (flat floats numeral math new_w new_b i c)))
        ≡ some (cells 1 c (λ k j. plus_b u i j))
  add_bias i c u =
      add_cols-added floats numeral c 0 (1 * c) (λ x. u i (x % c))
        (flat floats numeral math new_w new_b i c) (omega arith)
      ∙ ap some (
          tabulate_from_ext 0 (1 * c) _ _ (λ x le lt.
            within c x _ _ (omega arith)
            ∙ ap (λ w. add_float (u i (x % c)) (printed floats numeral w))
                (first_row c x (new_w i) (omega arith))))

  add_layers-plus :
      (i n : ℕ) (ls : List (Layer floats)) (before : Token) (v : ℕ → ℕ → ℕ → Float)
      (u : ℕ → ℕ → Float)
      → add_layers floats
          (n ∷ sizes_of ls)
          (w_arrays v i n ls)
          (b_arrays u i n ls)
          (layers_token i n ls)
          (next_biases floats before (layers_token i n ls))
        ≡ some (w_arrays (plus_w v) i n ls, b_arrays (plus_b u) i n ls)
  unfolding add_layers
  add_layers-plus i n [] before v u = refl
  add_layers-plus i n (l ∷ ls) before v u =
      ap
        (λ t.
          add_layers floats (n ∷ sizes_of (l ∷ ls)) (w_arrays v i n (l ∷ ls))
            (b_arrays u i n (l ∷ ls)) t (next_biases floats before t))
        (layers_token-cons i n l ls)
      ∙ ap₂ (λ o p. o >>= λ w. p >>= λ b. rest >>= λ q. some (w ∷ q.0, b ∷ q.1))
          (add_matrix i n l.size v) (add_bias i l.size u)
      ∙ ap
          (λ o. o >>= λ q.
            some (cells n l.size (plus_w v i) ∷ q.0, cells 1 l.size (λ k j. plus_b u i j) ∷ q.1))
          (add_layers-plus (suc i) l.size ls (biases_token i l ls) v u)
    where
      rest : Option (Layers floats × Layers floats)
      rest =
          add_layers floats (l.size ∷ sizes_of ls) (w_arrays v (suc i) l.size ls)
            (b_arrays u (suc i) l.size ls) (layers_token (suc i) l.size ls)
            (next_biases floats (biases_token i l ls) (layers_token (suc i) l.size ls))

  abbrev pub zero_w : ℕ → ℕ → ℕ → Float
  zero_w a j k = zero_float

  abbrev pub zero_b : ℕ → ℕ → Float
  zero_b a k = zero_float

  zeroed :
      (r c k : ℕ) (block : List Float)
      → k ≡ r * c
      → length block ≡ r * c
      → write block 0 (replicate k zero_float) ≡ some (cells r c (λ a b. zero_float))
  zeroed r c k block e size =
      write-whole block (replicate k zero_float) (length-replicate k zero_float ∙ e ∙ sym size)
      ∙ ap some (
          replicate-tabulate_from 0 k zero_float
          ∙ ap (λ size'. tabulate_from 0 size' (λ x. zero_float)) e)

  first_biases :
      (n : ℕ) (l : Layer floats) (ls : List (Layer floats))
      → next_of floats (layers_token 0 n (l ∷ ls))
        ≡ some (next_biases floats null (layers_token 0 n (l ∷ ls)))
  first_biases n l ls =
      ap (next_of floats) (layers_token-cons 0 n l ls)
      ∙ ap (λ t. some (next_biases floats null t)) (sym (layers_token-cons 0 n l ls))

  -- Whatever arrays of the right sizes held.
  module _ (item_w item_b : ℕ → ℕ → ℕ → List Float)
      (length-w : (i r c : ℕ) → length (item_w i r c) ≡ r * c)
      (length-b : (i r c : ℕ) → length (item_b i r c) ≡ c) where
    pub clear_layers-zero :
        (i n : ℕ) (ls : List (Layer floats))
        → clear_layers floats
            (n ∷ sizes_of ls)
            (items floats math item_w i n ls)
            (items floats math item_b i n ls)
          ≡ some (w_arrays zero_w i n ls, b_arrays zero_b i n ls)
    unfolding clear_layers
    clear_layers-zero i n [] = refl
    clear_layers-zero i n (l ∷ ls) =
        ap₂
          (λ o p. o >>= λ w. p >>= λ b.
            clear_layers floats (l.size ∷ sizes_of ls) (items floats math item_w (suc i) l.size ls)
              (items floats math item_b (suc i) l.size ls)
            >>= λ q. some (w ∷ q.0, b ∷ q.1))
          (zeroed n l.size (n * l.size) (item_w i n l.size) refl (length-w i n l.size))
          (zeroed 1 l.size l.size (item_b i n l.size) (omega arith)
            (length-b i n l.size ∙ omega arith))
        ∙ ap
            (λ o. o >>= λ q.
              some (cells n l.size (zero_w i) ∷ q.0, cells 1 l.size (λ k j. zero_b i j) ∷ q.1))
            (clear_layers-zero (suc i) l.size ls)

    -- Without `accum`, the arrays are those numbers alone, added to 0.
    pub parse_weights_json-cleared :
        (n : ℕ) (l : Layer floats) (ls : List (Layer floats))
        → parse_weights_json floats
            (n ∷ sizes_of (l ∷ ls))
            (layers_token 0 n (l ∷ ls))
            (items floats math item_w 0 n (l ∷ ls))
            (items floats math item_b 0 n (l ∷ ls))
            false
          ≡ some (w_arrays (plus_w zero_w) 0 n (l ∷ ls), b_arrays (plus_b zero_b) 0 n (l ∷ ls))
    unfolding parse_weights_json
    parse_weights_json-cleared n l ls =
        ap₂
          (λ o p. o >>= λ biases. p >>= λ q.
            add_layers floats (n ∷ sizes_of (l ∷ ls)) q.0 q.1 (layers_token 0 n (l ∷ ls)) biases)
          (first_biases n l ls) (clear_layers-zero 0 n (l ∷ ls))
        ∙ add_layers-plus 0 n (l ∷ ls) null zero_w zero_b

  -- What the arrays start with.
  abbrev pub start_w : Bool → (ℕ → ℕ → ℕ → Float) → ℕ → ℕ → ℕ → Float
  start_w accum v = if accum then v else (λ a j k. zero_float)

  abbrev pub start_b : Bool → (ℕ → ℕ → Float) → ℕ → ℕ → Float
  start_b accum u = if accum then u else (λ a k. zero_float)

  pub parse_weights_json-plus :
      (n : ℕ) (l : Layer floats) (ls : List (Layer floats)) (accum : Bool) (v : ℕ → ℕ → ℕ → Float)
      (u : ℕ → ℕ → Float)
      → parse_weights_json floats
          (n ∷ sizes_of (l ∷ ls))
          (layers_token 0 n (l ∷ ls))
          (w_arrays v 0 n (l ∷ ls))
          (b_arrays u 0 n (l ∷ ls))
          accum
        ≡ some (
          w_arrays (plus_w (start_w accum v)) 0 n (l ∷ ls),
          b_arrays (plus_b (start_b accum u)) 0 n (l ∷ ls),
        )
  unfolding parse_weights_json
  parse_weights_json-plus n l ls true v u =
      ap
        (λ o. o >>= λ biases.
          add_layers floats (n ∷ sizes_of (l ∷ ls)) (w_arrays v 0 n (l ∷ ls))
            (b_arrays u 0 n (l ∷ ls)) (layers_token 0 n (l ∷ ls)) biases)
        (first_biases n l ls)
      ∙ add_layers-plus 0 n (l ∷ ls) null v u
  parse_weights_json-plus n l ls false v u =
      parse_weights_json-cleared (λ i r c. cells r c (v i)) (λ i r c. cells 1 c (λ k j. u i j))
        (λ i r c. length-cells r c (v i)) (λ i r c. length-cells 1 c (λ k j. u i j) ∙ omega arith) n
        l ls
