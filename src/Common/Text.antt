-- ===== src/Common/Text.antt =====
-- common.h: the text that `weights_to_string` writes is that of a JSON value. How "%f" writes a float is
-- given, as a numeral for each.
use mathlib.Core.List.{flatten}
use zfl.Base.{
  ℕ, zero, suc, ◌+◌, ◌*◌, ◌/◌, ◌%◌, ◌≤◌, ◌<◌, ◌≡◌, refl, ap, ap₂, ◌∙◌, Option, some, List, [], ◌∷◌,
  ◌++◌, ◌>>=◌, Bytes, codes, length, cells, get_elem?, get_elem?-tabulate_from, All, length-append,
  append-nil, append_assoc, arith,
}
use zfl.Common.Brackets.{bracketed, bracketed-Short, two_bracketed, two_bracketed-Short}
use zfl.Common.{Floats, Math}
use zfl.Common.Print.{number_pieces, row_pieces, layer_pieces}
use zfl.Cson.Numbers.{Numeral, numeral_text}
use zfl.Cson.Syntax.{num, arr, Items, nil, cons, json_text, items_text}
use zfl.Network.Matrix.{Mat, Row}
use zfl.Network.Matrix.Cells.{mat}
use zfl.Network.Forward.Layers.{row}
use zfl.Network.Forward.Spec.{Layer}
use zfl.Network.Learn.Layers.{items}

module _ (floats : Floats) (numeral : floats.Float → Numeral) where
  open floats use {Float}

  -- No number is longer than `longest` - 1.
  abbrev pub PrintsWithin : ℕ → Type 0
  PrintsWithin longest = (2 ≤ longest) × ((x : Float) → length (numeral_text (numeral x)) < longest)

  abbrev pub print : Float → Bytes
  print x = numeral_text (numeral x)

  -- `n` numbers from index `k` on, and `rows` rows of `cols` numbers from index `start` on.
  abbrev pub number_items : ℕ → ℕ → (ℕ → Float) → Items
  number_items zero k e = nil
  number_items (suc n) k e = cons (num (numeral (e k))) [] [] (number_items n (k + 1) e)

  abbrev pub row_items : ℕ → ℕ → ℕ → (ℕ → Float) → Items
  row_items zero cols start e = nil
  row_items (suc rows) cols start e =
      cons (arr [] (number_items cols start e)) [] [] (row_items rows cols (start + cols) e)

  -- Some pieces come out, short ones, which together are a text in front of what follows.
  abbrev pub Writes : Option (List Bytes) → (Bytes → Bytes) → Type 0
  Writes pieces text =
      (p : List Bytes) × (pieces ≡ some p)
      × ((rest : Bytes) → flatten p ++ rest ≡ text rest)
      × ((longest : ℕ) → PrintsWithin longest → All (λ c. length c ≤ longest) p)

  number_pieces-Writes :
      (n k : ℕ) (xs : List Float) (e : ℕ → Float)
      → ((x : ℕ) → x < k + n → get_elem? xs x ≡ some (e x))
      → Writes (number_pieces floats print n k xs) (items_text (number_items n k e))
  unfolding number_pieces items_text json_text flatten
  number_pieces-Writes zero k xs e reads = ([], refl, λ rest. refl, λ longest h. tt)
  number_pieces-Writes (suc zero) k xs e reads = (
    print (e k) ∷ [],
    ap (λ o. o >>= λ x. some (print x ∷ [])) (reads k (omega arith)),
    λ rest. ap (λ t. t ++ rest) (append-nil (print (e k))),
    λ longest h. (omega (arith, h.1 (e k)), tt),
  )
  number_pieces-Writes (suc (suc n)) k xs e reads =
      let (p, found, text, short) =
        number_pieces-Writes (suc n) (k + 1) xs e (λ x h. reads x (omega arith)) in
      (
        (print (e k) ++ codes ",") ∷ p,
        ap₂ (λ o q. o >>= λ x. q >>= λ pieces. some ((print x ++ codes ",") ∷ pieces))
            (reads k (omega arith)) found,
        λ rest.
            append_assoc (print (e k) ++ codes ",") (flatten p) rest
            ∙ append_assoc (print (e k)) (codes ",") (flatten p ++ rest)
            ∙ ap (λ t. print (e k) ++ (b',' ∷ t)) (text rest),
        λ longest h.
            (omega (arith, h.1 (e k), length-append (print (e k)) (codes ",")), short longest h),
      )

  row_pieces-Writes :
      (rows cols start : ℕ) (xs : List Float) (e : ℕ → Float)
      → ((x : ℕ) → x < start + rows * cols → get_elem? xs x ≡ some (e x))
      → Writes
          (row_pieces floats print rows cols start xs)
          (items_text (row_items rows cols start e))
  unfolding row_pieces items_text json_text flatten
  row_pieces-Writes zero cols start xs e reads = ([], refl, λ rest. refl, λ longest h. tt)
  row_pieces-Writes (suc zero) cols start xs e reads =
      let (p, found, text, short) =
        number_pieces-Writes cols start xs e (λ x h. reads x (omega arith)) in
      (
        codes "[" ∷ (p ++ (codes "]" ∷ [])),
        ap (λ o. o >>= λ row. some (codes "[" ∷ (row ++ (codes "]" ∷ [])))) found,
        λ rest. bracketed p (codes "]") [] rest ∙ ap (λ t. b'[' ∷ t) (text (b']' ∷ rest)),
        λ longest h.
            bracketed-Short longest p (codes "]") [] (omega (arith, h.0)) (omega (arith, h.0))
              (short longest h) tt,
      )
  row_pieces-Writes (suc (suc rows)) cols start xs e reads =
      let (p, found, text, short) =
        number_pieces-Writes cols start xs e (λ x h. reads x (grind arith)) in
      let (q, behind, more, short_more) =
        row_pieces-Writes (suc rows) cols (start + cols) xs e (λ x h. reads x (grind arith)) in
      (
        codes "[" ∷ (p ++ (codes "]," ∷ q)),
        ap₂ (λ o u. o >>= λ row. u >>= λ rest. some (codes "[" ∷ (row ++ (codes "]," ∷ rest))))
            found behind,
        λ rest.
            bracketed p (codes "],") q rest
            ∙ ap (λ t. b'[' ∷ (flatten p ++ (b']' ∷ b',' ∷ t))) (more rest)
            ∙ ap (λ t. b'[' ∷ t)
                (text (b']' ∷ b',' ∷ items_text (row_items (suc rows) cols (start + cols) e) rest)),
        λ longest h.
            bracketed-Short longest p (codes "],") q (omega (arith, h.0)) (omega (arith, h.0))
              (short longest h) (short_more longest h),
      )

  module _ (math : Math Float) (new_w : ℕ → ℕ → ℕ → Float) (new_b : ℕ → ℕ → Float) where
    -- The weights of a layer as they stand in memory.
    abbrev pub flat : ℕ → ℕ → ℕ → Float
    flat i c x = new_w i (x / c) (x % c)

    abbrev pub layer_items : ℕ → ℕ → List (Layer floats) → Items
    layer_items i n [] = nil
    layer_items i n (l ∷ ls) = cons (arr [] (row_items n (l.size) 0 (flat i l.size))) [] [] (
        cons (arr [] (number_items (l.size) 0 (flat i l.size))) [] []
          (layer_items (suc i) (l.size) ls))

    -- The matrices and the biases of the layers from `i` on.
    abbrev pub all_ws : ℕ → ℕ → List (Layer floats) → List (Mat floats)
    all_ws i n ls = items floats math (λ a r c. mat floats r c (new_w a)) i n ls

    abbrev pub all_bs : ℕ → ℕ → List (Layer floats) → List (Row floats)
    all_bs i n ls = items floats math (λ a r c. row floats math c (new_b a)) i n ls

    -- No layer has an empty one before it.
    abbrev pub Follows : ℕ → List (Layer floats) → Type 0
    Follows n [] = Unit
    Follows n (l ∷ ls) = (0 < n) × Follows l.size ls

    reads_flat : (i n c x : ℕ) → x < n * c → get_elem? (cells n c (new_w i)) x ≡ some (flat i c x)
    reads_flat i n c x h =
        get_elem?-tabulate_from 0 (n * c) (flat i c) x h ∙ ap (λ k. some (flat i c k)) (omega arith)

    one_row : (n c : ℕ) → 0 < n → c ≤ n * c
    one_row zero c h = absurd (omega arith)
    one_row (suc n) c h = omega arith

    rows_Writes :
        (i n c : ℕ)
        → Writes
            (row_pieces floats print n c 0 (cells n c (new_w i)))
            (items_text (row_items n c 0 (flat i c)))
    rows_Writes i n c =
        row_pieces-Writes n c 0 (cells n c (new_w i)) (flat i c)
          (λ x k. reads_flat i n c x (omega arith))

    -- The biases are read from the first row of the weights.
    biases_Writes :
        (i n c : ℕ)
        → 0 < n
        → Writes
            (number_pieces floats print c 0 (cells n c (new_w i)))
            (items_text (number_items c 0 (flat i c)))
    biases_Writes i n c h =
        number_pieces-Writes c 0 (cells n c (new_w i)) (flat i c)
          (λ x k. reads_flat i n c x (omega (arith, one_row n c h)))

    -- The biases of a layer, behind its rows.
    abbrev behind_rows : ℕ → ℕ → Bytes → Bytes
    behind_rows i c rest = b']' ∷ b',' ∷ b'[' ∷ items_text (number_items c 0 (flat i c)) rest

    pub layer_pieces-Writes :
        (i n : ℕ) (ls : List (Layer floats))
        → Follows n ls
        → Writes
            (layer_pieces floats print (all_ws i n ls) (all_bs i n ls))
            (items_text (layer_items i n ls))
    unfolding layer_pieces items_text json_text flatten
    layer_pieces-Writes i n [] h = ([], refl, λ rest. refl, λ longest h. tt)
    layer_pieces-Writes i n (l ∷ []) h =
        let c = l.size in
        let (p, rows, text_p, short_p) = rows_Writes i n c in
        let (q, biases, text_q, short_q) = biases_Writes i n c h.0 in
        (
          codes "[" ∷ (p ++ (codes "]," ∷ codes "[" ∷ (q ++ (codes "]" ∷ [])))),
          ap₂
              (λ o u. o >>= λ a. u >>= λ b.
                some (codes "[" ∷ (a ++ (codes "]," ∷ codes "[" ∷ (b ++ (codes "]" ∷ []))))))
              rows biases,
          λ rest.
              two_bracketed p q (codes "]") [] rest
              ∙ ap (λ t. b'[' ∷ (flatten p ++ (b']' ∷ b',' ∷ b'[' ∷ t))) (text_q (b']' ∷ rest))
              ∙ ap (λ t. b'[' ∷ t) (text_p (behind_rows i c (b']' ∷ rest))),
          λ longest h'.
              two_bracketed-Short longest p q (codes "]") [] (omega (arith, h'.0))
                (omega (arith, h'.0)) (short_p longest h') (short_q longest h') tt,
        )
    layer_pieces-Writes i n (l ∷ l' ∷ ls) h =
        let c = l.size in
        let (p, rows, text_p, short_p) = rows_Writes i n c in
        let (q, biases, text_q, short_q) = biases_Writes i n c h.0 in
        let (s, layers, text_s, short_s) = layer_pieces-Writes (suc i) c (l' ∷ ls) h.1 in
        (
          codes "[" ∷ (p ++ (codes "]," ∷ codes "[" ∷ (q ++ (codes "]," ∷ s)))),
          ap₂
                (λ o u. o >>= λ a. u >>= λ b.
                  layer_pieces floats print (all_ws (suc i) c (l' ∷ ls))
                    (all_bs (suc i) c (l' ∷ ls))
                  >>= λ d.
                      some (codes "[" ∷ (a ++ (codes "]," ∷ codes "[" ∷ (b ++ (codes "]," ∷ d))))))
                rows biases
              ∙ ap
                  (λ o. o >>= λ d.
                    some (codes "[" ∷ (p ++ (codes "]," ∷ codes "[" ∷ (q ++ (codes "]," ∷ d))))))
                  layers,
          λ rest.
              two_bracketed p q (codes "],") s rest
              ∙ ap
                  (λ t.
                    b'[' ∷ (flatten p ++ (b']' ∷ b',' ∷ b'[' ∷ (flatten q ++ (b']' ∷ b',' ∷ t)))))
                  (text_s rest)
              ∙ ap (λ t. b'[' ∷ (flatten p ++ (b']' ∷ b',' ∷ b'[' ∷ t)))
                  (text_q (b']' ∷ b',' ∷ items_text (layer_items (suc i) c (l' ∷ ls)) rest))
              ∙ ap (λ t. b'[' ∷ t)
                  (text_p (
                    behind_rows i c
                      (b']' ∷ b',' ∷ items_text (layer_items (suc i) c (l' ∷ ls)) rest))),
          λ longest h'.
              two_bracketed-Short longest p q (codes "],") s (omega (arith, h'.0))
                (omega (arith, h'.0)) (short_p longest h') (short_q longest h')
                (short_s longest h'),
        )
