-- ===== src/Common/Message.antt =====
-- common.h: `weights_to_string` behind a valid builder, and the value whose text it appends.
use mathlib.Core.List.{flatten}
use zfl.Base.{
  ℕ, zero, suc, ◌+◌, ◌≤◌, ◌≡◌, ap, ◌∙◌, List, [], ◌∷◌, ◌++◌, ◌>>=◌, Bytes, codes, length, arith,
}
use zfl.StringBuilder.{append_all}
use zfl.StringBuilder.Laws.{Appends, append_all-contents}
use zfl.Common.{Floats, Math}
use zfl.Common.Print.{weights_to_string}
use zfl.Common.Brackets.{bracketed, bracketed-Short}
use zfl.Common.Text.{
  print, PrintsWithin, number_items, row_items, layer_items, all_ws, all_bs, Follows,
  layer_pieces-Writes,
}
use zfl.Cson.Numbers.{Numeral, IsNumeral}
use zfl.Cson.Syntax.{Json, arr, json_text, IsJson, IsItems}
use zfl.Network.Forward.Spec.{Layer}

module _ (floats : Floats) (numeral : floats.Float → Numeral)
    (numeral-IsNumeral : (x : floats.Float) → IsNumeral (numeral x)) where
  open floats use {Float}

  number_items-IsItems : (n k : ℕ) (e : ℕ → Float) → IsItems (number_items floats numeral n k e)
  unfolding IsItems IsJson
  number_items-IsItems zero k e = tt
  number_items-IsItems (suc n) k e =
      (numeral-IsNumeral (e k), tt, tt, number_items-IsItems n (k + 1) e)

  row_items-IsItems :
      (rows cols start : ℕ) (e : ℕ → Float) → IsItems (row_items floats numeral rows cols start e)
  unfolding IsItems IsJson
  row_items-IsItems zero cols start e = tt
  row_items-IsItems (suc rows) cols start e = (
    (tt, number_items-IsItems cols start e),
    tt,
    tt,
    row_items-IsItems rows cols (start + cols) e,
  )

  module _ (math : Math Float) (new_w : ℕ → ℕ → ℕ → Float) (new_b : ℕ → ℕ → Float) where
    layer_items-IsItems :
        (i n : ℕ) (ls : List (Layer floats))
        → IsItems (layer_items floats numeral math new_w new_b i n ls)
    unfolding IsItems IsJson
    layer_items-IsItems i n [] = tt
    layer_items-IsItems i n (l ∷ ls) = (
      (tt, row_items-IsItems n l.size 0 _),
      tt,
      tt,
      ((tt, number_items-IsItems l.size 0 _), tt, tt, layer_items-IsItems (suc i) l.size ls),
    )

    -- The value of the weights.
    abbrev pub weights_json : ℕ → List (Layer floats) → Json
    weights_json n ls = arr [] (layer_items floats numeral math new_w new_b 0 n ls)

    pub weights_json-IsJson : (n : ℕ) (ls : List (Layer floats)) → IsJson (weights_json n ls)
    unfolding IsJson
    weights_json-IsJson n ls = (tt, layer_items-IsItems 0 n ls)

    module _ (fresh : ℕ → Bytes) (fresh_size : (k : ℕ) → length (fresh k) ≡ k) where
      -- The text of the value, which takes longer pieces than numbers nowhere.
      pub weights_to_string-Appends :
          (longest n : ℕ) (ls : List (Layer floats))
          → PrintsWithin floats numeral longest
          → longest ≤ 1024
          → Follows floats numeral math new_w new_b n ls
          → (text : Bytes) × Appends fresh fresh_size
              (λ sb.
                weights_to_string floats
                  (print floats numeral)
                  fresh
                  sb
                  (all_ws floats numeral math new_w new_b 0 n ls)
                  (all_bs floats numeral math new_w new_b 0 n ls))
              text
            × ((rest : Bytes) → text ++ rest ≡ json_text (weights_json n ls) rest)
      unfolding weights_to_string json_text flatten
      weights_to_string-Appends longest n ls h within follows =
          let (p, found, text, short) =
            layer_pieces-Writes floats numeral math new_w new_b 0 n ls follows in
          let pieces = codes "[" ∷ (p ++ (codes "]" ∷ [])) in
          (
            flatten pieces,
            λ sb valid room.
                let (sb', appended, is, valid', larger) =
                  append_all-contents fresh fresh_size pieces sb longest valid (omega arith) (
                    bracketed-Short longest p (codes "]") [] (omega (arith, h.0))
                      (omega (arith, h.0)) (short longest h) tt) in
                (
                  sb',
                  ap
                        (λ o. o >>= λ layers.
                          append_all fresh sb (codes "[" ∷ (layers ++ (codes "]" ∷ []))))
                        found
                      ∙ appended,
                  is,
                  valid',
                  omega arith,
                ),
            λ rest. bracketed p (codes "]") [] rest ∙ ap (λ t. b'[' ∷ t) (text (b']' ∷ rest)),
          )
