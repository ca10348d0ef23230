-- ===== src/Common/Read.antt =====
-- common.h: `parse_weights_json` on the tokens of the text that `weights_to_string` writes.
use zfl.Base.{
  ℕ, zero, suc, ◌+◌, ◌*◌, ◌≤◌, ◌<◌, ◌≡◌, refl, sym, ap, ◌∙◌, ◌&&◌, Option, none, some, ◌>>=◌, leb,
  ltb, ◌==◌, if◌then◌else◌, Bytes, set, update, tabulate_from, tabulate_from_ext,
  get_elem?-tabulate_from, set-tabulate_from, arith,
}
use zfl.Cson.{Token, TokenType, null, node, number, array, link}
use zfl.Cson.Numbers.{Numeral}
use zfl.Cson.Syntax.{token_of, items_of}
use zfl.Common.{Floats}
use zfl.Common.Weights.{add_cell, add_cols, add_rows}
use zfl.Common.Text.{print, number_items, row_items}

pub link_leaf :
    (type : TokenType) (text : Option Bytes) (child l : Token)
    → link (node type text child null) l ≡ node type text child l
unfolding link
link_leaf type text child null = refl
link_leaf type text child (node t x c n) = refl

module _ (floats : Floats) (numeral : floats.Float → Numeral) where
  open floats use {Float, zero_float, add_float, strtof}

  -- What comes of a float that is printed and read.
  abbrev pub printed : Float → Float
  printed x = strtof (print floats numeral x)

  -- The values `e` added to the cells from `lo` to `hi`.
  abbrev pub added : (ℕ → Float) → (ℕ → Float) → ℕ → ℕ → ℕ → Float
  added e g lo hi x = if leb lo x && ltb x hi then add_float (g x) (printed (e x)) else g x

  number_tokens :
      (n k : ℕ) (e : ℕ → Float)
      → items_of (number_items floats numeral (suc n) k e)
        ≡ node number
            (some (print floats numeral (e k)))
            null
            (items_of (number_items floats numeral n (k + 1) e))
  unfolding items_of token_of
  number_tokens n k e = link_leaf number (some (print floats numeral (e k))) null _

  row_tokens :
      (rows cols start : ℕ) (e : ℕ → Float)
      → items_of (row_items floats numeral (suc rows) cols start e)
        ≡ node array none
            (items_of (number_items floats numeral cols start e))
            (items_of (row_items floats numeral rows cols (start + cols) e))
  unfolding items_of token_of
  row_tokens rows cols start e =
      link_leaf array none (items_of (number_items floats numeral cols start e)) _

  add_cell-update :
      (size k : ℕ) (g : ℕ → Float) (text : Bytes)
      → k < size
      → add_cell floats (tabulate_from 0 size g) k (some text)
        ≡ some (tabulate_from 0 size (update g k (add_float (g k) (strtof text))))
  unfolding add_cell
  add_cell-update size k g text h =
      ap (λ o. o >>= λ old. some (set (tabulate_from 0 size g) k (add_float old (strtof text))))
        (get_elem?-tabulate_from 0 size g k h ∙ ap (λ i. some (g i)) (omega arith))
      ∙ ap some (
          set-tabulate_from 0 size g k (add_float (g k) (strtof text)) h
          ∙ ap (λ i. tabulate_from 0 size (update g i (add_float (g k) (strtof text))))
              (omega arith))

  added_none : (e g : ℕ → Float) (k x : ℕ) → g x ≡ added e g k (k + 0) x
  added_none e g k x = ground arith

  one_step :
      (plus : Float → Float → Float) (k n x : ℕ) (u gk gx pk px : Float)
      → (x ≡ k → gx ≡ gk)
      → (x ≡ k → px ≡ pk)
      → u ≡ plus gk pk
      → (if leb (k + 1) x && ltb x (k + 1 + n)
          then plus (if x == k then u else gx) px
          else (if x == k then u else gx))
        ≡ (if leb k x && ltb x (k + suc n) then plus gx px else gx)
  one_step plus k n x u gk gx pk px same_g same_p e = ground arith

  added_one :
      (e g : ℕ → Float) (n k x : ℕ)
      → added e (update g k (add_float (g k) (printed (e k)))) (k + 1) (k + 1 + n) x
        ≡ added e g k (k + suc n) x
  added_one e g n k x =
      one_step add_float k n x (add_float (g k) (printed (e k))) (g k) (g x) (printed (e k))
        (printed (e x)) (ap g) (ap (λ i. printed (e i))) refl

  pub add_cols-added :
      (n k size : ℕ) (g e : ℕ → Float)
      → k + n ≤ size
      → add_cols floats n (tabulate_from 0 size g) k (items_of (number_items floats numeral n k e))
        ≡ some (tabulate_from 0 size (added e g k (k + n)))
  unfolding add_cols
  add_cols-added zero k size g e h =
      ap some (tabulate_from_ext 0 size g (added e g k (k + 0)) (λ x le lt. added_none e g k x))
  add_cols-added (suc n) k size g e h =
      ap (add_cols floats (suc n) (tabulate_from 0 size g) k) (number_tokens n k e)
      ∙ ap (λ o. o >>= λ c. add_cols floats n c (k + 1) behind)
          (add_cell-update size k g (print floats numeral (e k)) (omega arith))
      ∙ add_cols-added n (k + 1) size (update g k (add_float (g k) (printed (e k)))) e (omega arith)
      ∙ ap some (tabulate_from_ext 0 size _ _ (λ x le lt. added_one e g n k x))
    where
      behind : Token
      behind = items_of (number_items floats numeral n (k + 1) e)

  two_steps :
      (plus : Float → Float → Float) (lo mid hi x : ℕ) (u v w : Float)
      → lo ≤ mid
      → mid ≤ hi
      → v ≡ plus u w
      → (if leb mid x && ltb x hi
          then plus (if leb lo x && ltb x mid then v else u) w
          else (if leb lo x && ltb x mid then v else u))
        ≡ (if leb lo x && ltb x hi then v else u)
  two_steps plus lo mid hi x u v w p q e = ground arith

  added-added :
      (e g : ℕ → Float) (lo mid hi x : ℕ)
      → lo ≤ mid
      → mid ≤ hi
      → added e (added e g lo mid) mid hi x ≡ added e g lo hi x
  added-added e g lo mid hi x p q =
      two_steps add_float lo mid hi x (g x) (add_float (g x) (printed (e x))) (printed (e x)) p q
        refl

  pub add_rows-added :
      (n j cols start size : ℕ) (g e : ℕ → Float)
      → start ≡ j * cols
      → (j + n) * cols ≤ size
      → add_rows floats n
          (tabulate_from 0 size g)
          j
          cols
          (items_of (row_items floats numeral n cols start e))
        ≡ some (tabulate_from 0 size (added e g start (start + n * cols)))
  unfolding add_rows
  add_rows-added zero j cols start size g e at h = ap some (
      tabulate_from_ext 0 size g _
        (λ x le lt. added_none e g start x ∙ ap (λ k. added e g start k x) (omega arith)))
  add_rows-added (suc n) j cols start size g e at h =
      ap (add_rows floats (suc n) (tabulate_from 0 size g) j cols) (row_tokens n cols start e)
      ∙ ap
          (λ k.
            add_cols floats cols (tabulate_from 0 size g) k
              (items_of (number_items floats numeral cols start e))
            >>= λ c. add_rows floats n c (j + 1) cols behind)
          (sym at)
      ∙ ap (λ o. o >>= λ c. add_rows floats n c (j + 1) cols behind)
          (add_cols-added cols start size g e (grind arith))
      ∙ add_rows-added n (j + 1) cols (start + cols) size (added e g start (start + cols)) e
          (grind arith) (grind arith)
      ∙ ap some (
          tabulate_from_ext 0 size _ _ (λ x le lt.
            added-added e g start (start + cols) (start + cols + n * cols) x (omega arith)
              (omega arith)
            ∙ ap (λ k. added e g start k x) (grind arith)))
    where
      behind : Token
      behind = items_of (row_items floats numeral n cols (start + cols) e)
