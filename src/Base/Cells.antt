-- ===== src/Base/Cells.antt =====
-- A table of rows and columns in a flat list, as a function of the row and the column.
use Prim.Native.Nat.{ℕ, zero, suc, ◌+◌, ◌*◌, ◌/◌, ◌%◌, ◌<◌}
use native.Mathlib.Nat.{
  mul-add-mod_self_right, mul-add-div_right, mod-lt, div-add-mod', div-lt_iff_lt-mul, mod-eq_of_lt,
  div-eq_of_lt,
}
use mathlib.Core.Path.{◌≡◌, sym, ap, ap₂, ◌∙◌}
use mathlib.Core.Logic.{◌⊎◌, inl, inr}
use mathlib.Core.Bool.{true, false, ◌&&◌}
use mathlib.Core.List.{List}
use mathlib.Core.Option.{some}
use native.Mathlib.Omega.{arith}
use zfl.Base.Tests.{◌==◌, ==_iff, Bool-cases, if◌then◌else◌}
use zfl.Base.Lists.{length, get_elem?, set}
use zfl.Base.Loops.{
  tabulate_from, length-tabulate_from, tabulate_from_ext, get_elem?-tabulate_from,
  set-tabulate_from,
}

row_of_place : (i j c : ℕ) → j < c → (i * c + j) / c ≡ i
row_of_place i j c h =
    mul-add-div_right {m = c} (omega arith) i j ∙ (rw (div-eq_of_lt h) (omega arith))

col_of_place : (i j c : ℕ) → j < c → (i * c + j) % c ≡ j
col_of_place i j c h = mul-add-mod_self_right i c j ∙ mod-eq_of_lt h

true-ne-false : ¬ (true ≡ false)
true-ne-false e = cc

place_row : (i j c x : ℕ) → j < c → x ≡ i * c + j → x / c ≡ i
place_row i j c x h e = ap (λ y. y / c) e ∙ row_of_place i j c h

place_col : (i j c x : ℕ) → j < c → x ≡ i * c + j → x % c ≡ j
place_col i j c x h e = ap (λ y. y % c) e ∙ col_of_place i j c h

place_of_parts : (i j c x : ℕ) → x / c ≡ i → x % c ≡ j → x ≡ i * c + j
place_of_parts i j c x p q = sym (div-add-mod' x c) ∙ ap₂ (λ a b. a * c + b) p q

same_place : (i j c x y : ℕ) → j < c → y ≡ i * c + j → (x == y) ≡ ((x / c == i) && (x % c == j))
same_place i j c x y h e =
    split (Bool-cases (x == y)) (Bool-cases (x / c == i)) (Bool-cases (x % c == j))
  where
    split :
        ((x == y) ≡ true) ⊎ ((x == y) ≡ false)
        → ((x / c == i) ≡ true) ⊎ ((x / c == i) ≡ false)
        → ((x % c == j) ≡ true) ⊎ ((x % c == j) ≡ false)
        → (x == y) ≡ ((x / c == i) && (x % c == j))
    split (inl p) row col = rw (
      p,
      (==_iff (x / c) i).1 (place_row i j c x h ((==_iff x y).0 p ∙ e)),
      (==_iff (x % c) j).1 (place_col i j c x h ((==_iff x y).0 p ∙ e)),
    )
    split (inr p) (inl row) (inl col) = absurd (
        true-ne-false (
          sym (
            (==_iff x y).1 (
              place_of_parts i j c x ((==_iff (x / c) i).0 row) ((==_iff (x % c) j).0 col) ∙ sym e))
          ∙ p))
    split (inr p) (inr row) col = rw (p, row)
    split (inr p) (inl row) (inr col) = rw (p, row, col)

pos_cols : (r c x : ℕ) → x < r * c → 0 < c
pos_cols r zero x h = grind arith
pos_cols r (suc c) x h = omega arith

pub place-lt : (i j r c : ℕ) → i < r → j < c → i * c + j < r * c
place-lt i j r c hi hj = grind arith

module _ {ℓ} {A : Type ℓ} where
  -- Cell (i, j) of `r` rows and `c` columns stands at i * c + j.
  abbrev pub cells : ℕ → ℕ → (ℕ → ℕ → A) → List A
  cells r c f = tabulate_from 0 (r * c) (λ x. f (x / c) (x % c))

  pub length-cells : (r c : ℕ) (f : ℕ → ℕ → A) → length (cells r c f) ≡ r * c
  length-cells r c f = length-tabulate_from 0 (r * c) (λ x. f (x / c) (x % c))

  pub cells_ext :
      (r c : ℕ) (f g : ℕ → ℕ → A)
      → ((i j : ℕ) → i < r → j < c → f i j ≡ g i j)
      → cells r c f ≡ cells r c g
  cells_ext r c f g h = tabulate_from_ext 0 (r * c) _ _ (λ x le lt.
      let pos = pos_cols r c x (omega arith) in
      h (x / c) (x % c) ((div-lt_iff_lt-mul pos).1 (omega arith)) (mod-lt x pos))

  pub get_elem?-cells :
      (r c : ℕ) (f : ℕ → ℕ → A) (i j : ℕ)
      → i < r
      → j < c
      → get_elem? (cells r c f) (i * c + j) ≡ some (f i j)
  get_elem?-cells r c f i j hi hj =
      get_elem?-tabulate_from 0 (r * c) (λ x. f (x / c) (x % c)) (i * c + j)
        (place-lt i j r c hi hj)
      ∙ ap₂ (λ k l. some (f k l)) (place_row i j c _ hj (omega arith))
          (place_col i j c _ hj (omega arith))

  pub cells_tabulate_from :
      (r c : ℕ) (g : ℕ → A) → tabulate_from 0 (r * c) g ≡ cells r c (λ i j. g (i * c + j))
  cells_tabulate_from r c g =
      tabulate_from_ext 0 (r * c) _ _ (λ x le lt. ap g (sym (div-add-mod' x c)))

  abbrev pub update_cell : (ℕ → ℕ → A) → ℕ → ℕ → A → ℕ → ℕ → A
  update_cell f i j v k l = if (k == i) && (l == j) then v else f k l

  pub set-cells :
      (r c : ℕ) (f : ℕ → ℕ → A) (i j : ℕ) (v : A)
      → i < r
      → j < c
      → set (cells r c f) (i * c + j) v ≡ cells r c (update_cell f i j v)
  set-cells r c f i j v hi hj =
      set-tabulate_from 0 (r * c) (λ x. f (x / c) (x % c)) (i * c + j) v (place-lt i j r c hi hj)
      ∙ tabulate_from_ext 0 (r * c) _ _ (λ x le lt.
        ap (λ b. if b then v else f (x / c) (x % c))
          (same_place i j c x (0 + (i * c + j)) hj (omega arith)))
