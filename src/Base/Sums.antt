-- ===== src/Base/Sums.antt =====
-- Three loops, one in the other, that sum the terms of every cell of a table row by row.
use Prim.Native.Nat.{ℕ, suc, ◌<◌}
use mathlib.Core.Path.{◌≡◌, ap, ◌∙◌}
use mathlib.Core.Option.{Option, some}
use native.Mathlib.Omega.{arith}
use zfl.Base.Tests.{◌==◌, ltb, if◌then◌else◌}
use zfl.Base.Loops.{for_loop, for_loop-states}
use zfl.Base.Cells.{update_cell}

-- `part k` are the cells after `k` terms. At (i, k, j) the rows before `i` have all `n` terms, and
-- row `i` has `k + 1` of them before column `j` and `k` from there on.
module _ {ℓ} {A : Type ℓ} (part : ℕ → ℕ → ℕ → A) (n : ℕ) where
  abbrev summed : ℕ → ℕ → ℕ → ℕ → ℕ → A
  summed i k j a b =
      if ltb a i
      then part n a b
      else if a == i
      then if ltb b j then part (suc k) a b else part k a b
      else part 0 a b

  summed_here : (i k j : ℕ) → summed i k j i j ≡ part k i j
  summed_here i k j = ground arith

  summed_next :
      (i k j a b : ℕ)
      → update_cell (summed i k j) i j (part (suc k) i j) a b ≡ summed i k (suc j) a b
  summed_next i k j a b = ground arith

  summed_term : (c i k a b : ℕ) → b < c → summed i k c a b ≡ summed i (suc k) 0 a b
  summed_term c i k a b h = ground arith

  summed_row : (i a b : ℕ) → summed i n 0 a b ≡ summed (suc i) 0 0 a b
  summed_row i a b = ground arith

  summed_none : (a b : ℕ) → part 0 a b ≡ summed 0 0 0 a b
  summed_none a b = ground arith

  summed_all : (r a b : ℕ) → a < r → summed r 0 0 a b ≡ part n a b
  summed_all r a b h = ground arith

  module _ {κ} {S : Type κ} (r c : ℕ) (state : (ℕ → ℕ → A) → S)
      (state_ext : (f g : ℕ → ℕ → A)
        → ((i j : ℕ) → i < r → j < c → f i j ≡ g i j)
        → state f ≡ state g)
      (body : ℕ → ℕ → ℕ → S → Option S)
      (step : (s : ℕ → ℕ → A) (i k j : ℕ)
        → i < r
        → k < n
        → j < c
        → s i j ≡ part k i j
        → body i k j (state s) ≡ some (state (update_cell s i j (part (suc k) i j)))) where
    one_term :
        (i k : ℕ)
        → i < r
        → k < n
        → for_loop c (body i k) (state (summed i k 0)) ≡ some (state (summed i (suc k) 0))
    one_term i k hi hk =
        for_loop-states c (body i k) (λ j. state (summed i k j))
          (λ j hj.
            step (summed i k j) i k j hi hk hj (summed_here i k j)
            ∙ ap some (state_ext _ _ (λ a b ha hb. summed_next i k j a b)))
        ∙ ap some (state_ext _ _ (λ a b ha hb. summed_term c i k a b hb))

    one_row :
        (i : ℕ)
        → i < r
        → for_loop n (λ k s. for_loop c (body i k) s) (state (summed i 0 0))
          ≡ some (state (summed (suc i) 0 0))
    one_row i hi =
        for_loop-states n (λ k s. for_loop c (body i k) s) (λ k. state (summed i k 0))
          (λ k hk. one_term i k hi hk)
        ∙ ap some (state_ext _ _ (λ a b ha hb. summed_row i a b))

    -- A body that adds term `k` to a cell, where it finds the terms before, sums them all.
    pub three_loops :
        for_loop r (λ i s1. for_loop n (λ k s2. for_loop c (body i k) s2) s1) (state (part 0))
        ≡ some (state (part n))
    three_loops =
        ap (for_loop r (λ i s1. for_loop n (λ k s2. for_loop c (body i k) s2) s1))
          (state_ext _ _ (λ a b ha hb. summed_none a b))
        ∙ for_loop-states r (λ i s1. for_loop n (λ k s2. for_loop c (body i k) s2) s1)
            (λ i. state (summed i 0 0)) one_row
        ∙ ap some (state_ext _ _ (λ a b ha hb. summed_all r a b ha))
