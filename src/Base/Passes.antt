-- ===== src/Base/Passes.antt =====
-- Two loops, one in the other, over the cells of a table.
use Prim.Native.Nat.{ℕ, suc, ◌<◌}
use mathlib.Core.Path.{◌≡◌, ap, ◌∙◌}
use mathlib.Core.Bool.{◌&&◌, ◌||◌}
use mathlib.Core.Option.{Option, some}
use native.Mathlib.Omega.{arith}
use zfl.Base.Tests.{◌==◌, ltb, if◌then◌else◌}
use zfl.Base.Loops.{for_loop, for_loop-states}
use zfl.Base.Cells.{update_cell}

module _ {ℓ} {A : Type ℓ} where
  -- The cells that the loops have passed at (i, k) are those of `h`, the others those of `f`.
  abbrev pub passed : (ℕ → ℕ → A) → (ℕ → ℕ → A) → ℕ → ℕ → ℕ → ℕ → A
  passed f h i k a b = if ltb a i || ((a == i) && ltb b k) then h a b else f a b

  pub passed_here : (f h : ℕ → ℕ → A) (i k : ℕ) → passed f h i k i k ≡ f i k
  passed_here f h i k = ground arith

  pub passed_next :
      (f h : ℕ → ℕ → A) (i k a b : ℕ)
      → update_cell (passed f h i k) i k (h i k) a b ≡ passed f h i (suc k) a b
  passed_next f h i k a b = ground arith

  pub passed_row :
      (f h : ℕ → ℕ → A) (c i a b : ℕ) → b < c → passed f h i c a b ≡ passed f h (suc i) 0 a b
  passed_row f h c i a b lt = ground arith

  pub passed_none : (f h : ℕ → ℕ → A) (a b : ℕ) → f a b ≡ passed f h 0 0 a b
  passed_none f h a b = ground arith

  pub passed_all : (f h : ℕ → ℕ → A) (r a b : ℕ) → a < r → passed f h r 0 a b ≡ h a b
  passed_all f h r a b lt = ground arith

  module _ {κ} {S : Type κ} (r c : ℕ) (state : (ℕ → ℕ → A) → S)
      (state_ext : (f g : ℕ → ℕ → A)
        → ((i j : ℕ) → i < r → j < c → f i j ≡ g i j)
        → state f ≡ state g)
      (body : ℕ → ℕ → S → Option S) (f h : ℕ → ℕ → A)
      (step : (s : ℕ → ℕ → A) (i j : ℕ)
        → i < r
        → j < c
        → s i j ≡ f i j
        → body i j (state s) ≡ some (state (update_cell s i j (h i j)))) where
    one_row :
        (i : ℕ)
        → i < r
        → for_loop c (body i) (state (passed f h i 0)) ≡ some (state (passed f h (suc i) 0))
    one_row i hi =
        for_loop-states c (body i) (λ k. state (passed f h i k))
          (λ k hk.
            step (passed f h i k) i k hi hk (passed_here f h i k)
            ∙ ap some (state_ext _ _ (λ a b ha hb. passed_next f h i k a b)))
        ∙ ap some (state_ext _ _ (λ a b ha hb. passed_row f h c i a b hb))

    -- A body that replaces each cell by that of `h`, where it finds the one of `f`, makes `h` of `f`.
    pub two_loops : for_loop r (λ i s. for_loop c (body i) s) (state f) ≡ some (state h)
    two_loops =
        ap (for_loop r (λ i s. for_loop c (body i) s))
          (state_ext _ _ (λ a b ha hb. passed_none f h a b))
        ∙ for_loop-states r (λ i s. for_loop c (body i) s) (λ k. state (passed f h k 0)) one_row
        ∙ ap some (state_ext _ _ (λ a b ha hb. passed_all f h r a b ha))
