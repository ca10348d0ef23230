-- ===== src/Base/Loops.antt =====
-- Counted loops over a state that a body may fault on, and lists as functions of the index.
use Prim.Native.Nat.{ℕ, zero, suc, ◌+◌, ◌≤◌, ◌<◌}
use mathlib.Core.Path.{◌≡◌, refl, ap, ap₂, ◌∙◌}
use mathlib.Core.Logic.{◌≢◌}
use mathlib.Core.List.{List, [], ◌∷◌}
use mathlib.Core.Option.{Option, some}
use native.Mathlib.Omega.{arith}
use zfl.Base.Tests.{◌==◌, if◌then◌else◌, ◌>>=◌}
use zfl.Base.Lists.{length, get_elem?, set}

module _ {ℓ} {S : Type ℓ} where
  -- `for (k = i; k < i + n; ++k) body(k);`
  unfoldable pub loop_from : ℕ → ℕ → (ℕ → S → Option S) → S → Option S
  loop_from i zero body s = some s
  loop_from i (suc n) body s = do s' ← body i s; loop_from (suc i) n body s'

  pub loop_from-zero : (i : ℕ) (body : ℕ → S → Option S) (s : S) → loop_from i 0 body s ≡ some s
  unfolding loop_from
  loop_from-zero i body s = refl

  pub loop_from-suc :
      (i n : ℕ) (body : ℕ → S → Option S) (s : S)
      → loop_from i (suc n) body s ≡ (body i s >>= loop_from (suc i) n body)
  unfolding loop_from
  loop_from-suc i n body s = refl

  -- `for (k = 0; k < n; ++k) body(k);`
  abbrev pub for_loop : ℕ → (ℕ → S → Option S) → S → Option S
  for_loop n body s = loop_from 0 n body s

  -- A loop goes through the states of a family that each round moves one further.
  pub loop_from-states :
      (i n : ℕ) (body : ℕ → S → Option S) (state : ℕ → S)
      → ((k : ℕ) → i ≤ k → k < i + n → body k (state k) ≡ some (state (suc k)))
      → loop_from i n body (state i) ≡ some (state (i + n))
  unfolding loop_from
  loop_from-states i zero body state step = ap (λ k. some (state k)) (omega arith)
  loop_from-states i (suc n) body state step =
      rw (step i (omega arith) (omega arith), loop_from)
        (loop_from-states (suc i) n body state (λ k le lt. step k (omega arith) (omega arith))
          ∙ ap (λ k. some (state k)) (omega arith))

  pub for_loop-states :
      (n : ℕ) (body : ℕ → S → Option S) (state : ℕ → S)
      → ((k : ℕ) → k < n → body k (state k) ≡ some (state (suc k)))
      → for_loop n body (state 0) ≡ some (state n)
  for_loop-states n body state step =
      loop_from-states 0 n body state (λ k le lt. step k (omega arith))
      ∙ ap (λ k. some (state k)) (omega arith)

  pub for_loop-once :
      (body : ℕ → S → Option S) (s t : S) → body 0 s ≡ some t → for_loop 1 body s ≡ some t
  unfolding loop_from
  for_loop-once body s t e = rw (e)

  -- Bodies that agree within the bounds make the same loop.
  pub loop_from_ext :
      (i n : ℕ) (f g : ℕ → S → Option S)
      → ((k : ℕ) → i ≤ k → k < i + n → f k ≡ g k)
      → loop_from i n f ≡ loop_from i n g
  unfolding loop_from
  loop_from_ext i zero f g h = refl
  loop_from_ext i (suc n) f g h =
      ap₂ {C = S → Option S} (λ (b : S → Option S) (l : S → Option S) s. b s >>= l)
        (h i (omega arith) (omega arith))
        (loop_from_ext (suc i) n f g (λ k le lt. h k (omega arith) (omega arith)))

module _ {ℓ} {A : Type ℓ} where
  -- The list of f(i), f(i + 1), and so on.
  abbrev pub tabulate_from : ℕ → ℕ → (ℕ → A) → List A
  tabulate_from i zero f = []
  tabulate_from i (suc n) f = f i ∷ tabulate_from (suc i) n f

  pub length-tabulate_from : (i n : ℕ) (f : ℕ → A) → length (tabulate_from i n f) ≡ n
  length-tabulate_from i zero f = refl
  length-tabulate_from i (suc n) f = ap suc (length-tabulate_from (suc i) n f)

  pub tabulate_from_ext :
      (i n : ℕ) (f g : ℕ → A)
      → ((k : ℕ) → i ≤ k → k < i + n → f k ≡ g k)
      → tabulate_from i n f ≡ tabulate_from i n g
  tabulate_from_ext i zero f g h = refl
  tabulate_from_ext i (suc n) f g h =
      ap (λ a. a ∷ tabulate_from (suc i) n f) (h i (omega arith) (omega arith))
      ∙ ap (λ l. g i ∷ l)
          (tabulate_from_ext (suc i) n f g (λ k le lt. h k (omega arith) (omega arith)))

  pub get_elem?-tabulate_from :
      (i n : ℕ) (f : ℕ → A) (x : ℕ) → x < n → get_elem? (tabulate_from i n f) x ≡ some (f (i + x))
  get_elem?-tabulate_from i zero f x h = absurd (omega arith)
  get_elem?-tabulate_from i (suc n) f zero h = ap (λ k. some (f k)) (omega arith)
  get_elem?-tabulate_from i (suc n) f (suc x) h =
      get_elem?-tabulate_from (suc i) n f x (omega arith) ∙ ap (λ k. some (f k)) (omega arith)

  abbrev pub update : (ℕ → A) → ℕ → A → ℕ → A
  update f i v k = if k == i then v else f k

  update_self : (f : ℕ → A) (i x : ℕ) (v : A) → x ≡ i → v ≡ update f x v i
  update_self f i x v h = ground arith

  update_other : (f : ℕ → A) (i x : ℕ) (v : A) → i ≢ x → f i ≡ update f x v i
  update_other f i x v h = ground arith

  pub set-tabulate_from :
      (i n : ℕ) (f : ℕ → A) (x : ℕ) (v : A)
      → x < n
      → set (tabulate_from i n f) x v ≡ tabulate_from i n (update f (i + x) v)
  set-tabulate_from i zero f x v h = absurd (omega arith)
  set-tabulate_from i (suc n) f zero v h = ap₂ (◌∷◌) (update_self f i (i + 0) v (omega arith)) (
      tabulate_from_ext (suc i) n f (update f (i + 0) v)
        (λ k le lt. update_other f k (i + 0) v (λ e. omega arith)))
  set-tabulate_from i (suc n) f (suc x) v h =
      ap₂ (◌∷◌) (update_other f i (i + suc x) v (λ e. omega arith)) (
        set-tabulate_from (suc i) n f x v (omega arith)
        ∙ ap (λ y. tabulate_from (suc i) n (update f y v)) (omega arith))
