-- ===== src/Base/Lists.antt =====
-- Lists measured by the native numbers, and byte lists.
use Prim.Native.Nat.{ℕ, zero, suc, ◌+◌, ◌-◌, ◌≤◌}
use Prim.Native.Char.{code}
use Prim.Native.String.{String}
use mathlib.Core.Path.{◌≡◌, refl, ap, ◌∙◌}
use mathlib.Core.List.{List, [], ◌∷◌, ◌++◌}
use mathlib.Core.Option.{Option, none, some}
use native.Mathlib.Omega.{arith}

abbrev pub Bytes : Type 0
Bytes = List ℕ

-- The bytes of an ASCII literal.
abbrev pub codes : String → Bytes
codes String.[] = []
codes (String.◌∷◌ c s) = code c ∷ codes s

module _ {ℓ} {A : Type ℓ} where
  abbrev pub length : List A → ℕ
  length [] = 0
  length (a ∷ l) = suc (length l)

  abbrev pub take : ℕ → List A → List A
  take zero l = []
  take (suc n) [] = []
  take (suc n) (a ∷ l) = a ∷ take n l

  abbrev pub drop : ℕ → List A → List A
  drop zero l = l
  drop (suc n) [] = []
  drop (suc n) (a ∷ l) = drop n l

  abbrev pub get_elem? : List A → ℕ → Option A
  get_elem? [] i = none
  get_elem? (a ∷ l) zero = some a
  get_elem? (a ∷ l) (suc i) = get_elem? l i

  abbrev pub set : List A → ℕ → A → List A
  set [] i v = []
  set (a ∷ l) zero v = v ∷ l
  set (a ∷ l) (suc i) v = a ∷ set l i v

  abbrev pub replicate : ℕ → A → List A
  replicate zero a = []
  replicate (suc n) a = a ∷ replicate n a

  -- A predicate of every member.
  abbrev pub All {κ} : (A → Type κ) → List A → Type κ
  All P [] = Unit
  All P (a ∷ l) = P a × All P l

module _ {ℓ} {A : Type ℓ} where
  pub length-append : (k l : List A) → length (k ++ l) ≡ length k + length l
  length-append [] l = omega arith
  length-append (a ∷ k) l = omega (arith, length-append k l)

  pub length-take : (n : ℕ) (l : List A) → n ≤ length l → length (take n l) ≡ n
  length-take zero l h = refl
  length-take (suc n) [] h = absurd (omega arith)
  length-take (suc n) (a ∷ l) h = ap suc (length-take n l (omega arith))

  pub get_elem?-drop : (n k : ℕ) (l : List A) → get_elem? (drop n l) k ≡ get_elem? l (n + k)
  get_elem?-drop zero k l = ap (get_elem? l) (omega arith)
  get_elem?-drop (suc n) k [] = refl
  get_elem?-drop (suc n) k (a ∷ l) =
      get_elem?-drop n k l ∙ ap (get_elem? (a ∷ l)) {x = suc (n + k)} (omega arith)

  pub length-drop : (n : ℕ) (l : List A) → length (drop n l) ≡ length l - n
  length-drop zero l = omega arith
  length-drop (suc n) [] = omega arith
  length-drop (suc n) (a ∷ l) = omega (arith, length-drop n l)

  pub drop_all : (n : ℕ) (l : List A) → length l ≤ n → drop n l ≡ []
  drop_all zero [] h = refl
  drop_all zero (a ∷ l) h = absurd (omega arith)
  drop_all (suc n) [] h = refl
  drop_all (suc n) (a ∷ l) h = drop_all n l (omega arith)

  pub length-set : (l : List A) (i : ℕ) (v : A) → length (set l i v) ≡ length l
  length-set [] i v = refl
  length-set (a ∷ l) zero v = refl
  length-set (a ∷ l) (suc i) v = ap suc (length-set l i v)

  pub length-replicate : (n : ℕ) (a : A) → length (replicate n a) ≡ n
  length-replicate zero a = refl
  length-replicate (suc n) a = ap suc (length-replicate n a)

  -- What stands in front of a boundary, and behind it.
  pub take-append : (k l : List A) (n : ℕ) → n ≡ length k → take n (k ++ l) ≡ k
  take-append [] l zero e = refl
  take-append [] l (suc n) e = absurd (omega arith)
  take-append (a ∷ k) l zero e = absurd (omega arith)
  take-append (a ∷ k) l (suc n) e = ap (◌∷◌ a) (take-append k l n (omega arith))

  pub drop-append : (k l : List A) (n : ℕ) → n ≡ length k → drop n (k ++ l) ≡ l
  drop-append [] l zero e = refl
  drop-append [] l (suc n) e = absurd (omega arith)
  drop-append (a ∷ k) l zero e = absurd (omega arith)
  drop-append (a ∷ k) l (suc n) e = drop-append k l n (omega arith)

  -- A prefix of a list that goes on behind it.
  pub take-append_le : (k l : List A) (n : ℕ) → n ≤ length k → take n (k ++ l) ≡ take n k
  take-append_le k l zero h = refl
  take-append_le [] l (suc n) h = absurd (omega arith)
  take-append_le (a ∷ k) l (suc n) h = ap (◌∷◌ a) (take-append_le k l n (omega arith))

  pub take-drop : (n : ℕ) (l : List A) → take n l ++ drop n l ≡ l
  take-drop zero l = refl
  take-drop (suc n) [] = refl
  take-drop (suc n) (a ∷ l) = ap (◌∷◌ a) (take-drop n l)

  pub take_all : (l : List A) (n : ℕ) → length l ≤ n → take n l ≡ l
  take_all [] zero h = refl
  take_all [] (suc n) h = refl
  take_all (a ∷ l) zero h = absurd (omega arith)
  take_all (a ∷ l) (suc n) h = ap (◌∷◌ a) (take_all l n (omega arith))

  pub take-take_le : (m n : ℕ) (l : List A) → m ≤ n → take m (take n l) ≡ take m l
  take-take_le zero n l h = refl
  take-take_le (suc m) zero l h = absurd (omega arith)
  take-take_le (suc m) (suc n) [] h = refl
  take-take_le (suc m) (suc n) (a ∷ l) h = ap (◌∷◌ a) (take-take_le m n l (omega arith))

  pub length-concat : (l : List A) (a : A) → length (l ++ (a ∷ [])) ≡ length l + 1
  length-concat l a = length-append l (a ∷ [])

module _ {ℓ κ} {A : Type ℓ} (P : A → Type κ) where
  pub All-append : (k l : List A) → All P k → All P l → All P (k ++ l)
  All-append [] l hk hl = hl
  All-append (a ∷ k) l hk hl = (hk.0, All-append k l hk.1 hl)

  pub All-map {μ} : (Q : A → Type μ) (l : List A) → ((a : A) → P a → Q a) → All P l → All Q l
  All-map Q [] f h = tt
  All-map Q (a ∷ l) f h = (f a h.0, All-map Q l f h.1)
