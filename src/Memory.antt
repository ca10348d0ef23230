-- ===== src/Memory.antt =====
-- Blocks of heap memory as lists, with the C library's calls that sb.h and da.h make on them.
-- What malloc and realloc leave in new cells is unspecified: it is the parameter `fresh`, of which
-- the proofs use only the size. A copy or a store outside the block is a fault, `none`.
use native.Mathlib.Numerals.{add-one}
use zfl.Base.{
  ℕ, zero, suc, ◌+◌, ◌≤◌, ◌<◌, ◌≡◌, refl, ap, Option, some, none, List, ◌++◌, ◌∷◌, [], arith, leb,
  ltb, if◌then◌else◌, length, take, drop, set, length-append, length-take, length-drop, take-append,
  leb_of_le, leb_of_lt, ltb_of_lt, append_assoc, take-append_le, take_all, length-set,
}

module _ {ℓ} {A : Type ℓ} where
  -- `realloc`: the cells up to the smaller size are kept.
  abbrev pub realloc : (ℕ → List A) → List A → ℕ → List A
  realloc fresh block n = take n block ++ drop (length block) (fresh n)

  -- `memcpy(&block[i], cells, length cells)`
  unfoldable pub write : List A → ℕ → List A → Option (List A)
  write block i cells =
      if leb (i + length cells) (length block)
      then some (take i block ++ (cells ++ drop (i + length cells) block))
      else none

  -- `block[i] = v`
  unfoldable pub store : List A → ℕ → A → Option (List A)
  store block i v = if ltb i (length block) then some (set block i v) else none

  pub length-realloc :
      (fresh : ℕ → List A) (block : List A) (n : ℕ)
      → length (fresh n) ≡ n
      → length block ≤ n
      → length (realloc fresh block n) ≡ n
  length-realloc fresh block n e h = rw (take_all block n h) (
      omega (
        arith,
        length-append block (drop (length block) (fresh n)),
        length-drop (length block) (fresh n),
      ))

  -- What a larger block holds of the old one.
  pub take-realloc :
      (fresh : ℕ → List A) (block : List A) (m n : ℕ)
      → m ≤ length block
      → length block ≤ n
      → take m (realloc fresh block n) ≡ take m block
  take-realloc fresh block m n h k = rw (take_all block n k) (take-append_le block _ m h)

  -- A copy that ends inside the block succeeds, keeps the size, and extends what stands before it.
  pub write_lem :
      (block : List A) (i : ℕ) (cells : List A)
      → i + length cells ≤ length block
      → (b : List A) × (write block i cells ≡ some b)
        × (length b ≡ length block)
        × (take (i + length cells) b ≡ take i block ++ cells)
  unfolding write
  write_lem block i cells h = (
    take i block ++ (cells ++ drop (i + length cells) block),
    rw (leb_of_le (i + length cells) (length block) h),
    omega (
      arith,
      length-append (take i block) (cells ++ drop (i + length cells) block),
      length-append cells (drop (i + length cells) block),
      length-take i block (omega arith),
      length-drop (i + length cells) block,
    ),
    rw (← append_assoc) (
        take-append (take i block ++ cells) _ (i + length cells)
          (omega (arith, length-append (take i block) cells, length-take i block (omega arith)))),
  )

  -- One that ends outside is a fault.
  pub write_out :
      (block : List A) (i : ℕ) (cells : List A)
      → length block < i + length cells
      → write block i cells ≡ none
  unfolding write
  write_out block i cells h = rw (leb_of_lt (i + length cells) (length block) h)

  take-set :
      (block : List A) (i : ℕ) (v : A)
      → i < length block
      → take (suc i) (set block i v) ≡ take i block ++ (v ∷ [])
  take-set [] i v h = absurd (omega arith)
  take-set (a ∷ l) zero v h = refl
  take-set (a ∷ l) (suc i) v h = ap (◌∷◌ a) (take-set l i v (omega arith))

  -- A store inside the block extends what stands before it by the value.
  pub store_lem :
      (block : List A) (i : ℕ) (v : A)
      → i < length block
      → (b : List A) × (store block i v ≡ some b)
        × (length b ≡ length block)
        × (take (i + 1) b ≡ take i block ++ (v ∷ []))
  unfolding store
  store_lem block i v h =
      (set block i v, rw (ltb_of_lt i _ h), length-set block i v, rw add-one (take-set block i v h))
