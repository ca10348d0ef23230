-- ===== src/Network/Laws.antt =====
-- nn.h: blocks of a region do not overlap.
use native.Mathlib.Nat.{mod-lt, div-add-mod}
use zfl.Base.{ℕ, ◌+◌, ◌*◌, ◌-◌, ◌≤◌, ◌<◌, ◌≡◌, refl, some, List, [], ◌∷◌, leb_of_le, arith}
use zfl.Network.{Region, size_words, region_alloc, alloc_all}

-- The words of a block hold its bytes.
size_words-enough : (word_size n : ℕ) → 0 < word_size → n ≤ word_size * size_words word_size n
size_words-enough word_size n positive =
    rounded (n + word_size - 1) word_size positive refl (div-add-mod (n + word_size - 1) word_size)
      (mod-lt (n + word_size - 1) positive)
  where
    rounded : (m w : ℕ) {q r : ℕ} → 0 < w → m ≡ n + w - 1 → q + r ≡ m → r < w → n ≤ q
    rounded m w h e f g = omega arith

module _ (word_size : ℕ) where
  -- Blocks of these sizes in bytes that begin at these words, from the word `at` on: each holds its bytes
  -- before the next one begins, and the last one before the word `end`.
  abbrev pub Laid : ℕ → ℕ → List ℕ → List ℕ → Type 0
  Laid at end [] [] = at ≤ end
  Laid at end (size ∷ sizes) (start ∷ starts) =
      (at ≤ start)
      × Laid (start + size_words word_size size) end sizes starts
      × (size ≤ word_size * size_words word_size size)
  Laid at end _ _ = ⊥

  abbrev pub total_words : List ℕ → ℕ
  total_words [] = 0
  total_words (size ∷ sizes) = size_words word_size size + total_words sizes

  region_alloc_room :
      (r : Region) (size : ℕ)
      → r.size + size_words word_size size ≤ r.capacity
      → region_alloc word_size r size
        ≡ some (r.size, record r { size = r.size + size_words word_size size })
  unfolding region_alloc
  region_alloc_room r size h = rw (leb_of_le _ _ h) refl

  -- With words of any size, allocations that fit what is left of a region all succeed, at blocks that do
  -- not overlap, that hold their bytes, and that end within the capacity.
  pub alloc_all-Laid :
      (r : Region) (sizes : List ℕ)
      → 0 < word_size
      → r.size + total_words sizes ≤ r.capacity
      → (starts : List ℕ) × (r' : Region) × (alloc_all word_size r sizes ≡ some (starts, r'))
        × Laid r.size r'.size sizes starts
        × (r'.size ≤ r.capacity)
        × (r'.capacity ≡ r.capacity)
  unfolding alloc_all
  alloc_all-Laid r [] positive h = ([], r, refl, omega arith, omega arith, refl)
  alloc_all-Laid r (size ∷ sizes) positive h =
      let r1 = record r { size = r.size + size_words word_size size } in
      let (starts, r', rest, laid, fits, same) = alloc_all-Laid r1 sizes positive (omega arith) in
      (
        r.size ∷ starts,
        r',
        rw (region_alloc_room r size (omega arith), rest) refl,
        (omega arith, laid, size_words-enough word_size size positive),
        fits,
        same,
      )
