-- ===== src/DynamicArray/Laws.antt =====
-- da.h: `da_put` appends, inside the block, and the capacity stays within twice the length.
use zfl.Base.{
  ℕ, ◌+◌, ◌*◌, ◌≤◌, ◌<◌, ◌≡◌, refl, sym, ap, ◌∙◌, some, List, [], ◌∷◌, ◌++◌, inl, inr, leb, false,
  Bool-cases, arith, length, take,
}
use zfl.Memory.{length-realloc, take-realloc, store_lem}
use zfl.DynamicArray.{
  Array, null, header, da_len, da_cap, cells_of, elements, grown_cap, required, arrgrowf, push_back,
  da_put,
}

module _ {ℓ} {A : Type ℓ} where
  -- The length fits the capacity, the block has that many cells, and little of it is unused.
  pub record IsValid (a : Array A) : Type 0 where
    pub fits : da_len a ≤ da_cap a
    pub block : length (cells_of a) ≡ da_cap a
    pub tight : da_cap a ≤ 2 * da_len a + 4

  pub null-IsValid : IsValid null
  unfolding da_len da_cap
  null-IsValid = record { fits = omega arith; block = refl; tight = omega arith }

-- What growing by one cell does.
record Grown {ℓ} {A : Type ℓ} (a b : Array A) : Type ℓ where
  same_len : da_len b ≡ da_len a
  room : da_len a < da_cap b
  block : length (cells_of b) ≡ da_cap b
  kept : take (da_len a) (cells_of b) ≡ take (da_len a) (cells_of a)
  tight : da_cap b ≤ 2 * (da_len a + 1) + 4

grown_cap_bounds :
    (len old_cap : ℕ)
    → len ≤ old_cap
    → leb (len + 1) old_cap ≡ false
    → (len < grown_cap (len + 1) old_cap)
      × (old_cap ≤ grown_cap (len + 1) old_cap)
      × (grown_cap (len + 1) old_cap ≤ 2 * (len + 1) + 4)
unfolding grown_cap
grown_cap_bounds len old_cap h e = ground arith

module _ {ℓ} {A : Type ℓ} where
  elements-take : (a : Array A) → elements a ≡ take (da_len a) (cells_of a)
  unfolding elements da_len
  elements-take null = refl
  elements-take (header h) = refl

  required_one : (a : Array A) → required a 1 0 ≡ da_len a + 1
  required_one a = ground arith

  -- A store behind the elements of an array that has room appends.
  push_back-elements :
      (b : Array A) (e : A)
      → da_len b < da_cap b
      → length (cells_of b) ≡ da_cap b
      → (c : Array A) × (push_back b e ≡ some c)
        × (elements c ≡ elements b ++ (e ∷ []))
        × (da_len c ≡ da_len b + 1)
        × (da_cap c ≡ da_cap b)
        × (length (cells_of c) ≡ da_cap c)
  unfolding push_back elements da_len da_cap
  push_back-elements null e room block = absurd (omega arith)
  push_back-elements (header h) e room block =
      let (stored, ok, size, kept) = store_lem h.cells h.len e (omega arith) in
      (header (record h { len = h.len + 1; cells = stored }), rw ok, kept, refl, refl, omega arith)

module _ {ℓ} {A : Type ℓ} (fresh : ℕ → List A) (fresh_size : (n : ℕ) → length (fresh n) ≡ n) where
  arrgrowf-Grown : (a : Array A) → IsValid a → Grown a (arrgrowf fresh a 1 0)
  unfolding arrgrowf
  arrgrowf-Grown a v = elim (Bool-cases (leb (da_len a + 1) (da_cap a))) [
    | inl room ↦
        rw (required_one a, room)
          (record {
            same_len = refl;
            room = ground arith;
            block = v.block;
            kept = refl;
            tight = omega (arith, v.tight);
          })
    | inr full ↦
        let (more, larger, tight) = grown_cap_bounds (da_len a) (da_cap a) v.fits full in
        rw (required_one a, full)
          (record {
            same_len = refl;
            room = more;
            block = length-realloc fresh (cells_of a) _ (fresh_size _) (omega (arith, v.block));
            kept =
                take-realloc fresh (cells_of a) (da_len a) _ (omega (arith, v.block, v.fits))
                  (omega (arith, v.block));
            tight = tight;
          })
  ]

  -- `da_put` on a valid array, NULL included, never writes outside the block: it appends the
  -- element behind those there are, and the array stays valid, its capacity within twice its
  -- length and four.
  pub da_put-elements :
      (a : Array A) (e : A)
      → IsValid a
      → (b : Array A) × (da_put fresh a e ≡ some b)
        × (elements b ≡ elements a ++ (e ∷ []))
        × (da_len b ≡ da_len a + 1)
        × IsValid b
  unfolding da_put
  da_put-elements a e v =
      let g = arrgrowf-Grown a v in
      let b = arrgrowf fresh a 1 0 in
      let (c, ok, text, len, same_cap, block) =
        push_back-elements b e (omega (arith, g.room, g.same_len)) g.block in
      (
        c,
        ok,
        text
            ∙ ap (λ l. l ++ (e ∷ []))
                (elements-take b ∙ rw g.same_len (g.kept ∙ sym (elements-take a))),
        omega (arith, g.same_len),
        record {
          fits = omega (arith, g.same_len, g.room);
          block = block;
          tight = omega (arith, g.same_len, g.tight);
        },
      )
