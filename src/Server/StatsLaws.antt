-- ===== src/Server/StatsLaws.antt =====
-- zflserver/src/main.c: which entries `update_stats` changes, and when it has none to change.
use zfl.Base.{
  ℕ, zero, suc, ◌%◌, ◌^◌, leb, leb_of_lt, ltb_of_lt, ◌≤◌, ◌<◌, ◌≡◌, refl, ap, ◌∙◌, true, false,
  Option, none, some, List, [], ◌∷◌, ◌++◌, ◌>>=◌, length, get_elem?, set, if◌then◌else◌, arith,
  length-append,
}
use zfl.Common.Payload.{Stats}
use zfl.Server.Results.{put_at, int_ltb, update_stats}

module _ {ℓ} {A : Type ℓ} where
  get_elem?_out : (l : List A) (n : ℕ) → length l ≤ n → get_elem? l n ≡ none
  get_elem?_out [] n h = refl
  get_elem?_out (a ∷ l) zero h = absurd (omega arith)
  get_elem?_out (a ∷ l) (suc n) h = get_elem?_out l n (omega arith)

  get_elem?-append : (k l : List A) (n : ℕ) → n < length k → get_elem? (k ++ l) n ≡ get_elem? k n
  get_elem?-append [] l n h = absurd (omega arith)
  get_elem?-append (a ∷ k) l zero h = refl
  get_elem?-append (a ∷ k) l (suc n) h = get_elem?-append k l n (omega arith)

abbrev pub or_empty : Option (List Stats) → List Stats
or_empty none = []
or_empty (some row) = row

-- The entry of a round: no statistics where the table is too short.
abbrev pub row_of : List (List Stats) → ℕ → List Stats
row_of rows n = or_empty (get_elem? rows n)

abbrev enlarged : List (List Stats) → ℕ → List (List Stats)
enlarged rows n = if int_ltb (length rows % 2 ^ 32) (suc n) then rows ++ ([] ∷ []) else rows

-- On words that are not negative, `int_ltb` is `<`.
int_ltb_of_lt : (m n : ℕ) → m < n → n < 2 ^ 31 → int_ltb (m % 2 ^ 32) n ≡ true
int_ltb_of_lt m n h small = ltb_of_lt _ _ (omega arith)

length-enlarged_short :
    (rows : List (List Stats)) (n : ℕ)
    → length rows < n
    → suc n < 2 ^ 31
    → length (enlarged rows n) ≤ n
length-enlarged_short rows n h small =
    rw (int_ltb_of_lt (length rows) (suc n) (omega arith) small)
      (omega (arith, length-append rows ([] ∷ [])))

positive_int : (n : ℕ) → suc n < 2 ^ 31 → leb (2 ^ 31) (suc n) ≡ false
positive_int n h = leb_of_lt _ _ h

-- The statistics for a round behind the first one that has no entry are written outside of the table,
-- where the round number is an int above 0: only one entry is added.
pub update_stats-none :
    (rows : List (List Stats)) (s : Stats) (n : ℕ)
    → length rows < n
    → suc n < 2 ^ 31
    → update_stats rows s (suc n) ≡ none
unfolding update_stats
update_stats-none rows s n h small =
    ap (λ b. if b then none else put_at (enlarged rows n) n s) (positive_int n small)
    ∙ ap (λ o. o >>= λ r. some (set (enlarged rows n) n (r ++ (s ∷ []))))
        (get_elem?_out (enlarged rows n) n (length-enlarged_short rows n h small))
