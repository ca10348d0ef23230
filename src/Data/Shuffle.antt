-- ===== src/Data/Shuffle.antt =====
-- tools/data.c: what becomes of the labels in `shuffle`.
use zfl.Base.{
  ℕ, zero, suc, ◌+◌, ◌-◌, ◌*◌, ◌≤◌, ◌≡◌, refl, sym, ap, ap₂, ◌∙◌, Option, none, some, [], ◌∷◌, ◌++◌,
  ◌>>=◌, ◌==◌, if◌then◌else◌, Bytes, length, take, drop, get_elem?, for_loop, loop_from,
  loop_from-zero, loop_from-suc, length-append, take-append, drop-append, length-take, append-nil,
  append_assoc, leb_of_le, drop_all, false, arith,
}
use zfl.Memory.{write}
use zfl.Data.{Buffers, filled, shuffle_image, shuffle_one, shuffle}

get_elem?-behind :
    (w tail : Bytes) (x i : ℕ) → length w ≡ i → get_elem? (w ++ (x ∷ tail)) i ≡ some x
get_elem?-behind [] tail x zero e = refl
get_elem?-behind [] tail x (suc i) e = absurd (omega arith)
get_elem?-behind (b ∷ w) tail x zero e = absurd (omega arith)
get_elem?-behind (b ∷ w) tail x (suc i) e = get_elem?-behind w tail x i (omega arith)

drop-behind : (w tail : Bytes) (x i : ℕ) → length w ≡ i → drop (i + 1) (w ++ (x ∷ tail)) ≡ tail
drop-behind w tail x i e =
    ap (drop (i + 1)) (sym (append_assoc w (x ∷ []) tail))
    ∙ drop-append (w ++ (x ∷ [])) tail (i + 1) (omega (arith, length-append w (x ∷ [])))

write-behind :
    (w tail : Bytes) (x y i : ℕ)
    → length w ≡ i
    → write (w ++ (x ∷ tail)) i (y ∷ []) ≡ some (w ++ (y ∷ tail))
unfolding write
write-behind w tail x y i e =
    rw (leb_of_le (i + 1) (length (w ++ (x ∷ tail))) (omega (arith, length-append w (x ∷ tail)))) (
      ap₂ (λ a b. some (a ++ (y ∷ b))) (take-append w (x ∷ tail) i (sym e))
        (drop-behind w tail x i e))

module _ (rand : ℕ → ℕ) (n_images image_size : ℕ) where
  -- The loop without the labels: the ones written, the images, and `temp`.
  abbrev written_from : ℕ → ℕ → Buffers → Option Buffers
  written_from i zero s = some s
  written_from i (suc n) (w, images, temp) = get_elem? temp 0 >>= λ junk.
      shuffle_image rand n_images image_size i images >>= λ p.
      written_from (suc i) n (w ++ (junk ∷ []), p.0, p.1)

  shuffle_one-written :
      (i : ℕ) (w tail images temp : Bytes) (x : ℕ)
      → length w ≡ i
      → shuffle_one rand n_images image_size i (w ++ (x ∷ tail), images, temp) ≡ (
          get_elem? temp 0 >>= λ junk. shuffle_image rand n_images image_size i images >>= λ p.
          some (w ++ (junk ∷ tail), p.0, p.1))
  unfolding shuffle_one
  shuffle_one-written i w tail images temp x e =
      ap (λ o. o >>= λ temp_label. get_elem? temp 0 >>= with_label) (get_elem?-behind w tail x i e)
      ∙ either (get_elem? temp 0)
    where
      with_label : ℕ → Option Buffers
      with_label junk = write (w ++ (x ∷ tail)) i (junk ∷ []) >>= λ labels'.
          shuffle_image rand n_images image_size i images >>= λ p. some (labels', p.0, p.1)

      either :
          (o : Option ℕ)
          → (o >>= with_label) ≡ (
              o >>= λ junk. shuffle_image rand n_images image_size i images >>= λ p.
              some (w ++ (junk ∷ tail), p.0, p.1))
      either none = refl
      either (some junk) =
          ap
            (λ o. o >>= λ labels'.
              shuffle_image rand n_images image_size i images >>= λ p. some (labels', p.0, p.1))
            (write-behind w tail x junk i e)

  loop-written :
      (i n : ℕ) (w l images temp : Bytes)
      → length w ≡ i
      → n ≤ length l
      → loop_from i n (shuffle_one rand n_images image_size) (w ++ l, images, temp)
        ≡ (written_from i n (w, images, temp) >>= λ s. some (s.0 ++ drop n l, s.1, s.2))
  loop-written i zero w l images temp e h = loop_from-zero i _ _
  loop-written i (suc n) w [] images temp e h = absurd (omega arith)
  loop-written i (suc n) w (x ∷ l) images temp e h =
      loop_from-suc i n (shuffle_one rand n_images image_size) (w ++ (x ∷ l), images, temp)
      ∙ ap (λ o. o >>= loop_from (suc i) n (shuffle_one rand n_images image_size))
          (shuffle_one-written i w l images temp x e)
      ∙ go_on (get_elem? temp 0) (shuffle_image rand n_images image_size i images) (λ junk p.
        loop-written (suc i) n (w ++ (junk ∷ [])) l (p.0) (p.1)
          (omega (arith, length-append w (junk ∷ []))) (omega arith))
    where
      loop : Buffers → Option Buffers
      loop = loop_from (suc i) n (shuffle_one rand n_images image_size)

      finish : Buffers → Option Buffers
      finish s = some (s.0 ++ drop n l, s.1, s.2)

      go_on :
          (o : Option ℕ) (q : Option (Bytes × Bytes))
          → ((junk : ℕ) (p : Bytes × Bytes)
              → loop ((w ++ (junk ∷ [])) ++ l, p.0, p.1)
                ≡ (written_from (suc i) n (w ++ (junk ∷ []), p.0, p.1) >>= finish))
          → ((o >>= λ junk. q >>= λ p. some (w ++ (junk ∷ l), p.0, p.1)) >>= loop) ≡ (
              (o >>= λ junk. q >>= λ p. written_from (suc i) n (w ++ (junk ∷ []), p.0, p.1))
              >>= finish)
      go_on none q again = refl
      go_on (some junk) none again = refl
      go_on (some junk) (some p) again =
          ap (λ u. loop (u, p.0, p.1)) (sym (append_assoc w (junk ∷ []) l)) ∙ again junk p

last_label :
    (w rest : Bytes) (x : ℕ) → drop (length w) (take (suc (length w)) (w ++ (x ∷ rest))) ≡ x ∷ []
last_label [] rest x = refl
last_label (b ∷ w) rest x = last_label w rest x

filled_enough :
    (fresh : ℕ → Bytes) (n : ℕ) (file : Bytes)
    → ((k : ℕ) → length (fresh k) ≡ k)
    → n ≤ length file
    → filled fresh n file ≡ take n file
filled_enough fresh n file size h =
    ap (λ l. take n file ++ l)
      (drop_all (length (take n file)) (fresh n) (omega (arith, size n, length-take n file h)))
    ∙ append-nil (take n file)

-- The labels that stay behind those written, and the two files.
abbrev with_labels : Bytes → Buffers → Option Buffers
with_labels l s = some (s.0 ++ l, s.1, s.2)

abbrev files : Buffers → Option (Bytes × Bytes)
files s = some (s.1, s.0)

shuffle-written :
    (rand : ℕ → ℕ) (n image_size : ℕ) (fresh : ℕ → Bytes) (images w rest : Bytes) (x : ℕ)
    → ((k : ℕ) → length (fresh k) ≡ k)
    → length w ≡ n
    → shuffle rand (suc n) image_size fresh images (w ++ (x ∷ rest)) ≡ (
        (written_from rand
            (suc n)
            image_size
            0
            n
            ([], filled fresh (suc n * image_size) images, fresh image_size)
          >>= with_labels (x ∷ []))
        >>= files)
unfolding shuffle
shuffle-written rand n image_size fresh images w rest x size e =
    ap (λ b. if b then none else after (suc n - 1) labels) (positive n)
    ∙ ap (λ k. after k labels) (omega arith)
    ∙ ap (after n) (
        filled_enough fresh (suc n) (w ++ (x ∷ rest)) size
          (omega (arith, length-append w (x ∷ rest))))
    ∙ ap (λ o. o >>= files)
        (loop-written rand (suc n) image_size 0 n [] (take (suc n) (w ++ (x ∷ rest)))
          (filled fresh (suc n * image_size) images) (fresh image_size) refl
          (omega (
            arith,
            length-take (suc n) (w ++ (x ∷ rest)) (omega (arith, length-append w (x ∷ rest))),
          )))
    ∙ ap
        (λ l.
          (written_from rand (suc n) image_size 0 n
              ([], filled fresh (suc n * image_size) images, fresh image_size)
            >>= with_labels l)
          >>= files)
        (ap (λ k. drop k (take (suc k) (w ++ (x ∷ rest)))) (sym e) ∙ last_label w rest x)
  where
    positive : (k : ℕ) → (suc k == 0) ≡ false
    positive k = ground arith

    labels : Bytes
    labels = filled fresh (suc n) (w ++ (x ∷ rest))

    after : ℕ → Bytes → Option (Bytes × Bytes)
    after k l =
        for_loop k (shuffle_one rand (suc n) image_size)
          (l, filled fresh (suc n * image_size) images, fresh image_size)
        >>= files

-- The labels that `shuffle` writes do not depend on the labels, but for the last one: of two files of
-- labels, both long enough, with the same byte in the last place, it makes the same files.
pub shuffle-last_label :
    (rand : ℕ → ℕ) (image_size : ℕ) (fresh : ℕ → Bytes) (images w w' rest rest' : Bytes) (x : ℕ)
    → ((k : ℕ) → length (fresh k) ≡ k)
    → length w' ≡ length w
    → shuffle rand (suc (length w)) image_size fresh images (w ++ (x ∷ rest))
      ≡ shuffle rand (suc (length w)) image_size fresh images (w' ++ (x ∷ rest'))
shuffle-last_label rand image_size fresh images w w' rest rest' x size e =
    shuffle-written rand (length w) image_size fresh images w rest x size refl
    ∙ sym (shuffle-written rand (length w) image_size fresh images w' rest' x size e)
