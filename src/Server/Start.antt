-- ===== src/Server/Start.antt =====
-- zflserver/src/main.c: `main` up to the sockets, the threads and the window: the settings, the test set
-- and the first network. What fread delivers of a file is a list of chunks; opening files does not fail.
use native.Mathlib.Nat.{mul-div_cancel}
use mathlib.Core.List.{flatten}
use zfl.Base.{
  ℕ, zero, suc, ◌*◌, ◌/◌, ◌≤◌, ◌<◌, ◌≡◌, refl, sym, ap, ap₂, ◌∙◌, Bool, Option, none, some, List,
  [], ◌∷◌, ◌>>=◌, ◌==◌, ==_iff, not, if◌then◌else◌, Bytes, length, take, get_elem?, tabulate_from,
  length-tabulate_from, get_elem?-tabulate_from, All, arith,
}
use zfl.StringBuilder.{StringBuilder, contents, sb_init, append_all}
use zfl.StringBuilder.Laws.{IsValid, sb_init-IsValid, append_all-contents, length-contents}
use zfl.Common.{Floats, Math, arch}
use zfl.Network.Matrix.{Mat}
use zfl.Network.Forward.{Nn}
use zfl.Network.Forward.Rows.{labelled}
use zfl.Network.Learn.{init_nn}
use zfl.Network.TrainSet.{
  img_size, init_train_set, init_train_set-labelled, pixel_values, label_values,
}

module _ (fresh : ℕ → Bytes) (floats : Floats) (math : Math (floats.Float))
    (fresh_floats : ℕ → ℕ → floats.Float) where
  open floats use {Float}

  -- The loops that read the two files, the assertion on the sizes, and the test set of 10000 pictures,
  -- whatever the files hold. `none` is the failed assertion, or a read outside of a block.
  unfoldable pub load_test_set : List Bytes → List Bytes → Option (Mat floats)
  load_test_set image_chunks label_chunks = do
    images ← append_all fresh (sb_init fresh 1024) image_chunks
    labels ← append_all fresh (sb_init fresh 1024) label_chunks
    (if images.size / img_size == labels.size
        then init_train_set floats math fresh_floats images.buf labels.buf 10000
        else none)

  -- The globals behind the start.
  pub record Started : Type 0 where
    pub num_rounds : ℕ
    pub clients_per_round : ℕ
    pub emulate_loss : Bool
    pub test_set : Mat floats
    pub nn : Nn floats

  -- The inner `none` is the result -1. `rands` are the random values of the network.
  unfoldable pub main :
      (Bytes → ℕ) → (ℕ → ℕ → Float) → List Bytes → List Bytes → List Bytes → Option (Option Started)
  main atoi rands image_chunks label_chunks (name ∷ rounds ∷ clients ∷ emulate ∷ []) = do
    test_set ← load_test_set image_chunks label_chunks
    nn ←
        init_nn floats math fresh_floats arch rands (record { ws = []; bs = []; as_rows = [] }) none
          none
    some (
        some (record {
          num_rounds = atoi rounds;
          clients_per_round = atoi clients;
          emulate_loss = not (atoi emulate == 0);
          test_set = test_set;
          nn = nn;
        }))
  main atoi rands image_chunks label_chunks _ = some none

  get_elem?-take : (n k : ℕ) (l : Bytes) → k < n → get_elem? (take n l) k ≡ get_elem? l k
  get_elem?-take zero k l h = absurd (omega arith)
  get_elem?-take (suc n) k [] h = refl
  get_elem?-take (suc n) zero (b ∷ l) h = refl
  get_elem?-take (suc n) (suc k) (b ∷ l) h = get_elem?-take n k l (omega arith)

  -- The block of a builder, where its text is given by a function.
  block_at :
      (sb : StringBuilder) (n : ℕ) (f : ℕ → ℕ)
      → IsValid sb
      → contents sb ≡ tabulate_from 0 n f
      → (sb.size ≡ n) × ((k : ℕ) → k < n → get_elem? sb.buf k ≡ some (f k))
  block_at sb n f valid e =
      let size = sym (length-contents sb valid) ∙ ap length e ∙ length-tabulate_from 0 n f in
      (
        size,
        λ k h.
            sym (get_elem?-take sb.size k sb.buf (omega arith))
            ∙ ap (λ l. get_elem? l k) e
            ∙ get_elem?-tabulate_from 0 n f k h
            ∙ ap (λ i. some (f i)) (omega arith),
      )

  within : (k n : ℕ) → k < 10000 * img_size → 10000 ≤ n → k < n * img_size
  within k n h enough = omega arith

  trans_lt : (k n : ℕ) → k < 10000 → 10000 ≤ n → k < n
  trans_lt k n h enough = omega arith

  -- From files of `n` pictures and `n` labels, 10000 or more, in chunks of at most 1024 bytes, the test
  -- set is read without an overflow, and has the first 10000: row i has the bytes of picture i divided
  -- by 255, and behind them a 1 in the column of label i and 0 in the other nine.
  pub load_test_set-labelled :
      (fresh_size : (k : ℕ) → length (fresh k) ≡ k) (n : ℕ) (pixels labels : ℕ → ℕ)
      (image_chunks label_chunks : List Bytes)
      → 10000 ≤ n
      → All (λ chunk. length chunk ≤ 1024) image_chunks
      → All (λ chunk. length chunk ≤ 1024) label_chunks
      → flatten image_chunks ≡ tabulate_from 0 (n * img_size) pixels
      → flatten label_chunks ≡ tabulate_from 0 n labels
      → load_test_set image_chunks label_chunks
        ≡ some (
            labelled floats math 10000 img_size 10
              (pixel_values floats math pixels labels)
              (label_values floats math pixels labels))
  unfolding load_test_set sb_init
  load_test_set-labelled fresh_size n pixels labels image_chunks label_chunks enough small small' is
        is' =
      let (valid, empty) = sb_init-IsValid fresh fresh_size 1024 in
      let (images, e, t, v, c) =
        append_all-contents fresh fresh_size image_chunks (sb_init fresh 1024) 1024 valid
          (omega arith) small in
      let (answers, e', t', v', c') =
        append_all-contents fresh fresh_size label_chunks (sb_init fresh 1024) 1024 valid
          (omega arith) small' in
      let (size, at) = block_at images (n * img_size) pixels v (t ∙ is) in
      let (size', at') = block_at answers n labels v' (t' ∙ is') in
      ap₂
        (λ o p. o >>= λ x. p >>= λ y.
          if x.size / img_size == y.size
          then init_train_set floats math fresh_floats x.buf y.buf 10000
          else none)
        e e'
      ∙ ap
          (λ b.
            if b
            then init_train_set floats math fresh_floats images.buf answers.buf 10000
            else none)
          ((==_iff (images.size / img_size) (answers.size)).1
            (ap (λ k. k / img_size) size ∙ mul-div_cancel n (omega arith) ∙ sym size'))
      ∙ init_train_set-labelled floats math pixels labels images.buf answers.buf 10000
          (λ k h. at k (within k n h enough)) (λ k h. at' k (trans_lt k n h enough)) fresh_floats
