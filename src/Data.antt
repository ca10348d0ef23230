-- ===== src/Data.antt =====
-- tools/data.c: the program that makes the training and test files. An int is its word of 32 bits, and
-- the shifts and masks are divisions; the numbers of the data files are not negative. A file is what is
-- left to read of it, and what is written to one is a list; opening files does not fail. What malloc and
-- the stack hold, and rand, are parameters. `none` is an access outside of a block, a division by 0, or
-- a number of which the file has a part only.
pub mod Shuffle
pub mod Splits
use Prim.Native.Nat.{◌/◌, ◌%◌}
use zfl.Base.{
  ℕ, zero, suc, ◌+◌, ◌-◌, ◌*◌, ◌^◌, ◌<◌, ◌≡◌, Option, none, some, List, [], ◌∷◌, ◌++◌, ◌>>=◌, ◌==◌,
  leb, if◌then◌else◌, Bytes, codes, length, take, drop, get_elem?, for_loop, arith,
}
use zfl.Memory.{write}
use zfl.Common.Payload.{has_prefix}

unfoldable pub reverse_int : ℕ → ℕ
reverse_int i =
    let c1 = i % 256 in
    let c2 = i / 2 ^ 8 % 256 in
    let c3 = i / 2 ^ 16 % 256 in
    let c4 = i / 2 ^ 24 % 256 in (c1 * 2 ^ 24 + c2 * 2 ^ 16 + c3 * 2 ^ 8 + c4) % 2 ^ 32

abbrev pub word : ℕ → ℕ → ℕ → ℕ → ℕ
word a b c d = a * 2 ^ 24 + b * 2 ^ 16 + c * 2 ^ 8 + d

-- The word of four bytes becomes the word of the same bytes in reverse.
pub reverse_int-word :
    (a b c d : ℕ)
    → a < 256
    → b < 256
    → c < 256
    → d < 256
    → reverse_int (word a b c d) ≡ word d c b a
unfolding reverse_int
reverse_int-word a b c d ha hb hc hd = omega arith

-- `fread` of an int, in the byte order of the machine, and `reverseInt`. At the end of the file the int
-- is left.
unfoldable pub read_int : ℕ → Bytes → Option (ℕ × Bytes)
read_int old [] = some (reverse_int old, [])
read_int old (a ∷ b ∷ c ∷ d ∷ rest) = some (reverse_int (word d c b a), rest)
read_int old (a ∷ []) = none
read_int old (a ∷ b ∷ []) = none
read_int old (a ∷ b ∷ c ∷ []) = none

-- The magic number, the number of images, rows and columns, and the file behind them.
unfoldable pub magic : Bytes → Option ((ℕ × ℕ × ℕ × ℕ) × Bytes)
magic file = do
  (magic_number, file1) ← read_int 0 file
  (number_of_images, file2) ← read_int 0 file1
  (n_rows, file3) ← read_int 0 file2
  (n_cols, file4) ← read_int 0 file3
  some ((magic_number, number_of_images, n_rows, n_cols), file4)

-- `fread` into a block of `n` bytes.
abbrev pub filled : (ℕ → Bytes) → ℕ → Bytes → Bytes
filled fresh n file = take n file ++ drop (length (take n file)) (fresh n)

-- `n` bytes of a block from `i` on.
abbrev pub bytes_at : Bytes → ℕ → ℕ → Option Bytes
bytes_at block i n = if leb (i + n) (length block) then some (take n (drop i block)) else none

-- The labels, the images, and `temp`.
abbrev pub Buffers : Type 0
Buffers = Bytes × Bytes × Bytes

module _ (rand : ℕ → ℕ) (n_images image_size : ℕ) where
  -- What an iteration does to the images and to `temp`.
  unfoldable pub shuffle_image : ℕ → Bytes → Option (Bytes × Bytes)
  shuffle_image i images = do
    temp ← bytes_at images (i * image_size) image_size
    moved ← bytes_at images (rand i % n_images * image_size) image_size
    images' ← write images (i * image_size) moved
    some (images', temp)

  -- The loop's body. `temp_label` is not read again.
  unfoldable pub shuffle_one : ℕ → Buffers → Option Buffers
  shuffle_one i (labels, images, temp) = do
    temp_label ← get_elem? labels i
    junk ← get_elem? temp 0
    labels' ← write labels i (junk ∷ [])
    (images', temp') ← shuffle_image i images
    some (labels', images', temp')

  -- The files of images and labels that are written, in this order. With no image the loop does not end
  -- before an access outside of the blocks.
  unfoldable pub shuffle : (ℕ → Bytes) → Bytes → Bytes → Option (Bytes × Bytes)
  shuffle fresh f_images f_labels =
      if n_images == 0
      then none
      else (for_loop (n_images - 1) shuffle_one (
        filled fresh n_images f_labels,
        filled fresh (n_images * image_size) f_images,
        fresh image_size,
      )
          >>= λ s. some (s.1, s.0))

-- `fread` of a byte, which stays at the end of the file.
abbrev pub read_byte : ℕ → Bytes → ℕ × Bytes
read_byte temp [] = (temp, [])
read_byte temp (x ∷ file) = (x, file)

-- The two loops over the pixels of an image: what is written, `temp`, and the rest of the file.
unfoldable pub copy_bytes : ℕ → ℕ → Bytes → Bytes × ℕ × Bytes
copy_bytes zero temp file = ([], temp, file)
copy_bytes (suc n) temp file =
    let (x, file1) = read_byte temp file in
    let (written, temp', rest) = copy_bytes n x file1 in (x ∷ written, temp', rest)

-- Images and labels that are written, and the rest of the files.
unfoldable pub copy_images : ℕ → ℕ → Bytes → Bytes → (Bytes × Bytes) × (Bytes × Bytes)
copy_images zero image_size file label_file = (([], []), (file, label_file))
copy_images (suc n) image_size file label_file =
    let (image, temp, file1) = copy_bytes image_size 0 file in
    let (label, label_file1) = read_byte temp label_file in
    let ((images, labels), rest) = copy_images n image_size file1 label_file1 in
    ((image ++ images, label ∷ labels), rest)

-- The loop over the splits: two files for each.
unfoldable pub split_files : ℕ → ℕ → ℕ → Bytes → Bytes → List (Bytes × Bytes) × (Bytes × Bytes)
split_files zero n_count image_size file label_file = ([], (file, label_file))
split_files (suc n) n_count image_size file label_file =
    let (split, (file1, label_file1)) = copy_images n_count image_size file label_file in
    let (splits, rest) = split_files n n_count image_size file1 label_file1 in
    (split ∷ splits, rest)

module _ (rand : ℕ → ℕ) (fresh : ℕ → Bytes) where
  -- Both header and shuffle: the number of images, their size, and the two shuffled files.
  unfoldable pub shuffled_files : Bytes → Bytes → Option ((ℕ × ℕ) × (Bytes × Bytes))
  shuffled_files file label_file = do
    ((magic_number, number_of_images, n_rows, n_cols), f_images) ← magic file
    (label_magic, label_file1) ← read_int 0 label_file
    (number_of_labels, f_labels) ← read_int 0 label_file1
    written ← shuffle rand number_of_images (n_rows * n_cols) fresh f_images f_labels
    some ((number_of_images, n_rows * n_cols), written)

  -- The test images and test labels.
  unfoldable pub read_mnist_test : Bytes → Bytes → Option (Bytes × Bytes)
  read_mnist_test file label_file = do
    ((n, image_size), (images, labels)) ← shuffled_files file label_file
    some ((copy_images n image_size images labels).0)

  -- The images and labels of each split.
  unfoldable pub read_mnist : ℕ → Bytes → Bytes → Option (List (Bytes × Bytes))
  read_mnist n_splits file label_file = do
    ((n, image_size), (images, labels)) ← shuffled_files file label_file
    (if n_splits == 0
        then none
        else some ((split_files n_splits (n / n_splits) image_size images labels).0))

  pub data Result : Type 0 where
    usage : Result
    tests : Bytes × Bytes → Result
    trains : List (Bytes × Bytes) → Result

  -- The four files are those of the test set and of the training set.
  unfoldable pub main : (Bytes → ℕ) → List Bytes → Bytes × Bytes → Bytes × Bytes → Option Result
  main atoi (name ∷ command ∷ splits ∷ []) t10k train =
      if has_prefix command (codes "test")
      then (read_mnist_test (t10k.0) (t10k.1) >>= λ files. some (tests files))
      else if has_prefix command (codes "train")
      then (read_mnist (atoi splits) (train.0) (train.1) >>= λ files. some (trains files))
      else some usage
  main atoi _ t10k train = some usage
