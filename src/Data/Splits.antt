-- ===== src/Data/Splits.antt =====
-- tools/data.c: the files that `read_mnist` writes for the clients.
use zfl.Base.{
  ℕ, zero, suc, ◌≡◌, refl, sym, ap, ◌∙◌, List, [], ◌∷◌, ◌++◌, Bytes, length, All, append_assoc,
  arith,
}
use zfl.Data.{copy_bytes, copy_images, split_files}

-- An image and its label.
abbrev pub Sample : Type 0
Sample = Bytes × ℕ

abbrev pub images_of : List Sample → Bytes
images_of [] = []
images_of (s ∷ samples) = s.0 ++ images_of samples

abbrev pub labels_of : List Sample → Bytes
labels_of [] = []
labels_of (s ∷ samples) = s.1 ∷ labels_of samples

abbrev last_byte : ℕ → Bytes → ℕ
last_byte temp [] = temp
last_byte temp (x ∷ a) = last_byte x a

copy_bytes-whole :
    (a : Bytes) (n temp : ℕ) (rest : Bytes)
    → length a ≡ n
    → copy_bytes n temp (a ++ rest) ≡ (a, last_byte temp a, rest)
unfolding copy_bytes
copy_bytes-whole [] zero temp rest e = refl
copy_bytes-whole [] (suc n) temp rest e = absurd (omega arith)
copy_bytes-whole (x ∷ a) zero temp rest e = absurd (omega arith)
copy_bytes-whole (x ∷ a) (suc n) temp rest e =
    ap (λ p. (x ∷ p.0, p.1, p.2)) (copy_bytes-whole a n x rest (omega arith))

copy_images-whole :
    (samples : List Sample) (image_size : ℕ) (rest rest' : Bytes)
    → All (λ s. length s.0 ≡ image_size) samples
    → copy_images
        (length samples)
        image_size
        (images_of samples ++ rest)
        (labels_of samples ++ rest')
      ≡ ((images_of samples, labels_of samples), (rest, rest'))
unfolding copy_images
copy_images-whole [] image_size rest rest' sized = refl
copy_images-whole (s ∷ samples) image_size rest rest' sized =
    rw
      (
        append_assoc s.0 (images_of samples) rest,
        copy_bytes-whole s.0 image_size 0 (images_of samples ++ rest) sized.0,
        copy_images-whole samples image_size rest rest' sized.1,
      )
      refl

-- The files of a list of samples.
abbrev pub files_of : List (List Sample) → List (Bytes × Bytes)
files_of [] = []
files_of (split ∷ splits) = (images_of split, labels_of split) ∷ files_of splits

abbrev pub all_images : List (List Sample) → Bytes
all_images [] = []
all_images (split ∷ splits) = images_of split ++ all_images splits

abbrev pub all_labels : List (List Sample) → Bytes
all_labels [] = []
all_labels (split ∷ splits) = labels_of split ++ all_labels splits

-- Of files that hold a number of samples for each split, and perhaps more behind them, each split gets
-- its own in order, every image with its label; no byte is lost or written twice, and the rest is left.
pub split_files-files_of :
    (splits : List (List Sample)) (n_count image_size : ℕ) (rest rest' : Bytes)
    → All (λ split. (length split ≡ n_count) × All (λ s. length s.0 ≡ image_size) split) splits
    → split_files
        (length splits)
        n_count
        image_size
        (all_images splits ++ rest)
        (all_labels splits ++ rest')
      ≡ (files_of splits, (rest, rest'))
unfolding split_files
split_files-files_of [] n_count image_size rest rest' sized = refl
split_files-files_of (split ∷ splits) n_count image_size rest rest' sized =
    rw
      (
        append_assoc (images_of split) (all_images splits) rest,
        append_assoc (labels_of split) (all_labels splits) rest',
        one_split,
        split_files-files_of splits n_count image_size rest rest' sized.1,
      )
      refl
  where
    one_split :
        copy_images n_count image_size
          (images_of split ++ (all_images splits ++ rest))
          (labels_of split ++ (all_labels splits ++ rest'))
        ≡ (
          (images_of split, labels_of split),
          (all_images splits ++ rest, all_labels splits ++ rest'),
        )
    one_split =
        ap
          (λ n.
            copy_images n image_size (images_of split ++ (all_images splits ++ rest))
              (labels_of split ++ (all_labels splits ++ rest')))
          (sym (sized.0.0))
        ∙ copy_images-whole split image_size (all_images splits ++ rest)
            (all_labels splits ++ rest') (sized.0.1)
