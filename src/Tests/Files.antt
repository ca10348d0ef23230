-- ===== src/Tests/Files.antt =====
-- zflserver/src/main.c, zfl.c, tools/data.c, nn.h: files, texts and shuffles on concrete inputs.
use mathlib.Core.List.{flatten}
use zfl.Base.{
  ◌==◌, false, some, All, ◌≤◌, zero, suc, ap, ◌∙◌, ◌^◌, ◌⊎◌, ℕ, ◌+◌, ◌*◌, ◌≡◌, ◌<◌, refl, some,
  List, [], ◌∷◌, ◌++◌, Bytes, codes, length, if◌then◌else◌, ltb, tabulate_from, arith,
}
use zfl.Tests.{zeros, zeros_size}
use zfl.Tests.Network.{digits, numbers, fresh_cells}
use zfl.Common.Payload.{Stats}
use zfl.Network.Forward.Rows.{labelled}
use zfl.Network.TrainSet.{img_size, pixel_values, label_values}
use zfl.Network.Matrix.Cells.{mat}
use zfl.Network.Matrix.Shuffle.{mat_shuffle_rows, order, place, mat_shuffle_rows-order}
use zfl.Server.Files.{minus_one, send_file, send_chunks, send_chunk, send_file-whole}
use zfl.Cson.Numbers.{Numeral, whole}
use zfl.Server.Start.{load_test_set, load_test_set-labelled}
use zfl.Options.Launch.{Formats, mac_text}
use zfl.Options.LaunchLaws.{WritesHex, mac_bytes, mac_text-whole}
use zfl.Data.{shuffle, split_files}
use zfl.Data.Shuffle.{shuffle-last_label}
use zfl.Data.Splits.{Sample, all_images, all_labels, files_of, split_files-files_of}

abbrev blank : ℕ → ℕ
blank k = 0

-- A file of zeros, in chunks of 784.
abbrev zero_chunks : ℕ → List Bytes
zero_chunks zero = []
zero_chunks (suc n) = tabulate_from 0 784 blank ∷ zero_chunks n

zero_chunks-small : (n : ℕ) → All (λ chunk. length chunk ≤ 1024) (zero_chunks n)
zero_chunks-small zero = tt
zero_chunks-small (suc n) = (omega arith, zero_chunks-small n)

zeros_from : (i j n : ℕ) → tabulate_from i n blank ≡ tabulate_from j n blank
zeros_from i j zero = refl
zeros_from i j (suc n) = ap (λ l. 0 ∷ l) (zeros_from (suc i) (suc j) n)

zeros_append :
    (i m n : ℕ) → tabulate_from i m blank ++ tabulate_from i n blank ≡ tabulate_from i (m + n) blank
zeros_append i zero n = ap (λ k. tabulate_from i k blank) (omega arith)
zeros_append i (suc m) n =
    ap (λ l. 0 ∷ l)
      (ap (λ l. tabulate_from (suc i) m blank ++ l) (zeros_from i (suc i) n)
        ∙ zeros_append (suc i) m n)
    ∙ ap (λ k. tabulate_from i k blank) (sum m n)
  where
    sum : (m n : ℕ) → suc (m + n) ≡ suc m + n
    sum m n = omega arith

flatten-zero_chunks : (n : ℕ) → flatten (zero_chunks n) ≡ tabulate_from 0 (n * 784) blank
unfolding flatten
flatten-zero_chunks zero = refl
flatten-zero_chunks (suc n) =
    ap (λ l. tabulate_from 0 784 blank ++ l) (flatten-zero_chunks n)
    ∙ zeros_append 0 784 (n * 784)
    ∙ ap (λ k. tabulate_from 0 k blank) (omega arith)

abbrev zero_labels : ℕ → List Bytes
zero_labels zero = []
zero_labels (suc n) = (0 ∷ []) ∷ zero_labels n

zero_labels-small : (n : ℕ) → All (λ chunk. length chunk ≤ 1024) (zero_labels n)
zero_labels-small zero = tt
zero_labels-small (suc n) = (omega arith, zero_labels-small n)

flatten-zero_labels : (i n : ℕ) → flatten (zero_labels n) ≡ tabulate_from i n blank
unfolding flatten
flatten-zero_labels i zero = refl
flatten-zero_labels i (suc n) = ap (λ l. 0 ∷ l) (flatten-zero_labels (suc i) n)

load_test_set-labelled_example :
    load_test_set zeros digits numbers fresh_cells (zero_chunks 10001) (zero_labels 10001)
    ≡ some (
        labelled digits numbers 10000 img_size 10
          (pixel_values digits numbers blank blank)
          (label_values digits numbers blank blank))
load_test_set-labelled_example =
    load_test_set-labelled zeros digits numbers fresh_cells zeros_size 10001 blank blank
      (zero_chunks 10001) (zero_labels 10001) (omega arith) (zero_chunks-small 10001)
      (zero_labels-small 10001) (flatten-zero_chunks 10001) (flatten-zero_labels 0 10001)

-- The second call takes a byte less than there is.
all_sent :
    send_file
      (some 2 ∷ some 1 ∷ some 1 ∷ some 1 ∷ [])
      (some (codes "ab" ∷ codes "cd" ∷ codes "e" ∷ []))
    ≡ some (codes "abcde", 5)
unfolding send_file send_chunks send_chunk
all_sent = refl

five_bytes : length (flatten (codes "ab" ∷ codes "cd" ∷ codes "e" ∷ [])) < 2 ^ 31
unfolding flatten
five_bytes = omega arith

send_file-whole_example :
    ((rest : Bytes) × (flatten (codes "ab" ∷ codes "cd" ∷ codes "e" ∷ []) ≡ codes "abcde" ++ rest))
    × ((5 ≡ minus_one)
        ⊎ ((codes "abcde" ≡ flatten (codes "ab" ∷ codes "cd" ∷ codes "e" ∷ []))
            × (5 ≡ length (flatten (codes "ab" ∷ codes "cd" ∷ codes "e" ∷ [])))))
send_file-whole_example =
    send_file-whole (some 2 ∷ some 1 ∷ some 1 ∷ some 1 ∷ [])
      (codes "ab" ∷ codes "cd" ∷ codes "e" ∷ []) (codes "abcde") 5 five_bytes all_sent

abbrev entry : ℕ → Stats
entry t = record {
  bytes_sent = 1;
  bytes_recv = 2;
  seg_rexmit = 0;
  seg_dropped = 0;
  training_time = t;
}

abbrev digit_text : ℕ → Bytes
digit_text k = (b'0' + k) ∷ []

abbrev one_digit : ℕ → Numeral
one_digit k = whole false (b'0' + k) []

abbrev second_round : ℕ → ℕ → ℕ
second_round x i = if i == 0 then 1 else x

-- A digit for each four bits, as long as "%x" writes them.
abbrev formats : Formats
formats = record {
  int_text = digit_text;
  hex_text = λ k. if ltb k 16 then digit_text k else digit_text 1 ++ digit_text 0;
}

formats-WritesHex : WritesHex formats
formats-WritesHex k h = ground arith

mac_text-whole_example :
    (mac_text formats (λ k. k) ≡ codes "00:" ++ mac_bytes formats (λ k. k) 0 5)
    × (length (mac_text formats (λ k. k)) ≡ 17)
mac_text-whole_example = mac_text-whole formats (λ k. k) formats-WritesHex

shuffle-last_label_example :
    shuffle (λ k. 0) 3 2 zeros (codes "aabbcc") (1 ∷ 2 ∷ 5 ∷ [])
    ≡ shuffle (λ k. 0) 3 2 zeros (codes "aabbcc") (3 ∷ 4 ∷ 5 ∷ 7 ∷ [])
shuffle-last_label_example =
    shuffle-last_label (λ k. 0) 2 zeros (codes "aabbcc") (1 ∷ 2 ∷ []) (3 ∷ 4 ∷ []) [] (7 ∷ []) 5
      zeros_size refl

abbrev samples : List (List Sample)
samples = ((codes "ab", 1) ∷ []) ∷ ((codes "cd", 2) ∷ []) ∷ []

split_files-files_of_example :
    split_files 2 1 2 (all_images samples ++ codes "e") (all_labels samples ++ (3 ∷ []))
    ≡ (files_of samples, (codes "e", 3 ∷ []))
split_files-files_of_example =
    split_files-files_of samples 1 2 (codes "e") (3 ∷ [])
      ((refl, (refl, tt)), ((refl, (refl, tt)), tt))

mat_shuffle_rows-order_example :
    (mat_shuffle_rows digits (λ k. 1) (mat digits 3 2 (λ i j. i))
      ≡ some (mat digits 3 2 (λ i j. order digits (λ k. 1) 3 3 i)))
    × ((a : ℕ) → a < 3 → order digits (λ k. 1) 3 3 a < 3)
    × ((a : ℕ) → order digits (λ k. 1) 3 3 (place digits (λ k. 1) 3 3 a) ≡ a)
    × ((a : ℕ) → place digits (λ k. 1) 3 3 (order digits (λ k. 1) 3 3 a) ≡ a)
mat_shuffle_rows-order_example = mat_shuffle_rows-order digits (λ k. 1) 3 2 (λ i j. i)
