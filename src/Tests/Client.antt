-- ===== src/Tests/Client.antt =====
-- zflclient/src/main.c on concrete inputs.
use mathlib.Core.List.{flatten}
use zfl.Base.{
  ℕ, zero, suc, ◌+◌, ◌*◌, ◌/◌, ◌≤◌, ◌≡◌, refl, false, true, Option, none, some, inl, List, [], ◌∷◌,
  ◌++◌, Bytes, codes, length, append-nil, replicate, tabulate_from, All, arith,
}
use zfl.Tests.{zeros, zeros_size}
use zfl.Tests.Network.{
  digits, numbers, fresh_cells, layers, input, inputs, labels, block, block-Labelled,
}
use zfl.Network.Forward.Spec.{network}
use zfl.Network.Forward.Rows.{sheet}
use zfl.Client.Train.{train}
use zfl.Client.Train.Results.{model_of, after_epochs, train-after_epochs}
use zfl.Sockets.{Takes, sendall}
use zfl.Client.{Try, send_once, send_tries}
use zfl.Client.Tries.{Sent, send_tries-Sent, send_tries-Delivers}
use zfl.Client.Requests.{Exchange, run}
use zfl.Client.Requests.Start.{started, run-started}

abbrev down : Try
down = record { connected = false; head_sends = []; text_sends = []; not_connected = false }

abbrev up : Try
up = record {
  connected = true;
  head_sends = some 2 ∷ some 9 ∷ [];
  text_sends = some 3 ∷ [];
  not_connected = false;
}

abbrev cut_off : Try
cut_off = record {
  connected = true;
  head_sends = some 9 ∷ [];
  text_sends = some 1 ∷ none ∷ [];
  not_connected = false;
}

-- Nothing on the first connection, a part on the second, all on the third.
three_tries :
    send_tries 3 (down ∷ cut_off ∷ up ∷ []) (codes "ab") (codes "cde")
    ≡ some ([] ∷ codes "abc" ∷ codes "abcde" ∷ [])
unfolding send_tries send_once sendall
three_tries = refl

send_tries-Sent_example : Sent (codes "ab" ++ codes "cde") ([] ∷ codes "abc" ∷ codes "abcde" ∷ [])
send_tries-Sent_example =
    send_tries-Sent 3 (down ∷ cut_off ∷ up ∷ []) (codes "ab") (codes "cde")
      ([] ∷ codes "abc" ∷ codes "abcde" ∷ []) (omega arith) three_tries

abbrev many : List (Option ℕ)
many = replicate 64 (some 1)

replicate-Takes : (n : ℕ) → All Takes (replicate n (some 1))
replicate-Takes zero = tt
replicate-Takes (suc n) = (omega arith, replicate-Takes n)

abbrev steady : Try
steady = record { connected = true; head_sends = many; text_sends = many; not_connected = false }

send_tries-Delivers_example :
    (sents : List Bytes) × (send_tries 3 ((down ∷ []) ++ (steady ∷ [])) (codes "ab") (codes "cde")
      ≡ some (sents ++ ((codes "ab" ++ codes "cde") ∷ [])))
send_tries-Delivers_example =
    send_tries-Delivers 3 (down ∷ []) steady [] (codes "ab") (codes "cde") (omega arith)
      (inl refl, tt) (refl, (replicate-Takes 64, omega arith), (replicate-Takes 64, omega arith))

abbrev pixels : ℕ → ℕ
pixels k = k

abbrev threes : ℕ → ℕ
threes k = 3

abbrev exchange : List Bytes → Exchange
exchange chunks = record { connected = true; sends = many; chunks = chunks; broken = false }

-- One picture in chunks of 256 bytes.
abbrev picture : List Bytes
picture =
    tabulate_from 0 256 pixels
    ∷ tabulate_from 256 256 pixels
    ∷ tabulate_from 512 256 pixels
    ∷ tabulate_from 768 16 pixels
    ∷ []

small : All (λ chunk. length chunk ≤ 256) picture
small = (omega arith, (omega arith, (omega arith, (omega arith, tt))))

picture_text : flatten picture ≡ tabulate_from 0 (1 * 784) pixels
unfolding flatten
picture_text = refl

one_chunk : (text : Bytes) → flatten (text ∷ []) ≡ text
unfolding flatten
one_chunk text = append-nil text

-- The id in the answer is read as the number of its bytes.
run-started_example :
    run zeros digits numbers fresh_cells
      (λ text. length text)
      (λ k. (b'0' + k) ∷ [])
      (codes "run" ∷ codes "192.0.2.2" ∷ codes "5" ∷ codes "16" ∷ [])
      true
      (exchange (codes "7" ∷ []))
      (exchange picture)
      (exchange ((3 ∷ []) ∷ []))
    ≡ some (some (2, 1, 2, started zeros zeros_size digits numbers fresh_cells 1 pixels threes))
run-started_example =
    run-started zeros zeros_size digits numbers fresh_cells 1 pixels threes (λ text. length text)
      (λ k. (b'0' + k) ∷ []) (codes "run") (codes "192.0.2.2") (codes "5") (codes "16") []
      (exchange (codes "7" ∷ [])) (exchange picture) (exchange ((3 ∷ []) ∷ [])) (codes "7")
      (λ e. omega arith) (λ e. omega arith)
      (refl, (replicate-Takes 64, omega arith), ((omega arith, tt), one_chunk (codes "7")), refl)
      (refl, (replicate-Takes 64, omega arith), (small, picture_text), refl)
      (refl, (replicate-Takes 64, omega arith), ((omega arith, tt), one_chunk (3 ∷ [])), refl)

-- Two epochs of two batches of one row.
train-after_epochs_example :
    train digits numbers fresh_cells 1 2 1 2
      (sheet digits numbers 2 2 2 block)
      (network digits numbers 2 input layers)
    ≡ some (
        model_of digits numbers 1 0 2 2 inputs labels
          (after_epochs digits numbers 1 0 2 2 inputs labels (2 / 1) 2 (input, layers)))
train-after_epochs_example =
    train-after_epochs digits numbers 1 0 2 2 inputs labels fresh_cells 2 block (omega arith)
      block-Labelled 2 input layers refl refl (omega arith)
