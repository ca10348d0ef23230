-- ===== src/Tests/Messages.antt =====
-- zflclient/src/main.c, zflserver/src/main.c: the messages between server and client on concrete inputs.
use zfl.Base.{
  ℕ, ◌+◌, ◌-◌, ◌/◌, ◌%◌, ◌<◌, ◌≡◌, refl, true, false, ◌&&◌, leb, none, some, List, [], ◌∷◌, ◌++◌,
  Bytes, codes, cells, arith,
}
use native.Mathlib.Nat.{mod-lt}
use zfl.Tests.{zeros, zeros_size}
use zfl.Tests.Network.{numbers, fresh_cells, inputs, labels}
use zfl.StringBuilder.{StringBuilder, contents}
use zfl.Common.{Floats}
use zfl.Common.Payload.{Stats, Payload, Conversions, empty_payload, deserialize_training_data}
use zfl.Common.Text.{print, PrintsWithin}
use zfl.Common.Message.{weights_json}
use zfl.Common.RoundTrip.{layers_token}
use zfl.Cson.Numbers.{Numeral, whole, IsNumeral}
use zfl.Network.Matrix.Cells.{mat-Reads}
use zfl.Network.Forward.Rows.{joined, sheet}
use zfl.Network.Forward.Spec.{Layer}
use zfl.Client.{results_text}
use zfl.Client.Message.{formats_of, model}
use zfl.Client.Delivery.{Adds, results_text-Adds}
use zfl.Client.Train.Results.{model_of, after_epochs}
use zfl.Client.Requests.{Job, begin_training, no_network}
use zfl.Client.Requests.Round.{arch_layers, received_model, begin_training-after_epochs}
use zfl.Memory.{write}
use zfl.Sockets.{sendall}
use zfl.StringBuilder.{sb_init, sb_append, sb_appendf, append_all}
use zfl.Common.Print.{number_pieces, row_pieces, layer_pieces, weights_to_string}
use zfl.Network.Forward.{Nn}
use zfl.Server.Training.{Attempt, train_once, train_tries, train_text, train_head, send_train}
use zfl.Server.Training.Text.{size_text, delivered}
use zfl.Server.Training.Sends.{SentEach, send_train-Sent}

abbrev value : Bytes → ℕ
value [] = 0
value (c ∷ text) = c - b'0'

-- The last digit of a number is what is written of it.
abbrev last_digit : ℕ → Numeral
last_digit k = whole false (b'0' + k % 10) []

digit-IsNumeral : (d : ℕ) → d < 10 → (leb b'0' (b'0' + d) && leb (b'0' + d) b'9') ≡ true
digit-IsNumeral d h = ground arith

last_digit-IsNumeral : (k : ℕ) → IsNumeral (last_digit k)
last_digit-IsNumeral k = (digit-IsNumeral (k % 10) (mod-lt k (omega arith)), tt)

abbrev readable : Floats
readable = record {
  Float = ℕ;
  zero_float = 0;
  add_float = λ a b. a + b;
  div_float = λ a n. a;
  strtof = value;
}

abbrev conversions : Conversions
conversions = record { atol = value; atoi = value; strtoll = value }

abbrev layer : ℕ → Layer readable
layer k = record { size = k; weights = λ i j. 0; bias = λ j. 0; held = λ j. 0 }

abbrev w : ℕ → ℕ → ℕ → ℕ
w i j k = i + j + k

abbrev b : ℕ → ℕ → ℕ
b i j = j

abbrev stats : Stats
stats = record {
  bytes_sent = 1;
  bytes_recv = 2;
  seg_rexmit = 3;
  seg_dropped = 4;
  training_time = 0;
}

within_two : PrintsWithin readable last_digit 2
within_two = (omega arith, λ x. omega arith)

results_text-Adds_example :
    (sb : StringBuilder) × (p : Payload) × (results_text
        (formats_of last_digit last_digit)
        readable
        (print readable last_digit)
        zeros
        (model last_digit last_digit readable last_digit last_digit-IsNumeral numbers w b zeros
          zeros_size 2
          (layer 3 ∷ layer 2 ∷ [])
          [])
        stats
        5
        7
      ≡ some sb)
    × (deserialize_training_data conversions 0 (contents sb) empty_payload ≡ some (p, true))
    × (p.round_number ≡ 5)
    × (p.stats ≡ record stats { training_time = 7 })
    × Adds last_digit last_digit conversions readable last_digit last_digit-IsNumeral numbers w b
        zeros zeros_size p.weights 2
        (layer 3 ∷ layer 2 ∷ [])
results_text-Adds_example =
    results_text-Adds last_digit last_digit conversions readable last_digit last_digit-IsNumeral
      numbers w b zeros zeros_size 2 2 (layer 3) (layer 2 ∷ []) [] stats 5 7 0 within_two
      (omega arith) (omega arith, (omega arith, tt))
      (
        (last_digit-IsNumeral 5, omega arith, refl),
        (last_digit-IsNumeral 7, omega arith, refl),
        (last_digit-IsNumeral 1, omega arith, refl),
        (last_digit-IsNumeral 2, omega arith, refl),
        (last_digit-IsNumeral 4, omega arith, refl),
        (last_digit-IsNumeral 3, omega arith, refl),
      )
      (λ e. omega arith) refl

-- Two pictures.
abbrev pictures : List ℕ
pictures = cells 2 794 (joined readable numbers 784 inputs labels)

abbrev job : Job ℕ
job = record {
  id = 1;
  num_epochs = 3;
  batch_size = 1;
  rate = 1;
  began = 0;
  ended = 2000;
  stats = stats;
  tries = [];
}

begin_training-after_epochs_example :
    (sb : StringBuilder) × (train_text
        (size_text last_digit)
        readable
        (print readable last_digit)
        zeros
        (model last_digit last_digit readable last_digit last_digit-IsNumeral numbers w b zeros
          zeros_size 784
          (arch_layers readable numbers fresh_cells last_digit zeros w b)
          [])
        5
      ≡ some sb)
    × (begin_training zeros readable numbers fresh_cells conversions value fresh_cells
          (formats_of last_digit last_digit)
          (print readable last_digit)
          (record job { batch_size = 1 })
          (record {
            n_images = 2;
            samples = sheet readable numbers 2 784 10 pictures;
            model = no_network zeros readable numbers fresh_cells;
            samples_ready = true;
          })
          (contents sb)
        ≡ some (
          delivered last_digit conversions
              (weights_json readable last_digit last_digit-IsNumeral numbers w b 784
                (arch_layers readable numbers fresh_cells last_digit zeros w b))
              (layers_token readable last_digit numbers w b 0 784
                (arch_layers readable numbers fresh_cells last_digit zeros w b))
              5,
          model_of readable numbers 1 0 784 10 inputs labels (
              after_epochs readable numbers 1 0 784 10 inputs labels
                (2 / 1)
                3
                (received_model readable numbers fresh_cells last_digit zeros w b)),
        ))
begin_training-after_epochs_example =
    begin_training-after_epochs readable numbers fresh_cells last_digit zeros w b
      last_digit-IsNumeral zeros_size last_digit conversions 2 5 0 2 [] inputs labels pictures value
      fresh_cells (formats_of last_digit last_digit) (print readable last_digit) job within_two
      (omega arith) (last_digit-IsNumeral 5, omega arith, refl) (λ e. omega arith)
      (mat-Reads readable 2 794 (joined readable numbers 784 inputs labels))

-- A network of one weight and one bias, which is written as the weight.
abbrev tiny : Nn readable
tiny = record {
  ws = record { rows = 1; cols = 1; elements = 4 ∷ [] } ∷ [];
  bs = record { cols = 1; elements = 6 ∷ [] } ∷ [];
  as_rows = [];
}

abbrev no_client : Attempt readable
no_client = record {
  connected = false;
  nn = tiny;
  round_number = 5;
  head_sends = [];
  text_sends = [];
}

abbrev broken : Attempt readable
broken = record no_client { connected = true; head_sends = some 3 ∷ none ∷ [] }

-- The last try reads another round.
abbrev client : Attempt readable
client = record {
  connected = true;
  nn = tiny;
  round_number = 6;
  head_sends = some 20 ∷ some 30 ∷ [];
  text_sends = some 40 ∷ [];
}

abbrev train_message : Bytes
train_message =
    train_head (size_text last_digit) 36 ++ codes "{\"round\": 6, \"weights\": [[[4]],[4]]}"

third_try :
    send_train
      (size_text last_digit)
      readable
      (print readable last_digit)
      zeros
      (no_client ∷ broken ∷ client ∷ [])
    ≡ some ([] ∷ codes "POS" ∷ train_message ∷ [])
unfolding send_train train_text train_tries train_once sendall sb_appendf sb_append sb_init
    weights_to_string append_all layer_pieces row_pieces number_pieces write
third_try = refl

send_train-Sent_example :
    SentEach
      (size_text last_digit)
      readable
      (print readable last_digit)
      zeros
      (no_client ∷ broken ∷ client ∷ [])
      ([] ∷ codes "POS" ∷ train_message ∷ [])
send_train-Sent_example =
    send_train-Sent (size_text last_digit) readable (print readable last_digit) zeros
      (no_client ∷ broken ∷ client ∷ []) ([] ∷ codes "POS" ∷ train_message ∷ []) third_try
