-- ===== src/Server/Report/Text.antt =====
-- zflserver/src/main.c: the text of `write_stats` is that of a JSON value.
use zfl.Base.{
  ℕ, zero, suc, ◌+◌, ◌-◌, ◌≤◌, ◌<◌, ◌≡◌, Option, some, List, [], ◌∷◌, ◌++◌, ◌==◌, if◌then◌else◌,
  Bytes, codes, length, get_elem?,
}
use zfl.StringBuilder.{StringBuilder}
use zfl.StringBuilder.Laws.{Appends}
use zfl.Common.Payload.{Stats}
use zfl.Cson.Numbers.{Numeral, numeral_text}
use zfl.Cson.Syntax.{Json, arr, obj, Items, nil, cons, end, member, items_text}
use zfl.Client.Message.{entry, blank_byte}
use zfl.Server.Report.{Prints, round_head}

module _ (Float : Type 0) (float_num : Float → Numeral) (long_num size_num : ℕ → Numeral) where
  abbrev pub prints_of : Prints Float
  prints_of = record {
    float_text = λ x. numeral_text (float_num x);
    long_text = λ k. numeral_text (long_num k);
    size_text = λ k. numeral_text (size_num k);
  }

  -- No number takes more than 100 bytes.
  abbrev pub AllShort : Type 0
  AllShort =
      ((x : Float) → length (numeral_text (float_num x)) ≤ 100)
      × ((k : ℕ) → length (numeral_text (long_num k)) ≤ 100)
      × ((k : ℕ) → length (numeral_text (size_num k)) ≤ 100)

  abbrev pub entry_json : Stats → Json
  entry_json s = obj [] (
      entry (codes "training_time") (size_num s.training_time) [] blank_byte (
        entry (codes "sent") (long_num s.bytes_sent) [] blank_byte (
          entry (codes "recv") (long_num s.bytes_recv) [] blank_byte (
            entry (codes "dropped") (long_num s.seg_dropped) [] blank_byte
              (entry (codes "rexmit") (long_num s.seg_rexmit) [] [] end)))))

  abbrev pub repeated : ℕ → Json → Items
  repeated zero j = nil
  repeated (suc n) j = cons j [] [] (repeated n j)

  -- As many times the first entry as there are entries.
  abbrev pub entries_json : List Stats → Items
  entries_json [] = nil
  entries_json (s ∷ rest) = repeated (suc (length rest)) (entry_json s)

  abbrev pub round_json : Float → Float → ℕ → List Stats → Json
  round_json a l t row = obj [] (
      entry (codes "accuracy") (float_num a) [] blank_byte (
        entry (codes "loss") (float_num l) [] blank_byte (
          entry (codes "round_time") (long_num t) [] blank_byte
            (member (codes "stats") [] blank_byte (arr [] (entries_json row)) [] [] end))))

  -- The rounds from `i` on, with accuracies, losses and times as functions of the round.
  abbrev pub rounds_json : (ℕ → Float) → (ℕ → Float) → (ℕ → ℕ) → ℕ → List (List Stats) → Items
  rounds_json acc los time i [] = nil
  rounds_json acc los time i (row ∷ rows) =
      cons (round_json (acc i) (los i) (time i) row) [] [] (rounds_json acc los time (i + 1) rows)

  module _ (fresh : ℕ → Bytes) (fresh_size : (k : ℕ) → length (fresh k) ≡ k)
      (short : AllShort) where
    abbrev Step : (StringBuilder → Option StringBuilder) → Bytes → Type 0
    Step f text = Appends fresh fresh_size f text

    abbrev comma : ℕ → ℕ → Bytes
    comma n i = if i == n - 1 then [] else codes ","

    -- Steps that write items.
    abbrev Writes : (StringBuilder → Option StringBuilder) → Items → Type 0
    Writes f is =
        (text : Bytes) × Step f text × ((rest : Bytes) → text ++ rest ≡ items_text is rest)

    module _ (accuracies loss : List Float) (round_time : List ℕ) (acc los : ℕ → Float)
        (time : ℕ → ℕ) (n : ℕ) (reads_acc : (i : ℕ) → i < n → get_elem? accuracies i ≡ some (acc i))
        (reads_los : (i : ℕ) → i < n → get_elem? loss i ≡ some (los i))
        (reads_time : (i : ℕ) → i < n → get_elem? round_time i ≡ some (time i)) where
      abbrev head : ℕ → Bytes
      head i = round_head Float prints_of fresh (acc i) (los i) (time i)
