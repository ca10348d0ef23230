-- ===== src/Client/Message.antt =====
-- zflclient/src/main.c, common.h: the content of the request of `send_weights`, as the server reads it.
use zfl.Base.{
  ℕ, ◌≤◌, ◌≡◌, ap, ◌∙◌, some, List, [], ◌++◌, Bytes, codes, length, length-append, append_assoc,
  arith,
}
use zfl.StringBuilder.{StringBuilder, contents, sb_init}
use zfl.StringBuilder.Laws.{sb_init-IsValid, Appends-append, sb_append-Appends, sb_appendf-Appends}
use zfl.Common.{Floats, Math}
use zfl.Common.Payload.{Stats}
use zfl.Common.Text.{print, PrintsWithin, all_ws, all_bs, Follows}
use zfl.Common.Message.{weights_json, weights_to_string-Appends}
use zfl.Cson.Numbers.{Numeral, numeral_text, IsNumeral}
use zfl.Cson.Syntax.{Json, num, obj, Members, end, member, json_text, members_text}
use zfl.Network.Matrix.{Row}
use zfl.Network.Forward.{Nn}
use zfl.Network.Forward.Spec.{Layer}
use zfl.Client.{Formats, round_text, stats_text, results_text}

abbrev pub blank_byte : Bytes
blank_byte = codes " "

abbrev pub formats_of : (ℕ → Numeral) → (ℕ → Numeral) → Formats
formats_of size_num int_num = record {
  size_text = λ k. numeral_text (size_num k);
  int_text = λ k. numeral_text (int_num k);
}

-- A number that is written with 20 bytes at most, and read again.
abbrev pub Written : (Bytes → ℕ) → (ℕ → Numeral) → ℕ → Type 0
Written back numeral k =
    IsNumeral (numeral k)
    × (length (numeral_text (numeral k)) ≤ 20)
    × (back (numeral_text (numeral k)) ≡ k)

-- One entry with a number, a space behind it or not.
abbrev pub entry : Bytes → Numeral → Bytes → Bytes → Members → Members
entry key value c d ms = member key [] blank_byte (num value) c d ms

module _ (size_num int_num : ℕ → Numeral) where
  -- The entries of the statistics.
  abbrev pub stats_members : Stats → Members
  stats_members s = entry (codes "bytes_sent") (int_num s.bytes_sent) [] blank_byte (
      entry (codes "bytes_recv") (int_num s.bytes_recv) [] blank_byte (
        entry (codes "seg_dropped") (int_num s.seg_dropped) [] blank_byte
          (entry (codes "seg_rexmit") (int_num s.seg_rexmit) blank_byte [] end)))

  -- The value of the content.
  abbrev pub results_json : Json → Stats → ℕ → ℕ → Json
  results_json weights s round_number training_time = obj [] (
      entry (codes "round") (size_num round_number) [] blank_byte (
        entry (codes "training_time") (int_num training_time) [] blank_byte (
          member (codes "weights") [] blank_byte weights [] blank_byte
            (member (codes "stats") [] blank_byte (obj blank_byte (stats_members s)) [] [] end))))

  results-text :
      (weights : Json) (text : Bytes) (s : Stats) (r t : ℕ)
      → ((rest : Bytes) → text ++ rest ≡ json_text weights rest)
      → round_text (formats_of size_num int_num) r t
          ++ (text ++ (codes ", " ++ (stats_text (formats_of size_num int_num) s ++ codes "}")))
        ≡ json_text (results_json weights s r t) []
  unfolding json_text members_text
  results-text weights text s r t same = rw (← same) (simp append_assoc)

  pub round_text-short :
      (back : Bytes → ℕ) (back' : Bytes → ℕ) (r t : ℕ)
      → Written back size_num r
      → Written back' int_num t
      → length (round_text (formats_of size_num int_num) r t) ≤ 1000
  round_text-short back back' r t h k = omega (
    arith,
    h.1,
    k.1,
    length-append (numeral_text (size_num r))
        (codes ", \"training_time\": " ++ (numeral_text (int_num t) ++ codes ", \"weights\": ")),
    length-append (numeral_text (int_num t)) (codes ", \"weights\": "),
  )

  module _ (floats : Floats) (numeral : floats.Float → Numeral)
      (numeral-IsNumeral : (x : floats.Float) → IsNumeral (numeral x)) (math : Math (floats.Float))
      (new_w : ℕ → ℕ → ℕ → floats.Float) (new_b : ℕ → ℕ → floats.Float) (fresh : ℕ → Bytes)
      (fresh_size : (k : ℕ) → length (fresh k) ≡ k) where
    -- The network with the weights `new_w` and the biases `new_b`, whatever its activations.
    abbrev pub model : ℕ → List (Layer floats) → List (Row floats) → Nn floats
    model n ls acts = record {
      ws = all_ws floats numeral math new_w new_b 0 n ls;
      bs = all_bs floats numeral math new_w new_b 0 n ls;
      as_rows = acts;
    }

    pub stats_text-short :
        (back : Bytes → ℕ) (s : Stats)
        → Written back int_num s.bytes_sent
        → Written back int_num s.bytes_recv
        → Written back int_num s.seg_dropped
        → Written back int_num s.seg_rexmit
        → length (stats_text (formats_of size_num int_num) s) ≤ 1000
    stats_text-short back s a b c d =
        let e = numeral_text (int_num s.seg_rexmit) in
        let d' = numeral_text (int_num s.seg_dropped) in
        let b' = numeral_text (int_num s.bytes_recv) in
        let a' = numeral_text (int_num s.bytes_sent) in
        let e_text = e ++ codes " }" in
        let d_text = d' ++ (codes ", \"seg_rexmit\": " ++ e_text) in
        let b_text = b' ++ (codes ", \"seg_dropped\": " ++ d_text) in
        omega (
          arith,
          a.1,
          b.1,
          c.1,
          d.1,
          length-append e (codes " }"),
          length-append d' (codes ", \"seg_rexmit\": " ++ e_text),
          length-append b' (codes ", \"seg_dropped\": " ++ d_text),
          length-append a' (codes ", \"bytes_recv\": " ++ b_text),
        )

    -- The content is the text of the value.
    pub results_text-json_text :
        (longest n : ℕ) (ls : List (Layer floats)) (acts : List (Row floats)) (s : Stats) (r t : ℕ)
        → PrintsWithin floats numeral longest
        → longest ≤ 1024
        → Follows floats numeral math new_w new_b n ls
        → length (round_text (formats_of size_num int_num) r t) ≤ 1000
        → length (stats_text (formats_of size_num int_num) s) ≤ 1000
        → (sb : StringBuilder) × (results_text
              (formats_of size_num int_num)
              floats
              (print floats numeral)
              fresh
              (model n ls acts)
              s
              r
              t
            ≡ some sb)
          × (contents sb
              ≡ json_text
                  (results_json
                    (weights_json floats numeral numeral-IsNumeral math new_w new_b n ls)
                    s
                    r
                    t)
                  [])
    unfolding results_text sb_init
    results_text-json_text longest n ls acts s r t prints within follows short short_stats =
        let formats = formats_of size_num int_num in
        let (valid, empty) = sb_init-IsValid fresh fresh_size 1024 in
        let (text, weights, same) =
          weights_to_string-Appends floats numeral numeral-IsNumeral math new_w new_b fresh
            fresh_size longest n ls prints within follows in
        let (sb, e, is, v, larger) =
          sb_appendf-Appends fresh fresh_size (round_text formats r t) _ _ (omega arith)
            (Appends-append fresh fresh_size _ _ _ _ weights (
              Appends-append fresh fresh_size _ _ _ _
                (sb_append-Appends fresh fresh_size (codes ", ") (omega arith))
                (sb_appendf-Appends fresh fresh_size (stats_text formats s) _ _ (omega arith)
                  (sb_append-Appends fresh fresh_size (codes "}") (omega arith)))))
            (sb_init fresh 1024) valid (omega arith) in
        (
          sb,
          e,
          is
              ∙ ap
                  (λ l.
                    l
                    ++ (round_text formats r t
                        ++ (text ++ (codes ", " ++ (stats_text formats s ++ codes "}")))))
                  empty
              ∙ results-text (weights_json floats numeral numeral-IsNumeral math new_w new_b n ls)
                  text s r t same,
        )
