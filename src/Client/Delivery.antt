-- ===== src/Client/Delivery.antt =====
-- zflclient/src/main.c, common.h: the results of a client arrive at the server.
use zfl.Base.{
  ℕ, ◌≤◌, ◌≡◌, ◌≢◌, refl, ap, ◌∙◌, Bool, true, false, some, List, [], ◌∷◌, Bytes, codes, length,
  ◌==◌, arith,
}
use zfl.StringBuilder.{StringBuilder, contents}
use zfl.Common.{Floats, Math}
use zfl.Common.Payload.{
  Stats, Payload, empty_payload, Conversions, has_prefix, set_stat, read_stats, set_key, read_keys,
  read_json, deserialize_training_data,
}
use zfl.Common.Weights.{parse_weights_json}
use zfl.Common.Text.{print, PrintsWithin, Follows}
use zfl.Common.Message.{weights_json, weights_json-IsJson}
use zfl.Common.RoundTrip.{
  sizes_of, w_arrays, b_arrays, plus_w, plus_b, start_w, start_b, layers_token,
  parse_weights_json-plus,
}
use zfl.Cson.{Token}
use zfl.Cson.Numbers.{Numeral, IsNumeral, Stops}
use zfl.Cson.Syntax.{
  Json, Items, Members, num, arr, obj, end, member, json_text, token_of, members_of, items_of,
  is_plain, IsBlank, IsJson, IsMembers, IsPlain-of,
}
use zfl.Cson.RoundTrip.{parse_json-json_text}
use zfl.Network.Matrix.{Row}
use zfl.Network.Forward.Spec.{Layer}
use zfl.Client.{results_text}
use zfl.Client.Message.{
  Written, entry, blank_byte, formats_of, stats_members, results_json, model, round_text-short,
  stats_text-short, results_text-json_text,
}

module _ (size_num int_num : ℕ → Numeral) (conversions : Conversions) where
  open conversions use {atol, atoi, strtoll}

  -- All numbers of the message are read as they were written.
  abbrev pub AllWritten : Stats → ℕ → ℕ → Type 0
  AllWritten s r t =
      Written atol size_num r
      × Written strtoll int_num t
      × Written atoi int_num s.bytes_sent
      × Written atoi int_num s.bytes_recv
      × Written atoi int_num s.seg_dropped
      × Written atoi int_num s.seg_rexmit

  member-IsMembers :
      (k : Bytes) (j : Json) (c d : Bytes) (ms : Members)
      → is_plain k ≡ true
      → IsJson j
      → IsBlank c
      → IsBlank d
      → IsMembers ms
      → IsMembers (member k [] blank_byte j c d ms)
  unfolding IsMembers
  member-IsMembers k j c d ms plain w wc wd rest =
      (IsPlain-of k plain, tt, (refl, tt), w, wc, wd, rest)

  entry-IsMembers :
      (k : Bytes) (n : Numeral) (c d : Bytes) (ms : Members)
      → is_plain k ≡ true
      → IsNumeral n
      → IsBlank c
      → IsBlank d
      → IsMembers ms
      → IsMembers (entry k n c d ms)
  unfolding IsJson
  entry-IsMembers k n c d ms plain w = member-IsMembers k (num n) c d ms plain w

  end-IsMembers : IsMembers end
  unfolding IsMembers
  end-IsMembers = tt

  obj-IsJson : (a : Bytes) (ms : Members) → IsBlank a → IsMembers ms → IsJson (obj a ms)
  unfolding IsJson
  obj-IsJson a ms wa w = (wa, w)

  stats-IsMembers :
      (s : Stats) (r t : ℕ) → AllWritten s r t → IsMembers (stats_members size_num int_num s)
  stats-IsMembers s r t (hr, ht, ha, hb, hc, hd) =
      entry-IsMembers (codes "bytes_sent") _ [] blank_byte _ refl ha.0 tt (refl, tt)
        (entry-IsMembers (codes "bytes_recv") _ [] blank_byte _ refl hb.0 tt (refl, tt)
          (entry-IsMembers (codes "seg_dropped") _ [] blank_byte _ refl hc.0 tt (refl, tt)
            (entry-IsMembers (codes "seg_rexmit") _ blank_byte [] end refl hd.0 (refl, tt) tt
              end-IsMembers)))

  results_json-IsJson :
      (weights : Json) (s : Stats) (r t : ℕ)
      → IsJson weights
      → AllWritten s r t
      → IsJson (results_json size_num int_num weights s r t)
  results_json-IsJson weights s r t w h = obj-IsJson [] _ tt (
      entry-IsMembers (codes "round") _ [] blank_byte _ refl h.0.0 tt (refl, tt)
        (entry-IsMembers (codes "training_time") _ [] blank_byte _ refl h.1.0 tt (refl, tt)
          (member-IsMembers (codes "weights") weights [] blank_byte _ refl w tt (refl, tt)
            (member-IsMembers (codes "stats") _ [] [] end refl
              (obj-IsJson blank_byte _ (refl, tt) (stats-IsMembers s r t h)) tt tt end-IsMembers))))

  read_stats-members :
      (s : Stats) (r t : ℕ)
      → AllWritten s r t
      → read_stats conversions
          (record (empty_payload.stats) { training_time = t })
          (members_of (stats_members size_num int_num s))
        ≡ some (record s { training_time = t })
  unfolding read_stats set_stat members_of token_of has_prefix
  read_stats-members s r t (hr, ht, ha, hb, hc, hd) = rw (ha.2, hb.2, hc.2, hd.2) refl

  -- What the server makes of the message.
  abbrev pub received : Json → Token → Stats → ℕ → ℕ → Payload
  received weights inner s r t = record {
    json = token_of (results_json size_num int_num weights s r t);
    round_number = r;
    weights = inner;
    stats = record s { training_time = t };
  }

  pub not_zero : (r : ℕ) → r ≢ 0 → (r == 0) ≡ false
  not_zero r h = ground arith

  read_json-received :
      (is : Items) (s : Stats) (r t : ℕ)
      → AllWritten s r t
      → r ≢ 0
      → read_json conversions empty_payload
          (token_of (results_json size_num int_num (arr [] is) s r t))
        ≡ some (received (arr [] is) (items_of is) s r t, true)
  unfolding read_json read_keys set_key token_of members_of has_prefix
  read_json-received is s r t h pos =
      rw (h.0.2, not_zero r pos, h.1.2, read_stats-members s r t h) refl

  deserialize-received :
      (is : Items) (s : Stats) (r t past : ℕ)
      → IsJson (arr [] is)
      → AllWritten s r t
      → r ≢ 0
      → Stops past []
      → deserialize_training_data conversions past
          (json_text (results_json size_num int_num (arr [] is) s r t) [])
          empty_payload
        ≡ some (received (arr [] is) (items_of is) s r t, true)
  unfolding deserialize_training_data
  deserialize-received is s r t past w h pos stops =
      ap (read_json conversions empty_payload) (
        parse_json-json_text (results_json size_num int_num (arr [] is) s r t) past [] []
          (results_json-IsJson (arr [] is) s r t w h) tt stops)
      ∙ read_json-received is s r t h pos

  module _ (floats : Floats) (numeral : floats.Float → Numeral)
      (numeral-IsNumeral : (x : floats.Float) → IsNumeral (numeral x)) (math : Math (floats.Float))
      (new_w : ℕ → ℕ → ℕ → floats.Float) (new_b : ℕ → ℕ → floats.Float) (fresh : ℕ → Bytes)
      (fresh_size : (k : ℕ) → length (fresh k) ≡ k) where
    open floats use {Float}

    -- The arrays of the server behind the message, which held `v` and `u` before.
    abbrev pub Adds : Token → ℕ → List (Layer floats) → Type 0
    Adds weights n ls =
        (accum : Bool) (v : ℕ → ℕ → ℕ → Float) (u : ℕ → ℕ → Float)
        → parse_weights_json floats (n ∷ sizes_of floats numeral math new_w new_b ls) weights
            (w_arrays floats numeral math new_w new_b v 0 n ls)
            (b_arrays floats numeral math new_w new_b u 0 n ls) accum
          ≡ some (
            w_arrays floats numeral math new_w new_b
                (plus_w floats numeral math new_w new_b
                  (start_w floats numeral math new_w new_b accum v))
                0 n ls,
            b_arrays floats numeral math new_w new_b
                (plus_b floats numeral math new_w new_b
                  (start_b floats numeral math new_w new_b accum u))
                0 n ls,
          )

    -- For a network of one layer or more behind layers that are not empty, a round other than 0, and
    -- numbers that "%f", "%zu" and "%d" write as numerals (short ones, and read again by atol, atoi and
    -- strtoll), `send_weights` makes its text without an overflow, and the server reads from it the
    -- same round, time and statistics, and weights that `parse_weights_json` adds each in its place, as
    -- strtof reads what "%f" wrote, to what the arrays held or to 0. To the biases it adds the first
    -- row of the layer's weights.
    pub results_text-Adds :
        (longest n : ℕ) (l : Layer floats) (ls : List (Layer floats)) (acts : List (Row floats))
        (s : Stats) (r t past : ℕ)
        → PrintsWithin floats numeral longest
        → longest ≤ 1024
        → Follows floats numeral math new_w new_b n (l ∷ ls)
        → AllWritten s r t
        → r ≢ 0
        → Stops past []
        → (sb : StringBuilder) × (p : Payload) × (results_text
              (formats_of size_num int_num)
              floats
              (print floats numeral)
              fresh
              (model size_num int_num floats numeral numeral-IsNumeral math new_w new_b fresh
                fresh_size n
                (l ∷ ls)
                acts)
              s
              r
              t
            ≡ some sb)
          × (deserialize_training_data conversions past (contents sb) empty_payload
              ≡ some (p, true))
          × (p.round_number ≡ r)
          × (p.stats ≡ record s { training_time = t })
          × Adds p.weights n (l ∷ ls)
    results_text-Adds longest n l ls acts s r t past prints within follows h pos stops =
        let weights = weights_json floats numeral numeral-IsNumeral math new_w new_b n (l ∷ ls) in
        let (sb, made, is) =
          results_text-json_text size_num int_num floats numeral numeral-IsNumeral math new_w new_b
            fresh fresh_size longest n (l ∷ ls) acts s r t prints within follows
            (round_text-short size_num int_num atol strtoll r t h.0 h.1)
            (stats_text-short size_num int_num floats numeral numeral-IsNumeral math new_w new_b
              fresh fresh_size atoi s h.2 h.3 h.4 h.5) in
        (
          sb,
          received weights (layers_token floats numeral math new_w new_b 0 n (l ∷ ls)) s r t,
          made,
          ap (λ text. deserialize_training_data conversions past text empty_payload) is
              ∙ deserialize-received _ s r t past
                  (weights_json-IsJson floats numeral numeral-IsNumeral math new_w new_b n (l ∷ ls))
                  h pos stops,
          refl,
          refl,
          λ accum v u. parse_weights_json-plus floats numeral math new_w new_b n l ls accum v u,
        )
