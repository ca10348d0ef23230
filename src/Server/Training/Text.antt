-- ===== src/Server/Training/Text.antt =====
-- zflserver/src/main.c, common.h: the model that the server sends, as a client reads it.
use zfl.Base.{
  ℕ, ◌≤◌, ◌≡◌, ◌≢◌, refl, ap, ◌∙◌, true, some, List, [], ◌++◌, Bytes, codes, length, length-append,
  append_assoc, arith,
}
use zfl.StringBuilder.{StringBuilder, contents, sb_init}
use zfl.StringBuilder.Laws.{sb_init-IsValid, Appends-append, sb_append-Appends, sb_appendf-Appends}
use zfl.Common.{Floats, Math}
use zfl.Common.Payload.{
  Payload, empty_payload, Conversions, has_prefix, set_key, read_keys, read_json,
  deserialize_training_data,
}
use zfl.Common.Text.{print, PrintsWithin, Follows}
use zfl.Common.Message.{weights_json, weights_json-IsJson, weights_to_string-Appends}
use zfl.Common.RoundTrip.{layers_token}
use zfl.Cson.{Token}
use zfl.Cson.Numbers.{Numeral, numeral_text, IsNumeral, Stops}
use zfl.Cson.Syntax.{
  Json, Items, arr, obj, end, member, json_text, members_text, token_of, members_of, items_of,
  IsJson, IsMembers, IsPlain-of,
}
use zfl.Cson.RoundTrip.{parse_json-json_text}
use zfl.Network.Matrix.{Row}
use zfl.Network.Forward.Spec.{Layer}
use zfl.Client.Message.{Written, entry, blank_byte, model}
use zfl.Client.Delivery.{not_zero}
use zfl.Server.Training.{round_text, train_text}

module _ (size_num : ℕ → Numeral) where
  abbrev pub size_text : ℕ → Bytes
  size_text k = numeral_text (size_num k)

  -- The value of the content.
  abbrev pub train_json : Json → ℕ → Json
  train_json weights r = obj [] (
      entry (codes "round") (size_num r) [] blank_byte
        (member (codes "weights") [] blank_byte weights [] [] end))

  train-text :
      (weights : Json) (text : Bytes) (r : ℕ)
      → ((rest : Bytes) → text ++ rest ≡ json_text weights rest)
      → round_text size_text r ++ (text ++ codes "}") ≡ json_text (train_json weights r) []
  unfolding json_text members_text
  train-text weights text r same = rw (← same) (simp append_assoc)

  module _ (conversions : Conversions) where
    open conversions use {atol}

    abbrev pub delivered : Json → Token → ℕ → Payload
    delivered weights inner r = record empty_payload {
      json = token_of (train_json weights r);
      round_number = r;
      weights = inner;
    }

    train_json-IsJson :
        (weights : Json) (r : ℕ)
        → IsJson weights
        → Written atol size_num r
        → IsJson (train_json weights r)
    unfolding IsJson IsMembers
    train_json-IsJson weights r w h = (
      tt,
      (
        IsPlain-of (codes "round") refl,
        tt,
        (refl, tt),
        h.0,
        tt,
        (refl, tt),
        (IsPlain-of (codes "weights") refl, tt, (refl, tt), w, tt, tt, tt),
      ),
    )

    read_json-delivered :
        (is : Items) (r : ℕ)
        → Written atol size_num r
        → r ≢ 0
        → read_json conversions empty_payload (token_of (train_json (arr [] is) r))
          ≡ some (delivered (arr [] is) (items_of is) r, true)
    unfolding read_json read_keys set_key token_of members_of has_prefix
    read_json-delivered is r h pos = rw (h.2, not_zero size_num size_num conversions r pos) refl

    deserialize-delivered :
        (is : Items) (r past : ℕ)
        → IsJson (arr [] is)
        → Written atol size_num r
        → r ≢ 0
        → Stops past []
        → deserialize_training_data conversions past
            (json_text (train_json (arr [] is) r) [])
            empty_payload
          ≡ some (delivered (arr [] is) (items_of is) r, true)
    unfolding deserialize_training_data
    deserialize-delivered is r past w h pos stops =
        ap (read_json conversions empty_payload) (
          parse_json-json_text (train_json (arr [] is) r) past [] []
            (train_json-IsJson (arr [] is) r w h) tt stops)
        ∙ read_json-delivered is r h pos

    module _ (floats : Floats) (numeral : floats.Float → Numeral)
        (numeral-IsNumeral : (x : floats.Float) → IsNumeral (numeral x))
        (math : Math (floats.Float)) (new_w : ℕ → ℕ → ℕ → floats.Float)
        (new_b : ℕ → ℕ → floats.Float) (fresh : ℕ → Bytes)
        (fresh_size : (k : ℕ) → length (fresh k) ≡ k) where
      abbrev weights_value : ℕ → List (Layer floats) → Json
      weights_value n ls = weights_json floats numeral numeral-IsNumeral math new_w new_b n ls

      abbrev pub weights_token : ℕ → List (Layer floats) → Token
      weights_token n ls = layers_token floats numeral math new_w new_b 0 n ls

      -- The message is made, and read.
      pub train_text-delivered :
          (longest n : ℕ) (ls : List (Layer floats)) (acts : List (Row floats)) (r past : ℕ)
          → PrintsWithin floats numeral longest
          → longest ≤ 1024
          → Follows floats numeral math new_w new_b n ls
          → Written atol size_num r
          → r ≢ 0
          → Stops past []
          → (sb : StringBuilder) × (train_text size_text floats
                (print floats numeral)
                fresh
                (model size_num size_num floats numeral numeral-IsNumeral math new_w new_b fresh
                  fresh_size n ls acts)
                r
              ≡ some sb)
            × (deserialize_training_data conversions past (contents sb) empty_payload
                ≡ some (delivered (weights_value n ls) (weights_token n ls) r, true))
      unfolding train_text sb_init
      train_text-delivered longest n ls acts r past prints within follows h pos stops =
          let (valid, empty) = sb_init-IsValid fresh fresh_size 1024 in
          let (text, weights, same) =
            weights_to_string-Appends floats numeral numeral-IsNumeral math new_w new_b fresh
              fresh_size longest n ls prints within follows in
          let (sb, e, is, v, larger) =
            sb_appendf-Appends fresh fresh_size (round_text size_text r) _ _
              (omega
                (arith, h.1, length-append (numeral_text (size_num r)) (codes ", \"weights\": ")))
              (Appends-append fresh fresh_size _ _ _ _ weights
                (sb_append-Appends fresh fresh_size (codes "}") (omega arith)))
              (sb_init fresh 1024) valid (omega arith) in
          (
            sb,
            e,
            ap (λ t. deserialize_training_data conversions past t empty_payload)
                  (is
                    ∙ ap (λ l. l ++ (round_text size_text r ++ (text ++ codes "}"))) empty
                    ∙ train-text (weights_value n ls) text r same)
                ∙ deserialize-delivered _ r past
                    (weights_json-IsJson floats numeral numeral-IsNumeral math new_w new_b n ls) h
                    pos stops,
          )
