-- ===== src/Client/Requests/Round.antt =====
-- zflclient/src/main.c: the first round of a client, from the server's message to the trained model.
use zfl.Base.{
  ℕ, suc, ◌+◌, ◌*◌, ◌/◌, ◌≤◌, ◌≡◌, ◌≢◌, refl, sym, ap, ap₂, ◌∙◌, true, false, Option, some, List,
  [], ◌∷◌, ◌>>=◌, Bytes, length, tabulate_from, length-tabulate_from, arith,
}
use zfl.StringBuilder.{StringBuilder, contents}
use zfl.Common.{Floats, Math}
use zfl.Common.Payload.{Conversions, Payload}
use zfl.Common.Weights.{Layers, parse_weights_json}
use zfl.Common.Text.{print, PrintsWithin}
use zfl.Common.RoundTrip.{
  sizes_of, plus_w, plus_b, zero_w, zero_b, layers_token, parse_weights_json-cleared,
}
use zfl.Cson.{Token}
use zfl.Cson.Numbers.{Numeral, IsNumeral}
use zfl.Network.Matrix.{Row}
use zfl.Network.Forward.{Nn}
use zfl.Network.Forward.Spec.{Layer, network}
use zfl.Network.Learn.{init_nn}
use zfl.Network.Learn.Layers.{items}
use zfl.Network.Learn.Results.{inserted, blank, init_nn-inserted}
use zfl.Network.Forward.Rows.{sheet, Labelled}
use zfl.Common.Message.{weights_json}
use zfl.Server.Training.{train_text}
use zfl.Server.Training.Text.{size_text, delivered, train_text-delivered}
use zfl.Client.{Formats}
use zfl.Client.Message.{Written, model}
use zfl.Client.Train.{train}
use zfl.Client.Train.Results.{model_of, after_epochs, train-after_epochs}
use zfl.Client.Requests.{Job, no_network, fresh_weights, fresh_bias, init_model, begin_training}

module _ (floats : Floats) (math : Math (floats.Float)) (fresh_floats : ℕ → ℕ → floats.Float)
    (numeral : floats.Float → Numeral) (fresh : ℕ → Bytes) (new_w : ℕ → ℕ → ℕ → floats.Float)
    (new_b : ℕ → ℕ → floats.Float) where
  open floats use {Float}

  -- What arrives of the weights, and of the biases.
  abbrev pub read_w : ℕ → ℕ → ℕ → Float
  read_w = plus_w floats numeral math new_w new_b (zero_w floats numeral math new_w new_b)

  abbrev pub read_b : ℕ → ℕ → Float
  read_b = plus_b floats numeral math new_w new_b (zero_b floats numeral math new_w new_b)

  -- The layers of a network of the given sizes, that memory holds before the weights are set.
  abbrev pub shapes : ℕ → List ℕ → List (Layer floats)
  shapes n sizes = blank floats math read_w read_b fresh_floats n sizes

  fresh_weights-items :
      (i n k : ℕ) (sizes : List ℕ)
      → fresh_weights fresh floats math fresh_floats (n ∷ k ∷ sizes)
        ≡ items floats math
            (λ a r c. tabulate_from 0 (r * c) (fresh_floats (r * c)))
            i
            n
            (shapes n (k ∷ sizes))
  fresh_weights-items i n k [] = refl
  fresh_weights-items i n k (k' ∷ sizes) =
      ap (λ ws. tabulate_from 0 (n * k) (fresh_floats (n * k)) ∷ ws)
        (fresh_weights-items (suc i) k k' sizes)

  fresh_bias-items :
      (i n k : ℕ) (sizes : List ℕ)
      → fresh_bias fresh floats math fresh_floats (n ∷ k ∷ sizes)
        ≡ items floats math (λ a r c. tabulate_from 0 c (fresh_floats c)) i n (shapes n (k ∷ sizes))
  fresh_bias-items i n k [] = refl
  fresh_bias-items i n k (k' ∷ sizes) =
      ap (λ bs. tabulate_from 0 k (fresh_floats k) ∷ bs) (fresh_bias-items (suc i) k k' sizes)

  sizes_of-shapes :
      (n : ℕ) (sizes : List ℕ) → sizes_of floats numeral math new_w new_b (shapes n sizes) ≡ sizes
  sizes_of-shapes n [] = refl
  sizes_of-shapes n (k ∷ sizes) = ap (λ l. k ∷ l) (sizes_of-shapes k sizes)

  init_sizes :
      (n k : ℕ) (sizes : List ℕ) (rands : ℕ → ℕ → Float)
      → (parse_weights_json floats
            (n ∷ k ∷ sizes)
            (layers_token floats numeral math new_w new_b 0 n (shapes n (k ∷ sizes)))
            (fresh_weights fresh floats math fresh_floats (n ∷ k ∷ sizes))
            (fresh_bias fresh floats math fresh_floats (n ∷ k ∷ sizes))
            false
          >>= λ p.
              init_nn floats math fresh_floats
                (n ∷ k ∷ sizes)
                rands
                (no_network fresh floats math fresh_floats)
                (some (p.0))
                (some (p.1)))
        ≡ some (
            network floats math n
              (fresh_floats (1 * n))
              (inserted floats math read_w read_b (shapes n (k ∷ sizes))))
  init_sizes n k sizes rands =
      ap₂ (λ ws bs. parse_weights_json floats (n ∷ k ∷ sizes) token ws bs false >>= init)
        (fresh_weights-items 0 n k sizes) (fresh_bias-items 0 n k sizes)
      ∙ ap
          (λ l.
            parse_weights_json floats (n ∷ k ∷ l) token
              (items floats math item_w 0 n (shapes n (k ∷ sizes)))
              (items floats math item_b 0 n (shapes n (k ∷ sizes))) false
            >>= init)
          (sym (sizes_of-shapes k sizes))
      ∙ ap (λ o. o >>= init)
          (parse_weights_json-cleared floats numeral math new_w new_b item_w item_b
            (λ i r c. length-tabulate_from 0 (r * c) (fresh_floats (r * c)))
            (λ i r c. length-tabulate_from 0 c (fresh_floats c)) n first (shapes k sizes))
      ∙ init_nn-inserted floats math read_w read_b fresh_floats n (k ∷ sizes) rands
    where
      first : Layer floats
      first = record {
        size = k;
        weights = λ i j. fresh_floats (n * k) (i * k + j);
        bias = fresh_floats (1 * k);
        held = fresh_floats (1 * k);
      }

      token : Token
      token = layers_token floats numeral math new_w new_b 0 n (shapes n (k ∷ sizes))

      item_w : ℕ → ℕ → ℕ → List Float
      item_w i r c = tabulate_from 0 (r * c) (fresh_floats (r * c))

      item_b : ℕ → ℕ → ℕ → List Float
      item_b i r c = tabulate_from 0 c (fresh_floats c)

      init : Layers floats × Layers floats → Option (Nn floats)
      init p =
          init_nn floats math fresh_floats (n ∷ k ∷ sizes) rands
            (no_network fresh floats math fresh_floats) (some (p.0)) (some (p.1))

  init_model-inserted :
      (rands : ℕ → ℕ → Float)
      → init_model fresh floats math fresh_floats rands
          (layers_token floats numeral math new_w new_b 0 784 (shapes 784 (16 ∷ 10 ∷ [])))
          (no_network fresh floats math fresh_floats)
        ≡ some (
            network floats math 784
              (fresh_floats (1 * 784))
              (inserted floats math read_w read_b (shapes 784 (16 ∷ 10 ∷ []))))
  unfolding init_model
  init_model-inserted rands = init_sizes 784 16 (10 ∷ []) rands

  -- The layers of the program's sizes.
  abbrev pub arch_layers : List (Layer floats)
  arch_layers = shapes 784 (16 ∷ 10 ∷ [])

  -- The model that a client begins to train.
  abbrev pub received_model : (ℕ → Float) × List (Layer floats)
  received_model = (fresh_floats (1 * 784), inserted floats math read_w read_b arch_layers)

  module _ (numeral-IsNumeral : (x : Float) → IsNumeral (numeral x))
      (fresh_size : (k : ℕ) → length (fresh k) ≡ k) (size_num : ℕ → Numeral)
      (conversions : Conversions) where
    -- For a server's network of the program's sizes, any round but 0, numbers that are written as
    -- numerals (the round's is read again by atol), a batch size other than 0, and a client that has its
    -- training set and no network yet: the server makes its message without an overflow, and from that
    -- content the client sets up a network with the weights that strtof reads from what "%f" wrote, and
    -- trains it, to the network behind its epochs that `train` is stated to give. The biases it starts
    -- from are the first rows of the weights.
    pub begin_training-after_epochs :
        (longest r b images : ℕ) (acts : List (Row floats)) (x y : ℕ → ℕ → Float)
        (block : List Float) (long_of : Bytes → ℕ) (rands : ℕ → ℕ → Float) (formats : Formats)
        (print' : Float → Bytes) (job : Job Float)
        → PrintsWithin floats numeral longest
        → longest ≤ 1024
        → Written conversions.atol size_num r
        → r ≢ 0
        → Labelled floats math images 784 10 x y block
        → (sb : StringBuilder) × (train_text
              (size_text size_num)
              floats
              (print floats numeral)
              fresh
              (model size_num size_num floats numeral numeral-IsNumeral math new_w new_b fresh
                fresh_size 784 arch_layers acts)
              r
            ≡ some sb)
          × (begin_training fresh floats math fresh_floats conversions long_of rands formats print'
                (record job { batch_size = suc b })
                (record {
                  n_images = images;
                  samples = sheet floats math images 784 10 block;
                  model = no_network fresh floats math fresh_floats;
                  samples_ready = true;
                })
                (contents sb)
              ≡ some (
                delivered size_num conversions
                    (weights_json floats numeral numeral-IsNumeral math new_w new_b 784 arch_layers)
                    (layers_token floats numeral math new_w new_b 0 784 arch_layers)
                    r,
                model_of floats math job.rate b 784 10 x y (
                    after_epochs floats math job.rate b 784 10 x y
                      (images / suc b)
                      job.num_epochs
                      received_model),
              ))
    unfolding begin_training
    begin_training-after_epochs longest r b images acts x y block long_of rands formats print' job
          prints within h pos reads =
        let (sb, made, read) =
          train_text-delivered size_num conversions floats numeral numeral-IsNumeral math new_w
            new_b fresh fresh_size longest 784 arch_layers acts r 0 prints within
            (omega arith, (omega arith, tt)) h pos refl in
        (
          sb,
          made,
          ap
                (λ o. o >>= λ p.
                  init_model fresh floats math fresh_floats rands p.0.weights
                    (no_network fresh floats math fresh_floats)
                  >>= λ m. trained m >>= λ learned. some (p.0, learned))
                read
              ∙ ap (λ o. o >>= λ m. trained m >>= λ learned. some (payload, learned))
                  (init_model-inserted rands)
              ∙ ap (λ o. o >>= λ learned. some (payload, learned))
                  (train-after_epochs floats math job.rate b 784 10 x y fresh_floats images block
                    (omega arith) reads job.num_epochs (received_model.0) (received_model.1) refl
                    refl (omega arith)),
        )
      where
        trained : Nn floats → Option (Nn floats)
        trained m =
            train floats math fresh_floats job.rate job.num_epochs (suc b) images
              (sheet floats math images 784 10 block) m

        payload : Payload
        payload =
            delivered size_num conversions
              (weights_json floats numeral numeral-IsNumeral math new_w new_b 784 arch_layers)
              (layers_token floats numeral math new_w new_b 0 784 arch_layers) r
