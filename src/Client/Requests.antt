-- ===== src/Client/Requests.antt =====
-- zflclient/src/main.c: the requests of a client, `run`, and `handle_incoming_connection`.
pub mod Start
pub mod Round
use zfl.Base.{
  ℕ, zero, suc, ◌+◌, ◌-◌, ◌/◌, Bool, true, false, Option, none, some, List, [], ◌∷◌, ◌++◌, ◌>>=◌,
  ◌==◌, if◌then◌else◌, Bytes, codes, length, take, tabulate_from, ◌*◌,
}
use zfl.Sockets.{sendall}
use zfl.StringBuilder.{StringBuilder, sb_init, sb_append, sb_string}
use zfl.Common.{Floats, Math, arch}
use zfl.Client.{Formats, Try, send_weights}
use zfl.Client.Train.{train}
use zfl.Common.Payload.{
  Conversions, Stats, Payload, empty_payload, deserialize_training_data, has_prefix,
}
use zfl.Common.Weights.{parse_weights_json}
use zfl.Cson.{Token}
use zfl.Network.Matrix.{Mat}
use zfl.Network.Forward.{Nn}
use zfl.Network.Learn.{init_nn}
use zfl.Network.TrainSet.{img_size, init_train_set}
use zfl.Http.{Http, empty_http, substr, get_header}
use zfl.Http.Query.{parse_query_param}
use zfl.Http.Receive.{Received, recv_required_req, recv_optional_headers, recv_content}

-- What the sockets do for one request: whether the server can be reached, what `send` returns, what
-- `recv` delivers, and whether it fails then.
pub record Exchange : Type 0 where
  pub connected : Bool
  pub sends : List (Option ℕ)
  pub chunks : List Bytes
  pub broken : Bool

-- What a training takes besides the message: `ID`, `NUM_EPOCHS`, `BATCH_SIZE` and the rate of `train`,
-- the uptimes before and behind it, what `get_stats` fills in, and the sockets of `send_weights`.
pub record Job (Float : Type 0) : Type 0 where
  pub id : ℕ
  pub num_epochs : ℕ
  pub batch_size : ℕ
  pub rate : Float
  pub began : ℕ
  pub ended : ℕ
  pub stats : Stats
  pub tries : List Try

abbrev pub request_text : Bytes → Bytes
request_text endpoint =
    codes "GET " ++ (endpoint ++ (codes " " ++ (b'\r' ∷ b'\n' ∷ b'\r' ∷ b'\n' ∷ [])))

-- The resource, of which snprintf writes at most 99 bytes.
abbrev pub resource : (ℕ → Bytes) → Bytes → ℕ → Bytes
resource int_text endpoint id = take 99 (endpoint ++ (codes "?id=" ++ int_text id))

module _ (fresh : ℕ → Bytes) where
  -- The text, and how many bytes were received; `none` is the error. Each chunk is what a call that
  -- returned more than 0 delivered, so that none is empty; behind the last one recv returns 0, or less
  -- where the connection is broken. The bytes are fewer than 2 ^ 31, as the memory of a board is.
  unfoldable pub recvall : ℕ → StringBuilder → List Bytes → Bool → Option (StringBuilder × Option ℕ)
  recvall total sb [] broken = some (sb, if broken then none else some total)
  recvall total sb (chunk ∷ chunks) broken =
      sb_append fresh sb chunk >>= λ sb'. recvall (total + length chunk) sb' chunks broken

  -- The text with a NUL and the value of `received`. The inner `none` is NULL, which leaves `received`
  -- alone.
  unfoldable pub get_request : Exchange → Bytes → Option (Option (Bytes × Option ℕ))
  get_request x endpoint =
      if x.connected
      then (sendall x.sends (request_text endpoint) >>= λ out.
          if out.1
          then (recvall 0 (sb_init fresh 1024) x.chunks x.broken >>= λ got.
              some (some (sb_string got.0, got.1)))
          else some none)
      else some none

  module _ (int_text : ℕ → Bytes) where
    abbrev pub req_images : Exchange → ℕ → Option (Option (Bytes × Option ℕ))
    req_images x id = get_request x (resource int_text (codes "/train-images") id)

    abbrev pub req_labels : Exchange → ℕ → Option (Option (Bytes × Option ℕ))
    req_labels x id = get_request x (resource int_text (codes "/train-labels") id)

  -- `ID` behind the call, which stays where there is no answer.
  unfoldable pub req_id : (Bytes → ℕ) → Exchange → ℕ → Option ℕ
  req_id atoi x id = get_request x (codes "/id") >>= λ answer. elim answer [
    | none ↦ some id
    | some text ↦ some (atoi (text.0))
  ]

  module _ (floats : Floats) (math : Math (floats.Float))
      (fresh_floats : ℕ → ℕ → floats.Float) where
    pub record Trainer : Type 0 where
      pub n_images : ℕ
      pub samples : Mat floats
      pub model : Nn floats
      pub samples_ready : Bool

    abbrev pub no_network : Nn floats
    no_network = record { ws = []; bs = []; as_rows = [] }

    -- The division of the `int`s: -1 / 784 is 0.
    abbrev pub images_in : Option ℕ → ℕ
    images_in none = 0
    images_in (some image_bytes) = image_bytes / img_size

    -- `n_images != n_labels`
    abbrev pub same_count : ℕ → Option ℕ → Bool
    same_count n_images none = false
    same_count n_images (some n_labels) = n_images == n_labels

    -- Behind the answers: -1 where the numbers differ, the inner `none`. Where an answer is NULL, its
    -- number is never set.
    unfoldable pub take_samples :
        Option (Bytes × Option ℕ) → Option (Bytes × Option ℕ) → Option (Option Trainer)
    take_samples none labels = none
    take_samples (some images) none = none
    take_samples (some images) (some labels) =
        if same_count (images_in images.1) labels.1
        then (init_train_set floats math fresh_floats images.0 labels.0 (images_in images.1)
            >>= λ t. some (
                some (record {
                  n_images = images_in images.1;
                  samples = t;
                  model = no_network;
                  samples_ready = true;
                })))
        else some none

    -- `run` up to `start_server`: `ID`, `NUM_EPOCHS`, `BATCH_SIZE` and the trainer. The inner `none` is
    -- the result -1, and an argument that is not there the null pointer, of which atoi makes a fault.
    -- `added` is whether the address was added to the interface.
    unfoldable pub run :
        (Bytes → ℕ)
        → (ℕ → Bytes)
        → List Bytes
        → Bool
        → Exchange
        → Exchange
        → Exchange
        → Option (Option (ℕ × ℕ × ℕ × Trainer))
    run atoi int_text (name ∷ addr ∷ epochs ∷ batch ∷ args) added x_id x_images x_labels =
        if added
        then if atoi epochs == 0
          then some none
          else if atoi batch == 0
          then some none
          else (req_id atoi x_id 0 >>= λ id. req_images int_text x_images id >>= λ images.
              req_labels int_text x_labels id >>= λ labels. take_samples images labels >>= λ answer.
              elim answer [
                | none ↦ some none
                | some trainer ↦ some (some (id, atoi epochs, atoi batch, trainer))
              ])
        else some none
    run atoi int_text (name ∷ addr ∷ epochs ∷ []) added x_id x_images x_labels =
        if added then if atoi epochs == 0 then some none else none else some none
    run atoi int_text (name ∷ addr ∷ []) added x_id x_images x_labels =
        if added then none else some none
    run atoi int_text (name ∷ []) added x_id x_images x_labels = some none
    run atoi int_text [] added x_id x_images x_labels = some none

    -- Arrays of `malloc` for each layer of the sizes.
    abbrev pub fresh_weights : List ℕ → List (List floats.Float)
    fresh_weights [] = []
    fresh_weights (rows ∷ []) = []
    fresh_weights (rows ∷ cols ∷ sizes) =
        tabulate_from 0 (rows * cols) (fresh_floats (rows * cols)) ∷ fresh_weights (cols ∷ sizes)

    abbrev pub fresh_bias : List ℕ → List (List floats.Float)
    fresh_bias [] = []
    fresh_bias (rows ∷ []) = []
    fresh_bias (rows ∷ cols ∷ sizes) =
        tabulate_from 0 cols (fresh_floats cols) ∷ fresh_bias (cols ∷ sizes)

    -- The model behind the call.
    unfoldable pub init_model : (ℕ → ℕ → floats.Float) → Token → Nn floats → Option (Nn floats)
    init_model rands weights model = do
      (ws, bs) ← parse_weights_json floats arch weights (fresh_weights arch) (fresh_bias arch) false
      init_nn floats math fresh_floats arch rands model (some ws) (some bs)

    -- What a request comes to: a payload, the model that was trained with it, and what went out on the
    -- connections of `send_weights`; or the answer whether the samples are there; or only a message.
    pub data Action : Type 0 where
      trained : Payload → Nn floats → List Bytes → Action
      answers_ready : Bytes → Action
      not_found : Action
      closes : Action

    -- As in the server, `long_of` is what strtol returns.
    module _ (conversions : Conversions) (long_of : Bytes → ℕ) (rands : ℕ → ℕ → floats.Float)
        (formats : Formats) (print : floats.Float → Bytes) (job : Job (floats.Float))
        (trainer : Trainer) where
      -- The payload and the model behind the training. The byte behind the content is the NUL of
      -- `substr`; the result of `deserialize_training_data` is not looked at.
      unfoldable pub begin_training : Bytes → Option (Payload × Nn floats)
      begin_training content =
          deserialize_training_data conversions 0 content empty_payload >>= λ p.
          init_model rands p.0.weights trainer.model >>= λ model.
          train floats math fresh_floats job.rate job.num_epochs job.batch_size trainer.n_images
            trainer.samples model
          >>= λ learned. some (p.0, learned)

      unfoldable pub handle_training : Bytes → Option Action
      handle_training content = begin_training content >>= λ p.
          send_weights formats floats print fresh (p.1) job.stats job.id job.tries p.0.round_number
            ((job.ended - job.began) / 1000)
          >>= λ sent. some (trained (p.0) (p.1) (sent.0))

      unfoldable pub take_content : Received → ℕ → Option Bytes → Option Action
      take_content r offset none = some closes
      take_content r offset (some text) = do
        r' ← recv_content fresh r.http r.text offset (long_of text) r.pending
        elim r'.result [
          | none ↦ some closes
          | some done ↦ do
            content ← substr r'.text.buf offset (long_of text)
            handle_training content
        ]

      unfoldable pub dispatch : Received → Http → ℕ → Bytes → Option Action
      dispatch r h offset url =
          if has_prefix url (codes "/train")
          then (get_header h (codes "Content-Length") >>= λ text. take_content r offset text)
          else if has_prefix url (codes "/ready")
          then some (answers_ready (if trainer.samples_ready then codes "true" else codes "false"))
          else some not_found

      unfoldable pub handle_request : Received → ℕ → Option Action
      handle_request r offset = do
        (h, found) ← parse_query_param r.http
        url ← h.url
        dispatch r h offset url

      unfoldable pub handle_headers : Received → ℕ → Option Action
      handle_headers r required_len = do
        r' ← recv_optional_headers fresh r.http r.text required_len r.pending
        elim r'.result [
          | none ↦ some closes
          | some optional_len ↦ handle_request r' (required_len + optional_len)
        ]

      unfoldable pub handle_incoming_connection : List Bytes → Option Action
      handle_incoming_connection chunks = do
        r ← recv_required_req fresh empty_http (sb_init fresh 1024) chunks
        elim r.result [ none ↦ some closes | some required_len ↦ handle_headers r required_len ]
