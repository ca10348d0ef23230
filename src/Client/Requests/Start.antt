-- ===== src/Client/Requests/Start.antt =====
-- zflclient/src/main.c: what a client starts with.
use native.Mathlib.Nat.{mul-div_cancel}
use mathlib.Core.List.{flatten}
use mathlib.Core.Option.{some-injective}
use zfl.Base.{
  ℕ, zero, suc, ◌+◌, ◌*◌, ◌/◌, ◌≤◌, ◌≡◌, ◌≢◌, refl, ap, ap₂, ◌∙◌, Bool, true, false, Option, none,
  some, List, [], ◌∷◌, ◌++◌, ◌>>=◌, >>=-eq-some, ◌==◌, ==_iff, if◌then◌else◌, Bytes, codes, length,
  length-append, All, get_elem?, tabulate_from, length-tabulate_from, get_elem?-tabulate_from,
  arith,
}
use zfl.Sockets.{sendall-All, Takes}
use zfl.StringBuilder.{StringBuilder, sb_init, sb_append, append_all, sb_string}
use zfl.StringBuilder.Laws.{sb_init-IsValid, append_all-contents}
use zfl.Common.{Floats, Math}
use zfl.Network.TrainSet.{
  img_size, init_train_set, init_train_set-labelled, pixel_values, label_values,
}
use zfl.Network.Matrix.{Mat}
use zfl.Network.Forward.Rows.{labelled}
use zfl.Client.Requests.{
  Exchange, recvall, request_text, get_request, resource, req_images, req_labels, req_id, Trainer,
  take_samples, run, no_network,
}

-- A connection to the server on which each call of `send` takes something, and on which the bytes of
-- `text` come in chunks as `recvall` takes them.
abbrev pub Answers : Exchange → Bytes → Bytes → Type 0
Answers x endpoint text =
    (x.connected ≡ true)
    × (All Takes x.sends × (length (request_text endpoint) ≤ length x.sends))
    × (All (λ chunk. length chunk ≤ 256) x.chunks × (flatten x.chunks ≡ text))
    × (x.broken ≡ false)

not_zero : (n : ℕ) → n ≢ 0 → (n == 0) ≡ false
not_zero n h = ground arith

module _ (fresh : ℕ → Bytes) (fresh_size : (n : ℕ) → length (fresh n) ≡ n) where
  recvall-append_all :
      (total : ℕ) (sb sb' : StringBuilder) (chunks : List Bytes) (broken : Bool)
      → append_all fresh sb chunks ≡ some sb'
      → recvall fresh total sb chunks broken
        ≡ some (sb', if broken then none else some (total + length (flatten chunks)))
  unfolding recvall append_all flatten
  recvall-append_all total sb sb' [] broken e =
      ap₂ (λ b k. some (b, if broken then none else some k)) (some-injective _ _ e) (omega arith)
  recvall-append_all total sb sb' (chunk ∷ chunks) broken e =
      let (sb1, step, last) =
        >>=-eq-some (sb_append fresh sb chunk) (λ b. append_all fresh b chunks) e in
      rw step (
        recvall-append_all (total + length chunk) sb1 sb' chunks broken last
        ∙ ap (λ k. some (sb', if broken then none else some k))
            (omega (arith, length-append chunk (flatten chunks))))

  cap_of_init : 256 ≤ (sb_init fresh 1024).cap
  unfolding sb_init
  cap_of_init = omega arith

  get_request-Answers :
      (x : Exchange) (endpoint text : Bytes)
      → Answers x endpoint text
      → get_request fresh x endpoint ≡ some (some (text ++ (0 ∷ []), some (length text)))
  unfolding get_request sb_string
  get_request-Answers x endpoint text (up, (takes, enough), (small, all), whole) =
      let (valid, blank) = sb_init-IsValid fresh fresh_size 1024 in
      let (sb, appended, text_is, valid', larger) =
        append_all-contents fresh fresh_size x.chunks (sb_init fresh 1024) 256 valid cap_of_init
          small in
      rw (up, sendall-All x.sends (request_text endpoint) takes enough)
        (ap (λ o. o >>= λ got. some (some (sb_string got.0, got.1)))
            (recvall-append_all 0 (sb_init fresh 1024) sb x.chunks x.broken appended)
          ∙ ap
              (λ b.
                some
                  (some (sb_string sb, if b then none else some (0 + length (flatten x.chunks)))))
              whole
          ∙ ap₂ (λ t k. some (some (t ++ (0 ∷ []), some k)))
              (text_is ∙ ap (λ t. t ++ flatten x.chunks) blank ∙ all)
              (ap (λ t. 0 + length t) all ∙ omega arith))

  req_id-Answers :
      (atoi : Bytes → ℕ) (x : Exchange) (id : ℕ) (text : Bytes)
      → Answers x (codes "/id") text
      → req_id fresh atoi x id ≡ some (atoi (text ++ (0 ∷ [])))
  unfolding req_id
  req_id-Answers atoi x id text answers =
      ap (λ o. o >>= λ answer. elim answer [ none ↦ some id | some t ↦ some (atoi (t.0)) ])
        (get_request-Answers x (codes "/id") text answers)

  get_elem?-before :
      (l : Bytes) (k byte : ℕ) → get_elem? l k ≡ some byte → get_elem? (l ++ (0 ∷ [])) k ≡ some byte
  get_elem?-before [] k byte e = cc
  get_elem?-before (b ∷ l) zero byte e = e
  get_elem?-before (b ∷ l) (suc k) byte e = get_elem?-before l k byte e

  module _ (floats : Floats) (math : Math (floats.Float)) (fresh_floats : ℕ → ℕ → floats.Float)
      (n : ℕ) (pixels labels : ℕ → ℕ) where
    -- The bytes of the pictures and of the labels.
    abbrev pub images_text : Bytes
    images_text = tabulate_from 0 (n * img_size) pixels

    abbrev pub labels_text : Bytes
    labels_text = tabulate_from 0 n labels

    abbrev pub started : Trainer fresh floats math fresh_floats
    started = record {
      n_images = n;
      samples =
          labelled floats math n img_size 10 (pixel_values floats math pixels labels)
            (label_values floats math pixels labels);
      model = no_network fresh floats math fresh_floats;
      samples_ready = true;
    }

    count_images : length images_text / img_size ≡ n
    count_images =
        ap (λ k. k / img_size) (length-tabulate_from 0 (n * img_size) pixels)
        ∙ mul-div_cancel n (omega arith)

    take_samples-started :
        take_samples fresh floats math fresh_floats
          (some (images_text ++ (0 ∷ []), some (length images_text)))
          (some (labels_text ++ (0 ∷ []), some (length labels_text)))
        ≡ some (some started)
    unfolding take_samples
    take_samples-started =
        ap₂ (λ a b. if a == b then take a else some none) count_images
          (length-tabulate_from 0 n labels)
        ∙ ap (λ b. if b then take n else some none) ((==_iff n n).1 refl)
        ∙ ap (λ o. o >>= trainer n)
            (init_train_set-labelled floats math pixels labels (images_text ++ (0 ∷ []))
              (labels_text ++ (0 ∷ [])) n
              (λ k h. get_elem?-before images_text k (pixels k) (
                get_elem?-tabulate_from 0 (n * img_size) pixels k h
                ∙ ap (λ i. some (pixels i)) (omega arith)))
              (λ k h.
                get_elem?-before labels_text k (labels k) (
                  get_elem?-tabulate_from 0 n labels k h ∙ ap (λ i. some (labels i)) (omega arith)))
              fresh_floats)
      where
        trainer : ℕ → Mat floats → Option (Option (Trainer fresh floats math fresh_floats))
        trainer a t = some (
            some (record {
              n_images = a;
              samples = t;
              model = no_network fresh floats math fresh_floats;
              samples_ready = true;
            }))

        take : ℕ → Option (Option (Trainer fresh floats math fresh_floats))
        take a =
            init_train_set floats math fresh_floats (images_text ++ (0 ∷ []))
              (labels_text ++ (0 ∷ [])) a
            >>= trainer a

    -- Where the address is added, the settings are not 0, and the server can be reached and answers with
    -- the id, the bytes of `n` pictures and `n` labels, in chunks of at most 256 bytes each,
    -- `run` comes to `start_server` with the id, the settings, and the training set of these pictures
    -- and labels.
    pub run-started :
        (atoi : Bytes → ℕ) (int_text : ℕ → Bytes) (name addr epochs batch : Bytes)
        (args : List Bytes) (x_id x_images x_labels : Exchange) (id_text : Bytes)
        → atoi epochs ≢ 0
        → atoi batch ≢ 0
        → Answers x_id (codes "/id") id_text
        → Answers x_images
            (resource int_text (codes "/train-images") (atoi (id_text ++ (0 ∷ []))))
            images_text
        → Answers x_labels
            (resource int_text (codes "/train-labels") (atoi (id_text ++ (0 ∷ []))))
            labels_text
        → run fresh floats math fresh_floats atoi int_text
            (name ∷ addr ∷ epochs ∷ batch ∷ args)
            true
            x_id
            x_images
            x_labels
          ≡ some (some (atoi (id_text ++ (0 ∷ [])), atoi epochs, atoi batch, started))
    unfolding run
    run-started atoi int_text name addr epochs batch args x_id x_images x_labels id_text some_epochs
          some_batch id images labels' =
        rw (not_zero (atoi epochs) some_epochs, not_zero (atoi batch) some_batch)
          (ap (λ o. o >>= with_id) (req_id-Answers atoi x_id 0 id_text id)
            ∙ ap (λ o. o >>= with_images my_id)
                (get_request-Answers x_images (resource int_text (codes "/train-images") my_id)
                  images_text images)
            ∙ ap
                (λ o.
                  o
                  >>= with_labels my_id (some (images_text ++ (0 ∷ []), some (length images_text))))
                (get_request-Answers x_labels (resource int_text (codes "/train-labels") my_id)
                  labels_text labels')
            ∙ ap (λ o. o >>= finish my_id) take_samples-started)
      where
        my_id : ℕ
        my_id = atoi (id_text ++ (0 ∷ []))

        finish :
            ℕ
            → Option (Trainer fresh floats math fresh_floats)
            → Option (Option (ℕ × ℕ × ℕ × Trainer fresh floats math fresh_floats))
        finish i answer = elim answer [
          | none ↦ some none
          | some trainer ↦ some (some (i, atoi epochs, atoi batch, trainer))
        ]

        with_labels :
            ℕ
            → Option (Bytes × Option ℕ)
            → Option (Bytes × Option ℕ)
            → Option (Option (ℕ × ℕ × ℕ × Trainer fresh floats math fresh_floats))
        with_labels i images' answer =
            take_samples fresh floats math fresh_floats images' answer >>= finish i

        with_images :
            ℕ
            → Option (Bytes × Option ℕ)
            → Option (Option (ℕ × ℕ × ℕ × Trainer fresh floats math fresh_floats))
        with_images i images' = req_labels fresh int_text x_labels i >>= with_labels i images'

        with_id : ℕ → Option (Option (ℕ × ℕ × ℕ × Trainer fresh floats math fresh_floats))
        with_id i = req_images fresh int_text x_images i >>= with_images i
