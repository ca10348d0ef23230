-- ===== src/Client/Train/Results.antt =====
-- zflclient/src/train.h: what `train` makes of the network.
use zfl.Base.{
  sym, subst, [], ◌∷◌, ℕ, zero, suc, ◌+◌, ◌*◌, ◌/◌, ◌%◌, ◌≤◌, ◌<◌, ◌≡◌, refl, ap, ◌∙◌, Bool, true,
  false, Option, some, List, ◌>>=◌, ◌==◌, if◌then◌else◌, for_loop, for_loop-states, get_elem?, drop,
  get_elem?-drop, arith,
}
use native.Mathlib.Nat.{div-mul-le_self}
use zfl.Network.{Region, region_alloc_alloc, alloc_all, nn_bytes}
use zfl.Network.Laws.{total_words, alloc_all-Laid}
use zfl.Network.Backprop.{row_sizes, nn_backprop}
use zfl.Common.{Floats, Math}
use zfl.Network.Matrix.{Mat, act_relu, mat_slice}
use zfl.Network.Forward.{Nn, nn_cross_entropy}
use zfl.Network.Forward.Accuracy.{accuracy, accuracy-hits}
use zfl.Network.Forward.Scores.{nn_cross_entropy-logs}
use zfl.Network.Forward.Spec.{held_of, Layer, network, is_last, pass}
use zfl.Network.Forward.Repeat.{
  last_size, layer_sizes, layer_sizes-pass, last_size-pass, pass-pass, is_last-pass,
}
use zfl.Network.Forward.Rows.{sheet, Labelled}
use zfl.Network.Learn.{nn_learn}
use zfl.Network.Backprop.Result.{Trace}
use zfl.Network.Backprop.Gradients.{
  trace_at, input_sum_at, size_at, layer_sizes_at, is_last_at, nn_backprop-gradients,
}
use zfl.Network.Backprop.Learned.{
  stepped, layer_sizes-stepped, nn_learn-stepped, is_last-stepped, last_size-stepped,
}
use zfl.Client.Train.{gradient_region, train_batch, train}

module _ (floats : Floats) (math : Math (floats.Float)) where
  open floats use {Float}

  -- The rows of a table from row `from` on.
  abbrev pub rows_from : ℕ → (ℕ → ℕ → Float) → ℕ → ℕ → Float
  rows_from from f i j = f (from + i) j

  slice-Labelled :
      (r n m from k : ℕ) (x y : ℕ → ℕ → Float) (block : List Float)
      → Labelled floats math r n m x y block
      → from + k ≤ r
      → Labelled floats math k n m
          (rows_from from x)
          (rows_from from y)
          (drop (from * (n + m)) block)
  slice-Labelled r n m from k x y block reads h i j hi hj =
      get_elem?-drop (from * (n + m)) (i * (n + m) + j) block
      ∙ ap (get_elem? block) (grind arith)
      ∙ reads (from + i) j (omega arith) hj

  module _ (rate : Float) (b n m : ℕ) (x y : ℕ → ℕ → Float) where
    abbrev Model : Type 0
    Model = (ℕ → Float) × List (Layer floats)

    -- The inputs and labels of a batch of `b + 1` rows, and its gradients.
    abbrev inputs : ℕ → ℕ → ℕ → Float
    inputs batch = rows_from (batch * suc b) x

    abbrev labels : ℕ → ℕ → ℕ → Float
    labels batch = rows_from (batch * suc b) y

    abbrev trace : ℕ → Model → Trace floats math act_relu
    trace batch (z, ls) =
        trace_at floats math act_relu (suc b) n m (inputs batch) (labels batch) z ls (suc b)

    -- The layers behind one batch: `rate` times the sums of its gradients taken from
    -- weights and biases.
    abbrev fitted : ℕ → Model → List (Layer floats)
    fitted batch s = stepped floats math act_relu rate (trace batch s)

    abbrev pub after_batch : ℕ → ℕ → Model → Model
    after_batch epoch batch s =
        let last = inputs batch b in
        (last, if epoch % 10 == 0 then pass floats math n last (fitted batch s) else fitted batch s)

    -- The model behind `k` batches of an epoch, and behind `k` epochs of `batches` batches.
    abbrev pub after_batches : ℕ → ℕ → Model → Model
    after_batches epoch zero s = s
    after_batches epoch (suc k) s = after_batch epoch k (after_batches epoch k s)

    abbrev pub after_epochs : ℕ → ℕ → Model → Model
    after_epochs batches zero s = s
    after_epochs batches (suc k) s = after_batches (suc k) batches (after_epochs batches k s)

    abbrev pub model_of : Model → Nn floats
    model_of s = network floats math n s.0 s.1

    -- The gradients of layers of these sizes fit the 500 KiB of their region, in words.
    abbrev pub Fits : List ℕ → Type 0
    Fits sizes = total_words 4 (nn_bytes 4 (n ∷ sizes)) ≤ 128000

    -- A layer at least, an output as wide as the labels, and room for the gradients.
    abbrev Shaped : List (Layer floats) → Type 0
    Shaped ls =
        (is_last floats math ls ≡ false)
        × (last_size floats math n ls ≡ m)
        × Fits (layer_sizes floats math ls)

    row_sizes-layer_sizes :
        (ls : List (Layer floats))
        → row_sizes floats math act_relu (held_of floats math ls) ≡ layer_sizes floats math ls
    row_sizes-layer_sizes [] = refl
    row_sizes-layer_sizes (l ∷ ls) = ap (λ sizes. l.size ∷ sizes) (row_sizes-layer_sizes ls)

    fitted-Shaped : (batch : ℕ) (s : Model) → Shaped s.1 → Shaped (fitted batch s)
    fitted-Shaped batch s h = (
      is_last-stepped floats math act_relu rate (trace batch s)
          ∙ is_last_at floats math act_relu (suc b) n m (inputs batch) (labels batch) s.0 s.1
              (suc b) h.0,
      last_size-stepped floats math act_relu rate n (trace batch s)
          ∙ size_at floats math act_relu (suc b) n m (inputs batch) (labels batch) s.0 s.1 (suc b)
              h.1,
      subst Fits
          (sym (
            layer_sizes-stepped floats math act_relu rate (trace batch s)
            ∙ layer_sizes_at floats math act_relu (suc b) n m (inputs batch) (labels batch) s.0 s.1
                (suc b)))
          (h.2),
    )

    after_batch-Shaped :
        (epoch batch : ℕ) (s : Model) → Shaped s.1 → Shaped (after_batch epoch batch s).1
    after_batch-Shaped epoch batch s h = either (epoch % 10 == 0) (fitted-Shaped batch s h)
      where
        either :
            (tenth : Bool)
            → Shaped (fitted batch s)
            → Shaped (
                if tenth
                then pass floats math n (inputs batch b) (fitted batch s)
                else fitted batch s)
        either true k = (
          is_last-pass floats math n (inputs batch b) (fitted batch s) ∙ k.0,
          last_size-pass floats math n n (inputs batch b) (fitted batch s) ∙ k.1,
          subst Fits (sym (layer_sizes-pass floats math n (inputs batch b) (fitted batch s))) (k.2),
        )
        either false k = k

    after_batches-Shaped :
        (epoch k : ℕ) (s : Model) → Shaped s.1 → Shaped (after_batches epoch k s).1
    after_batches-Shaped epoch zero s h = h
    after_batches-Shaped epoch (suc k) s h =
        after_batch-Shaped epoch k (after_batches epoch k s) (after_batches-Shaped epoch k s h)

    after_epochs-Shaped :
        (batches k : ℕ) (s : Model) → Shaped s.1 → Shaped (after_epochs batches k s).1
    after_epochs-Shaped batches zero s h = h
    after_epochs-Shaped batches (suc k) s h =
        after_batches-Shaped (suc k) batches (after_epochs batches k s)
          (after_epochs-Shaped batches k s h)

    module _ (fresh : ℕ → ℕ → Float) (r : ℕ) (block : List Float) (positive : 0 < m)
        (reads : Labelled floats math r n m x y block) where
      abbrev samples : Mat floats
      samples = sheet floats math r n m block

      abbrev part : ℕ → Mat floats
      part batch = mat_slice floats samples (batch * suc b) (suc b)

      gradient_region-Fits :
          (z : ℕ → Float) (ls : List (Layer floats))
          → Fits (layer_sizes floats math ls)
          → (temp : List ℕ × Region) × (gradient_region floats math fresh rate
                (network floats math n z ls)
              ≡ some temp)
      unfolding gradient_region region_alloc_alloc
      gradient_region-Fits z ls room =
          let (starts, temp, fits, laid, ends, same) =
            alloc_all-Laid 4 (record { capacity = 128000; size = 0 })
              (nn_bytes 4 (n ∷ layer_sizes floats math ls)) (omega arith) (omega arith) in
          (
            (starts, temp),
            ap
                  (λ sizes.
                    alloc_all 4 (record { capacity = 128000; size = 0 }) (nn_bytes 4 (n ∷ sizes)))
                  (row_sizes-layer_sizes ls)
                ∙ fits,
          )

      part-Labelled :
          (batch : ℕ)
          → batch * suc b + suc b ≤ r
          → Labelled floats math
              (suc b)
              n
              m
              (rows_from (batch * suc b) x)
              (rows_from (batch * suc b) y)
              (drop (batch * suc b * (n + m)) block)
      part-Labelled batch h = slice-Labelled r n m (batch * suc b) (suc b) x y block reads h

      -- The two passes of a tenth epoch.
      measured :
          (batch : ℕ) (v : ℕ → Float) (ls : List (Layer floats))
          → batch * suc b + suc b ≤ r
          → last_size floats math n ls ≡ m
          → (nn_cross_entropy floats math (network floats math n v ls) (part batch) >>= λ p.
              accuracy floats math (p.0) (part batch) >>= λ q. some (q.0))
            ≡ some (network floats math n (inputs batch b) (pass floats math n (inputs batch b) ls))
      measured batch v ls h size =
          ap (λ o. o >>= λ p. accuracy floats math (p.0) (part batch) >>= λ q. some (q.0))
            (nn_cross_entropy-logs floats math (suc b) n m (inputs batch) (labels batch) _ v ls
              (part-Labelled batch h) positive size)
          ∙ ap (λ o. o >>= λ q. some (q.0))
              (accuracy-hits floats math (suc b) n m (inputs batch) (labels batch) _ last
                (pass floats math n last ls) (part-Labelled batch h) positive
                (last_size-pass floats math n n last ls ∙ size))
          ∙ ap (λ l. some (network floats math n last l)) (pass-pass floats math n last last ls)
        where
          last : ℕ → Float
          last = inputs batch b

      train_batch-after_batch :
          (epoch batch : ℕ) (s : Model)
          → batch * suc b + suc b ≤ r
          → Shaped s.1
          → train_batch floats math fresh rate samples (suc b) epoch batch (model_of s)
            ≡ some (model_of (after_batch epoch batch s))
      unfolding train_batch
      train_batch-after_batch epoch batch s h shaped =
          ap
            (λ o. o >>= λ temp.
              nn_backprop floats math act_relu fresh (model_of s) (part batch) >>= λ p.
              nn_learn floats math (p.0) (p.1) rate >>= rest)
            (gradient_region-Fits (s.0) (s.1) (shaped.2)).1
          ∙ ap (λ o. o >>= λ p. nn_learn floats math (p.0) (p.1) rate >>= rest)
              (nn_backprop-gradients floats math act_relu (suc b) n m (inputs batch) (labels batch)
                s.0 s.1 fresh _ positive (part-Labelled batch h) (shaped.0) (shaped.1))
          ∙ ap (λ o. o >>= rest)
              (nn_learn-stepped floats math act_relu rate n (inputs batch b)
                (input_sum_at floats math act_relu (suc b) n m (inputs batch) (labels batch) s.0 s.1
                  (suc b))
                (trace batch s))
          ∙ either (epoch % 10 == 0)
        where
          rest : Nn floats → Option (Nn floats)
          rest learned =
              if epoch % 10 == 0
              then (nn_cross_entropy floats math learned (part batch) >>= λ p.
                  accuracy floats math (p.0) (part batch) >>= λ q. some (q.0))
              else some learned

          last : ℕ → Float
          last = inputs batch b

          either :
              (tenth : Bool)
              → (if tenth
                  then (nn_cross_entropy floats math
                        (network floats math n last (fitted batch s))
                        (part batch)
                      >>= λ p. accuracy floats math (p.0) (part batch) >>= λ q. some (q.0))
                  else some (network floats math n last (fitted batch s)))
                ≡ some (
                    network floats math n last
                      (if tenth then pass floats math n last (fitted batch s) else fitted batch s))
          either true = measured batch last (fitted batch s) h ((fitted-Shaped batch s shaped).1)
          either false = refl

      in_range : (k : ℕ) → k < r / suc b → k * suc b + suc b ≤ r
      in_range k h = trans_le (grind arith) (div-mul-le_self r (suc b))
        where
          trans_le : {u v w : ℕ} → u ≤ v → v ≤ w → u ≤ w
          trans_le p q = omega arith

      -- On a network of matrices and rows that fit each other, with a layer and a non-empty output as
      -- wide as the labels, a training set whose block of memory holds the inputs and labels row by
      -- row, batches of one row or more, and gradients that fit the 500 KiB of their region, `train`
      -- returns. Each epoch takes the whole batches of the training set in order, and each batch takes
      -- `rate` times the sums of its own gradients from weights and biases; the passes of every tenth
      -- epoch change only activations.
      pub train-after_epochs :
          (num_epochs : ℕ) (z : ℕ → Float) (ls : List (Layer floats))
          → is_last floats math ls ≡ false
          → last_size floats math n ls ≡ m
          → Fits (layer_sizes floats math ls)
          → train floats math fresh rate num_epochs (suc b) r samples (network floats math n z ls)
            ≡ some (model_of (after_epochs (r / suc b) num_epochs (z, ls)))
      unfolding train
      train-after_epochs num_epochs z ls some_layer size room =
          for_loop-states num_epochs _ (λ k. model_of (after_epochs (r / suc b) k (z, ls)))
            (λ k hk.
              let s = after_epochs (r / suc b) k (z, ls) in
              let shaped = after_epochs-Shaped (r / suc b) k (z, ls) (some_layer, size, room) in
              ap
                (λ e.
                  for_loop (r / suc b) (train_batch floats math fresh rate samples (suc b) e)
                    (model_of s))
                (omega arith)
              ∙ for_loop-states (r / suc b)
                  (train_batch floats math fresh rate samples (suc b) (suc k))
                  (λ i. model_of (after_batches (suc k) i s))
                  (λ i hi.
                    train_batch-after_batch (suc k) i (after_batches (suc k) i s) (in_range i hi)
                      (after_batches-Shaped (suc k) i s shaped)))
