-- ===== src/Client/Train.antt =====
-- zflclient/src/train.h: `train`. The sums that it only prints are left out, but not the passes over the
-- network that they take.
pub mod Results
use zfl.Network.{Region, region_alloc_alloc, alloc_all, nn_bytes}
use zfl.Base.{List, ℕ, ◌+◌, ◌*◌, ◌/◌, ◌%◌, Option, some, ◌>>=◌, ◌==◌, if◌then◌else◌, for_loop}
use zfl.Common.{Floats, Math}
use zfl.Network.Matrix.{Mat, act_relu, mat_slice}
use zfl.Network.Forward.{Nn, nn_cross_entropy}
use zfl.Network.Forward.Accuracy.{accuracy}
use zfl.Network.Learn.{nn_learn}
use zfl.Network.Backprop.{row_sizes, nn_backprop}

module _ (floats : Floats) (math : Math (floats.Float)) (fresh : ℕ → ℕ → floats.Float)
    (rate : floats.Float) where
  -- The size of uintptr_t on the board of a client.
  abbrev pub word_size : ℕ
  word_size = 4

  -- The region for the gradients, with what `nn_backprop` allocates of it; `none` is the failed
  -- assertion where they do not fit.
  unfoldable pub gradient_region : Nn floats → Option (List ℕ × Region)
  gradient_region model =
      alloc_all word_size (region_alloc_alloc word_size (500 * 1024))
        (nn_bytes word_size (row_sizes floats math act_relu model.as_rows))

  -- The loop's body for one batch of an epoch.
  unfoldable pub train_batch : Mat floats → ℕ → ℕ → ℕ → Nn floats → Option (Nn floats)
  train_batch samples batch_size epoch batch model =
      let sample = mat_slice floats samples (batch * batch_size) batch_size in
      gradient_region model >>= λ temp. nn_backprop floats math act_relu fresh model sample >>= λ p.
      nn_learn floats math (p.0) (p.1) rate >>= λ learned.
      if epoch % 10 == 0
      then (nn_cross_entropy floats math learned sample >>= λ measured.
          accuracy floats math (measured.0) sample >>= λ rated. some (rated.0))
      else some learned

  -- The model behind the call. A batch size of 0 is a division by 0, and does not come: `run` refuses it.
  unfoldable pub train : ℕ → ℕ → ℕ → Mat floats → Nn floats → Option (Nn floats)
  train num_epochs batch_size n_images samples model =
      for_loop num_epochs
        (λ epoch model1.
          for_loop (n_images / batch_size) (train_batch samples batch_size (epoch + 1)) model1)
        model
