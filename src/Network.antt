-- ===== src/Network.antt =====
-- nn.h: regions of memory, what `nn_alloc` takes of one, and which rows of the training set `batch_process` takes.
pub mod Laws
pub mod Matrix
pub mod Forward
pub mod Learn
pub mod TrainSet
pub mod Backprop
use Prim.Native.Nat.{◌/◌}
use zfl.Base.{
  ℕ, zero, suc, ◌+◌, ◌-◌, ◌*◌, length, Bool, true, false, Option, none, some, List, [], ◌∷◌, ◌>>=◌,
  leb, if◌then◌else◌,
}

-- Both are counted in words.
pub record Region : Type 0 where
  pub capacity : ℕ
  pub size : ℕ

-- `word_size` is the size of uintptr_t, 8 on a server and 4 on a client's board.
abbrev pub size_words : ℕ → ℕ → ℕ
size_words word_size size_bytes = (size_bytes + word_size - 1) / word_size

unfoldable pub region_alloc_alloc : ℕ → ℕ → Region
region_alloc_alloc word_size capacity_bytes = record {
  capacity = size_words word_size capacity_bytes;
  size = 0;
}

-- The word where the block begins; `none` is the failed assertion.
unfoldable pub region_alloc : ℕ → Region → ℕ → Option (ℕ × Region)
region_alloc word_size r size_bytes =
    if leb (r.size + size_words word_size size_bytes) r.capacity
    then some (r.size, record r { size = r.size + size_words word_size size_bytes })
    else none

-- One allocation after the other.
unfoldable pub alloc_all : ℕ → Region → List ℕ → Option (List ℕ × Region)
alloc_all word_size r [] = some ([], r)
alloc_all word_size r (size_bytes ∷ sizes) = do
  (start, r') ← region_alloc word_size r size_bytes
  (starts, r'') ← alloc_all word_size r' sizes
  some (start ∷ starts, r'')

-- The bytes of each allocation of `nn_alloc` behind a layer of `n` columns: floats have 4 bytes.
abbrev pub layer_bytes : ℕ → List ℕ → List ℕ
layer_bytes n [] = []
layer_bytes n (k ∷ arch) = 4 * n * k ∷ 4 * k ∷ 4 * k ∷ layer_bytes k arch

-- The bytes of each allocation of `nn_alloc`: a Mat has three words, a Row two.
abbrev pub nn_bytes : ℕ → List ℕ → List ℕ
nn_bytes word_size [] = []
nn_bytes word_size (n ∷ arch) =
    3 * word_size * length arch
    ∷ 2 * word_size * length arch
    ∷ 2 * word_size * (length arch + 1)
    ∷ 4 * n
    ∷ layer_bytes n arch

pub record Batch : Type 0 where
  pub begin : ℕ
  pub finished : Bool

-- The rows of one call, as the first one and how many, and the batch behind it.
unfoldable pub batch_rows : Batch → ℕ → ℕ → (ℕ × ℕ) × Batch
batch_rows b batch_size rows =
    let begin = if b.finished then 0 else b.begin in
    let size = if leb rows (begin + batch_size) then rows - begin else batch_size in
    ((begin, size), record { begin = begin + batch_size; finished = leb rows (begin + batch_size) })
