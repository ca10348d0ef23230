-- ===== src/DynamicArray.antt =====
-- da.h: the growing array behind `da_put`. `null` is the NULL pointer of an array with no header.
pub mod Laws
use zfl.Base.{
  ℕ, ◌+◌, ◌*◌, Option, none, some, List, [], ◌>>=◌, ltb, leb, if◌then◌else◌, length, take,
}
use zfl.Memory.{realloc, store}

-- The header of an array and its block of cells, `length` of which are in use.
pub record Header {ℓ} (A : Type ℓ) : Type ℓ where
  pub len : ℕ
  pub capacity : ℕ
  pub cells : List A

pub data Array {ℓ} (A : Type ℓ) : Type ℓ where
  null : Array A
  header : Header A → Array A

-- The capacity that `arrgrowf` asks for, given what is required and what there is.
unfoldable pub grown_cap : ℕ → ℕ → ℕ
grown_cap min_cap old_cap =
    if ltb min_cap (2 * old_cap) then 2 * old_cap else if ltb min_cap 4 then 4 else min_cap

module _ {ℓ} {A : Type ℓ} where
  unfoldable pub da_len : Array A → ℕ
  da_len null = 0
  da_len (header h) = h.len

  unfoldable pub da_cap : Array A → ℕ
  da_cap null = 0
  da_cap (header h) = h.capacity

  abbrev pub cells_of : Array A → List A
  cells_of null = []
  cells_of (header h) = h.cells

  -- The elements in order.
  unfoldable pub elements : Array A → List A
  elements null = []
  elements (header h) = take h.len h.cells

  abbrev pub required : Array A → ℕ → ℕ → ℕ
  required a addlen min_cap = if ltb min_cap (da_len a + addlen) then da_len a + addlen else min_cap

  unfoldable pub arrgrowf : (ℕ → List A) → Array A → ℕ → ℕ → Array A
  unfolding da_len da_cap grown_cap
  arrgrowf fresh a addlen min_cap =
      let wanted = required a addlen min_cap in
      if leb wanted (da_cap a)
      then a
      else header (record {
        len = da_len a;
        capacity = grown_cap wanted (da_cap a);
        cells = realloc fresh (cells_of a) (grown_cap wanted (da_cap a));
      })

  -- The store of `da_put` into the grown array; through NULL it is a fault.
  unfoldable pub push_back : Array A → A → Option (Array A)
  push_back null e = none
  push_back (header h) e = do
    stored ← store h.cells h.len e
    some (header (record h { len = h.len + 1; cells = stored }))

  unfoldable pub da_put : (ℕ → List A) → Array A → A → Option (Array A)
  unfolding arrgrowf push_back
  da_put fresh a e = push_back (arrgrowf fresh a 1 0) e
