-- ===== src/StringBuilder.antt =====
-- sb.h: a byte buffer that grows by doubling. `none` is a write outside the allocated block.
-- A failing malloc ends the program by an assertion and is left out; an object's size does not
-- wrap a size_t.
pub mod Laws
use zfl.Base.{
  ℕ, ◌+◌, ◌*◌, Bool, true, false, Option, none, some, List, [], ◌∷◌, ◌++◌, ◌>>=◌, ltb,
  if◌then◌else◌, Bytes, length, take,
}
use zfl.Memory.{realloc, write}

-- `buf` is the block that `data` points to; the first `size` bytes of it are the text.
pub record StringBuilder : Type 0 where
  pub size : ℕ
  pub cap : ℕ
  pub buf : Bytes

-- What `sb_string` and `sb_bytes` copy out.
abbrev pub contents : StringBuilder → Bytes
contents sb = take sb.size sb.buf

module _ (fresh : ℕ → Bytes) where
  unfoldable pub sb_init : ℕ → StringBuilder
  sb_init size = record { size = 0; cap = size; buf = fresh size }

  -- The block is doubled at most once, whatever the length of the bytes.
  abbrev pub append_room : StringBuilder → ℕ → StringBuilder
  append_room sb len =
      if ltb sb.cap (sb.size + len)
      then record sb { buf = realloc fresh sb.buf (sb.cap * 2); cap = sb.cap * 2 }
      else sb

  unfoldable pub sb_append : StringBuilder → Bytes → Option StringBuilder
  sb_append sb bytes = do
    let room = append_room sb (length bytes)
    b ← write room.buf room.size bytes
    some (record room { buf = b; size = room.size + length bytes })

  -- `sb_prepend` allocates room for the bytes as well, but records twice the old capacity.
  abbrev pub prepend_room : StringBuilder → ℕ → StringBuilder
  prepend_room sb len =
      if ltb sb.cap (sb.size + len)
      then record sb { buf = realloc fresh sb.buf (sb.cap * 2 + len); cap = sb.cap * 2 }
      else sb

  unfoldable pub sb_prepend : StringBuilder → Bytes → Option StringBuilder
  sb_prepend sb bytes = do
    let room = prepend_room sb (length bytes)
    moved ← write room.buf (length bytes) (take room.size room.buf)
    b ← write moved 0 bytes
    some (record room { buf = b; size = room.size + length bytes })

  -- The text is what vsnprintf makes of the format, with no NUL in it, or `none` where it fails; its
  -- buffer takes 1023 bytes. The Boolean is false for EXIT_FAILURE.
  unfoldable pub sb_appendf : StringBuilder → Option Bytes → Option (StringBuilder × Bool)
  sb_appendf sb none = some (sb, false)
  sb_appendf sb (some text) = do sb' ← sb_append sb (take 1023 text); some (sb', true)

  -- The loop of `sb_open_file` and of the receivers: one append for each chunk read.
  unfoldable pub append_all : StringBuilder → List Bytes → Option StringBuilder
  append_all sb [] = some sb
  append_all sb (chunk ∷ chunks) = do sb' ← sb_append sb chunk; append_all sb' chunks

-- `sb_string`: the text with a terminating NUL.
unfoldable pub sb_string : StringBuilder → Bytes
sb_string sb = contents sb ++ (0 ∷ [])

-- `sb_free` leaves the freed pointer in place; the block is empty afterwards.
unfoldable pub sb_free : StringBuilder → StringBuilder
sb_free sb = record { size = 0; cap = 0; buf = [] }
