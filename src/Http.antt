-- ===== src/Http.antt =====
-- http.h: searching and copying in memory, and the request record. A pointer is the list of the
-- bytes from it to the end of its block; a read outside the block is a fault, the outer `none`.
-- The int results of the source are `none` for -1; a buffer is shorter than 2 ^ 31 bytes.
pub mod Find
pub mod Request
pub mod Query
pub mod Receive
pub mod RoundTrip
pub mod Headers
pub mod QueryLaws
pub mod ReceiveLaws
use zfl.Base.{
  ℕ, ◌+◌, ◌-◌, ◌^◌, ◌%◌, Bool, true, false, ◌||◌, Option, none, some, List, [], ◌∷◌, ◌++◌, ◌>>=◌,
  ◌==◌, leb, if◌then◌else◌, Bytes, length, take, drop,
}

-- `size_t` subtraction wraps.
abbrev pub sub_size : ℕ → ℕ → ℕ
sub_size a b = (a + 2 ^ 64 - b) % 2 ^ 64

-- The parallel arrays of keys and values are one list of pairs. Each string is a block that ends
-- in its NUL; `method` and `url` are NULL before they are parsed.
pub record Http : Type 0 where
  pub method : Option Bytes
  pub url : Option Bytes
  pub queries : List (Bytes × Bytes)
  pub headers : List (Bytes × Bytes)

-- `Http h = {0}`
abbrev pub empty_http : Http
empty_http = record { method = none; url = none; queries = []; headers = [] }

-- `strncmp(p, c, len) == 0` for the `len` bytes `c`, none of them NUL.
unfoldable pub is_char : Bytes → Bytes → Option Bool
is_char p [] = some true
is_char [] (c ∷ cs) = none
is_char (x ∷ p) (c ∷ cs) = if x == c then is_char p cs else some false

-- The test behind the loop of `find_first_match`.
abbrev pub last_match : Bytes → ℕ → Bytes → Option (Option ℕ)
last_match c processed p = do m ← is_char p c; some (if m then some processed else none)

-- The loop of `find_first_match`, with `left = size - processed`.
unfoldable pub find_from : Bytes → ℕ → ℕ → Bytes → Option (Option ℕ)
find_from c processed left [] = if left == 0 then last_match c processed [] else none
find_from c processed left (x ∷ p) =
    let later = find_from c (processed + 1) (left - 1) p in
    if left == 0 || x == 0
    then last_match c processed (x ∷ p)
    else (is_char (x ∷ p) c >>= λ m. if m then last_match c processed (x ∷ p) else later)

unfoldable pub find_first_match : Bytes → ℕ → Bytes → Option (Option ℕ)
find_first_match p size c = find_from c 0 size p

-- A fresh copy of `len` bytes from `p[start]` on, with a NUL behind it.
unfoldable pub substr : Bytes → ℕ → ℕ → Option Bytes
substr p start len =
    if leb (start + len) (length p) then some (take len (drop start p) ++ (0 ∷ [])) else none

-- The first entry whose key begins with `key`.
unfoldable pub find_key : List (Bytes × Bytes) → Bytes → Option (Option Bytes)
find_key [] key = some none
find_key ((k, v) ∷ entries) key =
    let later = find_key entries key in is_char k key >>= λ m. if m then some (some v) else later

unfoldable pub get_header : Http → Bytes → Option (Option Bytes)
get_header h key = find_key h.headers key

unfoldable pub get_param : Http → Bytes → Option (Option Bytes)
get_param h key = find_key h.queries key
