-- ===== src/Server/Clients.antt =====
-- zflserver/src/main.c: the table of clients, `send_id` and `extract_id`.
use zfl.Base.{
  ℕ, ◌+◌, false, ◌||◌, Option, none, some, List, [], ◌∷◌, ◌++◌, ◌>>=◌, ltb, if◌then◌else◌, Bytes,
  codes, length,
}
use zfl.Http.{Http, get_param}
use zfl.Server.{Client}

-- The number that the client is sent, and the table with the client added.
unfoldable pub send_id : List Client → Bytes → ℕ × List Client
send_id clients addr = (
  length clients + 1,
  clients ++ (record { id = length clients + 1; ipaddr = addr; ready = false } ∷ []),
)

-- `strtol` is a parameter; its result is `none` with errno set, and else a `size_t`.
abbrev pub check_id : List Client → Option ℕ → Option ℕ
check_id clients none = none
check_id clients (some id) = if ltb id 1 || ltb (length clients) id then none else some id

abbrev pub read_id : (Bytes → Option ℕ) → List Client → Option Bytes → Option ℕ
read_id strtol clients none = none
read_id strtol clients (some text) = check_id clients (strtol text)

unfoldable pub extract_id : (Bytes → Option ℕ) → List Client → Http → Option (Option ℕ)
extract_id strtol clients h =
    get_param h (codes "id") >>= λ found. some (read_id strtol clients found)
