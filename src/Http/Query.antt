-- ===== src/Http/Query.antt =====
-- http.h: the query string behind the '?' of the URL.
use zfl.Base.{
  ℕ, zero, suc, ◌+◌, Bool, true, false, Option, none, some, [], ◌∷◌, ◌++◌, ◌>>=◌, ◌==◌,
  if◌then◌else◌, Bytes, codes, drop, length,
}
use zfl.Http.{Http, sub_size, find_first_match, substr}

-- `strlen` of a block that holds a NUL.
unfoldable pub strlen : Bytes → Option ℕ
strlen [] = none
strlen (x ∷ p) = if x == 0 then some 0 else (strlen p >>= λ n. some (n + 1))

-- One parameter of `n` bytes at `ptr`, split at '=' and added to the queries. The search for '='
-- goes by the length `len` of all that is left.
unfoldable pub parse_param : Http → Bytes → ℕ → ℕ → Option (Option Http)
parse_param h ptr len n = do
  param ← substr ptr 0 n
  key_len ← find_first_match param len (codes "=")
  elim key_len [
    | none ↦ some none
    | some k ↦
        if k == n
        then some none
        else (substr param 0 k >>= λ key. substr param (k + 1) (sub_size n k) >>= λ val.
            some (some (record h { queries = h.queries ++ ((key, val) ∷ []) })))
  ]

-- `param_len`, which is `len` where no '&' is left.
abbrev pub param_length : Option ℕ → ℕ → ℕ
param_length none len = len
param_length (some n) len = n

-- What a round does with the parameter of that length; `go` is the rounds behind it.
unfoldable pub query_param :
    (Http → Bytes → ℕ → Bool → Option (Http × Option Bool))
    → Http
    → Bytes
    → ℕ
    → Bool
    → ℕ
    → Option (Http × Option Bool)
query_param go h ptr len found zero = some (h, some found)
query_param go h ptr len found (suc n) = do
  parsed ← parse_param h ptr len (suc n)
  elim parsed [
    | none ↦ some (h, none)
    | some h' ↦ go h' (drop (suc n) ptr) (sub_size len (suc n)) true
  ]

-- The loop of `parse_query_param`; its Boolean is `found`, `none` is the result -1. A round that
-- goes on moves `ptr` forward, so the bytes left in the block bound the rounds.
unfoldable pub query_loop : ℕ → Http → Bytes → ℕ → Bool → Option (Http × Option Bool)
query_loop zero h ptr len found = none
query_loop (suc fuel) h ptr len found = elim (len == 0) [
  | true ↦ some (h, some found)
  | false ↦ do
    next ← find_first_match ptr len (codes "&")
    query_param (query_loop fuel) h ptr len found (param_length next len)
]

unfoldable pub parse_query : Http → Bytes → Option (Http × Option Bool)
parse_query h url = do
  len ← strlen url
  to_skip ← find_first_match url len (codes "?")
  elim to_skip [
    | none ↦ some (h, none)
    | some n ↦ query_loop (suc (length url)) h (drop (n + 1) url) (sub_size len (n + 1)) false
  ]

-- The URL of a request that got this far has been parsed; a NULL one is a fault.
unfoldable pub parse_query_param : Http → Option (Http × Option Bool)
parse_query_param h = do url ← h.url; parse_query h url
