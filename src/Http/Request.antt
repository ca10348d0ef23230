-- ===== src/Http/Request.antt =====
-- http.h: the request line and the headers.
use zfl.Base.{
  ℕ, zero, suc, ◌+◌, Option, none, some, [], ◌∷◌, ◌++◌, ◌>>=◌, ◌==◌, true, false, Bytes, codes,
  drop, length,
}
use zfl.Http.{Http, sub_size, find_first_match, substr}

-- The end of the line: what is left is skipped.
unfoldable pub parse_line_end : Http → Bytes → ℕ → ℕ → Option (Http × Option ℕ)
parse_line_end h p len processed = do
  ret ← find_first_match p len (codes "\r\n")
  elim ret [ none ↦ some (h, none) | some n ↦ some (h, some (processed + (n + 2))) ]

unfoldable pub parse_url : Http → Bytes → ℕ → ℕ → Option (Http × Option ℕ)
parse_url h p len processed = do
  url_len ← find_first_match p len (codes " ")
  elim url_len [
    | none ↦ some (h, none)
    | some zero ↦ some (h, none)
    | some (suc n) ↦ do
      url ← substr p 0 (suc n)
      parse_line_end (record h { url = some url }) (drop (suc n + 1) p) (sub_size len (suc n + 1))
          (processed + (suc n + 1))
  ]

-- The whole of `parse_required_req`: method, URL, and the end of the first line.
unfoldable pub parse_required_req : Http → Bytes → ℕ → Option (Http × Option ℕ)
parse_required_req h payload len = do
  method_len ← find_first_match payload len (codes " ")
  elim method_len [
    | none ↦ some (h, none)
    | some zero ↦ some (h, none)
    | some (suc n) ↦ do
      method ← substr payload 0 (suc n)
      parse_url (record h { method = some method }) (drop (suc n + 1) payload)
          (sub_size len (suc n + 1)) (suc n + 1)
  ]

-- One header line of `n` bytes at `p`, split at ": " and added to the headers.
unfoldable pub parse_header : Http → Bytes → ℕ → Option (Option Http)
parse_header h p n = do
  header ← substr p 0 n
  key_len ← find_first_match header n (codes ": ")
  elim key_len [
    | none ↦ some none
    | some k ↦ do
      header_key ← substr header 0 k
      header_val ← substr header (k + 2) (sub_size n (k + 2))
      some (some (record h { headers = h.headers ++ ((header_key, header_val) ∷ []) }))
  ]

-- The loop of `parse_optional`. A round that goes on moves `p` forward by two bytes or more, so
-- the bytes left in the block bound the rounds.
unfoldable pub optional_loop : ℕ → Http → Bytes → ℕ → ℕ → Option (Http × Option ℕ)
optional_loop zero h p len processed = none
optional_loop (suc fuel) h p len processed = elim (len == 0) [
  | true ↦ some (h, some processed)
  | false ↦ do
    header_len ← find_first_match p len (codes "\r\n")
    elim header_len [
      | none ↦ some (h, none)
      | some zero ↦ some (h, some (processed + 2))
      | some (suc n) ↦ do
        parsed ← parse_header h p (suc n)
        elim parsed [
          | none ↦ some (h, none)
          | some h' ↦
              optional_loop fuel h' (drop (suc n + 2) p) (sub_size len (suc n + 2))
                (processed + (suc n + 2))
        ]
    ]
]

unfoldable pub parse_optional : Http → Bytes → ℕ → Option (Http × Option ℕ)
parse_optional h payload len = optional_loop (suc (length payload)) h payload len 0
