-- ===== src/Http/Receive.antt =====
-- http.h: the loops that receive until enough is there. What successive calls of `recv` deliver
-- is a list of chunks; at its end `recv` fails or the peer has closed.
use zfl.Base.{
  ℕ, zero, suc, ◌+◌, true, false, Option, none, some, List, [], ◌∷◌, ◌>>=◌, ltb, if◌then◌else◌,
  Bytes, drop, length, ◌==◌,
}
use zfl.StringBuilder.{StringBuilder, sb_append}
use zfl.Http.{Http, sub_size}
use zfl.Http.Request.{parse_required_req, parse_optional}

-- What a receiver leaves: the request, the text received, the chunks still to come, the result.
pub record Received : Type 0 where
  pub http : Http
  pub text : StringBuilder
  pub pending : List Bytes
  pub result : Option ℕ

-- What the test of a receiving loop decides: to return, or to receive more.
pub data Round : Type 0 where
  stop : Http → Option ℕ → Round
  more : Http → Round

-- A result that is positive ends the loop.
abbrev pub until_positive : Http × Option ℕ → Round
until_positive (h, none) = more h
until_positive (h, some zero) = more h
until_positive (h, some (suc n)) = stop h (some (suc n))

-- The test of `recv_required_req`: from 256 bytes received on, nothing more is parsed, and the
-- result is that of the last attempt.
unfoldable pub required_round : Http → StringBuilder → ℕ → Option Round
required_round h sb received = elim (ltb received 256) [
  | false ↦ some (stop h none)
  | true ↦ do parsed ← parse_required_req h sb.buf sb.size; some (until_positive parsed)
]

-- The test of `recv_optional_headers`, which parses from `offset` on.
unfoldable pub optional_round : ℕ → Http → StringBuilder → ℕ → Option Round
optional_round offset h sb received = do
  parsed ← parse_optional h (drop offset sb.buf) (sub_size sb.size offset)
  some (until_positive parsed)

-- The test of `recv_content`.
unfoldable pub content_round : ℕ → ℕ → Http → StringBuilder → ℕ → Option Round
content_round offset len h sb received =
    some (if ltb (sub_size sb.size offset) len then more h else stop h (some 0))

module _ (fresh : ℕ → Bytes) where
  -- The loop that the three receivers share; a `recv` of no bytes ends it with -1.
  unfoldable pub recv_loop :
      (Http → StringBuilder → ℕ → Option Round)
      → Http
      → StringBuilder
      → ℕ
      → List Bytes
      → Option Received
  recv_loop round h sb received [] = do
    r ← round h sb received
    elim r [
      | stop h' result ↦ some (record { http = h'; text = sb; pending = []; result = result })
      | more h' ↦ some (record { http = h'; text = sb; pending = []; result = none })
    ]
  recv_loop round h sb received (chunk ∷ chunks) = do
    r ← round h sb received
    elim r [
      | stop h' result ↦
          some (record { http = h'; text = sb; pending = chunk ∷ chunks; result = result })
      | more h' ↦
          if length chunk == 0
          then some (record { http = h'; text = sb; pending = chunks; result = none })
          else (sb_append fresh sb chunk >>= λ sb'.
              recv_loop round h' sb' (received + length chunk) chunks)
    ]

  unfoldable pub recv_required_req : Http → StringBuilder → List Bytes → Option Received
  recv_required_req h sb = recv_loop required_round h sb 0

  unfoldable pub recv_optional_headers : Http → StringBuilder → ℕ → List Bytes → Option Received
  recv_optional_headers h sb offset = recv_loop (optional_round offset) h sb 0

  -- The source passes no request; `h` only goes through.
  unfoldable pub recv_content : Http → StringBuilder → ℕ → ℕ → List Bytes → Option Received
  recv_content h sb offset len = recv_loop (content_round offset len) h sb 0
