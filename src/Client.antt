-- ===== src/Client.antt =====
-- zflclient/src/main.c: what a client sends and receives over its connections to the server. Bytes
-- and sends are lists of what the sockets do; the threads of Zephyr are left out.
pub mod Tries
pub mod Message
pub mod Delivery
pub mod Requests
pub mod Train
use zfl.Base.{
  ℕ, zero, suc, ◌+◌, Bool, true, false, Option, none, some, List, [], ◌∷◌, ◌++◌, ◌>>=◌,
  if◌then◌else◌, Bytes, codes, length,
}
use zfl.Sockets.{sendall}
use zfl.StringBuilder.{StringBuilder, sb_init, sb_append, sb_appendf, sb_string, contents}
use zfl.Common.{Floats}
use zfl.Common.Payload.{Stats}
use zfl.Common.Print.{weights_to_string}
use zfl.Network.Forward.{Nn}

-- How printf writes a `size_t` and an `int` or `int64_t`, of which the bits are given.
pub record Formats : Type 0 where
  pub size_text : ℕ → Bytes
  pub int_text : ℕ → Bytes

-- One try of `send_weights`: whether `connect_main_server` gives a socket, what `send` returns for the
-- header and for the weights, and whether errno is ENOTCONN behind a failure.
pub record Try : Type 0 where
  pub connected : Bool
  pub head_sends : List (Option ℕ)
  pub text_sends : List (Option ℕ)
  pub not_connected : Bool

-- What went out on the connection of a try, and whether the loop goes on.
unfoldable pub send_once : Try → Bytes → Bytes → Option (Bytes × Bool)
send_once a req text =
    if a.connected
    then (sendall a.head_sends req >>= λ head.
        if head.1
        then (sendall a.text_sends text >>= λ rest.
            some (head.0 ++ rest.0, if rest.1 then false else true))
        else some (head.0, a.not_connected))
    else some ([], true)

-- The loop over at most `retries` tries: what went out on each connection.
unfoldable pub send_tries : ℕ → List Try → Bytes → Bytes → Option (List Bytes)
send_tries zero tries req text = some []
send_tries (suc retries) [] req text = none
send_tries (suc retries) (a ∷ tries) req text = send_once a req text >>= λ sent. elim sent.1 [
  | true ↦ send_tries retries tries req text >>= λ rest. some (sent.0 ∷ rest)
  | false ↦ some (sent.0 ∷ [])
]

module _ (formats : Formats) where
  open formats use {size_text, int_text}

  -- The first line and the header of the request with the results.
  abbrev pub results_head : ℕ → ℕ → Bytes
  results_head id size =
      codes "POST "
      ++ (codes "/results"
          ++ (codes "?id="
              ++ (int_text id
                  ++ (codes " "
                      ++ (b'\r'
                          ∷ b'\n'
                          ∷ (codes "Content-Length: "
                              ++ (size_text size ++ (b'\r' ∷ b'\n' ∷ b'\r' ∷ b'\n' ∷ []))))))))

  abbrev pub round_text : ℕ → ℕ → Bytes
  round_text round_number training_time =
      codes "{\"round\": "
      ++ (size_text round_number
          ++ (codes ", \"training_time\": " ++ (int_text training_time ++ codes ", \"weights\": ")))

  abbrev pub stats_text : Stats → Bytes
  stats_text s =
      codes "\"stats\": { \"bytes_sent\": "
      ++ (int_text s.bytes_sent
          ++ (codes ", \"bytes_recv\": "
              ++ (int_text s.bytes_recv
                  ++ (codes ", \"seg_dropped\": "
                      ++ (int_text s.seg_dropped
                          ++ (codes ", \"seg_rexmit\": "
                              ++ (int_text s.seg_rexmit ++ codes " }")))))))

  -- The content. The results of `sb_appendf` are not looked at.
  unfoldable pub results_text :
      (floats : Floats)
      → (floats.Float → Bytes)
      → (ℕ → Bytes)
      → Nn floats
      → Stats
      → ℕ
      → ℕ
      → Option StringBuilder
  results_text floats print fresh model stats round_number training_time = do
    (sb1, ok1) ←
        sb_appendf fresh (sb_init fresh 1024) (some (round_text round_number training_time))
    sb2 ← weights_to_string floats print fresh sb1 model.ws model.bs
    sb3 ← sb_append fresh sb2 (codes ", ")
    (sb4, ok4) ← sb_appendf fresh sb3 (some (stats_text stats))
    sb_append fresh sb4 (codes "}")

  -- What goes out on each connection, and the result: the outer `ret`, which stays 0.
  unfoldable pub send_weights :
      (floats : Floats)
      → (floats.Float → Bytes)
      → (ℕ → Bytes)
      → Nn floats
      → Stats
      → ℕ
      → List Try
      → ℕ
      → ℕ
      → Option (List Bytes × ℕ)
  send_weights floats print fresh model stats id tries round_number training_time = do
    sb ← results_text floats print fresh model stats round_number training_time
    sents ← send_tries 3 tries (results_head id sb.size) (contents sb)
    some (sents, 0)
