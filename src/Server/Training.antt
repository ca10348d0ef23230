-- ===== src/Server/Training.antt =====
-- zflserver/src/main.c: `start_round`, the loop that sends the round's model to the clients that are
-- ready. What the sockets do for each try is given.
pub mod Text
pub mod Sends
use zfl.Base.{
  ℕ, zero, suc, Bool, true, false, Option, none, some, List, [], ◌∷◌, ◌++◌, ◌>>=◌, if◌then◌else◌,
  Bytes, codes,
}
use zfl.Sockets.{sendall}
use zfl.StringBuilder.{StringBuilder, contents, sb_init, sb_append, sb_appendf}
use zfl.Common.{Floats}
use zfl.Common.Print.{weights_to_string}
use zfl.Network.Forward.{Nn}
use zfl.Server.{Client}

-- One try: whether `connect_client` gives a socket, the model and the round that the try then reads,
-- which other threads may have changed since the last one, and what `send` returns for the header and
-- for the content.
pub record Attempt (floats : Floats) : Type 0 where
  pub connected : Bool
  pub nn : Nn floats
  pub round_number : ℕ
  pub head_sends : List (Option ℕ)
  pub text_sends : List (Option ℕ)

-- "%zu" is a parameter.
module _ (size_text : ℕ → Bytes) where
  abbrev pub train_head : ℕ → Bytes
  train_head size =
      codes "POST /train "
      ++ (b'\r'
          ∷ b'\n'
          ∷ (codes "Content-Length: " ++ (size_text size ++ (b'\r' ∷ b'\n' ∷ b'\r' ∷ b'\n' ∷ []))))

  abbrev pub round_text : ℕ → Bytes
  round_text round_number =
      codes "{\"round\": " ++ (size_text round_number ++ codes ", \"weights\": ")

  module _ (floats : Floats) (print : floats.Float → Bytes) (fresh : ℕ → Bytes) where
    -- The content, which each try makes anew.
    unfoldable pub train_text : Nn floats → ℕ → Option StringBuilder
    train_text nn round_number = do
      (sb1, ok1) ← sb_appendf fresh (sb_init fresh 1024) (some (round_text round_number))
      sb2 ← weights_to_string floats print fresh sb1 nn.ws nn.bs
      sb_append fresh sb2 (codes "}")

    -- What went out on the connection, and whether the loop goes on.
    unfoldable pub train_once : Attempt floats → Option (Bytes × Bool)
    train_once a =
        if a.connected
        then (train_text a.nn a.round_number >>= λ sb.
            sendall a.head_sends (train_head sb.size) >>= λ head.
            if head.1
            then (sendall a.text_sends (contents sb) >>= λ rest.
                some (head.0 ++ rest.0, if rest.1 then false else true))
            else some (head.0, true))
        else some ([], true)

    -- The loop over at most `retries` tries.
    unfoldable pub train_tries : ℕ → List (Attempt floats) → Option (List Bytes)
    train_tries zero attempts = some []
    train_tries (suc retries) [] = none
    train_tries (suc retries) (a ∷ attempts) = train_once a >>= λ sent. elim sent.1 [
      | true ↦ train_tries retries attempts >>= λ rest. some (sent.0 ∷ rest)
      | false ↦ some (sent.0 ∷ [])
    ]

    unfoldable pub send_train : List (Attempt floats) → Option (List Bytes)
    send_train attempts = train_tries 3 attempts

    -- The loop over the clients: what went out on the connections to each that is ready. The attempts
    -- are those of the ready ones, in order.
    unfoldable pub send_all :
        List Client → List (List (Attempt floats)) → Option (List (ℕ × List Bytes))
    send_all [] sockets = some []
    send_all (c ∷ clients) [] = elim c.ready [ true ↦ none | false ↦ send_all clients [] ]
    send_all (c ∷ clients) (attempts ∷ sockets) = elim c.ready [
      | true ↦ send_train attempts >>= λ sents.
          send_all clients sockets >>= λ rest. some ((c.id, sents) ∷ rest)
      | false ↦ send_all clients (attempts ∷ sockets)
    ]
