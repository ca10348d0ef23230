-- ===== src/Server/Routes.antt =====
-- zflserver/src/main.c: `handle_incoming_connection`, from what is received on the socket up to what
-- the handler it calls is given.
use zfl.Base.{ℕ, ◌+◌, Option, none, some, List, ◌>>=◌, if◌then◌else◌, Bytes, codes}
use zfl.StringBuilder.{sb_init}
use zfl.Http.{Http, empty_http, substr, get_header}
use zfl.Http.Query.{parse_query_param}
use zfl.Http.Receive.{Received, recv_required_req, recv_optional_headers, recv_content}
use zfl.Common.Payload.{has_prefix}
use zfl.Server.{Client}
use zfl.Server.Clients.{extract_id}

-- What a request comes to: a call of `send_id`, `send_training_images`, `send_training_labels` or
-- `handle_results`, the shutdown flag, or nothing but a message or a close.
pub data Action : Type 0 where
  sends_id : Action
  sends_images : ℕ → Action
  sends_labels : ℕ → Action
  takes_results : ℕ → Bytes → Action
  shuts_down : Action
  not_found : Action
  not_allowed : Action
  closes : Action

-- `goto clean` where there is no valid id.
abbrev pub for_id : (ℕ → Action) → Option ℕ → Action
for_id f none = closes
for_id f (some id) = f id

-- `strtol` gives nothing where it sets errno; `long_of` is what it returns all the same.
module _ (strtol : Bytes → Option ℕ) (long_of : Bytes → ℕ) (fresh : ℕ → Bytes)
    (clients : List Client) where
  -- The content behind a request of `offset` bytes, and the call with it.
  unfoldable pub take_content : Received → ℕ → ℕ → Option Bytes → Option Action
  take_content r offset id none = some closes
  take_content r offset id (some text) = do
    r' ← recv_content fresh r.http r.text offset (long_of text) r.pending
    elim r'.result [
      | none ↦ some closes
      | some done ↦ do
        content ← substr r'.text.buf offset (long_of text)
        some (takes_results id content)
    ]

  -- A `POST` of results.
  unfoldable pub take_request : Received → Http → ℕ → Option ℕ → Option Action
  take_request r h offset none = some closes
  take_request r h offset (some id) = do
    text ← get_header h (codes "Content-Length")
    take_content r offset id text

  -- Methods and endpoints are matched by prefix.
  unfoldable pub dispatch : Received → Http → ℕ → Bytes → Bytes → Option Action
  dispatch r h offset method url =
      if has_prefix method (codes "GET")
      then if has_prefix url (codes "/id")
        then some sends_id
        else if has_prefix url (codes "/train-images")
        then (extract_id strtol clients h >>= λ id. some (for_id sends_images id))
        else if has_prefix url (codes "/train-labels")
        then (extract_id strtol clients h >>= λ id. some (for_id sends_labels id))
        else some not_found
      else if has_prefix method (codes "POST")
      then if has_prefix url (codes "/results")
        then (extract_id strtol clients h >>= λ id. take_request r h offset id)
        else if has_prefix url (codes "/shutdown")
        then some shuts_down
        else some not_found
      else some not_allowed

  -- Behind the headers: the query is parsed, its result ignored.
  unfoldable pub handle_request : Received → ℕ → Option Action
  handle_request r offset = do
    (h, found) ← parse_query_param r.http
    method ← h.method
    url ← h.url
    dispatch r h offset method url

  unfoldable pub handle_headers : Received → ℕ → Option Action
  handle_headers r required_len = do
    r' ← recv_optional_headers fresh r.http r.text required_len r.pending
    elim r'.result [
      | none ↦ some closes
      | some optional_len ↦ handle_request r' (required_len + optional_len)
    ]

  unfoldable pub handle_incoming_connection : List Bytes → Option Action
  handle_incoming_connection chunks = do
    r ← recv_required_req fresh empty_http (sb_init fresh 1024) chunks
    elim r.result [ none ↦ some closes | some required_len ↦ handle_headers r required_len ]
