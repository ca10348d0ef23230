-- ===== src/Server/Rounds.antt =====
-- zflserver/src/main.c: `start_round`, which polls the clients and starts rounds. For each client there
-- is what the four bytes of `buf` hold behind recv, where a shorter answer leaves the last ones as they
-- were; `none` where connecting or receiving fails.
use zfl.Base.{
  ℕ, ◌+◌, Bool, true, false, Option, none, some, List, [], ◌∷◌, ◌==◌, leb, if◌then◌else◌, Bytes,
  codes,
}
use zfl.Common.{Floats}
use zfl.Common.Payload.{has_prefix}
use zfl.Server.{Server, Client, Calls, waiting, starting}
use zfl.Server.Log.{log_append}

-- The answer to `GET /ready`, as `buf` holds it.
abbrev pub says_ready : Option Bytes → Bool
says_ready none = false
says_ready (some reply) = has_prefix reply (codes "true")

-- The loop over the clients: each is marked, and the ready ones are counted.
unfoldable pub poll_clients : List Client → List (Option Bytes) → ℕ → List Client × ℕ
poll_clients [] replies n = ([], n)
poll_clients (c ∷ clients) [] n =
    let (rest, total) = poll_clients clients [] n in ((record c { ready = false }) ∷ rest, total)
poll_clients (c ∷ clients) (reply ∷ replies) n =
    let (rest, total) = poll_clients clients replies (if says_ready reply then n + 1 else n) in
    ((record c { ready = says_ready reply }) ∷ rest, total)

module _ (floats : Floats) where
  -- The section under `round_mutex` that starts a round, and the message behind it.
  unfoldable pub begin_round : Calls floats → ℕ → Server floats → Server floats
  begin_round calls now s = record s {
    log =
        log_append 1 (calls.vsnprintf (starting s.clients_ready (s.current_round.round_number + 1)))
          s.log;
    current_round = record (s.current_round) {
      started = true;
      start_time = now;
      round_number = s.current_round.round_number + 1;
      participants = s.clients_ready;
    };
  }

  -- The clients are polled, and if as many as a round needs are ready, it starts.
  unfoldable pub poll_and_begin :
      Calls floats → ℕ → List (Option Bytes) → Server floats → Server floats
  poll_and_begin calls now replies s =
      let (polled, ready) = poll_clients s.clients replies 0 in
      let s' = record s { clients = polled; clients_ready = ready } in
      if ready == s.clients_per_round then begin_round calls now s' else s'

  -- One pass of the loop. The Boolean is false where it ends, all rounds done.
  unfoldable pub start_round :
      Calls floats → ℕ → List (Option Bytes) → Server floats → Server floats × Bool
  start_round calls now replies s =
      if leb s.num_rounds s.current_round.round_number
      then (s, false)
      else (let s' = record s { log = log_append 1 (calls.vsnprintf (waiting 10)) s.log } in
          (if s.current_round.started then s' else poll_and_begin calls now replies s', true))
