-- ===== src/Server/Steps.antt =====
-- zflserver/src/main.c: the threads of the server together. A section between a lock and its unlock
-- is one step; a result is counted, then checked against the round, then added, and other steps may
-- come between. The thread of `start_round` wakes, polls and begins a round in steps of its own.
use zfl.Base.{ℕ, suc, ◌%◌, ◌^◌, ◌≡◌, ◌≢◌, ◌<◌, false, true, some, List, ◌∷◌, ◌++◌, Bytes}
use zfl.Base.{Option}
use zfl.Common.{Floats}
use zfl.Common.Payload.{Payload, Stats}
use zfl.Server.{Server, Calls, waiting}
use zfl.Server.Log.{log_append}
use zfl.Server.Clients.{send_id}
use zfl.Server.Results.{update_stats, add_results}
use zfl.Server.Rounds.{poll_clients, begin_round}

pub data Phase : Type 0 where
  sleeping polling polled : Phase

module _ {floats : Floats} (calls : Calls floats) where
  -- `counted` and `checked` are what the threads of `handle_results` hold; `added` is how many
  -- results went into the arrays since the start.
  pub record World : Type 0 where
    pub server : Server floats
    pub phase : Phase
    pub counted : List Payload
    pub checked : List Payload
    pub added : ℕ

  pub data Step : World → World → Type 0 where
    joins :
        (w : World) (addr : Bytes)
        → Step w (record w {
          server = record (w.server) { clients = (send_id w.server.clients addr).1 };
        })
    counts :
        (w : World) (p : Payload) (stats : List (List Stats))
        → update_stats w.server.stats p.stats (p.round_number % 2 ^ 32) ≡ some stats
        → Step w
            (record w { server = record (w.server) { stats = stats }; counted = p ∷ w.counted })
    checks :
        (w : World) (before : List Payload) (p : Payload) (behind : List Payload)
        → w.counted ≡ before ++ (p ∷ behind)
        → p.round_number ≡ w.server.current_round.round_number
        → Step w (record w { counted = before ++ behind; checked = p ∷ w.checked })
    skips :
        (w : World) (before : List Payload) (p : Payload) (behind : List Payload)
        → w.counted ≡ before ++ (p ∷ behind)
        → p.round_number ≢ w.server.current_round.round_number
        → Step w (record w { counted = before ++ behind })
    adds :
        (w : World) (now : ℕ) (before : List Payload) (p : Payload) (behind : List Payload)
        (s : Server floats)
        → w.checked ≡ before ++ (p ∷ behind)
        → add_results floats calls now w.server p ≡ some s
        → Step w (record w { server = s; checked = before ++ behind; added = suc w.added })
    wakes :
        (w : World)
        → w.phase ≡ sleeping
        → w.server.current_round.round_number < w.server.num_rounds
        → w.server.current_round.started ≡ false
        → Step w (record w {
          phase = polling;
          server = record (w.server) {
            log = log_append 1 (calls.vsnprintf (waiting 10)) w.server.log;
          };
        })
    rests :
        (w : World)
        → w.phase ≡ sleeping
        → w.server.current_round.round_number < w.server.num_rounds
        → w.server.current_round.started ≡ true
        → Step w (record w {
          server = record (w.server) {
            log = log_append 1 (calls.vsnprintf (waiting 10)) w.server.log;
          };
        })
    polls :
        (w : World) (replies : List (Option Bytes))
        → w.phase ≡ polling
        → Step w (record w {
          phase = polled;
          server = record (w.server) {
            clients = (poll_clients w.server.clients replies 0).0;
            clients_ready = (poll_clients w.server.clients replies 0).1;
          };
        })
    begins :
        (w : World) (now : ℕ)
        → w.phase ≡ polled
        → w.server.clients_ready ≡ w.server.clients_per_round
        → Step w (record w { phase = sleeping; server = begin_round floats calls now w.server })
    waits :
        (w : World)
        → w.phase ≡ polled
        → w.server.clients_ready ≢ w.server.clients_per_round
        → Step w (record w { phase = sleeping })

  pub data Steps : World → World → Type 0 where
    done : (w : World) → Steps w w
    more : {w w' w'' : World} → Step w w' → Steps w' w'' → Steps w w''
