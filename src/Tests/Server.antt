-- ===== src/Tests/Server.antt =====
-- zflserver/src/main.c on concrete states.
use zfl.Base.{
  ℕ, zero, suc, ◌+◌, ◌*◌, ◌≡◌, refl, inl, true, false, Option, none, some, List, [], ◌∷◌, ◌++◌,
  ◌>>=◌, Bytes, codes, length, replicate, arith,
}
use zfl.Cson.{Token, null, node, number, array}
use zfl.Common.{Floats}
use zfl.Common.Weights.{Layers}
use zfl.Common.Payload.{Stats, Payload, has_prefix, empty_payload}
use zfl.Server.{Client, Server, Calls}
use zfl.Server.Log.{log_all, kept, last_items}
use zfl.Server.LogLaws.{log_all-last_items}
use zfl.Server.Clients.{send_id}
use zfl.Server.ClientsLaws.{TableFrom, ready_count}
use zfl.Server.Results.{update_stats, finish_round}
use zfl.Server.StatsLaws.{update_stats-none}
use zfl.Server.Rounds.{poll_clients, start_round, poll_and_begin, begin_round}
use zfl.Server.RoundLaws.{JustStarted, start_round-JustStarted, start_round-ready_count}
use zfl.Server.Settle.{add_all, sum_all, with_all, add_all-finish_round}
use zfl.Server.Steps.{World, sleeping, joins, counts, Steps, done, more}
use zfl.Server.Soundness.{IsSound}
use zfl.Server.Invariant.{Steps-IsSound}

abbrev whole_floats : Floats
whole_floats = record {
  Float = ℕ;
  zero_float = 0;
  add_float = λ a b. a + b;
  div_float = λ a n. a;
  strtof = λ text. length text;
}

abbrev calls : Calls whole_floats
calls = record {
  accuracy = λ ws bs. length ws;
  nn_cross_entropy = λ ws bs. length bs;
  vsnprintf = λ m. codes "INFO";
}

abbrev zero_stats : Stats
zero_stats = empty_payload.stats

-- Two messages behind one that is there, and one at level DEBUG between them.
abbrev messages : List (ℕ × Bytes)
messages = (1, codes "b") ∷ (0, codes "x") ∷ (2, codes "c") ∷ []

log_all-last_items_example :
    log_all (codes "a" ∷ []) messages ≡ last_items 100 ((codes "a" ∷ []) ++ kept messages)
log_all-last_items_example = log_all-last_items (codes "a" ∷ []) messages (omega arith)

abbrev client : ℕ → Client
client n = record { id = n; ipaddr = codes "192.0.2.1"; ready = false }

abbrev two : List Client
two = client 1 ∷ client 2 ∷ []

two-TableFrom : TableFrom 0 two
two-TableFrom = (refl, (refl, tt))

abbrev replies : List (Option Bytes)
replies = some (codes "true") ∷ none ∷ []

update_stats-none_example : update_stats ((zero_stats ∷ []) ∷ []) zero_stats 4 ≡ none
update_stats-none_example =
    update_stats-none ((zero_stats ∷ []) ∷ []) zero_stats 3 (omega arith) (omega arith)

abbrev layers : Layers whole_floats
layers = replicate (784 * 16) 0 ∷ replicate (16 * 10) 0 ∷ []

abbrev rows : Layers whole_floats
rows = replicate 16 0 ∷ replicate 10 0 ∷ []

abbrev start : Server whole_floats
start = record {
  num_rounds = 1;
  clients_per_round = 1;
  emulate_loss = false;
  accuracies = [];
  loss = [];
  round_time = [];
  stats = [];
  log = [];
  clients_ready = 0;
  clients = two;
  current_round = record {
    started = false;
    averaging = false;
    start_time = 0;
    round_number = 0;
    participants = 0;
    responded = 0;
    weights = layers;
    biases = rows;
    nn_weights = layers;
    nn_biases = rows;
  };
}

start_started : (start_round whole_floats calls 7 replies start).0.current_round.started ≡ true
unfolding start_round poll_and_begin poll_clients begin_round has_prefix
start_started = refl

start_round-JustStarted_example :
    JustStarted calls 7 replies start (start_round whole_floats calls 7 replies start).0
start_round-JustStarted_example = start_round-JustStarted calls 7 replies start refl start_started

start_ready : ready_count (poll_clients two replies 0).0 ≡ 1
unfolding poll_clients has_prefix
start_ready = refl

start_round-ready_count_example :
    ((start_round whole_floats calls 7 replies start).0.current_round.started ≡ true)
    × ((start_round whole_floats calls 7 replies start).1 ≡ true)
start_round-ready_count_example =
    start_round-ready_count calls 7 replies start (omega arith) refl start_ready

-- The tokens of `n` numbers, and of `m` rows of them.
abbrev numbers : ℕ → Token
numbers zero = null
numbers (suc n) = node number (some (codes "1.5")) null (numbers n)

abbrev grid : ℕ → ℕ → Token
grid zero n = null
grid (suc m) n = node array none (numbers n) (grid m n)

abbrev model : Token
model = node array none (grid 784 16) (
    node array none (numbers 16) (node array none (grid 16 10) (node array none (numbers 10) null)))

abbrev result : Payload
result = record { json = null; round_number = 1; weights = model; stats = zero_stats }

-- A round of three participants, of which one has responded.
abbrev middle : Server whole_floats
middle = record start {
  clients_per_round = 3;
  current_round = record (start.current_round) {
    started = true;
    round_number = 1;
    participants = 3;
    responded = 1;
  };
}

add_all-finish_round_example : add_all calls middle (((4, result) ∷ []) ++ ((9, result) ∷ [])) ≡ (
    sum_all calls 1 layers rows (((4, result) ∷ []) ++ ((9, result) ∷ [])) >>= λ sums.
    some (finish_round whole_floats calls 9 (with_all calls middle sums)))
add_all-finish_round_example =
    add_all-finish_round calls middle ((4, result) ∷ []) 9 result refl (omega arith)

abbrev initial : World calls
initial = record { server = start; phase = sleeping; counted = []; checked = []; added = 0 }

initial-IsSound : IsSound calls initial
initial-IsSound =
    ((refl, omega arith, inl refl, omega arith, refl, refl, refl), two-TableFrom, inl refl, tt, tt)

abbrev joined : World calls
joined = record initial { server = record start { clients = (send_id two (codes "192.0.2.3")).1 } }

abbrev counted_one : World calls
counted_one = record joined {
  server = record (joined.server) { stats = (zero_stats ∷ []) ∷ [] };
  counted = result ∷ [];
}

one_counted : update_stats [] zero_stats 1 ≡ some ((zero_stats ∷ []) ∷ [])
unfolding update_stats
one_counted = refl

run : Steps calls initial counted_one
run =
    more (joins initial (codes "192.0.2.3"))
      (more (counts joined result ((zero_stats ∷ []) ∷ []) one_counted) (done counted_one))

Steps-IsSound_example : IsSound calls counted_one
Steps-IsSound_example = Steps-IsSound calls initial-IsSound run
