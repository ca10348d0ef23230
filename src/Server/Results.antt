-- ===== src/Server/Results.antt =====
-- zflserver/src/main.c: `update_stats`, and `handle_results` with the federated average.
use zfl.Base.{
  ℕ, zero, suc, ◌+◌, ◌-◌, ◌%◌, ◌^◌, Bool, leb, false, not, Option, none, some, List, [], ◌∷◌, ◌++◌,
  ◌>>=◌, ◌==◌, ltb, if◌then◌else◌, Bytes, get_elem?, length, map, set,
}
use zfl.Common.{Floats, arch}
use zfl.Common.Weights.{Layers, parse_weights_json}
use zfl.Common.Payload.{Stats, Payload, Conversions, empty_payload, deserialize_training_data}
use zfl.Server.{Server, Calls, invalid_json, all_responded, final_model}
use zfl.Server.Log.{log_append}

-- `da_put(stats[i], s)`
abbrev pub put_at : List (List Stats) → ℕ → Stats → Option (List (List Stats))
put_at stats i s = do row ← get_elem? stats i; some (set stats i (row ++ (s ∷ [])))

-- `<` on int, whose words of 32 bits stand for negative numbers from 2 ^ 31 on.
abbrev pub int_ltb : ℕ → ℕ → Bool
int_ltb m n = ltb ((m + 2 ^ 31) % 2 ^ 32) ((n + 2 ^ 31) % 2 ^ 32)

-- The round number is the word of an int, and so is `len`. One empty entry is added where the table is
-- too short, whatever it lacks. The entry of a round number that is 0 or negative is in front of the
-- table.
unfoldable pub update_stats : List (List Stats) → Stats → ℕ → Option (List (List Stats))
update_stats stats s zero = none
update_stats stats s (suc n) =
    if leb (2 ^ 31) (suc n)
    then none
    else put_at (if int_ltb (length stats % 2 ^ 32) (suc n) then stats ++ ([] ∷ []) else stats) n s

module _ (floats : Floats) where
  open floats use {Float, div_float}

  -- `/= participants`, for every weight of every layer.
  abbrev pub average_layers : ℕ → Layers floats → Layers floats
  average_layers n layers = map (map (λ x. div_float x n)) layers

  -- The last part of `handle_results`: the round is averaged, evaluated and over.
  unfoldable pub finish_round : Calls floats → ℕ → Server floats → Server floats
  finish_round calls now s =
      let r = s.current_round in
      let ws = average_layers r.participants r.weights in
      let bs = average_layers r.participants r.biases in
      let acc = calls.accuracy ws bs in
      let loss = calls.nn_cross_entropy ws bs in
      record s {
        log =
            log_append 1 (calls.vsnprintf (final_model acc loss))
              (log_append 1 (calls.vsnprintf (all_responded r.round_number)) s.log);
        round_time = s.round_time ++ ((now - r.start_time) ∷ []);
        accuracies = s.accuracies ++ (acc ∷ []);
        loss = s.loss ++ (loss ∷ []);
        current_round = record r {
          weights = ws;
          biases = bs;
          nn_weights = ws;
          nn_biases = bs;
          started = false;
          averaging = false;
          responded = 0;
        };
      }

  -- The sums after another result.
  abbrev pub with_sums : Server floats → Layers floats → Layers floats → Server floats
  with_sums s ws bs = record s {
    current_round = record (s.current_round) {
      weights = ws;
      biases = bs;
      responded = s.current_round.responded + 1;
    };
  }

  -- The last of the participants ends the round.
  unfoldable pub settle : Calls floats → ℕ → Server floats → Server floats
  settle calls now s =
      if s.current_round.responded == s.current_round.participants
      then finish_round calls now s
      else s

  -- The section of `handle_results` under `result_mutex`. The first result clears the sums.
  unfoldable pub add_results : Calls floats → ℕ → Server floats → Payload → Option (Server floats)
  add_results calls now s p =
      let r = s.current_round in
      if r.averaging
      then some s
      else (parse_weights_json floats arch p.weights r.weights r.biases (not (r.responded == 0))
          >>= λ (ws, bs). some (settle calls now (with_sums s ws bs)))

  -- Behind the parsing: the statistics, where the size_t becomes an int, and the results where they are
  -- of this round.
  unfoldable pub handle_payload :
      Calls floats → ℕ → Server floats → Payload → Option (Server floats)
  handle_payload calls now s p = update_stats s.stats p.stats (p.round_number % 2 ^ 32) >>= λ stats.
      if p.round_number == s.current_round.round_number
      then add_results calls now (record s { stats = stats }) p
      else some (record s { stats = stats })

  -- `handle_results` by one thread, with no other in between.
  unfoldable pub handle_results :
      Conversions → Calls floats → ℕ → ℕ → Server floats → Bytes → Option (Server floats)
  handle_results conversions calls past now s results =
      deserialize_training_data conversions past results empty_payload >>= λ (p, parsed).
      if parsed
      then handle_payload calls now s p
      else some (record s { log = log_append 2 (calls.vsnprintf invalid_json) s.log })
