-- ===== src/Server.antt =====
-- zflserver/src/main.c: the state of the server and its operations on it. What stands between a
-- lock and its unlock is one operation. The arrays of da.h are lists (DynamicArray proves that
-- `da_put` appends), and an access outside one is a fault, `none`.
pub mod Log
pub mod LogLaws
pub mod Clients
pub mod ClientsLaws
pub mod Results
pub mod Rounds
pub mod Training
pub mod Files
pub mod Report
pub mod Start
pub mod Routes
pub mod Steps
pub mod RoundLaws
pub mod StatsLaws
pub mod Settle
pub mod Soundness
pub mod Invariant
use zfl.Base.{ℕ, Bool, List, Bytes}
use zfl.Common.{Floats}
use zfl.Common.Weights.{Layers}
use zfl.Common.Payload.{Stats}

pub record Client : Type 0 where
  pub id : ℕ
  pub ipaddr : Bytes
  pub ready : Bool

module _ (floats : Floats) where
  open floats use {Float}

  -- The network `nn` is the arrays of its weights and biases; the test set does not change.
  pub record Round : Type 0 where
    pub started : Bool
    pub averaging : Bool
    pub start_time : ℕ
    pub round_number : ℕ
    pub participants : ℕ
    pub responded : ℕ
    pub weights : Layers floats
    pub biases : Layers floats
    pub nn_weights : Layers floats
    pub nn_biases : Layers floats

  -- What is written to the log at level INFO or ERROR.
  pub data Message : Type 0 where
    invalid_json : Message
    all_responded : ℕ → Message
    final_model : Float → Float → Message
    waiting : ℕ → Message
    starting : ℕ → ℕ → Message

  -- Code outside of this file: `accuracy` and `nn_cross_entropy` of the network with these weights
  -- and biases against the test set, and `vsnprintf`.
  pub record Calls : Type 0 where
    pub accuracy : Layers floats → Layers floats → Float
    pub nn_cross_entropy : Layers floats → Layers floats → Float
    pub vsnprintf : Message → Bytes

  -- `log` is `logs[0 .. log_len)`.
  pub record Server : Type 0 where
    pub num_rounds : ℕ
    pub clients_per_round : ℕ
    pub emulate_loss : Bool
    pub accuracies : List Float
    pub loss : List Float
    pub round_time : List ℕ
    pub stats : List (List Stats)
    pub log : List Bytes
    pub clients_ready : ℕ
    pub clients : List Client
    pub current_round : Round
