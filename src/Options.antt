-- ===== src/Options.antt =====
-- zfl.c: the arguments of the command line, up to where `main` starts a server or the clients.
-- `atoi` is a parameter. `none` is the fault of a flag at the end that lacks its value, where
-- `shift_args` runs behind the last argument and `atoi` gets NULL.
pub mod Laws
pub mod Launch
pub mod LaunchLaws
use zfl.Base.{
  ℕ, zero, Bool, true, false, Option, none, some, List, [], ◌∷◌, ◌>>=◌, ◌==◌, ◌||◌, if◌then◌else◌,
  Bytes, codes,
}
use zfl.Common.Payload.{has_prefix}

pub record ServerOptions : Type 0 where
  pub num_rounds : ℕ
  pub clients_per_round : ℕ
  pub emulate_loss : Bool

pub record ClientOptions : Type 0 where
  pub num_clients : ℕ
  pub epochs : ℕ
  pub batch_size : ℕ

-- Which of the flags an argument begins with.
pub data ServerFlag : Type 0 where
  num_round_flag num_clients_flag loss_flag no_flag : ServerFlag

pub data ClientFlag : Type 0 where
  epochs_flag clients_flag batch_flag none_of_them : ClientFlag

unfoldable pub server_flag : Bytes → ServerFlag
server_flag arg =
    if has_prefix arg (codes "-r")
    then num_round_flag
    else if has_prefix arg (codes "-c")
    then num_clients_flag
    else if has_prefix arg (codes "--loss")
    then loss_flag
    else no_flag

unfoldable pub client_flag : Bytes → ClientFlag
client_flag arg =
    if has_prefix arg (codes "-e")
    then epochs_flag
    else if has_prefix arg (codes "-c")
    then clients_flag
    else if has_prefix arg (codes "-b")
    then batch_flag
    else none_of_them

module _ (atoi : Bytes → ℕ) where
  -- The loop of the server's arguments.
  unfoldable pub server_loop : ServerOptions → List Bytes → Option ServerOptions
  server_loop o [] = some o
  server_loop o (arg ∷ []) = elim (server_flag arg) [
    | num_round_flag ↦ none
    | num_clients_flag ↦ none
    | loss_flag ↦ some (record o { emulate_loss = true })
    | no_flag ↦ some o
  ]
  server_loop o (arg ∷ val ∷ args) = elim (server_flag arg) [
    | num_round_flag ↦ server_loop (record o { num_rounds = atoi val }) args
    | num_clients_flag ↦ server_loop (record o { clients_per_round = atoi val }) args
    | loss_flag ↦ server_loop (record o { emulate_loss = true }) (val ∷ args)
    | no_flag ↦ server_loop o (val ∷ args)
  ]

  -- The loop of the clients' arguments.
  unfoldable pub client_loop : ClientOptions → List Bytes → Option ClientOptions
  client_loop o [] = some o
  client_loop o (arg ∷ []) = elim (client_flag arg) [
    | epochs_flag ↦ none
    | clients_flag ↦ none
    | batch_flag ↦ none
    | none_of_them ↦ some o
  ]
  client_loop o (arg ∷ val ∷ args) = elim (client_flag arg) [
    | epochs_flag ↦ client_loop (record o { epochs = atoi val }) args
    | clients_flag ↦ client_loop (record o { num_clients = atoi val }) args
    | batch_flag ↦ client_loop (record o { batch_size = atoi val }) args
    | none_of_them ↦ client_loop o (val ∷ args)
  ]

-- `usage` and -1, or what is started.
pub data Start : Type 0 where
  usage : Start
  start_server : ServerOptions → Start
  start_client : ClientOptions → Start

abbrev pub checked_server : ServerOptions → Start
checked_server o =
    if (o.num_rounds == 0) || (o.clients_per_round == 0) then usage else start_server o

abbrev pub checked_client : ClientOptions → Start
checked_client o =
    if (o.num_clients == 0) || ((o.epochs == 0) || (o.batch_size == 0))
    then usage
    else start_client o

abbrev pub no_server_options : ServerOptions
no_server_options = record { num_rounds = 0; clients_per_round = 0; emulate_loss = false }

abbrev pub no_client_options : ClientOptions
no_client_options = record { num_clients = 0; epochs = 0; batch_size = 0 }

unfoldable pub run : (Bytes → ℕ) → Bytes → List Bytes → Option Start
run atoi command args =
    if has_prefix command (codes "server")
    then (server_loop atoi no_server_options args >>= λ o. some (checked_server o))
    else if has_prefix command (codes "client")
    then (client_loop atoi no_client_options args >>= λ o. some (checked_client o))
    else some usage

-- `argv`, with the program's name first.
unfoldable pub main : (Bytes → ℕ) → List Bytes → Option Start
main atoi (program ∷ command ∷ arg ∷ args) = run atoi command (arg ∷ args)
main atoi _ = some usage
