-- ===== src/Options/Laws.antt =====
-- zfl.c: command lines that are written out are read back.
use zfl.Base.{
  ℕ, false, ◌==◌, arith, zero, suc, Bool, ◌≡◌, refl, ap, ◌∙◌, true, some, List, [], ◌∷◌, ◌>>=◌,
  Bytes, codes,
}
use zfl.Common.Payload.{has_prefix}
use zfl.Options.{
  Start, usage, start_server, start_client, ServerOptions, ClientOptions, server_flag, client_flag,
  server_loop, client_loop, checked_server, checked_client, no_server_options, no_client_options,
  run, main,
}

pub data ServerSetting : Type 0 where
  rounds_of : Bytes → ServerSetting
  clients_of : Bytes → ServerSetting
  with_loss : ServerSetting

pub data ClientSetting : Type 0 where
  epochs_of : Bytes → ClientSetting
  number_of : Bytes → ClientSetting
  batch_of : Bytes → ClientSetting

abbrev pub server_args : List ServerSetting → List Bytes
server_args [] = []
server_args (rounds_of val ∷ settings) = codes "-r" ∷ val ∷ server_args settings
server_args (clients_of val ∷ settings) = codes "-c" ∷ val ∷ server_args settings
server_args (with_loss ∷ settings) = codes "--loss" ∷ server_args settings

abbrev pub client_args : List ClientSetting → List Bytes
client_args [] = []
client_args (epochs_of val ∷ settings) = codes "-e" ∷ val ∷ client_args settings
client_args (number_of val ∷ settings) = codes "-c" ∷ val ∷ client_args settings
client_args (batch_of val ∷ settings) = codes "-b" ∷ val ∷ client_args settings

-- What is started with these numbers: the usage where one of them is 0.
abbrev pub server_start : ℕ → ℕ → Bool → Start
server_start zero clients loss = usage
server_start (suc rounds) zero loss = usage
server_start (suc rounds) (suc clients) loss =
    start_server
      (record { num_rounds = suc rounds; clients_per_round = suc clients; emulate_loss = loss })

abbrev pub client_start : ℕ → ℕ → ℕ → Start
client_start zero epochs batch = usage
client_start (suc clients) zero batch = usage
client_start (suc clients) (suc epochs) zero = usage
client_start (suc clients) (suc epochs) (suc batch) =
    start_client (record { num_clients = suc clients; epochs = suc epochs; batch_size = suc batch })

positive : (n : ℕ) → (suc n == 0) ≡ false
positive n = ground arith

checked_server_lem :
    (rounds clients : ℕ) (loss : Bool)
    → checked_server
        (record { num_rounds = rounds; clients_per_round = clients; emulate_loss = loss })
      ≡ server_start rounds clients loss
checked_server_lem zero clients loss = refl
checked_server_lem (suc rounds) zero loss = rw (positive rounds) refl
checked_server_lem (suc rounds) (suc clients) loss = rw (positive rounds, positive clients) refl

checked_client_lem :
    (clients epochs batch : ℕ)
    → checked_client (record { num_clients = clients; epochs = epochs; batch_size = batch })
      ≡ client_start clients epochs batch
checked_client_lem zero epochs batch = refl
checked_client_lem (suc clients) zero batch = rw (positive clients) refl
checked_client_lem (suc clients) (suc epochs) zero = rw (positive clients, positive epochs) refl
checked_client_lem (suc clients) (suc epochs) (suc batch) =
    rw (positive clients, positive epochs, positive batch) refl

module _ (atoi : Bytes → ℕ) where
  abbrev pub server_set : ServerOptions → List ServerSetting → ServerOptions
  server_set o [] = o
  server_set o (rounds_of val ∷ settings) = server_set (record o { num_rounds = atoi val }) settings
  server_set o (clients_of val ∷ settings) =
      server_set (record o { clients_per_round = atoi val }) settings
  server_set o (with_loss ∷ settings) = server_set (record o { emulate_loss = true }) settings

  abbrev pub client_set : ClientOptions → List ClientSetting → ClientOptions
  client_set o [] = o
  client_set o (epochs_of val ∷ settings) = client_set (record o { epochs = atoi val }) settings
  client_set o (number_of val ∷ settings) =
      client_set (record o { num_clients = atoi val }) settings
  client_set o (batch_of val ∷ settings) = client_set (record o { batch_size = atoi val }) settings

  loss_first :
      (o : ServerOptions) (args : List Bytes)
      → server_loop atoi o (codes "--loss" ∷ args)
        ≡ server_loop atoi (record o { emulate_loss = true }) args
  unfolding server_loop server_flag has_prefix
  loss_first o [] = refl
  loss_first o (val ∷ args) = refl

  server_loop-server_args :
      (o : ServerOptions) (settings : List ServerSetting)
      → server_loop atoi o (server_args settings) ≡ some (server_set o settings)
  unfolding server_loop server_flag has_prefix
  server_loop-server_args o [] = refl
  server_loop-server_args o (rounds_of val ∷ settings) =
      server_loop-server_args (record o { num_rounds = atoi val }) settings
  server_loop-server_args o (clients_of val ∷ settings) =
      server_loop-server_args (record o { clients_per_round = atoi val }) settings
  server_loop-server_args o (with_loss ∷ settings) =
      loss_first o (server_args settings)
      ∙ server_loop-server_args (record o { emulate_loss = true }) settings

  client_loop-client_args :
      (o : ClientOptions) (settings : List ClientSetting)
      → client_loop atoi o (client_args settings) ≡ some (client_set o settings)
  unfolding client_loop client_flag has_prefix
  client_loop-client_args o [] = refl
  client_loop-client_args o (epochs_of val ∷ settings) =
      client_loop-client_args (record o { epochs = atoi val }) settings
  client_loop-client_args o (number_of val ∷ settings) =
      client_loop-client_args (record o { num_clients = atoi val }) settings
  client_loop-client_args o (batch_of val ∷ settings) =
      client_loop-client_args (record o { batch_size = atoi val }) settings

  main-checked_server :
      (program : Bytes) (setting : ServerSetting) (settings : List ServerSetting)
      → main atoi (program ∷ codes "server" ∷ server_args (setting ∷ settings))
        ≡ some (checked_server (server_set no_server_options (setting ∷ settings)))
  unfolding main run has_prefix
  main-checked_server program (rounds_of val) settings =
      ap (λ o. o >>= λ o'. some (checked_server o'))
        (server_loop-server_args no_server_options (rounds_of val ∷ settings))
  main-checked_server program (clients_of val) settings =
      ap (λ o. o >>= λ o'. some (checked_server o'))
        (server_loop-server_args no_server_options (clients_of val ∷ settings))
  main-checked_server program with_loss settings =
      ap (λ o. o >>= λ o'. some (checked_server o'))
        (server_loop-server_args no_server_options (with_loss ∷ settings))

  -- A command line that starts the server, with at least one setting, starts it with these settings:
  -- in any order and any number, each value through `atoi`, even one that looks like a flag, and the
  -- last of a flag counts. Where the number of rounds or of clients is left at 0, it shows the usage.
  pub main-server_args :
      (program : Bytes) (setting : ServerSetting) (settings : List ServerSetting)
      → main atoi (program ∷ codes "server" ∷ server_args (setting ∷ settings))
        ≡ some (
            server_start
              (server_set no_server_options (setting ∷ settings)).num_rounds
              (server_set no_server_options (setting ∷ settings)).clients_per_round
              (server_set no_server_options (setting ∷ settings)).emulate_loss)
  main-server_args program setting settings =
      main-checked_server program setting settings ∙ ap some (checked_server_lem _ _ _)

  main-checked_client :
      (program : Bytes) (setting : ClientSetting) (settings : List ClientSetting)
      → main atoi (program ∷ codes "client" ∷ client_args (setting ∷ settings))
        ≡ some (checked_client (client_set no_client_options (setting ∷ settings)))
  unfolding main run has_prefix
  main-checked_client program (epochs_of val) settings =
      ap (λ o. o >>= λ o'. some (checked_client o'))
        (client_loop-client_args no_client_options (epochs_of val ∷ settings))
  main-checked_client program (number_of val) settings =
      ap (λ o. o >>= λ o'. some (checked_client o'))
        (client_loop-client_args no_client_options (number_of val ∷ settings))
  main-checked_client program (batch_of val) settings =
      ap (λ o. o >>= λ o'. some (checked_client o'))
        (client_loop-client_args no_client_options (batch_of val ∷ settings))

  -- A command line that starts the clients, with at least one setting, starts them with these
  -- settings, the last of a flag counting. Where the number of clients, of epochs or the batch size is
  -- left at 0, it shows the usage.
  pub main-client_args :
      (program : Bytes) (setting : ClientSetting) (settings : List ClientSetting)
      → main atoi (program ∷ codes "client" ∷ client_args (setting ∷ settings))
        ≡ some (
            client_start
              (client_set no_client_options (setting ∷ settings)).num_clients
              (client_set no_client_options (setting ∷ settings)).epochs
              (client_set no_client_options (setting ∷ settings)).batch_size)
  main-client_args program setting settings =
      main-checked_client program setting settings ∙ ap some (checked_client_lem _ _ _)
