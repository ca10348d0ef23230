-- ===== src/Options/Launch.antt =====
-- zfl.c: `start_client` and `start_server`, `cat_client_output` and `setup_net_interface`: the commands,
-- names and texts that they make, and what they do with the answers of the system. The conversions of
-- printf are parameters.
use zfl.Base.{
  ℕ, zero, suc, ◌+◌, ◌%◌, Bool, true, false, Option, none, some, List, [], ◌∷◌, ◌++◌, ◌==◌, ltb,
  if◌then◌else◌, Bytes, codes, take,
}

-- "%d" or "%zu", and "%x".
pub record Formats : Type 0 where
  pub int_text : ℕ → Bytes
  pub hex_text : ℕ → Bytes

-- The child's command, and the two results: `none` is the failing fork.
unfoldable pub setup_net_interface : Bytes → Bytes → Bytes → Option ℕ → List Bytes × ℕ
setup_net_interface conf command iname none = ([], 1)
setup_net_interface conf command iname (some status) =
    (codes "./net-setup.sh" ∷ command ∷ codes "-c" ∷ conf ∷ codes "-i" ∷ iname ∷ [], status)

-- What `cat_client_output` writes to its log. The file or the log may not open; `none` is the call of
-- fclose with NULL. `writes` is whether each fwrite succeeds.
unfoldable pub copy_output : List Bytes → List Bool → Bytes
copy_output [] writes = []
copy_output (chunk ∷ chunks) [] = []
copy_output (chunk ∷ chunks) (true ∷ writes) = chunk ++ copy_output chunks writes
copy_output (chunk ∷ chunks) (false ∷ writes) = []

unfoldable pub cat_client_output : Bool → Bool → List Bytes → List Bool → Option Bytes
cat_client_output opens log_opens chunks writes =
    if opens then if log_opens then some (copy_output chunks writes) else none else none

module _ (formats : Formats) where
  open formats use {int_text, hex_text}

  -- The child's command, in its directory; snprintf writes 99 bytes at most.
  unfoldable pub start_server : ℕ → ℕ → Bool → Option ℕ → List Bytes × ℕ
  start_server num_rounds clients_per_round emulate_loss none = ([], 1)
  start_server num_rounds clients_per_round emulate_loss (some child) = (
    codes "./server"
        ∷ take 99 (int_text num_rounds)
        ∷ take 99 (int_text clients_per_round)
        ∷ (if emulate_loss then codes "1" else codes "0")
        ∷ [],
    0,
  )

  abbrev pub pipe_path : ℕ → Bytes
  pipe_path i = take 29 (codes "/tmp/client" ++ int_text (i + 1))

  abbrev pub pipe_in : ℕ → Bytes
  pipe_in i = take 99 (pipe_path i ++ codes ".in")

  abbrev pub pipe_out : ℕ → Bytes
  pipe_out i = take 99 (pipe_path i ++ codes ".out")

  -- One byte of the address, with a colon behind all but the last.
  abbrev pub mac_byte : ℕ → ℕ → Bytes
  mac_byte x tp =
      (if ltb tp 16 then codes "0" else []) ++ (hex_text tp ++ (if ltb x 4 then codes ":" else []))

  -- The loop over the five random bytes, from the byte `x` on, with `n` left.
  unfoldable pub mac_from : (ℕ → ℕ) → ℕ → ℕ → Bytes → Bytes
  mac_from rand x zero mac = mac
  mac_from rand x (suc n) mac =
      mac_from rand (suc x) n (take 49 (mac ++ take 9 (mac_byte x (rand x % 32))))

  abbrev pub mac_text : (ℕ → ℕ) → Bytes
  mac_text rand = mac_from rand 0 5 (codes "00:")

  abbrev pub serial_arg : ℕ → Bytes
  serial_arg i = take 79 (codes "pipe:" ++ pipe_path i)

  abbrev pub nic_arg : Bytes → Bytes
  nic_arg mac = take 99 (codes "bridge,model=e1000,mac=" ++ (mac ++ codes ",br=zfl"))

  -- The command that is written to a client, with its NUL.
  abbrev pub run_text : ℕ → ℕ → ℕ → Bytes
  run_text i epochs batch_size =
      codes "run 192.0.2."
      ++ (int_text (i + 3)
          ++ (codes " "
              ++ (int_text epochs ++ (codes " " ++ (int_text batch_size ++ (b'\n' ∷ []))))))

  abbrev pub run_cmd : ℕ → ℕ → ℕ → Bytes
  run_cmd i epochs batch_size = take 49 (run_text i epochs batch_size)

  -- What the system answers for one client: whether the pipes can be made, the child's id or the
  -- failing fork, whether the pipe opens, and whether the write succeeds.
  pub record Answers : Type 0 where
    pub pipes : Bool
    pub child : Option ℕ
    pub opens : Bool
    pub writes : Bool

  -- A client that runs: its number, the child, the arguments of qemu that are not fixed, and what is
  -- written to its pipe.
  pub record Launched : Type 0 where
    pub number : ℕ
    pub pid : ℕ
    pub serial : Bytes
    pub nic : Bytes
    pub command : Bytes

  -- One round of the first loop: the client, or the result that ends the function, 1 or -1.
  pub data Outcome : Type 0 where
    launched : Launched → Outcome
    one : Outcome
    minus_one : Outcome

  unfoldable pub launch : (ℕ → ℕ) → ℕ → ℕ → ℕ → Answers → Outcome
  launch rand epochs batch_size i a = if a.pipes then forked a.child else minus_one
    where
      forked : Option ℕ → Outcome
      forked none = one
      forked (some pid) =
          if a.opens
          then if a.writes
            then launched (record {
              number = i;
              pid = pid;
              serial = serial_arg i;
              nic = nic_arg (mac_text rand);
              command = run_cmd i epochs batch_size ++ (0 ∷ []);
            })
            else minus_one
          else minus_one

  -- The first loop: the clients launched, and the result where the function ends early.
  unfoldable pub launch_all :
      (ℕ → ℕ → ℕ) → ℕ → ℕ → ℕ → List Answers → List Launched × Option Outcome
  launch_all rands epochs batch_size i [] = ([], none)
  launch_all rands epochs batch_size i (a ∷ answers) =
      let rest = launch_all rands epochs batch_size (suc i) answers in
      add (launch (rands i) epochs batch_size i a) rest
    where
      add : Outcome → List Launched × Option Outcome → List Launched × Option Outcome
      add (launched l) rest = (l ∷ rest.0, rest.1)
      add one rest = ([], some one)
      add minus_one rest = ([], some minus_one)

  -- The pipes that are removed when a child ends: those of each client with its id.
  unfoldable pub removed : List Launched → ℕ → List Bytes
  removed [] pid = []
  removed (l ∷ clients) pid =
      let rest = removed clients pid in
      if l.pid == pid then pipe_in l.number ∷ pipe_out l.number ∷ rest else rest

  -- The second loop, over the ids of the children in the order in which they end.
  unfoldable pub clean_up : List Launched → List ℕ → List Bytes
  clean_up clients [] = []
  clean_up clients (pid ∷ pids) = removed clients pid ++ clean_up clients pids
