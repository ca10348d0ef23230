-- ===== src/Server/ClientsLaws.antt =====
-- zflserver/src/main.c: the table of clients, which `send_id` extends and `start_round` polls.
use zfl.Base.{
  ℕ, ◌+◌, ◌≤◌, ◌≡◌, sym, ◌∙◌, length-append, Bool, true, false, Option, none, some, List, [], ◌∷◌,
  ◌++◌, Bytes, codes, length, if◌then◌else◌, >>=-eq-some, arith,
}
use zfl.Http.{Http, get_param}
use zfl.Server.{Client}
use zfl.Server.Clients.{send_id, check_id, read_id, extract_id}
use zfl.Server.Rounds.{says_ready, poll_clients}

-- The ids count up from `n + 1`.
abbrev pub TableFrom : ℕ → List Client → Type 0
TableFrom n [] = Unit
TableFrom n (c ∷ clients) = (c.id ≡ n + 1) × TableFrom (n + 1) clients

abbrev pub ready_count : List Client → ℕ
ready_count [] = 0
ready_count (c ∷ clients) = (if c.ready then 1 else 0) + ready_count clients

TableFrom-append :
    (n : ℕ) (clients : List Client) (c : Client)
    → TableFrom n clients
    → c.id ≡ n + length clients + 1
    → TableFrom n (clients ++ (c ∷ []))
TableFrom-append n [] c h e = (omega arith, tt)
TableFrom-append n (d ∷ clients) c h e = (h.0, TableFrom-append (n + 1) clients c h.1 (omega arith))

-- A client that asks for an id is sent one that is the length of the new table, and the ids of the
-- new table are 1, 2, 3 and so on where those of the old one were.
pub send_id-TableFrom :
    (clients : List Client) (addr : Bytes)
    → TableFrom 0 clients
    → ((send_id clients addr).0 ≡ length (send_id clients addr).1)
      × TableFrom 0 (send_id clients addr).1
unfolding send_id
send_id-TableFrom clients addr h =
    (sym (length-append clients _), TableFrom-append 0 clients _ h (omega arith))

ready_step : (b : Bool) (n r : ℕ) → (if b then n + 1 else n) + r ≡ n + ((if b then 1 else 0) + r)
ready_step true n r = omega arith
ready_step false n r = omega arith

pub poll_clients-TableFrom :
    (m : ℕ) (clients : List Client) (replies : List (Option Bytes)) (n : ℕ)
    → TableFrom m clients
    → TableFrom m (poll_clients clients replies n).0
unfolding poll_clients
poll_clients-TableFrom m [] replies n h = tt
poll_clients-TableFrom m (c ∷ clients) [] n h =
    (h.0, poll_clients-TableFrom (m + 1) clients [] n h.1)
poll_clients-TableFrom m (c ∷ clients) (reply ∷ replies) n h = (
  h.0,
  poll_clients-TableFrom (m + 1) clients replies (if says_ready reply then n + 1 else n) h.1,
)

poll_clients-count :
    (clients : List Client) (replies : List (Option Bytes)) (n : ℕ)
    → (poll_clients clients replies n).1 ≡ n + ready_count (poll_clients clients replies n).0
unfolding poll_clients
poll_clients-count [] replies n = omega arith
poll_clients-count (c ∷ clients) [] n = omega (arith, poll_clients-count clients [] n)
poll_clients-count (c ∷ clients) (reply ∷ replies) n =
    poll_clients-count clients replies (if says_ready reply then n + 1 else n)
    ∙ ready_step (says_ready reply) n _

-- The poll from 0 counts exactly the clients that it marks as ready.
pub poll_clients-ready :
    (clients : List Client) (replies : List (Option Bytes))
    → (poll_clients clients replies 0).1 ≡ ready_count (poll_clients clients replies 0).0
poll_clients-ready clients replies = omega (arith, poll_clients-count clients replies 0)

check_id-bounds :
    (clients : List Client) (found : Option ℕ) (id : ℕ)
    → check_id clients found ≡ some id
    → (1 ≤ id) × (id ≤ length clients)
check_id-bounds clients none id e = cc
check_id-bounds clients (some n) id e = ground arith

read_id-bounds :
    (strtol : Bytes → Option ℕ) (clients : List Client) (found : Option Bytes) (id : ℕ)
    → read_id strtol clients found ≡ some id
    → (1 ≤ id) × (id ≤ length clients)
read_id-bounds strtol clients none id e = cc
read_id-bounds strtol clients (some text) id e = check_id-bounds clients (strtol text) id e

-- An id that `extract_id` accepts is that of a client in the table.
pub extract_id-bounds :
    (strtol : Bytes → Option ℕ) (clients : List Client) (h : Http) (id : ℕ)
    → extract_id strtol clients h ≡ some (some id)
    → (1 ≤ id) × (id ≤ length clients)
unfolding extract_id
extract_id-bounds strtol clients h id e =
    let (found, get, rest) =
      >>=-eq-some (get_param h (codes "id")) (λ f. some (read_id strtol clients f)) e in
    read_id-bounds strtol clients found id cc
