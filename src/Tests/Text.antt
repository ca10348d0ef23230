-- ===== src/Tests/Text.antt =====
-- sb.h, da.h, http.h, zfl.c and `sendall` on concrete inputs.
use mathlib.Core.List.{flatten}
use zfl.Base.{
  ℕ, ◌+◌, ◌≤◌, ◌≡◌, refl, Bool, true, false, none, some, List, [], ◌∷◌, ◌++◌, Bytes, codes, length,
  arith, ◌==◌, ◌||◌, if◌then◌else◌,
}
use zfl.Tests.{zeros, zeros_size}
use zfl.StringBuilder.{StringBuilder, contents, sb_init, sb_append, append_all}
use zfl.StringBuilder.Laws.{IsValid, sb_init-IsValid, sb_append-none, append_all-contents}
use zfl.DynamicArray.{Array, null, da_len, da_put, elements}
use zfl.DynamicArray.Laws as Da
use zfl.Http.{empty_http, find_first_match, find_from, is_char}
use zfl.Http.Find.{Finds, Clean, find_first_match-Finds}
use zfl.Http.Request.{parse_required_req, parse_optional}
use zfl.Http.RoundTrip.{c_str, parse_required_req-line}
use zfl.Http.Headers.{header_text, stored, parse_optional-headers}
use zfl.Http.Query.{parse_query}
use zfl.Http.QueryLaws.{query_url, parse_query-first}
use zfl.Http.Receive.{Received, recv_content}
use zfl.Http.ReceiveLaws.{Content, recv_content-Content}
use zfl.Options.{main, start_server, start_client}
use zfl.Options.Laws.{
  rounds_of, clients_of, with_loss, epochs_of, number_of, batch_of, server_args, client_args,
  main-server_args, main-client_args,
}
use zfl.Sockets.{sendall}

abbrev empty : StringBuilder
empty = sb_init zeros 4

empty_cap : (empty.cap ≡ 4) × (empty.size ≡ 0)
unfolding sb_init
empty_cap = (refl, refl)

-- The capacity is doubled once only.
sb_append-none_example : sb_append zeros empty (codes "123456789") ≡ none
sb_append-none_example =
    sb_append-none zeros zeros_size empty (codes "123456789") (sb_init-IsValid zeros zeros_size 4).0
      (omega (arith, empty_cap.0, empty_cap.1))

append_all-contents_example :
    (sb' : StringBuilder) × (append_all zeros empty (codes "abc" ∷ codes "defg" ∷ codes "hi" ∷ [])
      ≡ some sb')
    × (contents sb' ≡ contents empty ++ flatten (codes "abc" ∷ codes "defg" ∷ codes "hi" ∷ []))
    × IsValid sb'
    × (empty.cap ≤ sb'.cap)
append_all-contents_example =
    append_all-contents zeros zeros_size (codes "abc" ∷ codes "defg" ∷ codes "hi" ∷ []) empty 4
      (sb_init-IsValid zeros zeros_size 4).0 (omega (arith, empty_cap.0))
      (omega arith, (omega arith, (omega arith, tt)))

abbrev is_clean : ℕ → Bytes → Bool
is_clean f [] = true
is_clean f (x ∷ l) = if (x == 0) || (x == f) then false else is_clean f l

Clean-of : (f : ℕ) (l : Bytes) → is_clean f l ≡ true → Clean f l
Clean-of f [] h = tt
Clean-of f (x ∷ l) h = ground (arith, Clean-of f l)

da_put-elements_example :
    (b : Array ℕ) × (da_put zeros null 7 ≡ some b)
    × (elements b ≡ elements null ++ (7 ∷ []))
    × (da_len b ≡ da_len {A = ℕ} null + 1)
    × Da.IsValid b
da_put-elements_example = Da.da_put-elements zeros zeros_size null 7 Da.null-IsValid

match_found : find_first_match (codes "a: b") 4 (codes ": ") ≡ some (some 1)
unfolding find_first_match find_from is_char
match_found = refl

find_first_match-Finds_example : Finds (codes "a: b") 4 (codes ": ") (some 1)
find_first_match-Finds_example = find_first_match-Finds (codes "a: b") 4 (codes ": ") match_found

parse_required_req-line_example :
    parse_required_req empty_http (codes "GET /id HTTP/1.1\r\n") 18
    ≡ some (
      record empty_http { method = some (c_str (codes "GET")); url = some (c_str (codes "/id")) },
      some 18,
    )
parse_required_req-line_example =
    parse_required_req-line empty_http b'G' (codes "ET") b'/' (codes "id") (codes "HTTP/1.1") [] 18
      (Clean-of b' ' (codes "GET") refl) (Clean-of b' ' (codes "/id") refl)
      (Clean-of b'\r' (codes "HTTP/1.1") refl) (omega arith) (omega arith)

abbrev headers : List (Bytes × Bytes)
headers = (codes "Host", codes "a") ∷ (codes "Content-Length", codes "12") ∷ []

parse_optional-headers_example :
    parse_optional empty_http (header_text headers ++ codes "{}") 31
    ≡ some (record empty_http { headers = stored headers }, some 31)
parse_optional-headers_example =
    parse_optional-headers empty_http headers (codes "{}") 31
      (
        Clean-of b':' (codes "Host") refl,
        Clean-of b'\r' (codes "Host: a") refl,
        (
          Clean-of b':' (codes "Content-Length") refl,
          Clean-of b'\r' (codes "Content-Length: 12") refl,
          tt,
        ),
      )
      (omega arith) (omega arith)

parse_query-first_example :
    parse_query empty_http
      (c_str (query_url (codes "/results") (codes "id") (codes "3") (codes "&x")))
    ≡ some (
      record empty_http { queries = (c_str (codes "id"), c_str (c_str (codes "3"))) ∷ [] },
      some true,
    )
parse_query-first_example =
    parse_query-first empty_http (codes "/results") (codes "id") (codes "3") (codes "&x")
      (Clean-of b'?' (codes "/results") refl) (Clean-of b'=' (codes "id") refl)
      (Clean-of b'&' (codes "id=3") refl) (refl, (omega arith, tt)) (omega arith)

recv_content-Content_example :
    (out : Received) × (recv_content zeros empty_http empty 0 5
        (codes "abc" ∷ codes "de" ∷ codes "f" ∷ [])
      ≡ some out)
    × Content empty 0 5 (codes "abc" ∷ codes "de" ∷ codes "f" ∷ []) out
recv_content-Content_example =
    recv_content-Content zeros zeros_size (codes "abc" ∷ codes "de" ∷ codes "f" ∷ []) empty_http
      empty 0 5 4 (sb_init-IsValid zeros zeros_size 4).0 (omega (arith, empty_cap.0)) (omega arith)
      ((omega arith, omega arith), ((omega arith, omega arith), ((omega arith, omega arith), tt)))
      (omega (arith, empty_cap.1))

main-server_args_example :
    main
      (λ val. length val)
      (codes "zfl"
        ∷ codes "server"
        ∷ server_args (with_loss ∷ rounds_of (codes "3") ∷ clients_of (codes "-r") ∷ []))
    ≡ some (start_server (record { num_rounds = 1; clients_per_round = 2; emulate_loss = true }))
main-server_args_example =
    main-server_args (λ val. length val) (codes "zfl") with_loss
      (rounds_of (codes "3") ∷ clients_of (codes "-r") ∷ [])

main-client_args_example :
    main
      (λ val. length val)
      (codes "zfl"
        ∷ codes "client"
        ∷ client_args (epochs_of (codes "3") ∷ number_of (codes "22") ∷ batch_of (codes "-r") ∷ []))
    ≡ some (start_client (record { num_clients = 2; epochs = 1; batch_size = 2 }))
main-client_args_example =
    main-client_args (λ val. length val) (codes "zfl") (epochs_of (codes "3"))
      (number_of (codes "22") ∷ batch_of (codes "-r") ∷ [])

-- The second call fails.
half_sent : sendall (some 2 ∷ none ∷ []) (codes "abc") ≡ some (codes "ab", false)
unfolding sendall
half_sent = refl
