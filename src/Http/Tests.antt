-- ===== src/Http/Tests.antt =====
-- HTTP Requests/client.c and post.c at concrete requests.
use network_programming_c.Prelude.{ℕ, ◌≡◌, refl, true, Option, some, [], ◌∷◌, length, codes, arith}
use network_programming_c.Http.{Calls, is_sent, request_header, client, process_http}
use network_programming_c.Http.Sent.{WritesSome, client-request}

-- One byte at a time.
abbrev one_byte : ℕ → ℕ → Option ℕ
one_byte total count = some 1

one_byte-WritesSome : WritesSome one_byte
one_byte-WritesSome total count h = (1, refl, omega arith, omega arith)

abbrev all_succeed : Calls
all_succeed = record {
  getprotobyname = true;
  socket = true;
  gethostbyname = true;
  inet_addr = true;
  connect = true;
}

client-request_example :
    client all_succeed one_byte (codes "example.com")
    ≡ some (record { written = request_header (codes "example.com"); ending = is_sent })
client-request_example =
    client-request all_succeed one_byte (codes "example.com") one_byte-WritesSome

-- The request that `main` of post.c makes fits into the 199 bytes; a longer page is cut.
process_http_main :
    length (process_http (λ n. codes "2") (codes "google.com") (codes "/index.html") (13 ∷ 10 ∷ []))
    ≡ 141
unfolding process_http
process_http_main = refl
