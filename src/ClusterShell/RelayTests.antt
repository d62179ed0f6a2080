-- ===== src/ClusterShell/RelayTests.antt =====
-- The theorems on the configuration and on the relay at concrete inputs.
use network_programming_c.Prelude.{
  ℕ, suc, ◌≡◌, ◌≢◌, refl, none, some, List, [], ◌∷◌, ◌++◌, length, take, replicate, set, codes,
  has_prefix, All, arith, get_or,
}
use network_programming_c.ClusterShell.Config.Entries.{Item, comment, entry, IsItem}
use network_programming_c.ClusterShell.Relay.{
  Server, Thread, sends, accepts, starts, receives, leaves,
}
use network_programming_c.ClusterShell.Relay.Replies.{IsRequest, IsAnswer, request-answer}
use network_programming_c.ClusterShell.Relay.Broadcast.{IsBroadcast, HasAccepted, broadcast-dropped}
use network_programming_c.ClusterShell.Relay.Runs.{
  start_server, Run, begins, gets, makes, ends, Run-stays,
}

-- The file of the repository.
abbrev items : List Item
items =
    comment (codes " Config file")
    ∷ entry (codes "n1") (codes "127.0.0.1" ++ 10 ∷ [])
    ∷ entry (codes "n2") (codes "172.17.71.15" ++ 10 ∷ [])
    ∷ []

items-IsItem : All IsItem items
unfolding has_prefix
items-IsItem = (refl, (((ground arith), ground arith), ((ground arith, ground arith), tt)))

abbrev nodes : List (List ℕ)
nodes = codes "n1" ∷ codes "n2" ∷ []

abbrev server : Server
server = record (start_server nodes) {
  client_fds = 4 ∷ 5 ∷ replicate 198 0;
  n = 2;
  client_sock = 5;
}

abbrev first_client : Thread
first_client = record { sock = 4; counter = 0; msg = replicate 20 0 }

abbrev second_client : Thread
second_client = record { sock = 5; counter = 0; msg = replicate 20 0 }

not_zero : (n : ℕ) → suc n ≢ 0
not_zero n = omega arith

request : IsRequest server (codes "n1" ∷ []) [] (codes "n2") b'.' (codes "ls")
unfolding has_prefix start_server
request = record {
  named = refl;
  others = (refl, tt);
  bytes = ground arith;
  connected = not_zero 4;
  no_nodes = refl;
  no_star = refl;
  idle = (refl, refl);
}

answer : IsAnswer (codes "a.out") second_client
unfolding has_prefix
answer = (ground arith, omega arith, refl)

request-answer_example :
    (s' : Server) × (t' : Thread) × (u' : Thread) × (receives server first_client
        (b'c' ∷ b' ' ∷ (codes "n2" ++ b'.' ∷ codes "ls"))
      ≡ some (s', t', sends (get_or server.client_fds 1 0) (codes "ls" ++ 0 ∷ []) ∷ []))
    × (receives s' second_client (codes "a.out") ≡ some (server, u', sends 4 (codes "a.out") ∷ []))
request-answer_example =
    request-answer server first_client second_client (codes "n1" ∷ []) [] (codes "n2") b'.' b'c'
      b' ' (codes "ls") (codes "a.out") request (omega arith) answer

broadcast : IsBroadcast server first_client b'c' b' ' b'l' (codes "s")
unfolding has_prefix start_server
broadcast = record {
  others = (refl, (refl, tt));
  bytes = ground arith;
  fits = omega arith;
  idle = (refl, refl);
}

both-HasAccepted : HasAccepted server (4 ∷ 5 ∷ []) (replicate 198 0)
both-HasAccepted = record { table = refl; count = refl }

broadcast-dropped_example :
    (s' : Server) × (t' : Thread) × (u' : Thread) × (receives server first_client
        (b'c' ∷ b' ' ∷ (codes "n*." ++ b'l' ∷ codes "s"))
      ≡ some (s', t', sends 4 (codes "ls") ∷ sends 5 (codes "ls") ∷ []))
    × (receives s' second_client (codes "a.out") ≡ some (server, u', []))
broadcast-dropped_example =
    broadcast-dropped server first_client second_client b'c' b' ' b'l' (codes "s") (codes "a.out")
      (4 ∷ 5 ∷ []) (replicate 198 0) broadcast both-HasAccepted refl answer

abbrev one_client : Server
one_client = record {
  nodes = nodes;
  client_list = record { fd = 3; num = 0; client_addr = 1 } ∷ [];
  client_fds = set (replicate 200 0) 0 4;
  n = 1;
  client_sock = 4;
  send_to_fd = none;
  send_to_fd_star = none;
}

accepted : accepts (start_server nodes) 3 4 1 ≡ some one_client
unfolding accepts start_server
accepted = refl

not_empty : (x : ℕ) (xs : List ℕ) → x ∷ xs ≢ []
not_empty x xs e = cc

-- A client that comes and leaves.
run : Run 3 nodes (4 ∷ []) (leaves one_client (starts one_client (replicate 20 0))) []
run =
    ends (starts one_client (replicate 20 0)) [] []
      (makes (gets begins 4 1 (omega arith) accepted) (replicate 20 0) (not_empty 4 []))

Run-stays_example :
    let s = leaves one_client (starts one_client (replicate 20 0)) in
    (take s.n s.client_fds ≡ 4 ∷ [])
    × (length s.client_list ≡ length {A = ℕ} (4 ∷ []))
    × All (λ c. c.fd ≡ 3) s.client_list
Run-stays_example =
    Run-stays 3 nodes (4 ∷ []) (leaves one_client (starts one_client (replicate 20 0))) [] run
