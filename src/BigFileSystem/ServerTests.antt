-- ===== src/BigFileSystem/ServerTests.antt =====
-- The theorems on the tables of connections at concrete inputs.
use network_programming_c.Prelude.{Adds, ℕ, ◌≡◌, ◌==◌, refl, Bool, some, [], ◌∷◌, replicate, arith}
use network_programming_c.BigFileSystem.Connections.{
  Connections, connects, watched, name_server_round, data_server_round,
}
use network_programming_c.BigFileSystem.Connections.Lost.{table, data_server-watched}
use network_programming_c.BigFileSystem.Connections.Watched.{IsTable, keep, name_server-watched}

abbrev three_clients : Connections
three_clients = record { client_fds = 4 ∷ 0 ∷ 6 ∷ replicate 1021 0; connectcnt = 3 }

three_clients-IsTable : IsTable three_clients
three_clients-IsTable = record {
  used = 4 ∷ 0 ∷ 6 ∷ [];
  free = 1021;
  entries = refl;
  count = refl;
  size = omega arith;
}

abbrev gone : ℕ → Bool
gone fd = fd == 4

name_server-watched_example :
    ((t' : Connections) × (connects three_clients 5 ≡ some t')
      × IsTable t'
      × Adds 5 (watched three_clients) (watched t'))
    × (IsTable (name_server_round gone three_clients)
        × (watched (name_server_round gone three_clients) ≡ keep gone (watched three_clients)))
name_server-watched_example =
    name_server-watched three_clients 5 gone three_clients-IsTable (omega arith) (omega arith)

-- The clients 4, 5, 6 and 7, of which 5 leaves.
abbrev second_gone : ℕ → Bool
second_gone fd = fd == 5

data_server-watched_example :
    (watched (table (4 ∷ []) 5 (6 ∷ []) 7 (replicate 10 0)) ≡ 4 ∷ 5 ∷ 6 ∷ 7 ∷ [])
    × (watched (data_server_round second_gone (table (4 ∷ []) 5 (6 ∷ []) 7 (replicate 10 0)))
        ≡ 4 ∷ 6 ∷ [])
data_server-watched_example =
    data_server-watched second_gone (4 ∷ []) (6 ∷ []) (replicate 10 0) 5 7 (ground arith) refl
      (omega arith) (ground arith) (omega arith)
