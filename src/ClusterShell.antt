-- ===== src/ClusterShell.antt =====
-- ClusterShell/clustershell_server.c: the list of clients, `addClient` and `removeClient`. The
-- address of a client is a number. The child modules are the configuration, the
-- relay, and the client of a node.
pub mod Lookup
pub mod Config
pub mod Relay
pub mod Node
mod NodeTests
mod RelayTests
use network_programming_c.Prelude.{ℕ, List, [], ◌∷◌, ◌==◌, if◌then◌else◌}

pub record Client : Type 0 where
  pub fd : ℕ
  pub num : ℕ
  pub client_addr : ℕ

-- The new client is the head, whether the list is empty or not. `num_clients` is a global.
abbrev pub add_client : ℕ → List Client → ℕ → ℕ → List Client
add_client num_clients head fd addr =
    record { fd = fd; num = num_clients; client_addr = addr } ∷ head

-- The loop over `temp->next`, from behind the node `temp`.
unfoldable pub remove_behind : List Client → ℕ → List Client
remove_behind [] removefd = []
remove_behind (c ∷ cs) removefd = if c.fd == removefd then cs else c ∷ remove_behind cs removefd

unfoldable pub remove_client : List Client → ℕ → List Client
unfolding remove_behind
remove_client [] removefd = []
remove_client (c ∷ []) removefd = if c.fd == removefd then [] else c ∷ []
remove_client (c ∷ d ∷ cs) removefd =
    if c.fd == removefd then d ∷ cs else c ∷ remove_behind (d ∷ cs) removefd
