-- ===== src/ClusterShell/NodeTests.antt =====
-- The theorems on the client of a node at concrete inputs.
use network_programming_c.Prelude.{
  ℕ, ◌≡◌, refl, false, some, List, [], ◌∷◌, ◌++◌, replicate, codes, has_prefix, arith, str_eq,
  Yields,
}
use network_programming_c.MyShell.Lines.{newline}
use network_programming_c.MyShell.Builtin.{builtin}
use network_programming_c.MyShell.Args.{strings_fit}
use network_programming_c.ClusterShell.Relay.{Server, Thread, receives}
use network_programming_c.ClusterShell.Relay
use network_programming_c.ClusterShell.Relay.Replies.{IsRequest, IsAnswer}
use network_programming_c.ClusterShell.Relay.Runs.{start_server}
use network_programming_c.ClusterShell.Node
use network_programming_c.ClusterShell.Node.{launches, console, hears, repl}
use network_programming_c.ClusterShell.Node.Pipeline.{StartsNothing, repl-pipe}
use network_programming_c.ClusterShell.Node.Remote.{idle, IsProgram, node_name, remote-program}

-- The allocator gives 24 bytes at least.
abbrev usable : ℕ → ℕ
usable n = 24

repl-pipe_example :
    Yields StartsNothing (repl usable (codes "/home") idle (codes "ls | wc" ++ newline ∷ []))
unfolding Node.split_args strings_fit Node.args_from Node.args_step str_eq
repl-pipe_example =
    repl-pipe usable (codes "/home") idle (codes "ls | wc") refl (ground arith) (ground arith)
      (omega arith) refl

abbrev server : Server
server = record (start_server (codes "n1" ∷ codes "n2" ∷ [])) {
  client_fds = 4 ∷ 5 ∷ replicate 198 0;
  n = 2;
  client_sock = 5;
}

abbrev thread : ℕ → Thread
thread fd = record { sock = fd; counter = 0; msg = replicate 20 0 }

request :
    IsRequest server (codes "n1" ∷ []) [] (node_name b'2') b'.' (codes "ls -l" ++ newline ∷ [])
unfolding has_prefix start_server
request = record {
  named = refl;
  others = (refl, tt);
  bytes = ground arith;
  connected = ground arith;
  no_nodes = refl;
  no_star = refl;
  idle = (refl, refl);
}

program : IsProgram usable (codes "/home") (codes "ls") ((0, codes "-l") ∷ [])
unfolding str_eq builtin
program = record {
  room = refl;
  first_word = (refl, (refl, tt));
  other_words = (((refl, (refl, tt)), λ e. cc), tt);
  bytes = ground arith;
  no_exit = refl;
  own = refl;
  no_pipe = (refl, (refl, tt));
  foreground = refl;
}

answer : IsAnswer (codes "total 0") (thread 5)
unfolding has_prefix
answer = (ground arith, omega arith, refl)

remote-program_example :
    (msg : List ℕ) × (order : List ℕ) × (s' : Server) × (t' : Thread) × (u' : Thread) × (console
        usable
        (codes "1")
        (codes "/root")
        idle
        (codes "n2.ls -l" ++ newline ∷ [])
      ≡ some (idle, Node.sends msg))
    × (receives server (thread 4) msg ≡ some (s', t', Relay.sends 5 order ∷ []))
    × (hears usable (codes "/home") idle order
        ≡ some (idle, launches false (codes "ls" ∷ codes "-l" ∷ [])))
    × (receives s' (thread 5) (codes "total 0")
        ≡ some (server, u', Relay.sends 4 (codes "total 0") ∷ []))
remote-program_example =
    remote-program usable (codes "/root") (codes "/home") idle server (thread 4) (thread 5)
      (codes "n1" ∷ []) [] b'1' b'2' (codes "ls") ((0, codes "-l") ∷ []) (codes "total 0") request
      (omega arith) (omega arith) program answer
