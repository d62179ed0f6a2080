-- ===== src/StopAndWait/Loop.antt =====
-- N-Channel-StopNWait/server.c: the loop of `main` over the channels. `select` and `accept`
-- succeed.
pub mod Rounds
use network_programming_c.Prelude.{
  ℕ, Bool, true, false, ◌||◌, Option, none, some, ◌>>=◌, List, [], ◌∷◌, ◌==◌, if◌then◌else◌,
}
use network_programming_c.StopAndWait.Packets.{Packet}
use network_programming_c.StopAndWait.Server.{Server, exits, returns, serve_connection}

-- What there is to read on a channel: the arguments of `serve_connection`.
abbrev pub Arrival : Type 0
Arrival = Option Packet × Bool × Bool

-- The loop that accepts a socket for each channel. A socket is kept where the channel has none.
unfoldable pub new_connections : List ℕ → List ℕ → List ℕ
new_connections [] incoming = []
new_connections (fd ∷ sockfd) [] = fd ∷ sockfd
new_connections (fd ∷ sockfd) (new ∷ incoming) =
    (if fd == 0 then new else fd) ∷ new_connections sockfd incoming

-- The loop over the channels, with `is_last`. `none` is the end of the program.
unfoldable pub serve_channels : List (Option Arrival) → Server → Bool → Option (Server × Bool)
serve_channels [] s is_last = some (s, is_last)
serve_channels (none ∷ channels) s is_last = serve_channels channels s is_last
serve_channels (some (p, drop, sent) ∷ channels) s is_last = elim (serve_connection p drop sent s) [
  | exits ↦ none
  | returns s' reply last ↦ serve_channels channels s' (is_last || (last == 1))
]

-- The loop of `main`, for the rounds of `select`. With no more of them the server waits.
unfoldable pub serve_rounds : List (List (Option Arrival)) → Server → Option Server
unfolding serve_channels
serve_rounds [] s = some s
serve_rounds (round ∷ rounds) s = serve_channels round s false >>= λ (s', is_last).
    if is_last then some s' else serve_rounds rounds s'
