-- ===== src/StopAndWait/Transfer.antt =====
-- The client and the server of N-Channel-StopNWait together. The network is prompt: a poll times
-- out only where the server dropped the packet.
pub mod Steps
pub mod Rounds
pub mod Phase
pub mod Slices
pub mod Correct
use network_programming_c.Prelude.{
  ℕ, zero, suc, Bool, true, false, Option, none, some, List, [], ◌∷◌, if◌then◌else◌, ◌>>=◌,
}
use network_programming_c.StopAndWait.Packets.{Packet}
use network_programming_c.StopAndWait.Server.{Server, Served, exits, returns, serve_connection}
use network_programming_c.StopAndWait.Client.{
  Client, Reply, reply, fails, fin_packet, send_phase, await_from, finish,
}

-- `drops` copies of a packet are dropped, and the next one is served.
unfoldable pub exchange : ℕ → Packet → Server → Option (Server × Packet)
unfolding serve_connection
exchange zero p s = elim (serve_connection (some p) false true s) [
  | exits ↦ none
  | returns s' none l ↦ none
  | returns s' (some q) l ↦ some (s', q)
]
exchange (suc drops) p s = elim (serve_connection (some p) true true s) [
  | exits ↦ none
  | returns s' q l ↦ exchange drops p s'
]

-- The packets of a round in the order of the channels, with the replies that the client reads.
unfoldable pub deliver : (ℕ → ℕ) → ℕ → List Packet → Server → Option (Server × List Reply)
unfolding exchange
deliver drops i [] s = some (s, [])
deliver drops i (p ∷ ps) s = do
  (s', q) ← exchange (drops i) p s
  (s'', rs) ← deliver drops (suc i) ps s'
  some (s'', reply (drops i) q ∷ rs)

module _ (packet_size channels : ℕ) where
  -- Both programs up to the end of `connection_loop`, in at most `rounds` rounds. `drops r i` is
  -- how often the server drops on channel `i`, `r` rounds before the bound; the last packet is
  -- dropped as often as the next channel's would be.
  unfoldable pub transfer : ℕ → (ℕ → ℕ → ℕ) → Client → Server → Option (Client × Server)
  unfolding send_phase deliver await_from finish exchange
  transfer zero drops c s = none
  transfer (suc rounds) drops c s = do
    (c1, ps) ← send_phase packet_size channels (λ _. true) c
    (s1, rs) ← deliver (drops rounds) 0 ps s
    (c2, _) ← await_from 0 rs c1
    elim c2.is_eof [
      | true ↦ do
        (s2, q) ← exchange (drops rounds channels) (fin_packet c2) s1
        (c3, _) ← finish (reply (drops rounds channels) q) c2
        some (c3, s2)
      | false ↦ transfer rounds drops c2 s1
    ]
