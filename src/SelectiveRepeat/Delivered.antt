-- ===== src/SelectiveRepeat/Delivered.antt =====
-- FileTransfer-Selective-Repeat/client.c, relays.c and server.c: from the file of a client to the
-- file of the server.
use network_programming_c.Prelude.{
  ℕ, ◌<◌, ◌^◌, ◌≡◌, subst, inl, inr, false, List, [], ◌∷◌, length, ◌==◌, All, Has,
}
use network_programming_c.SelectiveRepeat.{
  Wire, fresh_server, Relay, Round, serve_all, relay_rounds,
}
use network_programming_c.SelectiveRepeat.Rounds.{forwarded, all_kept, RoundGoes}
use network_programming_c.SelectiveRepeat.Content.{IsSlice, Covered, relayed-content}
use network_programming_c.SelectiveRepeat.Client.{Utils, Network, init_client, connection_loop}
use network_programming_c.SelectiveRepeat.Client.Slices.{IsUtils, Reads, connection_loop-IsSlice}

-- The packets that are sent, without their channels.
abbrev pub packets_of : {Packet : Type 0} → List (ℕ × Packet) → List Packet
packets_of [] = []
packets_of ((i, p) ∷ sent) = p ∷ packets_of sent

-- Every packet of the one list is in the other.
abbrev pub From : {Packet : Type 0} → List Packet → List Packet → Type 0
From sent [] = Unit
From sent (p ∷ ps) = Has p sent × From sent ps

module _ {Packet : Type 0} (P : Packet → Type 0) where
  All-Has :
      (sent : List (ℕ × Packet)) (p : Packet)
      → All (λ (i, q). P q) sent
      → Has p (packets_of sent)
      → P p
  All-Has [] p a h = absurd h
  All-Has ((i, q) ∷ sent) p a (inl e) = subst P e a.0
  All-Has ((i, q) ∷ sent) p a (inr h) = All-Has sent p a.1 h

  All-From :
      (sent : List (ℕ × Packet)) (ps : List Packet)
      → All (λ (i, q). P q) sent
      → From (packets_of sent) ps
      → All P ps
  All-From sent [] a f = tt
  All-From sent (p ∷ ps) a f = (All-Has sent p a f.0, All-From sent ps a f.1)

-- A client sends a file of fewer than `2 ^ 64` bytes over a network that does anything, and
-- `get_next_chunk` reads this file piece by piece. A relay gets packets that the client has sent of
-- its file, in any order, any number of times, and drops any of them; answers of the server come in
-- between, and no packet ends the transfer. As soon as each byte of the file is in a packet that
-- the relay does not drop, the server has exactly the file of the client.
pub delivered :
    {File Packet : Type 0} (w : Wire Packet) (u : Utils File Packet) (content : List ℕ)
    (At : File → ℕ → Type 0) (fp : File) (ns : List (Network Packet)) (rounds : List (Round Packet))
    (r : Relay)
    → IsUtils w u
    → Reads u content At
    → length content < 2 ^ 64
    → At fp 0
    → From (packets_of (connection_loop w u ns (init_client w u fp)).1) (all_kept rounds)
    → All (RoundGoes w) rounds
    → (r.is_last == 1) ≡ false
    → ((i : ℕ) → i < length content → Covered w (all_kept rounds) i)
    → (serve_all w (forwarded (relay_rounds w rounds r).1) fresh_server).0.file ≡ content
delivered w u content At fp ns rounds r laws reads small at from goes on cover =
    let (slices, final) = connection_loop-IsSlice w u content At laws reads small fp ns at in
    relayed-content w content rounds r goes on
      (All-From (IsSlice w content) (connection_loop w u ns (init_client w u fp)).1
        (all_kept rounds) slices from)
      cover
