-- ===== src/StopAndWait/Tests.antt =====
-- Runs of N-Channel-StopNWait on small files, and the theorems at concrete inputs.
use network_programming_c.Prelude.{
  none, ◌++◌, ℕ, zero, suc, ◌≡◌, ◌<◌, inl, inr, refl, Bool, true, false, some, List, [], ◌∷◌, codes,
  arith, All, length,
}
use network_programming_c.StopAndWait.Loop.{serve_rounds}
use network_programming_c.StopAndWait.Loop.Rounds.{Round, all_arrivals, serve_rounds-content}
use network_programming_c.StopAndWait.Bytes.{htonll, ntohll}
use network_programming_c.StopAndWait.Packets.{Packet, header, NonZero}
use network_programming_c.StopAndWait.Chunks.Content.{trim}
use network_programming_c.StopAndWait.Server.{Server, fresh_server}
use network_programming_c.StopAndWait.Server.Delivery.{IsSlice, Covered}
use network_programming_c.StopAndWait.Client.{Client, init_client}
use network_programming_c.StopAndWait.Transfer.{transfer}
use network_programming_c.StopAndWait.Transfer.Correct.{transfer-file}

abbrev text : List ℕ
text = codes "hello world"

abbrev once : ℕ → ℕ → ℕ
once r i = 1

text-NonZero : NonZero text
text-NonZero = ground arith

transfer-file_example :
    (c : Client) × (s : Server) × (transfer 5 3 12 once (init_client 3 text) fresh_server
      ≡ some (c, s))
    × (c.is_eof ≡ true)
    × (s.file ≡ trim 5 text)
transfer-file_example =
    transfer-file 5 3 once text (omega arith) (omega arith) text-NonZero (omega arith)

-- The last chunk is one byte, and that byte is lost.
trim_test : trim 5 text ≡ codes "hello worl"
trim_test = refl

abbrev packet_a : Packet
packet_a = record { header = header (htonll 1) (htonll 0) 0 0 0; payload = codes "a" }

abbrev packet_bc : Packet
packet_bc = record { header = header (htonll 2) (htonll 1) 0 0 1; payload = codes "bc" }

-- The first packet is dropped, comes again behind the second, and comes twice.
abbrev disorder : List (Bool × Packet)
disorder = (true, packet_a) ∷ (false, packet_bc) ∷ (false, packet_a) ∷ (false, packet_a) ∷ []

disorder-IsSlice : All (λ d. IsSlice (codes "abc") d.1) disorder
unfolding htonll ntohll
disorder-IsSlice = ground arith

disorder-Covered : (i : ℕ) → i < length (codes "abc") → Covered disorder i
unfolding htonll ntohll
disorder-Covered zero h = inr (inr (inl (refl, omega arith, omega arith)))
disorder-Covered (suc zero) h = inr (inl (refl, omega arith, omega arith))
disorder-Covered (suc (suc zero)) h = inr (inl (refl, omega arith, omega arith))
disorder-Covered (suc (suc (suc i))) h = absurd (omega arith)

abbrev two_rounds : List Round
two_rounds =
    (some (true, packet_a) ∷ none ∷ some (false, packet_bc) ∷ [])
    ∷ (some (false, packet_a) ∷ some (false, packet_a) ∷ [])
    ∷ []

abbrev last_packet : Packet
last_packet = record packet_a { header = record (packet_a.header) { is_last = 1 } }

serve_rounds-content_example :
    (s : Server) × (serve_rounds
        (all_arrivals two_rounds ++ (some (some last_packet, false, true) ∷ []) ∷ [])
        fresh_server
      ≡ some s)
    × (s.file ≡ codes "abc")
serve_rounds-content_example =
    serve_rounds-content (codes "abc") two_rounds last_packet [] disorder-IsSlice disorder-Covered
      refl
