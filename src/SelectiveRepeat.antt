-- ===== src/SelectiveRepeat.antt =====
-- FileTransfer-Selective-Repeat: server.c and relays.c; the child module Client is client.c. Their
-- utils.h is not in the repository, so the packets, `ntohll` and `htonll` are parameters, and so is
-- `NUM_CHANNELS`, which is the number of the channels of a round. An address is a number. `select` and
-- the calls on sockets succeed; their answers are arguments.
pub mod Rounds
pub mod Content
pub mod Closing
pub mod Client
pub mod Delivered
mod ClientTests
mod Tests
use network_programming_c.Prelude.{
  ℕ, suc, ◌+◌, Bool, true, false, ◌≡◌, Option, none, some, List, [], ◌∷◌, ◌++◌, take, ltb, ◌==◌,
  if◌then◌else◌,
}
use network_programming_c.StopAndWait.Server.{write_at}

-- What the programs do with a packet: the fields that they read, as they go over the wire, and the
-- packet with another sequence number, or with the type of an acknowledgement.
pub record Wire (Packet : Type 0) : Type 0 where
  pub size : Packet → ℕ
  pub seq_no : Packet → ℕ
  pub is_last : Packet → ℕ
  pub payload : Packet → List ℕ
  pub with_seq_no : ℕ → Packet → Packet
  pub with_ack : Packet → Packet
  pub htonll : ℕ → ℕ
  pub ntohll : ℕ → ℕ

-- The output file and `last_seq_no` of the server.
pub record Server : Type 0 where
  pub file : List ℕ
  pub last_seq_no : ℕ

abbrev pub fresh_server : Server
fresh_server = record { file = []; last_seq_no = 0 }

-- What a relay keeps: the addresses that it has received from last, and `is_last` of its loop.
pub record Relay : Type 0 where
  pub dst_addr : ℕ
  pub cli_addr : ℕ
  pub last_seq_no : ℕ
  pub is_last : ℕ

-- A packet that is sent: to the server, or through the socket of a channel to a client.
pub data Sent (Packet : Type 0) : Type 0 where
  to_server : ℕ → Packet → Sent Packet
  to_client : ℕ → ℕ → Packet → Sent Packet

-- A packet of a client: its address, the packet, and whether the relay drops it.
pub record Arrival (Packet : Type 0) : Type 0 where
  pub from : ℕ
  pub packet : Packet
  pub drops : Bool

-- What there is to read after a `select`: an answer of the server, with its address and the relay
-- that `rand` chooses, and at each channel a packet or nothing.
pub record Round (Packet : Type 0) : Type 0 where
  pub answer : Option (ℕ × Packet × ℕ)
  pub channels : List (Option (Arrival Packet))

module _ {Packet : Type 0} (w : Wire Packet) where
  -- The body of the loop of the server, with the acknowledgement.
  unfoldable pub serve : Packet → Server → Server × Packet
  serve p s =
      let seq_no : ℕ = w.ntohll (w.seq_no p) in
      let pkt_size : ℕ = w.ntohll (w.size p) in
      (
        record {
          file =
              if w.is_last p == 1
              then s.file
              else write_at s.file seq_no (take pkt_size (w.payload p));
          last_seq_no = if ltb s.last_seq_no seq_no then seq_no else s.last_seq_no;
        },
        w.with_ack (w.with_seq_no (w.htonll seq_no) p),
      )

  -- The loop. Its condition reads an `is_last` that nothing writes.
  unfoldable pub serve_all : List Packet → Server → Server × List Packet
  unfolding serve
  serve_all [] s = (s, [])
  serve_all (p ∷ ps) s =
      let (s1, ack) = serve p s in let (s2, acks) = serve_all ps s1 in (s2, ack ∷ acks)

  -- An answer of the server goes to the client whose packet came last.
  unfoldable pub relay_answer : Option (ℕ × Packet × ℕ) → Relay → Relay × List (Sent Packet)
  relay_answer none r = (r, [])
  relay_answer (some (from, p, relay_no)) r = (
    record r { dst_addr = from; is_last = w.is_last p },
    to_client relay_no r.cli_addr (w.with_ack (w.with_seq_no (w.seq_no p) p)) ∷ [],
  )

  -- The packet of a client at one channel.
  unfoldable pub relay_packet : Arrival Packet → Relay → Relay × List (Sent Packet)
  relay_packet a r = if a.drops then (record r { cli_addr = a.from }, []) else (
    record r {
      cli_addr = a.from;
      is_last = w.is_last a.packet;
      last_seq_no =
          if ltb r.last_seq_no (w.ntohll (w.seq_no a.packet))
          then w.ntohll (w.seq_no a.packet)
          else r.last_seq_no;
    },
    to_server r.dst_addr a.packet ∷ [],
  )

  -- The loop over the channels.
  unfoldable pub relay_channels :
      List (Option (Arrival Packet)) → Relay → Relay × List (Sent Packet)
  unfolding relay_packet
  relay_channels [] r = (r, [])
  relay_channels (none ∷ channels) r = relay_channels channels r
  relay_channels (some a ∷ channels) r =
      let (r1, sent) = relay_packet a r in
      let (r2, more) = relay_channels channels r1 in (r2, sent ++ more)

  -- The body of the loop of `main`.
  unfoldable pub relay_round : Round Packet → Relay → Relay × List (Sent Packet)
  unfolding relay_answer relay_channels
  relay_round round r =
      let (r1, sent) = relay_answer round.answer r in
      let (r2, more) = relay_channels round.channels r1 in (r2, sent ++ more)

  -- The loop, for the rounds of `select`. It ends with `is_last`; with no more rounds it waits.
  unfoldable pub relay_rounds : List (Round Packet) → Relay → Relay × List (Sent Packet)
  unfolding relay_round
  relay_rounds [] r = (r, [])
  relay_rounds (round ∷ rounds) r =
      let (r1, sent) = relay_round round r in
      let (r2, more) = relay_rounds rounds r1 in
      if r.is_last == 1 then (r, []) else (r2, sent ++ more)
