-- ===== src/SelectiveRepeat/Client.antt =====
-- FileTransfer-Selective-Repeat/client.c: `connection_loop`. What stands in the missing utils.h is
-- a parameter: the packets, `get_next_chunk`, `PACKET_SIZE` and `NUM_CHANNELS`. How often a `poll`
-- times out and what is received are arguments; the calls on sockets succeed.
pub mod Slices
use network_programming_c.Prelude.{
  ℕ, zero, suc, ◌+◌, ◌-◌, ◌%◌, ◌^◌, Bool, true, false, ◌&&◌, Option, none, some, List, [], ◌∷◌,
  ◌++◌, map, replicate, get_or, set, ltb, ◌==◌, if◌then◌else◌, codes,
}
use network_programming_c.StopAndWait.Packets.{strncpy}
use network_programming_c.SelectiveRepeat.{Wire}

-- What `get_next_chunk` gives: the buffer, the size, and whether it sets `is_eof`.
pub record Chunk : Type 0 where
  pub buffer : List ℕ
  pub size : ℕ
  pub eof : Bool

-- A packet of its fields `size`, `seq_no`, `is_last`, `type`, `channel_id` and its data, the packet
-- of zeros, the type of a packet, the file behind a chunk, and the two numbers.
pub record Utils (File Packet : Type 0) : Type 0 where
  pub make : ℕ → ℕ → ℕ → ℕ → ℕ → List ℕ → Packet
  pub zeros : Packet
  pub type_of : Packet → ℕ
  pub get_next_chunk : File → File × Chunk
  pub packet_size : ℕ
  pub num_channels : ℕ

-- `none` stands for the -1 of `eof_seq_no` and of `last_packet`.
pub record Client (File Packet : Type 0) : Type 0 where
  pub fp : File
  pub seq_no : ℕ
  pub eof_seq_no : Option ℕ
  pub payload_size : ℕ
  pub tmp : List Packet
  pub last_packet : Option ℕ
  pub is_eof : Bool

-- What the network does in a round: at each channel, how often the poll times out, and the packet
-- that is received; and the same for the final packet.
pub record Network (Packet : Type 0) : Type 0 where
  pub timeouts : ℕ → ℕ
  pub answers : ℕ → Packet
  pub fin_timeouts : ℕ

-- The number is the one of the end of the file.
abbrev pub is_end : Option ℕ → ℕ → Bool
is_end none n = n == 2 ^ 64 - 1
is_end (some e) n = n == e

-- `last_packet != -1 && i > last_packet`.
abbrev pub behind_last : Option ℕ → ℕ → Bool
behind_last none i = false
behind_last (some l) i = ltb l i

module _ {File Packet : Type 0} (w : Wire Packet) (u : Utils File Packet) where
  abbrev pub Round : Type 0
  Round = Client File Packet × List (ℕ × Packet)

  -- The loop that sends a packet on each channel, from channel `i` on.
  unfoldable pub send_from : ℕ → ℕ → Client File Packet → Round
  send_from zero i c = (c, [])
  send_from (suc left) i c =
      let (fp, chunk) = u.get_next_chunk c.fp in
      let p : Packet =
        u.make (w.htonll chunk.size) (w.htonll c.seq_no) 0 0 i
          (strncpy u.packet_size chunk.buffer) in
      let c1 : Client File Packet = record {
        fp = fp;
        seq_no = (c.seq_no + w.ntohll (w.size p)) % 2 ^ 64;
        eof_seq_no = if chunk.eof then some c.seq_no else c.eof_seq_no;
        payload_size = chunk.size;
        tmp = set c.tmp i p;
        last_packet = c.last_packet;
        is_eof = false;
      } in
      let (c2, sent) = send_from left (i + 1) c1 in
      if w.ntohll (w.size p) == 0
      then (record c1 { last_packet = some i }, (i, p) ∷ [])
      else (c2, (i, p) ∷ sent)

  -- The loop that waits for the channels, from channel `i` on, with what it sends again.
  unfoldable pub await_from : ℕ → ℕ → Network Packet → Client File Packet → Round
  await_from zero i n c = (c, [])
  await_from (suc left) i n c =
      let answer : Packet = n.answers i in
      let again : List (ℕ × Packet) = replicate (n.timeouts i) (i, get_or c.tmp i u.zeros) in
      let c1 : Client File Packet = record c {
        is_eof =
            if u.type_of answer == 1 && is_end c.eof_seq_no (w.ntohll (w.seq_no answer))
            then true
            else c.is_eof;
      } in
      let (c2, sent) = await_from left (i + 1) n c1 in
      if behind_last c.last_packet i then (c, []) else (c2, again ++ sent)

  -- The final packet, and the times that it is sent.
  unfoldable pub fin_packet : Client File Packet → Packet
  fin_packet c =
      u.make (w.htonll c.payload_size) (w.htonll c.seq_no) 1 1 0
        (strncpy u.packet_size (codes "exit"))

  unfoldable pub finish : Network Packet → Client File Packet → Round
  unfolding fin_packet
  finish n c =
      let p : Packet = fin_packet c in
      (
        record c { seq_no = (c.seq_no + w.ntohll (w.size p)) % 2 ^ 64 },
        replicate (suc n.fin_timeouts) (0, p),
      )

  -- While the end of the file is not known.
  unfoldable pub send_phase : Option ℕ → Client File Packet → Round
  send_phase none c = send_from u.num_channels 0 c
  send_phase (some e) c = (c, [])

  -- The body of the loop: what is sent of the file, and then the final packet, where it is sent.
  unfoldable pub round :
      Network Packet
      → Client File Packet
      → Client File Packet × List (ℕ × Packet) × List (ℕ × Packet)
  unfolding send_phase await_from finish
  round n c =
      let (c1, sent) = send_phase c.eof_seq_no c in
      let (c2, again) = await_from u.num_channels 0 n c1 in
      let (c3, fin) = finish n c2 in
      if c2.is_eof then (c3, sent ++ again, fin) else (c2, sent ++ again, [])

  abbrev pub init_client : File → Client File Packet
  init_client fp = record {
    fp = fp;
    seq_no = 0;
    eof_seq_no = none;
    payload_size = 0;
    tmp = replicate u.num_channels u.zeros;
    last_packet = none;
    is_eof = false;
  }

  -- The loop, for the rounds of the network, with the packets of the file and the final ones.
  unfoldable pub connection_loop :
      List (Network Packet)
      → Client File Packet
      → Client File Packet × List (ℕ × Packet) × List (ℕ × Packet)
  unfolding round
  connection_loop [] c = (c, [], [])
  connection_loop (n ∷ ns) c =
      let (c1, sent, fin) = round n c in
      let (c2, more, fins) = connection_loop ns c1 in
      if c.is_eof then (c, [], []) else (c2, sent ++ more, fin ++ fins)
