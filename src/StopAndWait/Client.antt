-- ===== src/StopAndWait/Client.antt =====
-- N-Channel-StopNWait/client.c: `connection_loop`, cut at the points where it waits for the
-- network. FileTransfer-Selective-Repeat/client.c has the same loop over `sendto` and `recvfrom`.
use network_programming_c.Prelude.{
  ℕ, zero, suc, ◌+◌, ◌%◌, ◌^◌, Bool, true, false, ◌&&◌, Option, none, some, List, [], ◌∷◌, ◌++◌,
  ltb, ◌==◌, if◌then◌else◌, ◌>>=◌, codes, get_or, set, replicate,
}
use network_programming_c.StopAndWait.Bytes.{htonll, ntohll}
use network_programming_c.StopAndWait.Packets.{Packet, header, strncpy}
use network_programming_c.StopAndWait.Chunks.{Chunk, get_next_chunk}

-- The variables of `connection_loop`. `fp` is the unread part of the input file.
pub record Client : Type 0 where
  pub fp : List ℕ
  pub is_eof : Bool
  pub payload_size : ℕ
  pub seq_no : ℕ
  pub eof_seq_no : ℕ
  pub tmp : List Packet
  pub last_packet : Option ℕ

-- `(uint64_t) -1`, which stands for "no end of file yet".
abbrev pub no_eof : ℕ
no_eof = 0xffffffffffffffff

abbrev pub zero_packet : Packet
zero_packet = record { header = header 0 0 0 0 0; payload = [] }

unfoldable pub data_packet : Chunk → ℕ → ℕ → ℕ → Packet
data_packet ch packet_size i seq_no = record {
  header = header (htonll ch.payload_size) (htonll seq_no) 0 0 (i % 256);
  payload = strncpy packet_size ch.buffer;
}

unfoldable pub fin_packet : Client → Packet
fin_packet c = record {
  header = header (htonll c.payload_size) (htonll c.seq_no) 1 1 0;
  payload = codes "exit" ++ 0 ∷ [];
}

-- What the network does to one wait: so many polls time out before a packet can be read, or a
-- call fails.
pub data Reply : Type 0 where
  reply : ℕ → Packet → Reply
  fails : Reply

-- A reply that is an ACK of the sequence number at which the file ended.
unfoldable pub acks_eof : Client → Packet → Bool
acks_eof c p = p.header.type == 1 && ntohll p.header.seq_no == c.eof_seq_no

unfoldable pub take_ack : Client → Packet → Client
unfolding acks_eof
take_ack c p = record c { is_eof = if acks_eof c p then true else c.is_eof }

-- `last_packet != -1 && i > last_packet`.
unfoldable pub past_last : Option ℕ → ℕ → Bool
past_last none i = false
past_last (some l) i = ltb l i

unfoldable pub init_client : ℕ → List ℕ → Client
init_client channels input = record {
  fp = input;
  is_eof = false;
  payload_size = 0;
  seq_no = 0;
  eof_seq_no = no_eof;
  tmp = replicate channels zero_packet;
  last_packet = none;
}

-- `packet_size` is `PACKET_SIZE`, which is also the chunk size.
module _ (packet_size : ℕ) where
  -- The body of the sending loop up to its `break`, for channel `i`.
  unfoldable pub send_one : ℕ → Client → Client × Packet
  unfolding data_packet
  send_one i c =
      let ch = get_next_chunk c.fp packet_size in
      let p = data_packet ch packet_size i c.seq_no in
      (
        record c {
          fp = ch.rest;
          payload_size = ch.payload_size;
          eof_seq_no = if ch.eof then c.seq_no else c.eof_seq_no;
          tmp = set c.tmp i p;
          seq_no = (c.seq_no + ntohll p.header.size) % 2 ^ 64;
        },
        p,
      )

  -- The loop over the channels from `i` on, of which `n` are left. `sent i` says whether the write
  -- on channel `i` succeeds.
  unfoldable pub send_from : (ℕ → Bool) → ℕ → ℕ → Client → Option (Client × List Packet)
  send_from sent zero i c = some (c, [])
  send_from sent (suc n) i c =
      let (c', p) = send_one i c in
      let rest = send_from sent n (suc i) c' in
      if sent i
      then (if ntohll p.header.size == 0
          then some (record c' { last_packet = some i }, p ∷ [])
          else rest >>= λ (c'', ps). some (c'', p ∷ ps))
      else none

-- The waits for the channels from `i` on, with the packets that are sent again.
unfoldable pub await_from : ℕ → List Reply → Client → Option (Client × List Packet)
unfolding take_ack past_last
await_from i [] c = some (c, [])
await_from i (fails ∷ rs) c = if past_last c.last_packet i then some (c, []) else none
await_from i (reply timeouts p ∷ rs) c =
    let rest = await_from (suc i) rs (take_ack c p) in
    if past_last c.last_packet i
    then some (c, [])
    else (rest >>= λ (c', ps). some (c', replicate timeouts (get_or c.tmp i zero_packet) ++ ps))

-- After the last ACK: the final packet, and the wait for its ACK.
unfoldable pub finish : Reply → Client → Option (Client × List Packet)
unfolding fin_packet take_ack
finish fails c = none
finish (reply timeouts p) c = some (
  take_ack (record c { seq_no = (c.seq_no + ntohll (fin_packet c).header.size) % 2 ^ 64 }) p,
  fin_packet c ∷ replicate timeouts (fin_packet c),
)

-- `channels` is `NUM_CHANNELS`.
module _ (packet_size channels : ℕ) where
  unfoldable pub send_phase : (ℕ → Bool) → Client → Option (Client × List Packet)
  unfolding send_from send_one
  send_phase sent c =
      if c.eof_seq_no == no_eof then send_from packet_size sent channels 0 c else some (c, [])

  -- One round of the `while` loop, with what the network does in it.
  unfoldable pub round : (ℕ → Bool) → List Reply → Reply → Client → Option (Client × List Packet)
  unfolding send_phase await_from finish
  round sent replies fin c = do
    (c1, ps) ← send_phase sent c
    (c2, qs) ← await_from 0 replies c1
    (c3, fs) ← (if c2.is_eof then finish fin c2 else some (c2, []))
    some (c3, ps ++ qs ++ fs)
