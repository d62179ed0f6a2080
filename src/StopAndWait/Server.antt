-- ===== src/StopAndWait/Server.antt =====
-- N-Channel-StopNWait/server.c: `serve_connection`, with the output file and `last_seq_no`.
pub mod Files
pub mod Delivery
use network_programming_c.Prelude.{
  ℕ, zero, suc, Bool, true, false, Option, none, some, List, [], ◌∷◌, ltb, ◌==◌, if◌then◌else◌,
  take,
}
use network_programming_c.StopAndWait.Bytes.{htonll, ntohll}
use network_programming_c.StopAndWait.Packets.{Packet}

pub record Server : Type 0 where
  pub file : List ℕ
  pub last_seq_no : ℕ

-- `fopen("output.txt", "wb")`.
unfoldable pub fresh_server : Server
fresh_server = record { file = []; last_seq_no = 0 }

-- One byte at a position of the file; a gap before it reads as zeros.
unfoldable pub put : List ℕ → ℕ → ℕ → List ℕ
put [] zero b = b ∷ []
put [] (suc p) b = 0 ∷ put [] p b
put (x ∷ f) zero b = b ∷ f
put (x ∷ f) (suc p) b = x ∷ put f p b

-- `fseek(fp, pos, SEEK_SET)` and `fwrite`.
unfoldable pub write_at : List ℕ → ℕ → List ℕ → List ℕ
write_at f pos [] = f
write_at f pos (b ∷ bs) = write_at (put f pos b) (suc pos) bs

-- What a call does: it ends the program, or it returns `is_last` and has sent a packet or none.
pub data Served : Type 0 where
  exits : Served
  returns : Server → Option Packet → ℕ → Served

-- The packet with its type set to ACK. The sequence number goes through `ntohll` and `htonll`.
unfoldable pub ack : Packet → Packet
ack p = record p {
  header = record (p.header) { seq_no = htonll (ntohll p.header.seq_no); type = 1 };
}

-- The packet is written to the file, unless it is the final one.
unfoldable pub receive : Packet → Server → Server
receive p s = record {
  file = if p.header.is_last == 1 then s.file else write_at s.file seq_no (take pkt_size p.payload);
  last_seq_no = if ltb s.last_seq_no seq_no then seq_no else s.last_seq_no;
}
  where
    seq_no : ℕ
    seq_no = ntohll p.header.seq_no

    pkt_size : ℕ
    pkt_size = ntohll p.header.size

-- `recv` is what `read` gives (`none`: an error), `drop` the random test against PDR, and
-- `sent` whether `write` succeeds.
unfoldable pub serve_connection : Option Packet → Bool → Bool → Server → Served
serve_connection none drop sent s = exits
serve_connection (some p) true sent s = returns s none 0
serve_connection (some p) false sent s =
    if sent then returns (receive p s) (some (ack p)) p.header.is_last else exits
