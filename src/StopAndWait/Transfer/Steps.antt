-- ===== src/StopAndWait/Transfer/Steps.antt =====
-- N-Channel-StopNWait: one packet from the client to the file of the server.
use network_programming_c.Prelude.{
  ℕ, ◌+◌, ◌%◌, ◌^◌, ◌<◌, ◌≡◌, ap, ◌∙◌, List, ◌++◌, append_assoc, arith, length, length-append, take,
}
use network_programming_c.StopAndWait.Bytes.{htonll, ntohll, ntohll-htonll}
use network_programming_c.StopAndWait.Packets.{NonZero, strncpy, strncpy_text}
use network_programming_c.StopAndWait.Chunks.{Chunk, get_next_chunk}
use network_programming_c.StopAndWait.Chunks.Content.{trim, IsChunk, get_next_chunk-IsChunk}
use network_programming_c.StopAndWait.Server.{Server, receive}
use network_programming_c.StopAndWait.Server.Files.{write_at_end}
use network_programming_c.StopAndWait.Client.{Client, no_eof, data_packet, send_one}

-- The file of the server and what the client still has to send are together `content`.
pub record Inv (size : ℕ) (content : List ℕ) (c : Client) (s : Server) : Type 0 where
  pub file : s.file ++ trim size c.fp ≡ content
  pub at : c.seq_no ≡ length s.file
  pub text : NonZero c.fp
  pub room : c.seq_no + length c.fp < no_eof

module _ (size : ℕ) (pos : 0 < size) where
  -- The bytes of a chunk reach the file of the server at its end.
  file-receive :
      (s : Server) (r : List ℕ) (ch : Chunk) (i seq_no : ℕ)
      → IsChunk size r ch
      → seq_no ≡ length s.file
      → seq_no + length r < no_eof
      → (receive (data_packet ch size i seq_no) s).file
        ≡ s.file ++ take ch.payload_size (strncpy size ch.buffer)
  unfolding receive data_packet
  file-receive s r ch i seq_no is e room =
      rw
        (
          ntohll-htonll ch.payload_size (omega (arith, is.count, is.shorter)),
          ntohll-htonll seq_no (omega arith),
        )
        (write_at_end s.file (take ch.payload_size (strncpy size ch.buffer)) seq_no e)

  pub text-IsChunk :
      (r : List ℕ) (ch : Chunk) (is : IsChunk size r ch)
      → take ch.payload_size (strncpy size ch.buffer) ≡ is.text
  text-IsChunk r ch is =
      rw (is.count, is.buffer) (strncpy_text size is.text is.junk is.text_text is.fits)

  pub send_one-Inv :
      {content : List ℕ} (i : ℕ) (c : Client) (s : Server)
      → Inv size content c s
      → Inv size content (send_one size i c).0 (receive (send_one size i c).1 s)
  unfolding send_one
  send_one-Inv i c s v =
      let ch = get_next_chunk c.fp size in
      let is = get_next_chunk-IsChunk size c.fp pos v.text in
      let sent =
        file-receive s c.fp ch i c.seq_no is v.at v.room
        ∙ ap (◌++◌ s.file) (text-IsChunk c.fp ch is) in
      let next : (c.seq_no + ntohll (htonll ch.payload_size)) % 2 ^ 64 ≡ c.seq_no + length is.text =
        omega (
          arith,
          v.room,
          is.count,
          is.shorter,
          ntohll-htonll ch.payload_size (omega (arith, v.room, is.count, is.shorter)),
        ) in
      record {
        file = rw (sent, append_assoc, ← is.content) v.file;
        at = next ∙ (rw (sent, length-append s.file is.text) (omega (arith, v.at)));
        text = is.rest_text;
        room = omega (arith, next, v.room, is.shorter);
      }
