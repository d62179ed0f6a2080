-- ===== src/StopAndWait/Transfer/Correct.antt =====
-- N-Channel-StopNWait: the rounds of a transfer, from the first to the last.
use network_programming_c.Prelude.{
  ℕ, zero, suc, ◌+◌, ◌<◌, ◌≡◌, refl, sym, ap, ◌∙◌, inl, inr, Bool, true, false, ◌||◌, Option, none,
  some, List, [], ◌++◌, ◌==◌, if◌then◌else◌, arith, length, append-nil,
}
use network_programming_c.StopAndWait.Packets.{Packet, NonZero}
use network_programming_c.StopAndWait.Chunks.Content.{trim, trim-nil}
use network_programming_c.StopAndWait.Server.{Server, fresh_server, receive}
use network_programming_c.StopAndWait.Client.{
  Client, Reply, no_eof, init_client, fin_packet, send_from, send_phase, await_from,
}
use network_programming_c.StopAndWait.Transfer.{transfer}
use network_programming_c.StopAndWait.Transfer.Steps.{Inv}
use network_programming_c.StopAndWait.Transfer.Rounds.{exchange_lem, any_ack, await_from_lem}
use network_programming_c.StopAndWait.Transfer.Phase.{Sent, sends_lem}

if_same : (b : Bool) → (if b then true else true) ≡ true
if_same true = refl
if_same false = refl

module _ (size channels : ℕ) (pos : 0 < size) (open_channels : 0 < channels) where
  phase_lem :
      (c : Client) (r : Option (Client × List Packet))
      → c.eof_seq_no ≡ no_eof
      → send_from size (λ _. true) channels 0 c ≡ r
      → send_phase size channels (λ _. true) c ≡ r
  unfolding send_phase
  phase_lem c r e h = let t : (c.eof_seq_no == no_eof) ≡ true = ground arith in rw (t, h)

  abbrev Arrives : List ℕ → ℕ → (ℕ → ℕ → ℕ) → Client → Server → Type 0
  Arrives content rounds drops c s =
      (c' : Client) × (s' : Server) × (transfer size channels rounds drops c s ≡ some (c', s'))
      × (c'.is_eof ≡ true)
      × (s'.file ≡ content)

  record Going (content : List ℕ) (rounds : ℕ) (c : Client) (s : Server) : Type 0 where
    inv : Inv size content c s
    no_end : c.eof_seq_no ≡ no_eof
    no_last : c.last_packet ≡ none
    flag : c.is_eof ≡ false
    fuel : length c.fp < rounds

  file_done :
      {content : List ℕ} {c : Client} {s : Server}
      → Inv size content c s
      → c.fp ≡ []
      → s.file ≡ content
  file_done {c} {s} v e =
      sym (append-nil s.file) ∙ (ap (◌++◌ s.file) (sym (ap (trim size) e ∙ trim-nil size)) ∙ v.file)

  -- The final packet changes nothing in the file.
  file-fin : (c : Client) (s : Server) → (receive (fin_packet c) s).file ≡ s.file
  unfolding receive fin_packet
  file-fin c s = refl

  -- One round, given what its phases do.
  module _ (content : List ℕ) (rounds : ℕ) (drops : ℕ → ℕ → ℕ) (c : Client) (s : Server)
      (c1 : Client) (ps : List Packet) (s1 : Server) (rs : List Reply) (log : List Packet)
      (sent : Sent size pos (drops rounds) content 0 channels c s c1 ps s1 rs)
      (no_end : c.eof_seq_no ≡ no_eof) (flag : c.is_eof ≡ false) where
    round_more :
        await_from 0 rs c1 ≡ some (record c1 { is_eof = false }, log)
        → transfer size channels (suc rounds) drops c s
          ≡ transfer size channels rounds drops (record c1 { is_eof = false }) s1
    unfolding transfer
    round_more h = rw (phase_lem c _ no_end sent.send, sent.served, h)

    round_last :
        await_from 0 rs c1 ≡ some (record c1 { is_eof = true }, log)
        → c1.fp ≡ []
        → Arrives content (suc rounds) drops c s
    unfolding transfer
    round_last h nil =
        rw
          (
            phase_lem c _ no_end sent.send,
            sent.served,
            h,
            exchange_lem (drops rounds channels) (fin_packet (record c1 { is_eof = true })) s1,
          )
          (
            _,
            _,
            refl,
            if_same _,
            file-fin (record c1 { is_eof = true }) s1 ∙ (file_done sent.inv nil),
          )

  arrives :
      (content : List ℕ) (rounds : ℕ) (drops : ℕ → ℕ → ℕ) (c : Client) (s : Server)
      → Going content rounds c s
      → Arrives content rounds drops c s
  arrives content zero drops c s g = absurd (omega (arith, g.fuel))
  arrives content (suc rounds) drops c s g =
      let (c1, ps, s1, rs, sent) =
        sends_lem size pos (drops rounds) channels 0 c s g.inv g.no_end g.no_last in
      let (log, read) = await_from_lem 0 (0 + length rs) rs c1 refl sent.fits sent.fine in
      let clear : c1.is_eof ≡ false = sent.flag ∙ g.flag in
      elim sent.outcome [
        | inl (e, l, m, a) ↦
            let flag : (c1.is_eof || any_ack c1.eof_seq_no rs) ≡ false = rw (clear, e) a in
            rw
              (round_more content rounds drops c s c1 ps s1 rs log sent g.no_end g.flag
                (rw flag at read))
              (arrives content rounds drops (record c1 { is_eof = false }) s1
                (record {
                  inv =
                      let w = sent.inv in
                      record { file = w.file; at = w.at; text = w.text; room = w.room };
                  no_end = e;
                  no_last = l;
                  flag = refl;
                  fuel = omega (arith, m, g.fuel);
                }))
        | inr (nil, a) ↦
            let flag : (c1.is_eof || any_ack c1.eof_seq_no rs) ≡ true = rw clear a in
            round_last content rounds drops c s c1 ps s1 rs log sent g.no_end g.flag
              (rw flag at read) nil
      ]

-- The whole file, in at most as many rounds as it has bytes and one more. The network is prompt:
-- each packet is dropped any finite number of times, and then served. The file is a text (it holds
-- no zero byte) of less than 2^64 - 1 bytes, and there is a channel. Then both programs end, and
-- the file of the server is the file of the client, without its last byte where its length is no
-- multiple of the packet size.
pub transfer-file :
    (size channels : ℕ) (drops : ℕ → ℕ → ℕ) (input : List ℕ)
    → 0 < size
    → 0 < channels
    → NonZero input
    → length input < no_eof
    → (c : Client) × (s : Server) × (transfer size channels
          (suc (length input))
          drops
          (init_client channels input)
          fresh_server
        ≡ some (c, s))
      × (c.is_eof ≡ true)
      × (s.file ≡ trim size input)
unfolding init_client fresh_server
transfer-file size channels drops input pos open_channels text room =
    arrives size channels pos open_channels (trim size input) (suc (length input)) drops _ _
      (record {
        inv = record { file = refl; at = refl; text = text; room = omega arith };
        no_end = refl;
        no_last = refl;
        flag = refl;
        fuel = omega arith;
      })
