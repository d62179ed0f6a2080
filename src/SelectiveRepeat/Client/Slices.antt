-- ===== src/SelectiveRepeat/Client/Slices.antt =====
-- FileTransfer-Selective-Repeat/client.c: what the client sends of its file, and in which packets.
use network_programming_c.Prelude.{
  ℕ, zero, suc, ◌+◌, ◌%◌, ◌^◌, ◌≤◌, ◌<◌, ◌≡◌, refl, sym, subst, ◌⊎◌, true, false, ◌&&◌, Option,
  none, some, List, [], ◌∷◌, ◌++◌, replicate, get_or, set, take, length, ◌==◌, if◌then◌else◌, All,
  All-set, All-get_or, All-replicate, All-append, arith, if-holds, Bool-cases, inl, inr, codes,
}
use network_programming_c.StopAndWait.Packets.{strncpy}
use network_programming_c.StopAndWait.Server.Delivery.{Slice}
use network_programming_c.SelectiveRepeat.{Wire}
use network_programming_c.SelectiveRepeat.Client.{
  Chunk, Utils, Client, Network, send_from, await_from, send_phase, finish, fin_packet, round,
  init_client, connection_loop, is_end, behind_last,
}
use network_programming_c.SelectiveRepeat.Content.{IsSlice, position, bytes}

-- What the client relies on: a packet has the fields it is made of, `htonll` is undone by `ntohll`,
-- and a packet of zeros has no bytes.
pub record IsUtils {File Packet : Type 0} (w : Wire Packet) (u : Utils File Packet) : Type 0 where
  pub size : (s q l t i : ℕ) (d : List ℕ) → w.size (u.make s q l t i d) ≡ s
  pub seq_no : (s q l t i : ℕ) (d : List ℕ) → w.seq_no (u.make s q l t i d) ≡ q
  pub is_last : (s q l t i : ℕ) (d : List ℕ) → w.is_last (u.make s q l t i d) ≡ l
  pub payload : (s q l t i : ℕ) (d : List ℕ) → w.payload (u.make s q l t i d) ≡ d
  pub order : (n : ℕ) → n < 2 ^ 64 → w.ntohll (w.htonll n) ≡ n
  pub zeros : (w.is_last u.zeros ≡ 0) × (w.ntohll (w.size u.zeros) ≡ 0)

-- `get_next_chunk` reads a file whose content is `content`: `At fp pos` says that `fp` stands at
-- `pos`, and the chunk is what follows there, as far as a packet takes it from the buffer.
abbrev pub Reads :
    {File Packet : Type 0} → Utils File Packet → List ℕ → (File → ℕ → Type 0) → Type 0
Reads {File} u content At =
    (fp : File) (pos : ℕ)
    → At fp pos
    → let (fp', chunk) = u.get_next_chunk fp in
      Slice content pos (take chunk.size (strncpy u.packet_size chunk.buffer))
      × (pos + chunk.size ≤ length content)
      × At fp' (pos + chunk.size)

module _ {File Packet : Type 0} (w : Wire Packet) (u : Utils File Packet) (content : List ℕ)
    (At : File → ℕ → Type 0) (laws : IsUtils w u) (reads : Reads u content At)
    (small : length content < 2 ^ 64) where
  -- All packets that are kept are slices, and the file stands where the next packet begins.
  abbrev Inv : Client File Packet → Type 0
  Inv c = All (IsSlice w content) c.tmp × At c.fp c.seq_no × (c.seq_no ≤ length content)

  made-IsSlice :
      (fp : File) (pos i : ℕ)
      → At fp pos
      → pos ≤ length content
      → let (fp', chunk) = u.get_next_chunk fp in
        IsSlice w content
          (u.make (w.htonll chunk.size) (w.htonll pos) 0 0 i (strncpy u.packet_size chunk.buffer))
  made-IsSlice fp pos i a k =
      let ch : Chunk = (u.get_next_chunk fp).1 in
      let d : List ℕ = strncpy u.packet_size ch.buffer in
      let (sl, le, at) = reads fp pos a in
      rw
        (
          laws.is_last (w.htonll ch.size) (w.htonll pos) 0 0 i d,
          position,
          bytes,
          laws.seq_no (w.htonll ch.size) (w.htonll pos) 0 0 i d,
          laws.size (w.htonll ch.size) (w.htonll pos) 0 0 i d,
          laws.payload (w.htonll ch.size) (w.htonll pos) 0 0 i d,
          laws.order ch.size (omega arith),
          laws.order pos (omega arith),
        )
        (refl, sl)

  next_seq_no :
      (fp : File) (pos i : ℕ)
      → At fp pos
      → let (fp', chunk) = u.get_next_chunk fp in
        (pos
            + w.ntohll (
                w.size (
                  u.make
                    (w.htonll chunk.size)
                    (w.htonll pos)
                    0
                    0
                    i
                    (strncpy u.packet_size chunk.buffer))))
          % 2 ^ 64
        ≡ pos + chunk.size
  next_seq_no fp pos i a =
      let ch : Chunk = (u.get_next_chunk fp).1 in
      let (sl, le, at) = reads fp pos a in
      let e : (pos + ch.size) % 2 ^ 64 ≡ pos + ch.size = omega arith in
      rw
        (
          laws.size (w.htonll ch.size) (w.htonll pos) 0 0 i (strncpy u.packet_size ch.buffer),
          laws.order ch.size (omega arith),
          e,
        )
        refl

  abbrev AllSlices : List (ℕ × Packet) → Type 0
  AllSlices = All (λ (i, p). IsSlice w content p)

  -- The state and what is sent.
  abbrev Good : Client File Packet × List (ℕ × Packet) → Type 0
  Good (c, sent) = Inv c × AllSlices sent

  send_from-Good : (left i : ℕ) (c : Client File Packet) → Inv c → Good (send_from w u left i c)
  unfolding send_from
  send_from-Good zero i c v = (v, tt)
  send_from-Good (suc left) i c (t, a, k) =
      let (fp, chunk) = u.get_next_chunk c.fp in
      let (sl, le, at) = reads c.fp c.seq_no a in
      let m = made-IsSlice c.fp c.seq_no i a k in
      let p : Packet =
        u.make (w.htonll chunk.size) (w.htonll c.seq_no) 0 0 i
          (strncpy u.packet_size chunk.buffer) in
      let c1 : Client File Packet = record {
        fp = fp;
        seq_no = (c.seq_no + w.ntohll (w.size p)) % 2 ^ 64;
        eof_seq_no = if chunk.eof then some c.seq_no else c.eof_seq_no;
        payload_size = chunk.size;
        tmp = set c.tmp i p;
        last_packet = c.last_packet;
        is_eof = false;
      } in
      let e : c.seq_no + chunk.size ≡ c1.seq_no = sym (next_seq_no c.fp c.seq_no i a) in
      let v : Inv c1 = (
        All-set (IsSlice w content) c.tmp i p t m,
        subst (At fp) e at,
        subst (λ n. n ≤ length content) e le,
      ) in
      let (v2, s2) = send_from-Good left (i + 1) c1 v in
      if-holds Good (w.ntohll (w.size p) == 0) (record c1 { last_packet = some i }, (i, p) ∷ [])
        ((send_from w u left (i + 1) c1).0, (i, p) ∷ (send_from w u left (i + 1) c1).1) (v, (m, tt))
        (v2, (m, s2))

  zeros-IsSlice : IsSlice w content u.zeros
  zeros-IsSlice = rw (laws.zeros.0, laws.zeros.1, bytes) (refl, tt)

  await_from-Good :
      (left i : ℕ) (n : Network Packet) (c : Client File Packet)
      → Inv c
      → Good (await_from w u left i n c)
  unfolding await_from
  await_from-Good zero i n c v = (v, tt)
  await_from-Good (suc left) i n c v =
      let answer : Packet = n.answers i in
      let again : List (ℕ × Packet) = replicate (n.timeouts i) (i, get_or c.tmp i u.zeros) in
      let c1 : Client File Packet = record c {
        is_eof =
            if u.type_of answer == 1 && is_end c.eof_seq_no (w.ntohll (w.seq_no answer))
            then true
            else c.is_eof;
      } in
      let (v2, s2) = await_from-Good left (i + 1) n c1 v in
      let a : AllSlices again =
        All-replicate (λ (i, p). IsSlice w content p) (n.timeouts i) (i, get_or c.tmp i u.zeros)
          (All-get_or (IsSlice w content) c.tmp i u.zeros v.0 zeros-IsSlice) in
      if-holds Good (behind_last c.last_packet i) (c, [])
        ((await_from w u left (i + 1) n c1).0, again ++ (await_from w u left (i + 1) n c1).1)
        (v, tt)
        (
          v2,
          All-append (λ (i, p). IsSlice w content p) again (await_from w u left (i + 1) n c1).1 a
              s2,
        )

  send_phase-Good : (e : Option ℕ) (c : Client File Packet) → Inv c → Good (send_phase w u e c)
  unfolding send_phase
  send_phase-Good none c v = send_from-Good u.num_channels 0 c v
  send_phase-Good (some e) c v = (v, tt)

  -- The packet ends the transfer.
  abbrev pub AllFinal : List (ℕ × Packet) → Type 0
  AllFinal = All (λ (i, p). w.is_last p ≡ 1)

  finish-final :
      (n : Network Packet) (c : Client File Packet)
      → ((finish w u n c).0.is_eof ≡ c.is_eof) × AllFinal (finish w u n c).1
  unfolding finish fin_packet
  finish-final n c = (
    refl,
    All-replicate (λ (i, p). w.is_last p ≡ 1) (suc n.fin_timeouts) (0, fin_packet w u c)
        (laws.is_last (w.htonll c.payload_size) (w.htonll c.seq_no) 1 1 0
          (strncpy u.packet_size (codes "exit"))),
  )

  -- The loop goes on only in a state that is sound.
  abbrev Sound : Client File Packet × List (ℕ × Packet) × List (ℕ × Packet) → Type 0
  Sound (c, sent, fin) = ((c.is_eof ≡ true) ⊎ Inv c) × AllSlices sent × AllFinal fin

  round-Sound : (n : Network Packet) (c : Client File Packet) → Inv c → Sound (round w u n c)
  unfolding round
  round-Sound n c v =
      let (v1, s1) = send_phase-Good c.eof_seq_no c v in
      let c1 : Client File Packet = (send_phase w u c.eof_seq_no c).0 in
      let sent : List (ℕ × Packet) = (send_phase w u c.eof_seq_no c).1 in
      let (v2, s2) = await_from-Good u.num_channels 0 n c1 v1 in
      let c2 : Client File Packet = (await_from w u u.num_channels 0 n c1).0 in
      let again : List (ℕ × Packet) = (await_from w u u.num_channels 0 n c1).1 in
      let s : AllSlices (sent ++ again) =
        All-append (λ (i, p). IsSlice w content p) sent again s1 s2 in
      let (e, f) = finish-final n c2 in
      elim (Bool-cases c2.is_eof) [ inl h ↦ rw h (inl refl, s, f) | inr h ↦ rw h (inr v2, s, tt) ]

  -- What is sent.
  abbrev Sent : Client File Packet × List (ℕ × Packet) × List (ℕ × Packet) → Type 0
  Sent (c, sent, fin) = AllSlices sent × AllFinal fin

  connection_loop-Sound :
      (ns : List (Network Packet)) (c : Client File Packet)
      → (c.is_eof ≡ true) ⊎ Inv c
      → Sent (connection_loop w u ns c)
  unfolding connection_loop
  connection_loop-Sound [] c v = (tt, tt)
  connection_loop-Sound (n ∷ ns) c (inl h) = rw h (tt, tt)
  connection_loop-Sound (n ∷ ns) c (inr v) =
      let (v1, s1, f1) = round-Sound n c v in
      let c1 : Client File Packet = (round w u n c).0 in
      let (s2, f2) = connection_loop-Sound ns c1 v1 in
      if-holds Sent c.is_eof (c, [], [])
        (
          (connection_loop w u ns c1).0,
          (round w u n c).1 ++ (connection_loop w u ns c1).1,
          (round w u n c).2 ++ (connection_loop w u ns c1).2,
        )
        (tt, tt)
        (
          All-append (λ (i, p). IsSlice w content p) (round w u n c).1 (connection_loop w u ns c1).1
              s1 s2,
          All-append (λ (i, p). w.is_last p ≡ 1) (round w u n c).2 (connection_loop w u ns c1).2 f1
              f2,
        )

  -- For a file of fewer than `2 ^ 64` bytes that `get_next_chunk` reads piece by piece: whatever
  -- the network does and for any number of rounds, every packet that the client sends of its file,
  -- for the first time or again after a timeout, has the bytes of the file at its sequence number
  -- and does not end the transfer, and every other packet ends it.
  pub connection_loop-IsSlice :
      (fp : File) (ns : List (Network Packet))
      → At fp 0
      → let (c, sent, fin) = connection_loop w u ns (init_client w u fp) in
        AllSlices sent × AllFinal fin
  connection_loop-IsSlice fp ns a =
      connection_loop-Sound ns (init_client w u fp) (
        inr
          (All-replicate (IsSlice w content) u.num_channels u.zeros zeros-IsSlice, a, omega arith))
