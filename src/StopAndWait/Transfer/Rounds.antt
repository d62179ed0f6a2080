-- ===== src/StopAndWait/Transfer/Rounds.antt =====
-- N-Channel-StopNWait: one sending phase of the client, served packet by packet.
use network_programming_c.Prelude.{
  ℕ, zero, suc, ◌+◌, ◌≤◌, ◌<◌, ◌≡◌, refl, ap, Bool, true, false, ◌&&◌, ◌||◌, Option, none, some,
  List, [], ◌∷◌, ◌==◌, if◌then◌else◌, arith, length, replicate, ◌++◌, get_or,
}
use network_programming_c.StopAndWait.Bytes.{ntohll, ntohll-htonll}
use network_programming_c.StopAndWait.Packets.{Packet}
use network_programming_c.StopAndWait.Chunks.Content.{carried, get_next_chunk-IsChunk}
use network_programming_c.StopAndWait.Server.{Server, receive, ack}
use network_programming_c.StopAndWait.Client.{
  Client, Reply, reply, fails, zero_packet, acks_eof, take_ack, past_last, send_one, await_from,
}
use network_programming_c.StopAndWait.Transfer.{exchange}
use network_programming_c.StopAndWait.Transfer.Steps.{Inv}

-- However often it is dropped, a packet is served once.
pub exchange_lem : (k : ℕ) (p : Packet) (s : Server) → exchange k p s ≡ some (receive p s, ack p)
unfolding exchange
exchange_lem zero p s = refl
exchange_lem (suc k) p s = exchange_lem k p s

-- Some reply is an ACK of the number `e`.
abbrev pub any_ack : ℕ → List Reply → Bool
any_ack e [] = false
any_ack e (fails ∷ rs) = any_ack e rs
any_ack e (reply k q ∷ rs) = (q.header.type == 1 && ntohll q.header.seq_no == e) || any_ack e rs

abbrev pub NoFail : List Reply → Type 0
NoFail [] = Unit
NoFail (fails ∷ rs) = ⊥
NoFail (reply k q ∷ rs) = NoFail rs

-- The loop that waits does not stop before channel `k`.
abbrev pub Fits : Option ℕ → ℕ → Type 0
Fits none k = Unit
Fits (some l) k = k ≤ suc l

Fits-past : (o : Option ℕ) (i n k : ℕ) → k ≡ i + suc n → Fits o k → past_last o i ≡ false
unfolding past_last
Fits-past none i n k e h = refl
Fits-past (some l) i n k e h = ground arith

or_if : (a b r : Bool) → ((if a then true else b) || r) ≡ (b || (a || r))
or_if true true r = refl
or_if true false r = refl
or_if false b r = refl

-- The waits read one reply for each packet, and look for the ACK of the end of the file.
pub await_from_lem :
    (i k : ℕ) (rs : List Reply) (c : Client)
    → k ≡ i + length rs
    → Fits c.last_packet k
    → NoFail rs
    → (log : List Packet) × (await_from i rs c
        ≡ some (record c { is_eof = c.is_eof || any_ack c.eof_seq_no rs }, log))
unfolding await_from acks_eof
await_from_lem i k [] c e f h = ([], ground arith)
await_from_lem i k (fails ∷ rs) c e f h = absurd h
await_from_lem i k (reply t q ∷ rs) c e f h =
    let (log, eq) = await_from_lem (suc i) k rs (take_ack c q) (omega arith) f h in
    (
      replicate t (get_or c.tmp i zero_packet) ++ log,
      rw (Fits-past c.last_packet i (length rs) k e f, eq)
          (ap {B = Option (Client × List Packet)}
            (λ b. some (record c { is_eof = b }, replicate t (get_or c.tmp i zero_packet) ++ log))
            (or_if (q.header.type == 1 && ntohll q.header.seq_no == c.eof_seq_no) c.is_eof
              (any_ack c.eof_seq_no rs))),
    )

module _ (size : ℕ) (pos : 0 < size) {content : List ℕ} (c : Client) (s : Server)
    (v : Inv size content c s) where
  pub size_lem : (i : ℕ) → ntohll (send_one size i c).1.header.size ≡ carried size pos c.fp
  unfolding send_one
  size_lem i =
      let is = get_next_chunk-IsChunk size c.fp pos v.text in
      ntohll-htonll (carried size pos c.fp) (omega (arith, v.room, is.count, is.shorter))

  pub seq_no_lem : (i : ℕ) → ntohll (send_one size i c).1.header.seq_no ≡ c.seq_no
  unfolding send_one
  seq_no_lem i = ntohll-htonll c.seq_no (omega (arith, v.room))

  -- The ACK of a packet carries its number.
  pub ack-any :
      (i k e : ℕ) (rs : List Reply)
      → any_ack e (reply k (ack (send_one size i c).1) ∷ rs) ≡ (c.seq_no == e || any_ack e rs)
  unfolding ack
  ack-any i k e rs = rw (seq_no_lem i, ntohll-htonll c.seq_no (omega (arith, v.room)))
