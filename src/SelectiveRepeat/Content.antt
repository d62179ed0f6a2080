-- ===== src/SelectiveRepeat/Content.antt =====
-- FileTransfer-Selective-Repeat/relays.c and server.c: the file of a server behind a relay.
use network_programming_c.Prelude.{
  ℕ, ◌+◌, ◌≤◌, ◌<◌, ◌≡◌, refl, ◌⊎◌, inl, inr, false, List, [], ◌∷◌, length, take, ◌==◌, arith, All,
}
use network_programming_c.StopAndWait.Server.{write_at}
use network_programming_c.StopAndWait.Server.Delivery.{
  Slice, Right, write_at-Right, length-write_at, ext,
}
use network_programming_c.SelectiveRepeat.{
  Wire, Server, fresh_server, Relay, Round, serve, serve_all, relay_rounds,
}
use network_programming_c.SelectiveRepeat.Rounds.{
  forwarded, all_kept, Goes, RoundGoes, relay_rounds-forwarded,
}

module _ {Packet : Type 0} (w : Wire Packet) where
  abbrev pub position : Packet → ℕ
  position p = w.ntohll (w.seq_no p)

  -- The bytes that a packet has for the file.
  abbrev pub bytes : Packet → List ℕ
  bytes p = take (w.ntohll (w.size p)) (w.payload p)

  abbrev pub IsSlice : List ℕ → Packet → Type 0
  IsSlice content p = Goes w p × Slice content (position p) (bytes p)

  -- Some packet has the byte at `i`.
  abbrev pub Covered : List Packet → ℕ → Type 0
  Covered [] i = ⊥
  Covered (p ∷ ps) i = ((position p ≤ i) × (i < position p + length (bytes p))) ⊎ Covered ps i

  file-serve :
      (p : Packet) (s : Server)
      → Goes w p
      → (serve w p s).0.file ≡ write_at s.file (position p) (bytes p)
  unfolding serve
  file-serve p s g = rw g refl

  serve_all-Right :
      (content : List ℕ) (ps : List Packet) (s : Server)
      → All (IsSlice content) ps
      → length s.file ≤ length content
      → (length (serve_all w ps s).0.file ≤ length content)
        × ((i : ℕ)
            → Covered ps i ⊎ Right content s.file i
            → Right content (serve_all w ps s).0.file i)
  unfolding serve_all
  serve_all-Right content [] s a h = (h, λ i. elim [ inl none ↦ absurd none | inr r ↦ r ])
  serve_all-Right content (p ∷ ps) s a h =
      let e = file-serve p s a.0.0 in
      let (len, rest) =
        serve_all-Right content ps (serve w p s).0 a.1
          (rw e (length-write_at content s.file (position p) (bytes p) a.0.1 h)) in
      (
        len,
        λ i. elim [
          | inl (inl c) ↦
              rest i
                (inr (rw e (write_at-Right content s.file (position p) i (bytes p) a.0.1 (inl c))))
          | inl (inr c) ↦ rest i (inl c)
          | inr r ↦
              rest i
                (inr (rw e (write_at-Right content s.file (position p) i (bytes p) a.0.1 (inr r))))
        ],
      )

  -- Clients send packets that are slices of a content to a relay, in any order, with any duplicates
  -- and with any of them dropped, and answers of the server come in between; no packet ends the
  -- transfer. As soon as each byte of the content is in a packet that the relay does not drop, the
  -- file of the server that gets what the relay sends is exactly the content.
  pub relayed-content :
      (content : List ℕ) (rounds : List (Round Packet)) (r : Relay)
      → All (RoundGoes w) rounds
      → (r.is_last == 1) ≡ false
      → All (IsSlice content) (all_kept rounds)
      → ((i : ℕ) → i < length content → Covered (all_kept rounds) i)
      → (serve_all w (forwarded (relay_rounds w rounds r).1) fresh_server).0.file ≡ content
  relayed-content content rounds r g o a cover =
      let (len, right) = serve_all-Right content (all_kept rounds) fresh_server a (omega arith) in
      rw (relay_rounds-forwarded w rounds r g o) (
        ext content (serve_all w (all_kept rounds) fresh_server).0.file content len
          (λ i k. right i (inl (cover i k))))
