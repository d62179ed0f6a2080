-- ===== src/SelectiveRepeat/Closing.antt =====
-- FileTransfer-Selective-Repeat/relays.c: the final packet of a client at a relay.
use network_programming_c.Prelude.{
  true, false, ◌≡◌, refl, ◌∙◌, Option, none, some, List, [], ◌∷◌, ◌++◌, append-nil, ◌==◌, All,
}
use network_programming_c.SelectiveRepeat.{
  Wire, Relay, Arrival, Round, relay_answer, relay_packet, relay_channels, relay_round,
  relay_rounds,
}

-- Nothing comes at the channel, or it is dropped.
abbrev pub Quiet : {Packet : Type 0} → Option (Arrival Packet) → Type 0
Quiet none = Unit
Quiet (some a) = a.drops ≡ true

module _ {Packet : Type 0} (w : Wire Packet) where
  Quiet-is_last :
      (channels : List (Option (Arrival Packet))) (r : Relay)
      → All Quiet channels
      → (relay_channels w channels r).0.is_last ≡ r.is_last
  unfolding relay_channels relay_packet
  Quiet-is_last [] r q = refl
  Quiet-is_last (none ∷ channels) r q = Quiet-is_last channels r q.1
  Quiet-is_last (some a ∷ channels) r q =
      rw (q.0) (Quiet-is_last channels (record r { cli_addr = a.from }) q.1)

  sets_last :
      (a : Arrival Packet) (r : Relay)
      → a.drops ≡ false
      → (relay_packet w a r).0.is_last ≡ w.is_last a.packet
  unfolding relay_packet
  sets_last a r d = rw d refl

  last_decides :
      (before after : List (Option (Arrival Packet))) (a : Arrival Packet) (r : Relay)
      → a.drops ≡ false
      → All Quiet after
      → (relay_channels w (before ++ some a ∷ after) r).0.is_last ≡ w.is_last a.packet
  unfolding relay_channels
  last_decides [] after a r d q = Quiet-is_last after (relay_packet w a r).0 q ∙ sets_last a r d
  last_decides (none ∷ before) after a r d q = last_decides before after a r d q
  last_decides (some b ∷ before) after a r d q =
      last_decides before after a (relay_packet w b r).0 d q

  ended :
      (rounds : List (Round Packet)) (r : Relay) → r.is_last ≡ 1 → relay_rounds w rounds r ≡ (r, [])
  unfolding relay_rounds
  ended [] r e = refl
  ended (round ∷ rounds) r e = rw e refl

  ends_round :
      (round : Round Packet) (r : Relay) (before after : List (Option (Arrival Packet)))
      (a : Arrival Packet)
      → round.channels ≡ before ++ some a ∷ after
      → a.drops ≡ false
      → w.is_last a.packet ≡ 1
      → All Quiet after
      → (relay_round w round r).0.is_last ≡ 1
  unfolding relay_round
  ends_round round r before after a c d l q =
      rw c (last_decides before after a (relay_answer w round.answer r).0 d q ∙ l)

  -- The final packet of a client that is not dropped, with no other packet kept at the channels
  -- behind it: the relay sends what belongs to this round, and ends. Whatever comes later, the
  -- answer of the server to the final packet among it, is sent to nobody.
  pub relay-fin :
      (round : Round Packet) (rounds : List (Round Packet)) (r : Relay)
      (before after : List (Option (Arrival Packet))) (a : Arrival Packet)
      → round.channels ≡ before ++ some a ∷ after
      → a.drops ≡ false
      → w.is_last a.packet ≡ 1
      → All Quiet after
      → (r.is_last == 1) ≡ false
      → relay_rounds w (round ∷ rounds) r ≡ relay_round w round r
  unfolding relay_rounds
  relay-fin round rounds r before after a c d l q o =
      let e : (relay_round w round r).0.is_last ≡ 1 = ends_round round r before after a c d l q in
      rw (o, ended rounds (relay_round w round r).0 e, append-nil (relay_round w round r).1) refl
