-- ===== src/SelectiveRepeat/Rounds.antt =====
-- FileTransfer-Selective-Repeat/relays.c: which packets the loop of a relay sends to the server.
use network_programming_c.Prelude.{
  ℕ, false, ◌≡◌, refl, ap, ap₂, ◌∙◌, Option, none, some, List, [], ◌∷◌, ◌++◌, ◌==◌, if◌then◌else◌,
  All, Bool-cases, inl, inr,
}
use network_programming_c.SelectiveRepeat.{
  Wire, Relay, Sent, to_server, to_client, Arrival, Round, relay_answer, relay_packet,
  relay_channels, relay_round, relay_rounds,
}

-- The packets that are sent to the server.
abbrev pub forwarded : {Packet : Type 0} → List (Sent Packet) → List Packet
forwarded [] = []
forwarded (to_server addr p ∷ sent) = p ∷ forwarded sent
forwarded (to_client i addr p ∷ sent) = forwarded sent

-- The packets of the clients that are not dropped.
abbrev pub kept : {Packet : Type 0} → List (Option (Arrival Packet)) → List Packet
kept [] = []
kept (none ∷ channels) = kept channels
kept (some a ∷ channels) = if a.drops then kept channels else a.packet ∷ kept channels

abbrev pub all_kept : {Packet : Type 0} → List (Round Packet) → List Packet
all_kept [] = []
all_kept (round ∷ rounds) = kept round.channels ++ all_kept rounds

forwarded-append :
    {Packet : Type 0} (xs ys : List (Sent Packet))
    → forwarded (xs ++ ys) ≡ forwarded xs ++ forwarded ys
forwarded-append [] ys = refl
forwarded-append (to_server a p ∷ xs) ys = ap (λ l. p ∷ l) (forwarded-append xs ys)
forwarded-append (to_client i a p ∷ xs) ys = forwarded-append xs ys

module _ {Packet : Type 0} (w : Wire Packet) where
  -- The packet does not end the transfer.
  abbrev pub Goes : Packet → Type 0
  Goes p = (w.is_last p == 1) ≡ false

  abbrev pub ChannelGoes : Option (Arrival Packet) → Type 0
  ChannelGoes none = Unit
  ChannelGoes (some a) = Goes a.packet

  abbrev pub AnswerGoes : Option (ℕ × Packet × ℕ) → Type 0
  AnswerGoes none = Unit
  AnswerGoes (some (from, p, relay_no)) = Goes p

  abbrev pub RoundGoes : Round Packet → Type 0
  RoundGoes round = AnswerGoes round.answer × All ChannelGoes round.channels

  abbrev Open : Relay → Type 0
  Open r = (r.is_last == 1) ≡ false

  unfoldable sends_of : Arrival Packet → List Packet
  sends_of a = if a.drops then [] else a.packet ∷ []

  relay_packet-forwarded :
      (a : Arrival Packet) (r : Relay)
      → Goes a.packet
      → Open r
      → Open (relay_packet w a r).0 × (forwarded (relay_packet w a r).1 ≡ sends_of a)
  unfolding relay_packet sends_of
  relay_packet-forwarded a r g o = elim (Bool-cases a.drops) [
    | inl e ↦ rw e (o, refl)
    | inr e ↦ rw e (g, refl)
  ]

  sends_of-kept :
      (a : Arrival Packet) (channels : List (Option (Arrival Packet)))
      → sends_of a ++ kept channels ≡ kept (some a ∷ channels)
  unfolding sends_of
  sends_of-kept a channels = elim (Bool-cases a.drops) [ inl e ↦ rw e refl | inr e ↦ rw e refl ]

  relay_channels-forwarded :
      (channels : List (Option (Arrival Packet))) (r : Relay)
      → All ChannelGoes channels
      → Open r
      → Open (relay_channels w channels r).0
        × (forwarded (relay_channels w channels r).1 ≡ kept channels)
  unfolding relay_channels
  relay_channels-forwarded [] r a o = (o, refl)
  relay_channels-forwarded (none ∷ channels) r a o = relay_channels-forwarded channels r a.1 o
  relay_channels-forwarded (some a ∷ channels) r h o =
      let (o1, e) = relay_packet-forwarded a r h.0 o in
      let r1 : Relay = (relay_packet w a r).0 in
      let (o2, f) = relay_channels-forwarded channels r1 h.1 o1 in
      (
        o2,
        forwarded-append (relay_packet w a r).1 (relay_channels w channels r1).1
            ∙ (ap₂ ◌++◌ e f ∙ sends_of-kept a channels),
      )

  relay_answer-forwarded :
      (answer : Option (ℕ × Packet × ℕ)) (r : Relay)
      → AnswerGoes answer
      → Open r
      → Open (relay_answer w answer r).0 × (forwarded (relay_answer w answer r).1 ≡ [])
  unfolding relay_answer
  relay_answer-forwarded none r a o = (o, refl)
  relay_answer-forwarded (some (from, p, i)) r a o = (a, refl)

  relay_round-forwarded :
      (round : Round Packet) (r : Relay)
      → RoundGoes round
      → Open r
      → Open (relay_round w round r).0 × (forwarded (relay_round w round r).1 ≡ kept round.channels)
  unfolding relay_round
  relay_round-forwarded round r (a, c) o =
      let (o1, e) = relay_answer-forwarded round.answer r a o in
      let (o2, f) =
        relay_channels-forwarded round.channels (relay_answer w round.answer r).0 c o1 in
      (
        o2,
        forwarded-append (relay_answer w round.answer r).1
              (relay_channels w round.channels (relay_answer w round.answer r).0).1
            ∙ ap₂ ◌++◌ e f,
      )

  -- A relay sends every packet that it does not drop to the server, in the order in which they
  -- come, and goes on, as long as no packet ends the transfer.
  pub relay_rounds-forwarded :
      (rounds : List (Round Packet)) (r : Relay)
      → All RoundGoes rounds
      → (r.is_last == 1) ≡ false
      → forwarded (relay_rounds w rounds r).1 ≡ all_kept rounds
  unfolding relay_rounds
  relay_rounds-forwarded [] r a o = refl
  relay_rounds-forwarded (round ∷ rounds) r a o =
      let (o1, e) = relay_round-forwarded round r a.0 o in
      let r1 = (relay_round w round r).0 in
      rw o (
        forwarded-append (relay_round w round r).1 (relay_rounds w rounds r1).1
        ∙ ap₂ ◌++◌ e (relay_rounds-forwarded rounds r1 a.1 o1))
