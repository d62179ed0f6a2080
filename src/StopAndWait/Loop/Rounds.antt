-- ===== src/StopAndWait/Loop/Rounds.antt =====
-- N-Channel-StopNWait/server.c: rounds of packets from the channels, up to the final packet.
use network_programming_c.Prelude.{
  ℕ, ◌<◌, ◌≡◌, refl, ◌∙◌, Bool, true, false, ◌||◌, Option, none, some, List, [], ◌∷◌, ◌++◌, length,
  All, ◌==◌,
}
use network_programming_c.StopAndWait.Packets.{Packet}
use network_programming_c.StopAndWait.Server.{Server, receive, fresh_server, serve_connection}
use network_programming_c.StopAndWait.Server.Delivery.{
  serve_all, IsSlice, Covered, serve_all-content,
}
use network_programming_c.StopAndWait.Loop.{Arrival, serve_channels, serve_rounds}

-- On each channel of a round, nothing, or a packet and whether it is dropped.
abbrev pub Round : Type 0
Round = List (Option (Bool × Packet))

-- The packets are read, and the replies are written.
abbrev pub arrivals : Round → List (Option Arrival)
arrivals [] = []
arrivals (none ∷ r) = none ∷ arrivals r
arrivals (some (drop, p) ∷ r) = some (some p, drop, true) ∷ arrivals r

abbrev pub packets : Round → List (Bool × Packet)
packets [] = []
packets (none ∷ r) = packets r
packets (some d ∷ r) = d ∷ packets r

abbrev pub all_arrivals : List Round → List (List (Option Arrival))
all_arrivals [] = []
all_arrivals (r ∷ rs) = arrivals r ∷ all_arrivals rs

abbrev pub all_packets : List Round → List (Bool × Packet)
all_packets [] = []
all_packets (r ∷ rs) = packets r ++ all_packets rs

or_false : (b : Bool) → (b || false) ≡ b
or_false true = refl
or_false false = refl

module _ (content : List ℕ) where
  abbrev Slices : List (Bool × Packet) → Type 0
  Slices = All (λ d. IsSlice content d.1)

  serve_channels-packets :
      (r : Round) (s : Server) (b : Bool)
      → Slices (packets r)
      → serve_channels (arrivals r) s b ≡ some (serve_all (packets r) s, b)
  unfolding serve_channels serve_connection serve_all
  serve_channels-packets [] s b a = refl
  serve_channels-packets (none ∷ r) s b a = serve_channels-packets r s b a
  serve_channels-packets (some (true, p) ∷ r) s b a =
      rw (or_false b) (serve_channels-packets r s b a.1)
  serve_channels-packets (some (false, p) ∷ r) s b a =
      rw (a.0.0, or_false b) (serve_channels-packets r (receive p s) b a.1)

  serve_all-append :
      (xs ys : List (Bool × Packet)) (s : Server)
      → serve_all (xs ++ ys) s ≡ serve_all ys (serve_all xs s)
  unfolding serve_all serve_connection
  serve_all-append [] ys s = refl
  serve_all-append ((true, p) ∷ xs) ys s = serve_all-append xs ys s
  serve_all-append ((false, p) ∷ xs) ys s = serve_all-append xs ys (receive p s)

  Slices-append : (xs ys : List (Bool × Packet)) → Slices (xs ++ ys) → Slices xs × Slices ys
  Slices-append [] ys a = (tt, a)
  Slices-append (x ∷ xs) ys a = let (p, q) = Slices-append xs ys a.1 in ((a.0, p), q)

  serve_rounds-packets :
      (rs : List Round) (rest : List (List (Option Arrival))) (s : Server)
      → Slices (all_packets rs)
      → serve_rounds (all_arrivals rs ++ rest) s ≡ serve_rounds rest (serve_all (all_packets rs) s)
  unfolding serve_rounds serve_all
  serve_rounds-packets [] rest s a = refl
  serve_rounds-packets (r ∷ rs) rest s a =
      let (b, c) = Slices-append (packets r) (all_packets rs) a in
      rw (serve_channels-packets r s false b, serve_all-append (packets r) (all_packets rs) s)
        (serve_rounds-packets rs rest (serve_all (packets r) s) c)

  -- Packets that are slices of a content come on the channels in any rounds, in any order, with any
  -- duplicates and with any of them dropped, so that each byte of the content is in one that was
  -- served. Then a final packet ends the loop, whatever would come behind it, and the file of the
  -- server is the content.
  pub serve_rounds-content :
      (rs : List Round) (fin : Packet) (later : List (List (Option Arrival)))
      → Slices (all_packets rs)
      → ((i : ℕ) → i < length content → Covered (all_packets rs) i)
      → (fin.header.is_last == 1) ≡ true
      → (s : Server) × (serve_rounds
            (all_arrivals rs ++ (some (some fin, false, true) ∷ []) ∷ later)
            fresh_server
          ≡ some s)
        × (s.file ≡ content)
  unfolding serve_rounds serve_channels serve_connection receive
  serve_rounds-content rs fin later a cover last =
      let s : Server = serve_all (all_packets rs) fresh_server in
      (
        receive fin s,
        serve_rounds-packets rs ((some (some fin, false, true) ∷ []) ∷ later) fresh_server a
            ∙ rw last refl,
        rw last (serve_all-content content (all_packets rs) a cover),
      )
