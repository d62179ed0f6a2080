-- ===== src/Sniffer/Counts.antt =====
-- Sniffer/read_messages.c: the counters after any number of packets.
use network_programming_c.Prelude.{
  ℕ, ◌+◌, ◌≡◌, ap, ◌∙◌, Bool, true, false, ◌&&◌, not, List, [], ◌∷◌, length, map, ◌==◌, arith,
}
use network_programming_c.Sniffer.{
  protocol_of, Counters, no_packets, process_packet, Received, raw, ethernet, handles, sniffs,
}

-- The byte that a buffer is classified by.
abbrev pub class : Received → ℕ
class (raw buffer) = protocol_of buffer
class (ethernet buffer) = protocol_of buffer

abbrev one_if : Bool → ℕ
one_if true = 1
one_if false = 0

-- How many of the numbers pass the test.
abbrev pub count : (ℕ → Bool) → List ℕ → ℕ
count p [] = 0
count p (x ∷ xs) = one_if (p x) + count p xs

-- No protocol with a counter of its own.
abbrev pub is_other : ℕ → Bool
is_other x = not (x == 1) && (not (x == 2) && (not (x == 6) && not (x == 17)))

-- The counters with those of these protocols added.
abbrev pub counted : Counters → List ℕ → Counters
counted c xs = record {
  tcp = c.tcp + count (λ x. x == 6) xs;
  udp = c.udp + count (λ x. x == 17) xs;
  icmp = c.icmp + count (λ x. x == 1) xs;
  igmp = c.igmp + count (λ x. x == 2) xs;
  others = c.others + count is_other xs;
  total = c.total + length xs;
}

Counters-eq :
    (a b : Counters)
    → a.tcp ≡ b.tcp
    → a.udp ≡ b.udp
    → a.icmp ≡ b.icmp
    → a.igmp ≡ b.igmp
    → a.others ≡ b.others
    → a.total ≡ b.total
    → a ≡ b
Counters-eq a b p q r s t u =
    λ k. record { tcp = p k; udp = q k; icmp = r k; igmp = s k; others = t k; total = u k }

process_packet-counted :
    (c : Counters) (buffer : List ℕ)
    → (process_packet c buffer).0 ≡ counted c (protocol_of buffer ∷ [])
unfolding process_packet
process_packet-counted c buffer =
    Counters-eq (process_packet c buffer).0 (counted c (protocol_of buffer ∷ [])) (ground arith)
      (ground arith) (ground arith) (ground arith) (ground arith) (ground arith)

handles-counted : (c : Counters) (r : Received) → (handles c r).0 ≡ counted c (class r ∷ [])
unfolding handles
handles-counted c (raw buffer) = process_packet-counted c buffer
handles-counted c (ethernet buffer) = process_packet-counted c buffer

counted-append :
    (c : Counters) (x : ℕ) (xs : List ℕ) → counted (counted c (x ∷ [])) xs ≡ counted c (x ∷ xs)
counted-append c x xs =
    Counters-eq (counted (counted c (x ∷ [])) xs) (counted c (x ∷ xs)) (omega arith) (omega arith)
      (omega arith) (omega arith) (omega arith) (omega arith)

sniffs-counted : (c : Counters) (rs : List Received) → (sniffs c rs).0 ≡ counted c (map class rs)
unfolding sniffs
sniffs-counted c [] =
    Counters-eq c (counted c []) (omega arith) (omega arith) (omega arith) (omega arith)
      (omega arith) (omega arith)
sniffs-counted c (r ∷ rs) =
    sniffs-counted (handles c r).0 rs
    ∙ (ap (λ d. counted d (map class rs)) (handles-counted c r)
        ∙ counted-append c (class r) (map class rs))

sums :
    (xs : List ℕ)
    → count (λ x. x == 6) xs
        + count (λ x. x == 17) xs
        + count (λ x. x == 1) xs
        + count (λ x. x == 2) xs
        + count is_other xs
      ≡ length xs
sums [] = omega arith
sums (x ∷ xs) = ground (arith, sums xs)

-- After any packets that the two loops have received, each counter is the number of the packets
-- whose byte at index 9 is its protocol, from the IP header on for the one loop and from the
-- ethernet header on for the other, and the total is their sum, the number of all packets. The
-- counters do not reach the end of an `int`.
pub sniffs-counters :
    (rs : List Received)
    → let c = (sniffs no_packets rs).0 in
      (c ≡ counted no_packets (map class rs))
      × (c.total ≡ c.tcp + c.udp + c.icmp + c.igmp + c.others)
sniffs-counters rs =
    let e = sniffs-counted no_packets rs in (e, rw e (omega (arith, sums (map class rs))))
