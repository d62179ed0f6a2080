-- ===== src/Sniffer.antt =====
-- Sniffer/read_messages.c: what is printed to the log for a packet, and the counters. The layout of
-- the headers is that of the system's header files on a little-endian machine with pointers of 8
-- bytes. The log is a list of what the calls of `fprintf` print; `mutex` makes the handling of a
-- packet one step.
pub mod Counts
pub mod Fields
pub mod Dump
mod Tests
use network_programming_c.Prelude.{
  ℕ, zero, suc, ◌+◌, ◌-◌, ◌*◌, ◌/◌, ◌%◌, Bool, ◌&&◌, not, List, [], ◌∷◌, ◌++◌, map, get_or, take,
  drop, replicate, leb, ◌==◌, if◌then◌else◌, codes,
}

-- A fixed text; a label with a number, or with the bytes of an address; and in a dump: a byte in
-- hexadecimal, three spaces for none, the margin, the space before the characters, a character, a
-- dot for a byte that is none, and the end of a line.
pub data Entry : Type 0 where
  line : List ℕ → Entry
  number : List ℕ → ℕ → Entry
  address : List ℕ → List ℕ → Entry
  hex : ℕ → Entry
  gap : Entry
  margin : Entry
  wide : Entry
  char : ℕ → Entry
  dot : Entry
  end_line : Entry

abbrev pub row_size : ℕ
row_size = 16

unfoldable pub shown : ℕ → Entry
shown b = if leb 32 b && leb b 128 then char b else dot

-- `data[j]` for `j` from `from` on, `count` times.
abbrev pub slice : List ℕ → ℕ → ℕ → List ℕ
slice bytes from count = take count (drop from bytes)

-- The characters of a row.
unfoldable pub text_of : List ℕ → List Entry
text_of row = wide ∷ (map shown row ++ end_line ∷ [])

-- The body of the loop of `print_data`.
unfoldable pub print_byte : List ℕ → ℕ → ℕ → List Entry
print_byte bytes size i =
    (if not (i == 0) && i % row_size == 0
      then text_of (slice bytes (i - row_size) row_size)
      else [])
    ++ ((if i % row_size == 0 then margin ∷ [] else [])
        ++ (hex (get_or bytes i 0)
            ∷ (if i == size - 1
                then replicate (row_size - 1 - i % row_size) gap
                  ++ text_of (slice bytes (i - i % row_size) (i % row_size + 1))
                else [])))

-- The loop, for `left` bytes from `i` on.
unfoldable pub print_from : ℕ → List ℕ → ℕ → ℕ → List Entry
unfolding print_byte
print_from zero bytes size i = []
print_from (suc left) bytes size i = print_byte bytes size i ++ print_from left bytes size (i + 1)

unfoldable pub print_data : List ℕ → ℕ → List Entry
unfolding print_from
print_data bytes size = print_from size bytes size 0

-- A number of two or four bytes in network order.
unfoldable pub be16 : List ℕ → ℕ → ℕ
be16 buffer at = get_or buffer at 0 * 256 + get_or buffer (at + 1) 0

unfoldable pub be32 : List ℕ → ℕ → ℕ
unfolding be16
be32 buffer at = be16 buffer at * 65536 + be16 buffer (at + 2)

-- The protocol is printed in the order of the machine.
unfoldable pub print_ethernet_header : List ℕ → List Entry
print_ethernet_header buffer =
    line (codes "Ethernet Header")
    ∷ address (codes "Destination Address") (slice buffer 0 6)
    ∷ address (codes "Source Address") (slice buffer 6 6)
    ∷ number (codes "Protocol") (get_or buffer 12 0 + get_or buffer 13 0 * 256)
    ∷ []

abbrev pub protocol_of : List ℕ → ℕ
protocol_of buffer = get_or buffer 9 0

unfoldable pub print_ip_header : List ℕ → List Entry
print_ip_header buffer =
    line (codes "IP Header")
    ∷ address (codes "Source IP") (slice buffer 12 4)
    ∷ address (codes "Destination IP") (slice buffer 16 4)
    ∷ number (codes "TTL") (get_or buffer 8 0)
    ∷ number (codes "Protocol") (protocol_of buffer)
    ∷ []

-- `iph->ihl*4`.
abbrev pub header_length : List ℕ → ℕ
header_length buffer = get_or buffer 0 0 % 16 * 4

-- The bit of the flags with this value.
abbrev pub flag : List ℕ → ℕ → ℕ
flag tcph bit = get_or tcph 13 0 / bit % 2

unfoldable pub print_tcp_packet : List ℕ → List Entry
unfolding print_ip_header be16 be32
print_tcp_packet buffer =
    let tcph : List ℕ = drop (header_length buffer) buffer in
    line (codes "TCP Packet")
    ∷ (print_ip_header buffer
        ++ (line (codes "TCP Header")
            ∷ number (codes "Source Port") (be16 tcph 0)
            ∷ number (codes "Destination Port") (be16 tcph 2)
            ∷ number (codes "Sequence Number") (be32 tcph 4)
            ∷ number (codes "ACK") (flag tcph 16)
            ∷ number (codes "RST") (flag tcph 4)
            ∷ number (codes "SYN") (flag tcph 2)
            ∷ number (codes "FIN") (flag tcph 1)
            ∷ number (codes "WINDOW") (be16 tcph 14)
            ∷ []))

-- `sizeof udph` is the size of a pointer.
unfoldable pub print_udp_packet : List ℕ → List Entry
unfolding print_ip_header be16 print_data
print_udp_packet buffer =
    let udph : List ℕ = drop (header_length buffer) buffer in
    line (codes "UDP Packet")
    ∷ (print_ip_header buffer
        ++ (line (codes "UDP Header")
            ∷ number (codes "Source Port") (be16 udph 0)
            ∷ number (codes "Destination Port") (be16 udph 2)
            ∷ line (codes "IP Header")
            ∷ (print_data buffer (header_length buffer)
                ++ (line (codes "UDP Header") ∷ print_data udph 8))))

unfoldable pub print_icmp_packet : List ℕ → List Entry
unfolding print_ip_header
print_icmp_packet buffer =
    let icmph : List ℕ = drop (header_length buffer) buffer in
    line (codes "ICMP Packet")
    ∷ (print_ip_header buffer
        ++ (line (codes "ICMP Header") ∷ number (codes "Type") (get_or icmph 0 0) ∷ []))

pub record Counters : Type 0 where
  pub tcp : ℕ
  pub udp : ℕ
  pub icmp : ℕ
  pub igmp : ℕ
  pub others : ℕ
  pub total : ℕ

abbrev pub no_packets : Counters
no_packets = record { tcp = 0; udp = 0; icmp = 0; igmp = 0; others = 0; total = 0 }

unfoldable pub process_packet : Counters → List ℕ → Counters × List Entry
unfolding print_icmp_packet print_tcp_packet print_udp_packet
process_packet c buffer =
    let n : Counters = record c { total = c.total + 1 } in
    if protocol_of buffer == 1
    then (record n { icmp = c.icmp + 1 }, print_icmp_packet buffer)
    else (if protocol_of buffer == 2
        then (record n { igmp = c.igmp + 1 }, print_ip_header buffer)
        else (if protocol_of buffer == 6
            then (record n { tcp = c.tcp + 1 }, print_tcp_packet buffer)
            else (if protocol_of buffer == 17
                then (record n { udp = c.udp + 1 }, print_udp_packet buffer)
                else (record n { others = c.others + 1 }, print_ip_header buffer))))

-- What the loop of `main` receives, from the IP header on, and what that of `ThreadEntry` receives,
-- from the ethernet header on.
pub data Received : Type 0 where
  raw : List ℕ → Received
  ethernet : List ℕ → Received

unfoldable pub handles : Counters → Received → Counters × List Entry
unfolding process_packet print_ethernet_header
handles c (raw buffer) = process_packet c buffer
handles c (ethernet buffer) =
    let (c', log) = process_packet c buffer in (c', print_ethernet_header buffer ++ log)

-- The two loops, in the order in which they get the mutex, with all of the log.
unfoldable pub sniffs : Counters → List Received → Counters × List Entry
unfolding handles
sniffs c [] = (c, [])
sniffs c (r ∷ rs) =
    let (c1, log) = handles c r in let (c2, more) = sniffs c1 rs in (c2, log ++ more)
