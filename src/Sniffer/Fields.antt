-- ===== src/Sniffer/Fields.antt =====
-- Sniffer/read_messages.c: a TCP packet put together from its fields, and what is printed for it.
use network_programming_c.Prelude.{
  ℕ, ◌+◌, ◌*◌, ◌/◌, ◌%◌, ◌<◌, ◌≡◌, refl, List, [], ◌∷◌, ◌++◌, length, drop-append, arith, codes,
}
use network_programming_c.Sniffer.{
  line, number, address, be16, be32, print_ip_header, header_length, print_tcp_packet,
}

pub record Address : Type 0 where
  pub a : ℕ
  pub b : ℕ
  pub c : ℕ
  pub d : ℕ

abbrev pub address_bytes : Address → List ℕ
address_bytes x = x.a ∷ x.b ∷ x.c ∷ x.d ∷ []

abbrev pub word_bytes : ℕ → List ℕ
word_bytes n = n / 256 ∷ n % 256 ∷ []

-- An IP header: `words` is its length in words of 4 bytes, and `options` stand behind the fixed
-- part. The other fields are those that are not printed.
pub record IpHeader : Type 0 where
  pub words : ℕ
  pub service : ℕ
  pub total : ℕ
  pub identification : ℕ
  pub fragment : ℕ
  pub ttl : ℕ
  pub protocol : ℕ
  pub check : ℕ
  pub source : Address
  pub destination : Address
  pub options : List ℕ

abbrev pub ip_bytes : IpHeader → List ℕ
ip_bytes h =
    (64 + h.words)
    ∷ h.service
    ∷ (word_bytes h.total
        ++ (word_bytes h.identification
            ++ (word_bytes h.fragment
                ++ (h.ttl
                    ∷ h.protocol
                    ∷ (word_bytes h.check
                        ++ (address_bytes h.source
                            ++ (address_bytes h.destination ++ h.options)))))))

pub record TcpHeader : Type 0 where
  pub source_port : ℕ
  pub destination_port : ℕ
  pub seq_high : ℕ
  pub seq_low : ℕ
  pub ack_high : ℕ
  pub ack_low : ℕ
  pub offset : ℕ
  pub fin : ℕ
  pub syn : ℕ
  pub rst : ℕ
  pub psh : ℕ
  pub ack : ℕ
  pub urg : ℕ
  pub window : ℕ

abbrev pub flags_of : TcpHeader → ℕ
flags_of t = t.fin + 2 * t.syn + 4 * t.rst + 8 * t.psh + 16 * t.ack + 32 * t.urg

abbrev pub tcp_bytes : TcpHeader → List ℕ
tcp_bytes t =
    word_bytes t.source_port
    ++ (word_bytes t.destination_port
        ++ (word_bytes t.seq_high
            ++ (word_bytes t.seq_low
                ++ (word_bytes t.ack_high
                    ++ (word_bytes t.ack_low ++ (t.offset ∷ flags_of t ∷ word_bytes t.window))))))

-- The header is as long as it says, and each flag is one bit.
pub record IsTcpPacket (h : IpHeader) (t : TcpHeader) : Type 0 where
  pub words : h.words < 16
  pub options : length h.options + 20 ≡ h.words * 4
  pub bits : (t.fin < 2) × (t.syn < 2) × (t.rst < 2) × (t.psh < 2) × (t.ack < 2) × (t.urg < 2)

length-ip_bytes : (h : IpHeader) → length (ip_bytes h) ≡ length h.options + 20
length-ip_bytes h = omega arith

header_length_lem :
    (h : IpHeader) (t : TcpHeader) (rest : List ℕ)
    → IsTcpPacket h t
    → header_length (ip_bytes h ++ rest) ≡ length (ip_bytes h)
header_length_lem h t rest p = omega (arith, p.words, p.options, length-ip_bytes h)

-- For a packet that is put together from an IP header with its options, a TCP header and any data,
-- the log has exactly the addresses, the time to live, the protocol, the ports, the sequence
-- number, the four flags and the window that were put into the headers.
pub print_tcp_packet-fields :
    (h : IpHeader) (t : TcpHeader) (rest : List ℕ)
    → IsTcpPacket h t
    → print_tcp_packet (ip_bytes h ++ (tcp_bytes t ++ rest)) ≡ (
        line (codes "TCP Packet")
        ∷ line (codes "IP Header")
        ∷ address (codes "Source IP") (address_bytes h.source)
        ∷ address (codes "Destination IP") (address_bytes h.destination)
        ∷ number (codes "TTL") h.ttl
        ∷ number (codes "Protocol") h.protocol
        ∷ line (codes "TCP Header")
        ∷ number (codes "Source Port") t.source_port
        ∷ number (codes "Destination Port") t.destination_port
        ∷ number (codes "Sequence Number") (t.seq_high * 65536 + t.seq_low)
        ∷ number (codes "ACK") t.ack
        ∷ number (codes "RST") t.rst
        ∷ number (codes "SYN") t.syn
        ∷ number (codes "FIN") t.fin
        ∷ number (codes "WINDOW") t.window
        ∷ [])
unfolding print_tcp_packet print_ip_header be16 be32
print_tcp_packet-fields h t rest p =
    let e : (n : ℕ) → n / 256 * 256 + n % 256 ≡ n = λ n. omega arith in
    let k : flags_of t / 16 % 2 ≡ t.ack = omega (arith, p.bits) in
    let r : flags_of t / 4 % 2 ≡ t.rst = omega (arith, p.bits) in
    let s : flags_of t / 2 % 2 ≡ t.syn = omega (arith, p.bits) in
    let f : flags_of t / 1 % 2 ≡ t.fin = omega (arith, p.bits) in
    rw
      (
        header_length_lem h t (tcp_bytes t ++ rest) p,
        drop-append (ip_bytes h) (tcp_bytes t ++ rest),
        e t.source_port,
        e t.destination_port,
        e t.seq_high,
        e t.seq_low,
        e t.window,
        k,
        r,
        s,
        f,
      )
      refl
