-- ===== src/Sniffer/Tests.antt =====
-- The theorems on the counters, on the fields of a packet and on the dump at concrete inputs.
use network_programming_c.Prelude.{◌+◌, ◌≡◌, refl, List, [], ◌∷◌, ◌++◌, replicate, arith, codes}
use network_programming_c.Sniffer.{print_data, no_packets, Received, raw, ethernet, sniffs}
use network_programming_c.Sniffer.Counts.{counted, sniffs-counters}
use network_programming_c.Sniffer.Fields.{Address, IpHeader, ip_bytes, TcpHeader, IsTcpPacket}
use network_programming_c.Sniffer.Dump.{dump_rows}
use network_programming_c.Sniffer.Dump.Whole.{print_data-rows}

abbrev source : Address
source = record { a = 10; b = 0; c = 0; d = 1 }

abbrev ip : IpHeader
ip = record {
  words = 6;
  service = 0;
  total = 1044;
  identification = 7;
  fragment = 0;
  ttl = 64;
  protocol = 6;
  check = 513;
  source = source;
  destination = record source { d = 2 };
  options = 1 ∷ 1 ∷ 1 ∷ 0 ∷ [];
}

abbrev tcp : TcpHeader
tcp = record {
  source_port = 443;
  destination_port = 50000;
  seq_high = 2;
  seq_low = 3;
  ack_high = 0;
  ack_low = 9;
  offset = 80;
  fin = 0;
  syn = 1;
  rst = 0;
  psh = 0;
  ack = 1;
  urg = 0;
  window = 8192;
}

packet : IsTcpPacket ip tcp
packet = record {
  words = omega arith;
  options = refl;
  bits = (omega arith, omega arith, omega arith, omega arith, omega arith, omega arith);
}

abbrev captured : List Received
captured = raw (ip_bytes ip) ∷ ethernet (replicate 14 0 ++ ip_bytes ip) ∷ []

sniffs-counters_example :
    let c = (sniffs no_packets captured).0 in
    (c ≡ counted no_packets (6 ∷ 0 ∷ [])) × (c.total ≡ c.tcp + c.udp + c.icmp + c.igmp + c.others)
sniffs-counters_example = sniffs-counters captured

print_data-rows_example :
    print_data (codes "sixteen bytes ..and more" ++ 0 ∷ []) 24
    ≡ dump_rows (codes "sixteen bytes .." ∷ []) (codes "and more")
print_data-rows_example =
    print_data-rows (codes "sixteen bytes .." ∷ []) (codes "and more") (0 ∷ []) (refl, tt)
      (omega arith, omega arith)
