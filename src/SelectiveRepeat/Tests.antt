-- ===== src/SelectiveRepeat/Tests.antt =====
-- The theorem on the end of a relay at a concrete input.
use network_programming_c.Prelude.{ℕ, false, List, length, codes}
use network_programming_c.SelectiveRepeat.{Wire, Relay, Arrival}

-- A packet with its fields in the order of the host.
record Plain : Type 0 where
  pub number : ℕ
  pub final : ℕ
  pub text : List ℕ

abbrev wire : Wire Plain
wire = record {
  size = λ p. length p.text;
  seq_no = λ p. p.number;
  is_last = λ p. p.final;
  payload = λ p. p.text;
  with_seq_no = λ n p. record p { number = n };
  with_ack = λ p. p;
  htonll = λ n. n;
  ntohll = λ n. n;
}

abbrev fin : Plain
fin = record { number = 3; final = 1; text = codes "exit" }

abbrev start_relay : Relay
start_relay = record { dst_addr = 9; cli_addr = 0; last_seq_no = 0; is_last = 0 }

abbrev arrival : Plain → Arrival Plain
arrival p = record { from = 7; packet = p; drops = false }
