-- ===== src/SelectiveRepeat/ClientTests.antt =====
-- The theorems on the client, alone and with a relay and the server, at a concrete input.
use network_programming_c.Prelude.{
  ℕ, ◌+◌, ◌≡◌, ◌≤◌, refl, subst, sym, Bool, true, false, inl, some, none, List, [], ◌++◌, ◌∷◌, take,
  arith, All, codes,
}
use network_programming_c.StopAndWait.Packets.{strncpy}
use network_programming_c.StopAndWait.Server.Delivery.{Slice}
use network_programming_c.SelectiveRepeat.{
  Wire, Relay, Round, fresh_server, serve_all, relay_rounds,
}
use network_programming_c.SelectiveRepeat.Rounds.{forwarded, all_kept}
use network_programming_c.SelectiveRepeat.Delivered.{packets_of, From, delivered}
use network_programming_c.SelectiveRepeat.Content.{IsSlice}
use network_programming_c.SelectiveRepeat.Client.{
  Chunk, Utils, Network, init_client, connection_loop, round, send_phase, send_from,
}
use network_programming_c.SelectiveRepeat.Client.Slices.{IsUtils, Reads, connection_loop-IsSlice}

record Plain : Type 0 where
  pub size : ℕ
  pub number : ℕ
  pub final : ℕ
  pub kind : ℕ
  pub text : List ℕ

abbrev wire : Wire Plain
wire = record {
  size = λ p. p.size;
  seq_no = λ p. p.number;
  is_last = λ p. p.final;
  payload = λ p. p.text;
  with_seq_no = λ n p. record p { number = n };
  with_ack = λ p. record p { kind = 1 };
  htonll = λ n. n;
  ntohll = λ n. n;
}

-- The file is read in one piece; `true` is its end.
abbrev next_chunk : Bool → Bool × Chunk
next_chunk false = (true, record { buffer = codes "abc"; size = 3; eof = true })
next_chunk true = (true, record { buffer = []; size = 0; eof = true })

abbrev utils : Utils Bool Plain
utils = record {
  make = λ s q l t i d. record { size = s; number = q; final = l; kind = t; text = d };
  zeros = record { size = 0; number = 0; final = 0; kind = 0; text = [] };
  type_of = λ p. p.kind;
  get_next_chunk = next_chunk;
  packet_size = 5;
  num_channels = 2;
}

laws : IsUtils wire utils
laws = record {
  size = λ s q l t i d. refl;
  seq_no = λ s q l t i d. refl;
  is_last = λ s q l t i d. refl;
  payload = λ s q l t i d. refl;
  order = λ n h. refl;
  zeros = (refl, refl);
}

abbrev At : Bool → ℕ → Type 0
At false pos = pos ≡ 0
At true pos = pos ≡ 3

abbrev ReadAt : Bool → ℕ → Type 0
ReadAt f pos =
    let (f', chunk) = next_chunk f in
    Slice (codes "abc") pos (take chunk.size (strncpy 5 chunk.buffer))
    × (pos + chunk.size ≤ 3)
    × At f' (pos + chunk.size)

read_start : ReadAt false 0
unfolding strncpy
read_start = ((omega arith, refl, (omega arith, refl, (omega arith, refl, tt))), omega arith, refl)

read_end : ReadAt true 3
unfolding strncpy
read_end = (tt, omega arith, refl)

reads : Reads utils (codes "abc") At
reads false pos a = subst (ReadAt false) (sym a) read_start
reads true pos a = subst (ReadAt true) (sym a) read_end

-- The first packet of every channel is sent twice, and the packet of channel 0 is acknowledged at
-- both.
abbrev network : Network Plain
network = record {
  timeouts = λ i. 1;
  answers = λ i. record { size = 3; number = 3; final = 0; kind = 1; text = codes "abc" };
  fin_timeouts = 1;
}

connection_loop-IsSlice_example :
    let (c, sent, fin) =
      connection_loop wire utils (network ∷ network ∷ []) (init_client wire utils false) in
    All (λ (i, p). IsSlice wire (codes "abc") p) sent × All (λ (i, p). p.final ≡ 1) fin
connection_loop-IsSlice_example =
    connection_loop-IsSlice wire utils (codes "abc") At laws reads (omega arith) false
      (network ∷ network ∷ []) refl

-- The packet of the file, as the client makes it.
abbrev packet : Plain
packet = record { size = 3; number = 0; final = 0; kind = 0; text = codes "abc" ++ 0 ∷ 0 ∷ [] }

abbrev rounds : List (Round Plain)
rounds =
    record {
      answer = none;
      channels = some (record { from = 7; packet = packet; drops = true }) ∷ [];
    }
    ∷ record {
      answer = none;
      channels = some (record { from = 7; packet = packet; drops = false }) ∷ [];
    }
    ∷ []

abbrev relay_start : Relay
relay_start = record { dst_addr = 9; cli_addr = 0; last_seq_no = 0; is_last = 0 }

rounds-From :
    From
      (packets_of (connection_loop wire utils (network ∷ []) (init_client wire utils false)).1)
      (all_kept rounds)
unfolding connection_loop round send_phase send_from strncpy
rounds-From = (inl refl, tt)

delivered_example :
    (serve_all wire (forwarded (relay_rounds wire rounds relay_start).1) fresh_server).0.file
    ≡ codes "abc"
delivered_example =
    delivered wire utils (codes "abc") At false (network ∷ []) rounds relay_start laws reads
      (omega arith) refl rounds-From ((tt, (refl, tt)), ((tt, (refl, tt)), tt)) refl
      (λ i h. inl (omega arith, omega arith))
