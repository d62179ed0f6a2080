-- ===== src/StopAndWait/Transfer/Phase.antt =====
-- N-Channel-StopNWait: the sending phase of a round, and what the server makes of it.
use network_programming_c.Prelude.{
  ℕ, zero, suc, ◌+◌, ◌≤◌, ◌<◌, ◌≡◌, refl, ap, ◌∙◌, ◌⊎◌, inl, inr, Bool, true, false, ◌||◌, none,
  some, List, [], ◌∷◌, ◌==◌, if◌then◌else◌, arith, length, length-drop,
}
use native.Mathlib.Decide.{dec_lt}
use network_programming_c.StopAndWait.Packets.{Packet}
use network_programming_c.StopAndWait.Chunks.Content.{
  carried, carried-full, carried-none, chunk_short,
}
use network_programming_c.StopAndWait.Server.{Server, receive, ack}
use network_programming_c.StopAndWait.Client.{Client, Reply, reply, no_eof, send_one, send_from}
use network_programming_c.StopAndWait.Transfer.{deliver}
use network_programming_c.StopAndWait.Transfer.Steps.{Inv, send_one-Inv}
use network_programming_c.StopAndWait.Transfer.Rounds.{
  exchange_lem, any_ack, NoFail, Fits, size_lem, ack-any,
}

or_true : (b : Bool) → (b || true) ≡ true
or_true true = refl
or_true false = refl

seq_no_self : (n : ℕ) → (n == n || false) ≡ true
seq_no_self n = ground arith

not_last : (n k : ℕ) → n + k < no_eof → (n == no_eof || false) ≡ false
not_last n k h = ground arith

module _ (size : ℕ) (pos : 0 < size) (drops : ℕ → ℕ) where
  -- The client goes on with the file, or it has sent all of it and the last number is acknowledged.
  abbrev pub Outcome : ℕ → Client → Client → List Reply → Type 0
  Outcome n c c' rs =
      ((c'.eof_seq_no ≡ no_eof)
        × (c'.last_packet ≡ none)
        × (length c'.fp + n ≤ length c.fp)
        × (any_ack no_eof rs ≡ false))
      ⊎ ((c'.fp ≡ []) × (any_ack c'.eof_seq_no rs ≡ true))

  -- The loop from channel `i` on sends `ps`, which the server answers by `rs`.
  pub record Sent (content : List ℕ) (i n : ℕ) (c : Client) (s : Server) (c' : Client)
      (ps : List Packet) (s' : Server) (rs : List Reply) : Type 0 where
    pub send : send_from size (λ _. true) n i c ≡ some (c', ps)
    pub served : deliver drops i ps s ≡ some (s', rs)
    pub inv : Inv size content c' s'
    pub fits : Fits c'.last_packet (i + length rs)
    pub fine : NoFail rs
    pub flag : c'.is_eof ≡ c.is_eof
    pub outcome : Outcome n c c' rs

  abbrev pub Sends : List ℕ → ℕ → ℕ → Client → Server → Type 0
  Sends content i n c s =
      (c' : Client) × (ps : List Packet) × (s' : Server) × (rs : List Reply) × Sent content i n c s
        c' ps s' rs

  send_nil : (i : ℕ) (c : Client) → send_from size (λ _. true) 0 i c ≡ some (c, [])
  unfolding send_from
  send_nil i c = refl

  send_zero :
      {content : List ℕ} (i : ℕ) (c : Client) (s : Server)
      → Inv size content c s
      → c.eof_seq_no ≡ no_eof
      → c.last_packet ≡ none
      → Sends content i 0 c s
  unfolding send_from deliver
  send_zero i c s v e l = (
    c,
    [],
    s,
    [],
    record {
      send = refl;
      served = refl;
      inv = v;
      fits = rw l tt;
      fine = tt;
      flag = refl;
      outcome = inl (e, l, omega arith, refl);
    },
  )

  module _ {content : List ℕ} (i : ℕ) (c : Client) (s : Server) (v : Inv size content c s) where
    -- The channel after which the loop breaks.
    send_last :
        (n : ℕ)
        → carried size pos c.fp ≡ 0
        → send_from size (λ _. true) (suc n) i c
          ≡ some (record (send_one size i c).0 { last_packet = some i }, (send_one size i c).1 ∷ [])
    unfolding send_from
    send_last n e = rw (size_lem size pos c s v i, e)

    send_more :
        (n : ℕ) (c' : Client) (ps : List Packet)
        → 0 < carried size pos c.fp
        → send_from size (λ _. true) n (suc i) (send_one size i c).0 ≡ some (c', ps)
        → send_from size (λ _. true) (suc n) i c ≡ some (c', (send_one size i c).1 ∷ ps)
    unfolding send_from
    send_more n c' ps e h =
        let f : (carried size pos c.fp == 0) ≡ false = ground arith in
        rw (size_lem size pos c s v i, f, h)

    deliver_cons :
        (ps : List Packet) (s' : Server) (rs : List Reply)
        → deliver drops (suc i) ps (receive (send_one size i c).1 s) ≡ some (s', rs)
        → deliver drops i ((send_one size i c).1 ∷ ps) s
          ≡ some (s', reply (drops i) (ack (send_one size i c).1) ∷ rs)
    unfolding deliver
    deliver_cons ps s' rs h = rw (exchange_lem (drops i) (send_one size i c).1 s, h)

    -- What one pass of the loop does to the fields, for a full chunk and for a short one.
    step_full :
        size ≤ length c.fp
        → (carried size pos c.fp ≡ size)
          × (length (send_one size i c).0.fp + size ≡ length c.fp)
          × ((send_one size i c).0.eof_seq_no ≡ c.eof_seq_no)
    unfolding send_one
    step_full h =
        let e = carried-full size pos c.fp h in
        (
          ap (λ ch. ch.payload_size) e,
          ap (λ ch. length ch.rest + size) e ∙ (omega (arith, length-drop size c.fp)),
          ap (λ ch. if ch.eof then c.seq_no else c.eof_seq_no) e,
        )

    step_short :
        length c.fp < size
        → ((send_one size i c).0.fp ≡ []) × ((send_one size i c).0.eof_seq_no ≡ c.seq_no)
    unfolding send_one
    step_short h =
        let (r, e) = chunk_short size pos c.fp h in
        (r, ap (λ b. if b then c.seq_no else c.eof_seq_no) e)

    step_keeps :
        ((send_one size i c).0.is_eof ≡ c.is_eof)
        × ((send_one size i c).0.last_packet ≡ c.last_packet)
    unfolding send_one
    step_keeps = (refl, refl)

    acked :
        (e k : ℕ) (rs : List Reply)
        → any_ack e (reply k (ack (send_one size i c).1) ∷ rs) ≡ (c.seq_no == e || any_ack e rs)
    acked e k rs = ack-any size pos c s v i k e rs

    deliver_nil :
        deliver drops (suc i) [] (receive (send_one size i c).1 s)
        ≡ some (receive (send_one size i c).1 s, [])
    unfolding deliver
    deliver_nil = refl

    Inv-after : Inv size content (send_one size i c).0 (receive (send_one size i c).1 s)
    Inv-after = send_one-Inv size pos i c s v

    -- A packet with bytes in it, and what follows it.
    Sends-prefix :
        (n : ℕ) (c' : Client) (ps : List Packet) (s' : Server) (rs : List Reply)
        → 0 < carried size pos c.fp
        → Sent content (suc i) n (send_one size i c).0 (receive (send_one size i c).1 s) c' ps s' rs
        → Outcome (suc n) c c' (reply (drops i) (ack (send_one size i c).1) ∷ rs)
        → Sends content i (suc n) c s
    Sends-prefix n c' ps s' rs k r o = (
      c',
      (send_one size i c).1 ∷ ps,
      s',
      reply (drops i) (ack (send_one size i c).1) ∷ rs,
      record {
        send = send_more n c' ps k r.send;
        served = deliver_cons ps s' rs r.served;
        inv = r.inv;
        fits = let q : suc i + length rs ≡ i + suc (length rs) = omega arith in rw (← q) r.fits;
        fine = r.fine;
        flag = r.flag ∙ step_keeps.0;
        outcome = o;
      },
    )

    Sends-full :
        (n : ℕ)
        → size ≤ length c.fp
        → c.eof_seq_no ≡ no_eof
        → Sends content (suc i) n (send_one size i c).0 (receive (send_one size i c).1 s)
        → Sends content i (suc n) c s
    Sends-full n h e (c', ps, s', rs, r) =
        let (k, len, eof) = step_full h in
        Sends-prefix n c' ps s' rs (omega (arith, k)) r (elim r.outcome [
          | inl (e', l', m, a) ↦
              inl (
                e',
                l',
                omega (arith, len),
                acked no_eof (drops i) rs ∙ (rw a (not_last _ _ v.room)),
              )
          | inr (f, a) ↦ inr (f, acked c'.eof_seq_no (drops i) rs ∙ (rw a (or_true _)))
        ])

    -- An empty chunk ends the loop.
    last : Client
    last = record (send_one size i c).0 { last_packet = some i }

    empty_acked :
        length c.fp < size
        → (last.fp ≡ [])
          × (any_ack last.eof_seq_no (reply (drops i) (ack (send_one size i c).1) ∷ []) ≡ true)
    unfolding last
    empty_acked h = (
      (step_short h).0,
      acked (send_one size i c).0.eof_seq_no (drops i) []
          ∙ (rw ((step_short h).1) (seq_no_self c.seq_no)),
    )

    Sent-empty :
        (n : ℕ)
        → length c.fp < size
        → carried size pos c.fp ≡ 0
        → Sent content i
            (suc n)
            c
            s
            last
            ((send_one size i c).1 ∷ [])
            (receive (send_one size i c).1 s)
            (reply (drops i) (ack (send_one size i c).1) ∷ [])
    unfolding last
    Sent-empty n h e = record {
      send = send_last n e;
      served = deliver_cons [] _ [] deliver_nil;
      inv = let w = Inv-after in record { file = w.file; at = w.at; text = w.text; room = w.room };
      fits = omega arith;
      fine = tt;
      flag = step_keeps.0;
      outcome = inr (empty_acked h);
    }

  module _ {content : List ℕ} (i : ℕ) (c : Client) (s : Server) (v : Inv size content c s) where
    carried-nil : (r : List ℕ) → r ≡ [] → carried size pos r ≡ 0
    carried-nil r e = rw e (ap (λ ch. ch.payload_size) (carried-none size pos))

    -- A short chunk with bytes in it: the loop ends here on the last channel, or with an empty
    -- chunk on the next one.
    Sends-short :
        (n : ℕ)
        → length c.fp < size
        → 0 < carried size pos c.fp
        → c.last_packet ≡ none
        → Sends content i (suc n) c s
    Sends-short zero h k l =
        let (nil, eof) = step_short i c s v h in
        (
          (send_one size i c).0,
          (send_one size i c).1 ∷ [],
          receive (send_one size i c).1 s,
          reply (drops i) (ack (send_one size i c).1) ∷ [],
          record {
            send =
                send_more i c s v zero (send_one size i c).0 [] k
                  (send_nil (suc i) (send_one size i c).0);
            served = deliver_cons i c s v [] _ [] (deliver_nil i c s v);
            inv = Inv-after i c s v;
            fits = rw ((step_keeps i c s v).1 ∙ l) tt;
            fine = tt;
            flag = (step_keeps i c s v).0;
            outcome = inr (
              nil,
              acked i c s v (send_one size i c).0.eof_seq_no (drops i) []
                  ∙ (rw eof (seq_no_self c.seq_no)),
            );
          },
        )
    Sends-short (suc n) h k l =
        let (nil, eof) = step_short i c s v h in
        let w = Inv-after i c s v in
        let none_left : length (send_one size i c).0.fp < size = rw nil pos in
        let done = empty_acked (suc i) (send_one size i c).0 _ w none_left in
        Sends-prefix i c s v (suc n) _ _ _ _ k
          (Sent-empty (suc i) (send_one size i c).0 _ w n none_left (carried-nil _ nil))
          (inr (
            done.0,
            acked i c s v _ (drops i)
                  (reply (drops (suc i)) (ack (send_one size (suc i) (send_one size i c).0).1) ∷ [])
                ∙ (rw (done.1) (or_true _)),
          ))

  pub sends_lem :
      {content : List ℕ} (n i : ℕ) (c : Client) (s : Server)
      → Inv size content c s
      → c.eof_seq_no ≡ no_eof
      → c.last_packet ≡ none
      → Sends content i n c s
  sends_lem zero i c s v e l = send_zero i c s v e l
  sends_lem (suc n) i c s v e l = elim (dec_lt (length c.fp) size) [
    | no full ↦
        let (k, len, eof) = step_full i c s v (omega arith) in
        Sends-full i c s v n (omega arith) e (
          sends_lem n (suc i) (send_one size i c).0 _ (send_one-Inv size pos i c s v) (eof ∙ e)
            ((step_keeps i c s v).1 ∙ l))
    | yes short ↦ elim (dec_lt 0 (carried size pos c.fp)) [
      | yes some_left ↦ Sends-short i c s v n short some_left l
      | no empty ↦ (_, _, _, _, Sent-empty i c s v n short (omega arith))
    ]
  ]
