-- ===== src/ClusterShell/Relay/Broadcast.antt =====
-- ClusterShell/clustershell_server.c: a command for all clients and the first answer to it.
use network_programming_c.Prelude.{
  ℕ, suc, ◌+◌, ◌≡◌, ◌≢◌, refl, sym, ap, ◌∙◌, true, false, none, some, List, [], ◌∷◌, ◌++◌, length,
  drop, map, take-append, ltb, ◌==◌, has_prefix, c_string, c_string-append, codes, All, arith,
}
use network_programming_c.ClusterShell.Relay.{
  Server, Thread, sends, text, route_from, send_to_all, relay, command, star, answer_star, receives,
}
use network_programming_c.ClusterShell.Relay.Replies.{received-room, NotNamed, Fits, IsAnswer}

-- A command for all clients: two bytes, `n*.`, and the command, which is not empty.
pub record IsBroadcast (s : Server) (t : Thread) (a b c : ℕ) (arg : List ℕ) : Type 0 where
  pub others : NotNamed s.nodes (codes "n*." ++ c ∷ arg)
  pub bytes : All (λ d. d ≢ 0) (c ∷ arg)
  pub fits : Fits (a ∷ b ∷ (codes "n*." ++ c ∷ arg)) t
  pub idle : (s.send_to_fd ≡ none) × (s.send_to_fd_star ≡ none)

route_from-none :
    (nodes : List (List ℕ)) (i : ℕ) (fds msg : List ℕ)
    → NotNamed nodes (text msg)
    → route_from nodes i fds msg ≡ none
unfolding route_from
route_from-none [] i fds msg a = refl
route_from-none (node ∷ nodes) i fds msg a =
    rw (a.0, route_from-none nodes (i + 1) fds msg a.1) refl

receives-broadcast :
    (s : Server) (t : Thread) (a b c : ℕ) (arg : List ℕ)
    → IsBroadcast s t a b c arg
    → (t' : Thread) × (receives s t (a ∷ b ∷ (codes "n*." ++ c ∷ arg))
        ≡ some (record s { send_to_fd_star = some t.sock }, t', send_to_all s (c ∷ arg)))
unfolding receives relay command star has_prefix
receives-broadcast s t a b c arg r =
    let m : List ℕ = codes "n*." ++ c ∷ arg in
    let junk : List ℕ = drop (length (a ∷ b ∷ m) + 1) t.msg in
    let q : c_string (m ++ 0 ∷ junk) ≡ m =
      c_string-append m junk (ground arith, (ground arith, (ground arith, r.bytes))) in
    let w : c_string (arg ++ 0 ∷ junk) ≡ arg = c_string-append arg junk r.bytes.1 in
    let long : ltb 3 (suc (suc (suc (suc (length arg))))) ≡ true = ground arith in
    let nz : (c == 0) ≡ false = ground (arith, r.bytes.0) in
    let o : route_from s.nodes 0 s.client_fds (a ∷ b ∷ (m ++ 0 ∷ junk)) ≡ none =
      route_from-none s.nodes 0 s.client_fds (a ∷ b ∷ (m ++ 0 ∷ junk)) (rw (q) r.others) in
    (
      record t { msg = a ∷ b ∷ (m ++ 0 ∷ junk); counter = s.n },
      rw
          (
            received-room (a ∷ b ∷ m) t.msg r.fits,
            relay,
            r.idle.0,
            r.idle.1,
            command,
            o,
            star,
            nz,
            w,
            long,
            r.idle.0,
            send_to_all,
          )
          refl,
    )

-- A client that has sent no command for all clients has the counter 0.
receives-dropped :
    (s : Server) (u : Thread) (fd : ℕ) (answer : List ℕ)
    → s.send_to_fd ≡ none
    → s.send_to_fd_star ≡ some fd
    → u.counter ≡ 0
    → IsAnswer answer u
    → (u' : Thread) × (receives s u answer ≡ some (record s { send_to_fd_star = none }, u', []))
unfolding receives relay answer_star
receives-dropped s u fd [] d e z k = absurd k
receives-dropped s u fd (a ∷ []) d e z k = absurd k
receives-dropped s u fd (a ∷ b ∷ bytes) d e z (nz, h, p) =
    let junk : List ℕ = drop (length (a ∷ b ∷ bytes) + 1) u.msg in
    let q : c_string (bytes ++ 0 ∷ junk) ≡ bytes = c_string-append bytes junk nz.1.1 in
    (
      record u { msg = a ∷ b ∷ (bytes ++ 0 ∷ junk) },
      rw (received-room (a ∷ b ∷ bytes) u.msg h, relay, q, p, d, e, answer_star, z, d) refl,
    )

-- `socks` are the sockets that the server has accepted, in their order.
pub record HasAccepted (s : Server) (socks rest : List ℕ) : Type 0 where
  pub table : s.client_fds ≡ socks ++ rest
  pub count : s.n ≡ length socks

send_to_all-HasAccepted :
    (s : Server) (socks rest msg : List ℕ)
    → HasAccepted s socks rest
    → send_to_all s msg ≡ map (λ fd. sends fd msg) socks
unfolding send_to_all
send_to_all-HasAccepted s socks rest msg h = rw (h.table, h.count, take-append socks rest) refl

-- While the server waits for no answer, a command for all clients goes, without its `n*.`, once to
-- each of the sockets that it has accepted, in their order, the sender's own included, and to
-- nobody else; and then the first message of a client that has sent no such command itself, and
-- that is not for the server, goes to nobody, and the server waits for no answer any more.
pub broadcast-dropped :
    (s : Server) (t u : Thread) (a b c : ℕ) (arg answer socks rest : List ℕ)
    → IsBroadcast s t a b c arg
    → HasAccepted s socks rest
    → u.counter ≡ 0
    → IsAnswer answer u
    → (s' : Server) × (t' : Thread) × (u' : Thread) × (receives s t
          (a ∷ b ∷ (codes "n*." ++ c ∷ arg))
        ≡ some (s', t', map (λ fd. sends fd (c ∷ arg)) socks))
      × (receives s' u answer ≡ some (s, u', []))
broadcast-dropped s t u a b c arg answer socks rest r h z k =
    let (t', e) = receives-broadcast s t a b c arg r in
    let (u', f) =
      receives-dropped (record s { send_to_fd_star = some t.sock }) u t.sock answer r.idle.0 refl z
        k in
    let same : record s { send_to_fd_star = none } ≡ s =
      ap (λ o. record s { send_to_fd_star = o }) (sym r.idle.1) in
    let l = send_to_all-HasAccepted s socks rest (c ∷ arg) h in
    (
      record s { send_to_fd_star = some t.sock },
      t',
      u',
      e ∙ ap (λ m. some (record s { send_to_fd_star = some t.sock }, t', m)) l,
      f ∙ ap (λ x. some (x, u', [])) same,
    )
