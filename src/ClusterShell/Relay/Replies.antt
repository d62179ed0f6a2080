-- ===== src/ClusterShell/Relay/Replies.antt =====
-- ClusterShell/clustershell_server.c: a command and the answers to it.
use network_programming_c.Prelude.{
  take-append, ℕ, suc, ◌+◌, ◌-◌, ◌<◌, ◌≡◌, ◌≢◌, refl, sym, ap, ◌∙◌, true, false, none, some, List,
  [], ◌∷◌, ◌++◌, length, length-append, append_assoc, get_or, take, drop, drop-append, ltb, ◌==◌,
  has_prefix, has_prefix-append, c_string, c_string-append, codes, All, arith,
}
use network_programming_c.ClusterShell.Relay.{
  Server, Thread, sends, text, route_from, relay, command, star, received, receives,
}

pub received-room :
    (bytes msg : List ℕ)
    → length bytes < length msg
    → received bytes msg ≡ some (bytes ++ 0 ∷ drop (length bytes + 1) msg)
unfolding received
received-room bytes msg h =
    let e : ltb (length bytes) (length msg) ≡ true = ground arith in rw e refl

-- No name before the one of the client is the beginning of the text.
abbrev pub NotNamed : List (List ℕ) → List ℕ → Type 0
NotNamed nodes s = All (λ node. has_prefix node s ≡ false) nodes

pub route_from-others :
    (nodes rest : List (List ℕ)) (i : ℕ) (fds msg : List ℕ)
    → NotNamed nodes (text msg)
    → route_from (nodes ++ rest) i fds msg ≡ route_from rest (i + length nodes) fds msg
unfolding route_from
route_from-others [] rest i fds msg a = let e : i + 0 ≡ i = omega arith in rw e refl
route_from-others (node ∷ nodes) rest i fds msg a =
    let e : i + length (node ∷ nodes) ≡ i + 1 + length nodes = omega arith in
    rw (a.0, route_from-others nodes rest (i + 1) fds msg a.1, e) refl

-- What stands behind the name and one byte more, with the zero.
take-argument :
    (node arg junk : List ℕ) (c : ℕ)
    → take
        (length (node ++ c ∷ arg) - length node)
        (drop (length node + 1) (node ++ c ∷ (arg ++ 0 ∷ junk)))
      ≡ arg ++ 0 ∷ []
take-argument node arg junk c =
    let m : length node + 1 ≡ length (node ++ c ∷ []) =
      omega (arith, length-append node (c ∷ [])) in
    let n : length (node ++ c ∷ arg) - length node ≡ length (arg ++ 0 ∷ []) =
      omega (arith, length-append node (c ∷ arg), length-append arg (0 ∷ [])) in
    rw
      (
        m,
        sym (append_assoc node (c ∷ []) (arg ++ 0 ∷ junk)),
        drop-append (node ++ c ∷ []) (arg ++ 0 ∷ junk),
        n,
        sym (append_assoc arg (0 ∷ []) junk),
      )
      (take-append (arg ++ 0 ∷ []) junk)

-- A command for the client `node`, at `i`, that is connected with `fd`: two bytes, the name, one
-- byte more, and the argument.
pub record IsRequest (s : Server) (before behind : List (List ℕ)) (node : List ℕ) (c : ℕ)
    (arg : List ℕ) : Type 0 where
  pub named : s.nodes ≡ before ++ node ∷ behind
  pub others : NotNamed before (node ++ c ∷ arg)
  pub bytes : All (λ a. a ≢ 0) (node ++ c ∷ arg)
  pub connected : get_or s.client_fds (length before) 0 ≢ 0
  pub no_nodes : has_prefix (codes "nodes") (node ++ c ∷ arg) ≡ false
  pub no_star : has_prefix (codes "n*.") (node ++ c ∷ arg) ≡ false
  pub idle : (s.send_to_fd ≡ none) × (s.send_to_fd_star ≡ none)

route_from-request :
    (s : Server) (before behind : List (List ℕ)) (node : List ℕ) (c a b : ℕ) (arg junk : List ℕ)
    → IsRequest s before behind node c arg
    → route_from s.nodes 0 s.client_fds (a ∷ b ∷ (node ++ c ∷ (arg ++ 0 ∷ junk)))
      ≡ some (sends (get_or s.client_fds (length before) 0) (arg ++ 0 ∷ []))
unfolding route_from
route_from-request s before behind node c a b arg junk r =
    let t : text (a ∷ b ∷ (node ++ c ∷ (arg ++ 0 ∷ junk))) ≡ node ++ c ∷ arg =
      rw (sym (append_assoc node (c ∷ arg) (0 ∷ junk)))
        (c_string-append (node ++ c ∷ arg) junk r.bytes) in
    let o : NotNamed before (text (a ∷ b ∷ (node ++ c ∷ (arg ++ 0 ∷ junk)))) = rw (t) r.others in
    let z : (get_or s.client_fds (length before) 0 == 0) ≡ false = ground (arith, r.connected) in
    let e : 0 + length before ≡ length before = omega arith in
    let d : 3 + length node ≡ suc (suc (length node + 1)) = omega arith in
    rw
      (
        r.named,
        route_from-others before (node ∷ behind) 0 s.client_fds
            (a ∷ b ∷ (node ++ c ∷ (arg ++ 0 ∷ junk))) o,
        route_from,
        e,
        t,
        has_prefix-append node (c ∷ arg),
        z,
        d,
      )
      (ap (λ x. some (sends (get_or s.client_fds (length before) 0) x))
        (take-argument node arg junk c))

-- The whole of a message is received, and stands in the buffer with a zero behind it.
abbrev pub Fits : List ℕ → Thread → Type 0
Fits bytes t = length bytes < length t.msg

relay-request :
    (s : Server) (t : Thread) (before behind : List (List ℕ)) (node : List ℕ) (c a b : ℕ)
    (arg junk : List ℕ)
    → IsRequest s before behind node c arg
    → relay s (record t { msg = a ∷ b ∷ (node ++ c ∷ (arg ++ 0 ∷ junk)) }) ≡ (
      record s { send_to_fd = some t.sock },
      record t { msg = a ∷ b ∷ (node ++ c ∷ (arg ++ 0 ∷ junk)) },
      sends (get_or s.client_fds (length before) 0) (arg ++ 0 ∷ []) ∷ [],
    )
unfolding relay command star
relay-request s t before behind node c a b arg junk r =
    let e : text (a ∷ b ∷ (node ++ c ∷ (arg ++ 0 ∷ junk))) ≡ node ++ c ∷ arg =
      rw (sym (append_assoc node (c ∷ arg) (0 ∷ junk)))
        (c_string-append (node ++ c ∷ arg) junk r.bytes) in
    rw
      (
        e,
        r.no_nodes,
        r.idle.0,
        r.idle.1,
        command,
        route_from-request s before behind node c a b arg junk r,
        e,
        r.no_star,
        r.idle.1,
      )
      refl

receives-request :
    (s : Server) (t : Thread) (before behind : List (List ℕ)) (node : List ℕ) (c a b : ℕ)
    (arg : List ℕ)
    → IsRequest s before behind node c arg
    → Fits (a ∷ b ∷ (node ++ c ∷ arg)) t
    → (t' : Thread) × (receives s t (a ∷ b ∷ (node ++ c ∷ arg))
        ≡ some (
          record s { send_to_fd = some t.sock },
          t',
          sends (get_or s.client_fds (length before) 0) (arg ++ 0 ∷ []) ∷ [],
        ))
unfolding receives
receives-request s t before behind node c a b arg r h =
    let junk : List ℕ = drop (length (a ∷ b ∷ (node ++ c ∷ arg)) + 1) t.msg in
    (
      record t { msg = a ∷ b ∷ (node ++ c ∷ (arg ++ 0 ∷ junk)) },
      rw
          (
            received-room (a ∷ b ∷ (node ++ c ∷ arg)) t.msg h,
            append_assoc node (c ∷ arg) (0 ∷ junk),
            relay-request s t before behind node c a b arg junk r,
          )
          refl,
    )

-- A message of at least two bytes that is not for the server itself.
abbrev pub IsAnswer : List ℕ → Thread → Type 0
IsAnswer [] u = ⊥
IsAnswer (a ∷ []) u = ⊥
IsAnswer (a ∷ b ∷ bytes) u =
    All (λ c. c ≢ 0) (a ∷ b ∷ bytes)
    × Fits (a ∷ b ∷ bytes) u
    × (has_prefix (codes "nodes") bytes ≡ false)

receives-answer :
    (s : Server) (u : Thread) (fd : ℕ) (bytes : List ℕ)
    → s.send_to_fd ≡ some fd
    → IsAnswer bytes u
    → (u' : Thread) × (receives s u bytes
        ≡ some (record s { send_to_fd = none }, u', sends fd bytes ∷ []))
unfolding receives relay
receives-answer s u fd [] e k = absurd k
receives-answer s u fd (a ∷ []) e k = absurd k
receives-answer s u fd (a ∷ b ∷ bytes) e (nz, h, p) =
    let junk : List ℕ = drop (length (a ∷ b ∷ bytes) + 1) u.msg in
    let q : c_string (bytes ++ 0 ∷ junk) ≡ bytes = c_string-append bytes junk nz.1.1 in
    let w : c_string (a ∷ b ∷ (bytes ++ 0 ∷ junk)) ≡ a ∷ b ∷ bytes =
      c_string-append (a ∷ b ∷ bytes) junk nz in
    (
      record u { msg = a ∷ b ∷ (bytes ++ 0 ∷ junk) },
      rw (received-room (a ∷ b ∷ bytes) u.msg h, q, p, e)
          (ap
            (λ x. some (
              record s { send_to_fd = none },
              record u { msg = a ∷ b ∷ (bytes ++ 0 ∷ junk) },
              sends fd x ∷ [],
            ))
            w),
    )

-- While the server waits for no answer, a command for one client goes to that client, its argument
-- with a zero behind it, and then the next message of any client that is not for the server
-- itself goes to the one that has sent the command; the server is then as before.
pub request-answer :
    (s : Server) (t u : Thread) (before behind : List (List ℕ)) (node : List ℕ) (c a b : ℕ)
    (arg answer : List ℕ)
    → IsRequest s before behind node c arg
    → Fits (a ∷ b ∷ (node ++ c ∷ arg)) t
    → IsAnswer answer u
    → (s' : Server) × (t' : Thread) × (u' : Thread) × (receives s t (a ∷ b ∷ (node ++ c ∷ arg))
        ≡ some (s', t', sends (get_or s.client_fds (length before) 0) (arg ++ 0 ∷ []) ∷ []))
      × (receives s' u answer ≡ some (s, u', sends t.sock answer ∷ []))
request-answer s t u before behind node c a b arg answer r h k =
    let (t', e) = receives-request s t before behind node c a b arg r h in
    let (u', f) = receives-answer (record s { send_to_fd = some t.sock }) u t.sock answer refl k in
    let same : record s { send_to_fd = none } ≡ s =
      ap (λ o. record s { send_to_fd = o }) (sym r.idle.0) in
    (
      record s { send_to_fd = some t.sock },
      t',
      u',
      e,
      f ∙ ap (λ x. some (x, u', sends t.sock answer ∷ [])) same,
    )
