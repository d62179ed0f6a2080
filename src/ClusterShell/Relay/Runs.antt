-- ===== src/ClusterShell/Relay/Runs.antt =====
-- ClusterShell/clustershell_server.c: the server with the threads of its clients, from its start.
use network_programming_c.Prelude.{
  ℕ, zero, suc, ◌<◌, ◌≡◌, ◌≢◌, refl, sym, ap, ◌∙◌, false, Bool-cases, inl, inr, none, some, List,
  [], ◌∷◌, ◌++◌, length, length-append, length-set, length-replicate, set, take, replicate, All,
  arith, ltb, Ensures, Ensures-some, ◌==◌,
}
use network_programming_c.ClusterShell.{Client, remove_client, remove_behind}
use network_programming_c.ClusterShell.Config.{max_nodes}
use network_programming_c.ClusterShell.Relay.{
  Server, Thread, Sent, accepts, starts, receives, leaves,
}
use network_programming_c.ClusterShell.Relay.Keeps.{Keeps, receives-Keeps}

-- The globals when the configuration is read.
unfoldable pub start_server : List (List ℕ) → Server
start_server nodes = record {
  nodes = nodes;
  client_list = [];
  client_fds = replicate max_nodes 0;
  n = 0;
  client_sock = 0;
  send_to_fd = none;
  send_to_fd_star = none;
}

take-set :
    {A : Type 0} (xs : List A) (n : ℕ) (v : A)
    → n < length xs
    → take (suc n) (set xs n v) ≡ take n xs ++ v ∷ []
take-set [] n v h = absurd (omega arith)
take-set (x ∷ xs) zero v h = refl
take-set (x ∷ xs) (suc n) v h = ap (λ l. x ∷ l) (take-set xs n v (omega arith))

All-change :
    {A : Type 0} (P : A → Type 0) (us vs : List A) (t t' : A)
    → (P t → P t')
    → All P (us ++ t ∷ vs)
    → All P (us ++ t' ∷ vs)
All-change P [] vs t t' f a = (f a.0, a.1)
All-change P (u ∷ us) vs t t' f a = (a.0, All-change P us vs t t' f a.1)

All-remove :
    {A : Type 0} (P : A → Type 0) (us vs : List A) (t : A)
    → All P (us ++ t ∷ vs)
    → P t × All P (us ++ vs)
All-remove P [] vs t a = a
All-remove P (u ∷ us) vs t a = let (p, q) = All-remove P us vs t a.1 in (p, (a.0, q))

remove_behind-absent :
    (sock fd : ℕ) (cs : List Client)
    → fd ≢ sock
    → All (λ c. c.fd ≡ sock) cs
    → remove_behind cs fd ≡ cs
unfolding remove_behind
remove_behind-absent sock fd [] h a = refl
remove_behind-absent sock fd (c ∷ cs) h a =
    let e : (c.fd == fd) ≡ false = ground (arith, a.0) in
    rw (e, remove_behind-absent sock fd cs h a.1) refl

remove_client-absent :
    (sock fd : ℕ) (cs : List Client)
    → fd ≢ sock
    → All (λ c. c.fd ≡ sock) cs
    → remove_client cs fd ≡ cs
unfolding remove_client
remove_client-absent sock fd [] h a = refl
remove_client-absent sock fd (c ∷ []) h a =
    let e : (c.fd == fd) ≡ false = ground (arith, a.0) in rw e refl
remove_client-absent sock fd (c ∷ d ∷ cs) h a =
    let e : (c.fd == fd) ≡ false = ground (arith, a.0) in
    rw (e, remove_behind-absent sock fd (d ∷ cs) h a.1) refl

module _ (sock : ℕ) (nodes : List (List ℕ)) where
  -- The sockets of the clients are not the listening socket. A thread starts when some client was
  -- accepted.
  pub data Run : List ℕ → Server → List Thread → Type 0 where
    begins : Run [] (start_server nodes) []
    gets :
        {fs : List ℕ} {s s' : Server} {ts : List Thread}
        → Run fs s ts
        → (fd addr : ℕ) → fd ≢ sock
        → accepts s sock fd addr ≡ some s'
        → Run (fs ++ fd ∷ []) s' ts
    makes :
        {fs : List ℕ} {s : Server} {ts : List Thread}
        → Run fs s ts
        → (memory : List ℕ) → fs ≢ []
        → Run fs s (starts s memory ∷ ts)
    hears :
        {fs : List ℕ} {s s' : Server} (t t' : Thread) (sent : List Sent) (us vs : List Thread)
        → Run fs s (us ++ t ∷ vs)
        → (bytes : List ℕ) → receives s t bytes ≡ some (s', t', sent)
        → Run fs s' (us ++ t' ∷ vs)
    ends :
        {fs : List ℕ} {s : Server} (t : Thread) (us vs : List Thread)
        → Run fs s (us ++ t ∷ vs)
        → Run fs (leaves s t) (us ++ vs)

  pub record IsServer (fs : List ℕ) (s : Server) (ts : List Thread) : Type 0 where
    pub number : s.n ≡ length fs
    pub room : length s.client_fds ≡ max_nodes
    pub fds : take (length fs) s.client_fds ≡ fs
    pub listed : All (λ c. c.fd ≡ sock) s.client_list
    pub entries : length s.client_list ≡ length fs
    pub last : fs ≢ [] → s.client_sock ≢ sock
    pub threads : All (λ t. t.sock ≢ sock) ts

  accepts-IsServer :
      {fs : List ℕ} {s : Server} {ts : List Thread} (fd addr : ℕ)
      → fd ≢ sock
      → IsServer fs s ts
      → Ensures (λ s'. IsServer (fs ++ fd ∷ []) s' ts) (accepts s sock fd addr)
  unfolding accepts
  accepts-IsServer {fs} {s} {ts} fd addr h v =
      let l = length-append fs (fd ∷ []) in
      elim (Bool-cases (ltb s.n max_nodes)) [
        | inl b ↦
            let inside : length fs < length s.client_fds = ground (arith, v.number, v.room) in
            let m : length (fs ++ fd ∷ []) ≡ suc (length fs) = omega (arith, l) in
            rw b (record {
              number = omega (arith, l, v.number);
              room = length-set s.client_fds s.n fd ∙ v.room;
              fds =
                  rw (m, v.number)
                    (take-set s.client_fds (length fs) fd inside ∙ ap (λ x. x ++ fd ∷ []) v.fds);
              listed = (refl, v.listed);
              entries = omega (arith, l, v.entries);
              last = λ _. h;
              threads = v.threads;
            })
        | inr b ↦ rw b tt
      ]

  receives-IsServer :
      {fs : List ℕ} {s s' : Server} (us vs : List Thread) (t t' : Thread)
      → IsServer fs s (us ++ t ∷ vs)
      → (sent : List Sent) → Keeps s t (s', t', sent)
      → IsServer fs s' (us ++ t' ∷ vs)
  receives-IsServer {fs} {s} {s'} us vs t t' v sent (k, l, m, n, o) = record {
    number = m ∙ v.number;
    room = ap length l ∙ v.room;
    fds = ap (take (length fs)) l ∙ v.fds;
    listed = rw k v.listed;
    entries = ap length k ∙ v.entries;
    last = λ h e. v.last h (sym n ∙ e);
    threads = All-change (λ t. t.sock ≢ sock) us vs t t' (λ h e. h (sym o ∙ e)) v.threads;
  }

  Run-IsServer : {fs : List ℕ} {s : Server} {ts : List Thread} → Run fs s ts → IsServer fs s ts
  unfolding start_server leaves starts
  Run-IsServer begins = record {
    number = refl;
    room = length-replicate {A = ℕ} max_nodes 0;
    fds = refl;
    listed = tt;
    entries = refl;
    last = λ h. absurd (h refl);
    threads = tt;
  }
  Run-IsServer (gets {fs} {s} {s'} {ts} r fd addr h e) =
      Ensures-some (λ s'. IsServer (fs ++ fd ∷ []) s' ts) (accepts s sock fd addr) s'
        (accepts-IsServer fd addr h (Run-IsServer r)) e
  Run-IsServer (makes r memory h) =
      let v = Run-IsServer r in
      record {
        number = v.number;
        room = v.room;
        fds = v.fds;
        listed = v.listed;
        entries = v.entries;
        last = v.last;
        threads = (v.last h, v.threads);
      }
  Run-IsServer (hears {fs} {s} {s'} t t' sent us vs r bytes e) =
      receives-IsServer us vs t t' (Run-IsServer r) sent
        (Ensures-some (Keeps s t) (receives s t bytes) (s', t', sent) (receives-Keeps s t bytes) e)
  Run-IsServer (ends {fs} {s} t us vs r) =
      let v = Run-IsServer r in
      let (h, a) = All-remove (λ t. t.sock ≢ sock) us vs t v.threads in
      let e = remove_client-absent sock t.sock s.client_list h v.listed in
      record {
        number = v.number;
        room = v.room;
        fds = v.fds;
        last = v.last;
        listed = rw e v.listed;
        entries = ap length e ∙ v.entries;
        threads = a;
      }

  -- Whatever the clients send, and whichever of them leave, in any order: `client_fds` begins with
  -- the sockets of all clients that were ever accepted, in their order, and the list of clients has
  -- one entry for each of them, all with the listening socket. So no client that leaves is taken
  -- off, and the messages for all clients go on to it.
  pub Run-stays :
      (fs : List ℕ) (s : Server) (ts : List Thread)
      → Run fs s ts
      → (take s.n s.client_fds ≡ fs)
        × (length s.client_list ≡ length fs)
        × All (λ c. c.fd ≡ sock) s.client_list
  Run-stays fs s ts r = let v = Run-IsServer r in (rw (v.number) v.fds, v.entries, v.listed)
