-- ===== src/BigFileSystem/Connections/Lost.antt =====
-- BigFileSystem/dataserver.c: a client that disconnects before the last in the table.
use network_programming_c.Prelude.{
  ℕ, suc, ◌+◌, ◌-◌, ◌≡◌, ◌≢◌, refl, sym, Bool, true, false, List, [], ◌∷◌, ◌++◌, length,
  length-append, append_assoc, append-nil, take, take-append, All, ◌==◌, arith,
}
use network_programming_c.BigFileSystem.Connections.{
  Connections, sockets, data_server_drops, data_server_round, watched,
}

abbrev pub Stays : (ℕ → Bool) → List ℕ → Type 0
Stays gone = All (λ fd. (gone fd ≡ false) × (fd ≢ 0))

drops-Stays :
    (gone : ℕ → Bool) (us rest : List ℕ) (left c : ℕ)
    → Stays gone us
    → data_server_drops gone (length us + left) (us ++ rest) c
      ≡ (let (ys, d) = data_server_drops gone left rest c in (us ++ ys, d))
unfolding data_server_drops
drops-Stays gone [] rest left c a = let e : 0 + left ≡ left = omega arith in rw e refl
drops-Stays gone (x ∷ us) rest left c a =
    let e : suc (length us) + left ≡ suc (length us + left) = omega arith in
    rw (e, a.0.0, drops-Stays gone us rest left c a.1) refl

sockets-Stays :
    (gone : ℕ → Bool) (us vs : List ℕ) → Stays gone us → sockets (us ++ vs) ≡ us ++ sockets vs
unfolding sockets
sockets-Stays gone [] vs a = refl
sockets-Stays gone (x ∷ us) vs a =
    let e : (x == 0) ≡ false = ground (arith, a.0.1) in rw (e, sockets-Stays gone us vs a.1) refl

drops_end : (gone : ℕ → Bool) (rest : List ℕ) (c : ℕ) → data_server_drops gone 0 rest c ≡ (rest, c)
unfolding data_server_drops
drops_end gone [] c = refl
drops_end gone (x ∷ rest) c = refl

drops_one :
    (gone : ℕ → Bool) (us vs rest : List ℕ) (x c : ℕ)
    → Stays gone us
    → gone x ≡ true
    → Stays gone vs
    → data_server_drops gone (length us + suc (suc (length vs))) (us ++ x ∷ (vs ++ rest)) c
      ≡ (us ++ 0 ∷ (vs ++ rest), c - 1)
unfolding data_server_drops
drops_one gone us vs rest x c a g b =
    let n : suc (length vs) - 1 ≡ length vs + 0 = omega arith in
    rw
      (
        drops-Stays gone us (x ∷ (vs ++ rest)) (suc (suc (length vs))) c a,
        data_server_drops,
        g,
        n,
        drops-Stays gone vs rest 0 (c - 1) b,
        drops_end gone rest (c - 1),
      )
      refl

take-segments :
    (us vs rest : List ℕ) (n : ℕ)
    → n ≡ length us + length vs
    → take n (us ++ (vs ++ rest)) ≡ us ++ vs
take-segments us vs rest n e =
    let l : n ≡ length (us ++ vs) = omega (arith, e, length-append us vs) in
    rw (l, sym (append_assoc us vs rest)) (take-append (us ++ vs) rest)

-- The clients `us`, `x`, `vs` and `y`, from the front of the table.
abbrev pub table : List ℕ → ℕ → List ℕ → ℕ → List ℕ → Connections
table us x vs y rest = record {
  client_fds = us ++ x ∷ (vs ++ y ∷ rest);
  connectcnt = length us + suc (suc (length vs));
}

-- In the data server, when of all clients one disconnects that is not the last in the table, the
-- last is listened to no more, and neither is the one that has left: all others are.
pub data_server-watched :
    (gone : ℕ → Bool) (us vs rest : List ℕ) (x y : ℕ)
    → Stays gone us
    → gone x ≡ true
    → x ≢ 0
    → Stays gone vs
    → y ≢ 0
    → (watched (table us x vs y rest) ≡ us ++ x ∷ (vs ++ y ∷ []))
      × (watched (data_server_round gone (table us x vs y rest)) ≡ us ++ vs)
unfolding watched data_server_round sockets
data_server-watched gone us vs rest x y a g z b w =
    let n : length us + suc (suc (length vs)) ≡ length us + length (x ∷ (vs ++ y ∷ [])) =
      omega (arith, length-append vs (y ∷ [])) in
    let m : length us + suc (suc (length vs)) - 1 ≡ length us + length (0 ∷ vs) = omega arith in
    let xz : (x == 0) ≡ false = ground arith in
    let yz : (y == 0) ≡ false = ground arith in
    let t1 = take-segments us (x ∷ (vs ++ y ∷ [])) rest (length us + suc (suc (length vs))) n in
    let t2 = take-segments us (0 ∷ vs) (y ∷ rest) (length us + suc (suc (length vs)) - 1) m in
    (
      rw
          (
            sym (append_assoc vs (y ∷ []) rest),
            t1,
            sockets-Stays gone us (x ∷ (vs ++ y ∷ [])) a,
            sockets,
            xz,
            sockets-Stays gone vs (y ∷ []) b,
            yz,
          )
          refl,
      rw
          (
            drops_one gone us vs (y ∷ rest) x (length us + suc (suc (length vs))) a g b,
            t2,
            sockets-Stays gone us (0 ∷ vs) a,
            sockets,
            sym (append-nil vs),
            sockets-Stays gone vs [] b,
          )
          refl,
    )
