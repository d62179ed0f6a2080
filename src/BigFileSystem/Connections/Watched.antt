-- ===== src/BigFileSystem/Connections/Watched.antt =====
-- BigFileSystem/filenameserver.c and dataserver.c: which clients the two servers listen to.
use network_programming_c.Prelude.{
  Adds, Adds-back, ℕ, zero, suc, ◌+◌, ◌<◌, ◌≡◌, ◌≢◌, refl, sym, ap, ◌∙◌, Bool, false, Bool-cases,
  inl, inr, some, List, [], ◌∷◌, ◌++◌, length, length-append, append_assoc, append-nil, take-append,
  replicate, ◌==◌, if◌then◌else◌, arith,
}
use network_programming_c.BigFileSystem.Connections.{
  Connections, max_fds, put_free, connects, sockets, name_server_drops, name_server_round, watched,
}

-- The entries behind the first `connectcnt` are free.
pub record IsTable (t : Connections) : Type 0 where
  pub used : List ℕ
  pub free : ℕ
  pub entries : t.client_fds ≡ used ++ replicate free 0
  pub count : length used ≡ t.connectcnt
  pub size : t.connectcnt + free ≡ max_fds

sockets-append : (xs ys : List ℕ) → sockets (xs ++ ys) ≡ sockets xs ++ sockets ys
unfolding sockets
sockets-append [] ys = refl
sockets-append (x ∷ xs) ys = elim (Bool-cases (x == 0)) [
  | inl e ↦ rw (e, sockets-append xs ys) refl
  | inr e ↦ rw (e, sockets-append xs ys) refl
]

-- The entries afterwards, of which there is one more.
put_free-Adds :
    (used rest : List ℕ) (fd : ℕ)
    → fd ≢ 0
    → (ys : List ℕ) × (put_free (suc (length used)) (used ++ 0 ∷ rest) fd ≡ some (ys ++ rest))
      × (length ys ≡ suc (length used))
      × Adds fd (sockets used) (sockets ys)
unfolding put_free sockets
put_free-Adds [] rest fd h =
    let z : (fd == 0) ≡ false = ground arith in
    (fd ∷ [], refl, refl, record { front = []; back = []; before = refl; after = rw z refl })
put_free-Adds (x ∷ used) rest fd h = elim (Bool-cases (x == 0)) [
  | inl e ↦
      let z : (fd == 0) ≡ false = ground arith in
      let k : length (used ++ 0 ∷ []) ≡ suc (length used) =
        omega (arith, length-append used (0 ∷ [])) in
      (
        fd ∷ (used ++ 0 ∷ []),
        rw (e, append_assoc used (0 ∷ []) rest) refl,
        ap suc k,
        record {
          front = [];
          back = sockets used;
          before = rw e refl;
          after = rw (z, sockets-append used (0 ∷ []), append-nil (sockets used)) refl;
        },
      )
  | inr e ↦
      let (ys, p, q, a) = put_free-Adds used rest fd h in
      (x ∷ ys, rw (e, p) refl, ap suc q, rw e (Adds-back fd (x ∷ []) (sockets used) (sockets ys) a))
]

watched-used : (t : Connections) (v : IsTable t) → watched t ≡ sockets v.used
unfolding watched
watched-used t v = rw (sym v.count, v.entries, take-append v.used (replicate v.free 0)) refl

connects-Adds :
    (t : Connections) (fd : ℕ)
    → IsTable t
    → t.connectcnt < max_fds
    → fd ≢ 0
    → (t' : Connections) × (connects t fd ≡ some t') × IsTable t' × Adds fd (watched t) (watched t')
unfolding connects
connects-Adds t fd v h n =
    elim v.free
        as (λ f.
          f ≡ v.free
          → (t' : Connections) × (connects t fd ≡ some t')
            × IsTable t'
            × Adds fd (watched t) (watched t')) [
              | zero ↦ λ e. absurd (omega (arith, v.size))
              | suc f ↦ λ e.
                  let (ys, p, q, a) = put_free-Adds v.used (replicate f 0) fd n in
                  let m : suc (length v.used) ≡ t.connectcnt + 1 = omega (arith, v.count) in
                  let t' : Connections = record {
                    client_fds = ys ++ replicate f 0;
                    connectcnt = t.connectcnt + 1;
                  } in
                  let v' : IsTable t' = record {
                    used = ys;
                    free = f;
                    entries = refl;
                    count = q ∙ m;
                    size = omega (arith, v.size);
                  } in
                  (
                    t',
                    rw (sym m, v.entries, sym e, p) refl,
                    v',
                    rw (watched-used t v, watched-used t' v') a,
                  )
            ]
      refl

-- Without the sockets of those that are gone.
abbrev pub keep : (ℕ → Bool) → List ℕ → List ℕ
keep gone [] = []
keep gone (x ∷ xs) = if gone x then keep gone xs else x ∷ keep gone xs

abbrev zeroed : (ℕ → Bool) → List ℕ → List ℕ
zeroed gone [] = []
zeroed gone (x ∷ xs) = (if gone x then 0 else x) ∷ zeroed gone xs

length-zeroed : (gone : ℕ → Bool) (xs : List ℕ) → length (zeroed gone xs) ≡ length xs
length-zeroed gone [] = refl
length-zeroed gone (x ∷ xs) = ap suc (length-zeroed gone xs)

drops-zeroed :
    (gone : ℕ → Bool) (used rest : List ℕ)
    → name_server_drops gone (length used) (used ++ rest) ≡ zeroed gone used ++ rest
unfolding name_server_drops
drops-zeroed gone [] rest = refl
drops-zeroed gone (x ∷ used) rest =
    ap (λ l. (if gone x then 0 else x) ∷ l) (drops-zeroed gone used rest)

sockets-zeroed : (gone : ℕ → Bool) (xs : List ℕ) → sockets (zeroed gone xs) ≡ keep gone (sockets xs)
unfolding sockets
sockets-zeroed gone [] = refl
sockets-zeroed gone (x ∷ xs) = elim (Bool-cases (gone x)) [
  | inl g ↦ elim (Bool-cases (x == 0)) [
    | inl e ↦ rw (g, e, sockets-zeroed gone xs) refl
    | inr e ↦ rw (g, e, g, sockets-zeroed gone xs) refl
  ]
  | inr g ↦ elim (Bool-cases (x == 0)) [
    | inl e ↦ rw (g, e, sockets-zeroed gone xs) refl
    | inr e ↦ rw (g, e, g, sockets-zeroed gone xs) refl
  ]
]

-- In the name server, from a table whose entries behind the first `connectcnt` are free: a client
-- that connects while fewer than 1024 have connected before is listened to as well, and after a
-- round of the loop those that have not disconnected are; the table stays such a table.
pub name_server-watched :
    (t : Connections) (fd : ℕ) (gone : ℕ → Bool)
    → IsTable t
    → t.connectcnt < max_fds
    → fd ≢ 0
    → ((t' : Connections) × (connects t fd ≡ some t')
        × IsTable t'
        × Adds fd (watched t) (watched t'))
      × (IsTable (name_server_round gone t)
          × (watched (name_server_round gone t) ≡ keep gone (watched t)))
unfolding name_server_round
name_server-watched t fd gone v h n =
    let v' : IsTable (name_server_round gone t) = record {
      used = zeroed gone v.used;
      free = v.free;
      entries = rw (sym v.count, v.entries) (drops-zeroed gone v.used (replicate v.free 0));
      count = length-zeroed gone v.used ∙ v.count;
      size = v.size;
    } in
    (
      connects-Adds t fd v h n,
      (
        v',
        watched-used (name_server_round gone t) v'
            ∙ (sockets-zeroed gone v.used ∙ ap (keep gone) (sym (watched-used t v))),
      ),
    )
