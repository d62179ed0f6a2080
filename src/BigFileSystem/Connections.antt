-- ===== src/BigFileSystem/Connections.antt =====
-- BigFileSystem/filenameserver.c and dataserver.c: the table of the connections in the loop of
-- `main`.
pub mod Watched
pub mod Lost
use network_programming_c.Prelude.{
  ℕ, zero, suc, Bool, true, false, ◌>>=◌, ◌+◌, ◌-◌, Option, none, some, List, [], ◌∷◌, length,
  get_or, set, take, leb, ◌==◌, if◌then◌else◌, replicate,
}

abbrev pub max_fds : ℕ
max_fds = 1024

-- `client_fds` and `connectcnt`.
pub record Connections : Type 0 where
  pub client_fds : List ℕ
  pub connectcnt : ℕ

-- The loop over the first `count` entries: the first that is 0 becomes the new one. `none` is a
-- read behind the table.
unfoldable pub put_free : ℕ → List ℕ → ℕ → Option (List ℕ)
put_free zero fds childfd = some fds
put_free (suc count) [] childfd = none
put_free (suc count) (fd ∷ fds) childfd =
    let rest = put_free count fds childfd in
    if fd == 0 then some (childfd ∷ fds) else (rest >>= λ ys. some (fd ∷ ys))

-- `accept`.
unfoldable pub connects : Connections → ℕ → Option Connections
unfolding put_free
connects t childfd = put_free (t.connectcnt + 1) t.client_fds childfd >>= λ fds.
    some (record { client_fds = fds; connectcnt = t.connectcnt + 1 })

-- The sockets among the entries.
unfoldable pub sockets : List ℕ → List ℕ
sockets [] = []
sockets (fd ∷ fds) = if fd == 0 then sockets fds else fd ∷ sockets fds

-- The loop over the entries, from the first on, when the clients of `gone` have disconnected: their
-- entries become 0. In the name server `connectcnt` stays.
unfoldable pub name_server_drops : (ℕ → Bool) → ℕ → List ℕ → List ℕ
name_server_drops gone zero fds = fds
name_server_drops gone (suc count) [] = []
name_server_drops gone (suc count) (fd ∷ fds) =
    (if gone fd then 0 else fd) ∷ name_server_drops gone count fds

-- In the data server `connectcnt` is one less for each, and is the bound of the loop. The entries
-- from `i` on, and how many of them are before the bound.
unfoldable pub data_server_drops : (ℕ → Bool) → ℕ → List ℕ → ℕ → List ℕ × ℕ
data_server_drops gone left [] connectcnt = ([], connectcnt)
data_server_drops gone zero (fd ∷ fds) connectcnt = (fd ∷ fds, connectcnt)
data_server_drops gone (suc left) (fd ∷ fds) connectcnt =
    let (ys, c) = data_server_drops gone (left - 1) fds (connectcnt - 1) in
    let (zs, d) = data_server_drops gone left fds connectcnt in
    if gone fd then (0 ∷ ys, c) else (fd ∷ zs, d)

-- One round of the loop over the entries.
unfoldable pub name_server_round : (ℕ → Bool) → Connections → Connections
unfolding name_server_drops
name_server_round gone t = record t {
  client_fds = name_server_drops gone t.connectcnt t.client_fds;
}

unfoldable pub data_server_round : (ℕ → Bool) → Connections → Connections
unfolding data_server_drops
data_server_round gone t =
    let (fds, n) = data_server_drops gone t.connectcnt t.client_fds t.connectcnt in
    record { client_fds = fds; connectcnt = n }

-- The sockets that the loop gives to `select`.
unfoldable pub watched : Connections → List ℕ
unfolding sockets
watched t = sockets (take t.connectcnt t.client_fds)
