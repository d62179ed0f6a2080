-- ===== src/MyShell/Daemon.antt =====
-- MyShell/shell.c: `daemonizeProcess`: the descriptors of the child, which becomes the daemon. The
-- calls of `umask` and `setsid` and the log are not modelled; `fork` and `setsid` succeed, and the
-- null device can be opened.
pub mod Closed
use network_programming_c.Prelude.{
  ℕ, zero, suc, ◌+◌, ◌≤◌, ◌<◌, ◌≡◌, refl, ap, sym, ◌∙◌, Bool, Option, none, some, List, [], ◌∷◌,
  length, ◌&&◌, ◌==◌, if◌then◌else◌, arith, true,
}
use network_programming_c.MyShell.Descriptors.{
  End, null_device, Table, at, put_end, lowest, alloc, close, dup, count_open,
}
use network_programming_c.MyShell.Descriptors.Laws.{
  at-put_end, at_other-put_end, at-alloc, at-dup, at_open-dup, count_open-alloc, count_open-dup,
}

-- The loop from `sysconf(_SC_OPEN_MAX)` down.
unfoldable pub close_all : ℕ → Table → Table
close_all zero t = close t 0
close_all (suc fd) t = close_all fd (close t (suc fd))

-- The descriptors of the daemon; `none` where they are not the expected ones, and it exits.
unfoldable pub daemon_table : ℕ → Table → Option Table
unfolding close_all
daemon_table open_max t =
    let t0 : Table = close_all open_max t in
    let t1 : Table = alloc t0 null_device in
    let t2 : Table = dup t1 0 in
    if lowest t0 == 0 && (lowest t1 == 1 && lowest t2 == 2) then some (dup t2 0) else none
