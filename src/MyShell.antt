-- ===== src/MyShell.antt =====
-- MyShell/shell.c: reading lines and configuration (Lines), the job list and the commands on it
-- (Jobs, Commands), the splitting of the command line (Args), the cutting of a line with pipes into
-- commands (Pipes), the commands that the shell does itself (Builtin), the redirections (Redirect),
-- the running of a line with pipes (Execute) over the tables of descriptors (Descriptors), the
-- passing on of an output (Shared), the daemon (Daemon), and the loop over the lines (Prompt).
pub mod Lines
pub mod Jobs
pub mod Commands
pub mod Args
pub mod Pipes
pub mod Builtin
pub mod Descriptors
pub mod Daemon
pub mod Execute
pub mod Shared
pub mod Redirect
pub mod Prompt
mod LineTests
mod PromptTests
mod ExecuteTests
mod Tests
