-- ===== src/Chatter.antt =====
-- UDPChatter/multicast_chat_client.c: the lines that `main` reads (Lines), with the table of
-- subjects, and the subjects that a thread hears of.
pub mod Lines
mod Tests
