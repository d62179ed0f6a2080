-- ===== src/StopAndWait.antt =====
-- N-Channel-StopNWait: the file transfer over several channels. Bytes, Packets and Chunks model
-- utils.h, Client and Server the functions of client.c and server.c, and Transfer lets them run
-- together.
pub mod Bytes
pub mod Packets
pub mod Chunks
pub mod Server
pub mod Loop
pub mod Client
pub mod Transfer
pub mod LinkedList
mod Tests
