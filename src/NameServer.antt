-- ===== src/NameServer.antt =====
-- The name server: name_server/fblock_mem.c, the index of the stored files with their reference
-- counts; name_server/command.c, process.c and name_server_sync.c, the sessions of its clients.
pub mod FblockMem
pub mod Layout
pub mod InPlace
pub mod RefCount
pub mod Index
pub mod Session
pub mod Sync
pub mod Command
pub mod Process
