-- ===== src/DataServer.antt =====
-- data_server/command.c, data_file.c and name_server_api.c: the block files of a data server, the
-- transfer of a file, and what the name server is told of it.
pub mod Session
pub mod Command
pub mod Process
pub mod Upload
pub mod Blocks
pub mod Download
pub mod NameClient
