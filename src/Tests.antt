-- ===== src/Tests.antt =====
-- Runs of the model on concrete inputs, and for each theorem with hypotheses an input that
-- satisfies them.
mod Tables
mod Hashdb
mod DataServer
mod NameServer
mod Config
mod Master
mod Request
mod Strings
mod Sessions
mod Replies
mod Registered
mod Transfers
mod Blocks
mod Found
