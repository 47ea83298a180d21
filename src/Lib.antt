-- ===== src/Lib.antt =====
-- TDSS, a distributed store of small files: name servers keep where each file lies, data servers
-- keep the files in large block files, and a master server picks the data server for a new one.
--
-- The name server keeps its index in the hash table of src/lib_mrt/hashdb.c, a chained table whose
-- writes are appended to an operation log that `hashdb_init` reads back at start-up.
--
-- - Common: numbers, lists and byte strings. Run: C code that can fault, hang or exit.
-- - Hash: `hashcode_index` and `hashcode_create` of src/lib_mrt/hashdb.c.
-- - Hashdb: the table of src/lib_mrt/hashdb.c. `Hashdb` is `hashdb_t`, `Entry` is
--   `hashdb_entry_t`, and the heap of entries is a function from addresses. Ops has the operations,
--   Binlog the log and the start from it. Chain, Relink, Unlink and Holds are the invariant of the
--   doubly linked chains; `Represents m f` says that the table `m` stands for the partial map `f`.
--   Find, Enter, Insert, Update, Delete and Create are about one operation each; Replay, Recovery,
--   Restart and Synced are about the log; Flush, Rows and Dump are about the log that
--   `hashdb_flush_binlog` writes.
-- - MemPool: M_alloc, M_realloc and M_free of src/lib_mrt/mem_pool.c. Sound says which blocks are in use and in the
--   lists, Reused, Allocated, Freed and Copied what each step does to them, Served and Moved are about whole calls,
--   Reached about any run of them, and Limits about sizes near and above 32 KB. The other modules take memory as it
--   comes: their allocations give fresh memory or none.
-- - Strings: `string_t` of src/lib_mrt/string.c. Contents and Copy say which text a string holds, Trim is about
--   `string_ltrim`.
-- - Request: `request_parse` of src/lib_tdss/request.c, character by character. Fields is about words in
--   its two arrays, Command about whole commands.
-- - Config: the lookups of src/lib_tdss/config.c.
-- - NameServer: the index of src/name_server/fblock_mem.c on that table. FblockMem has the operations;
--   the table `fbdb` is passed along, and a value is the 24 bytes of a `fblock_mem_t`. Layout is about
--   those bytes, InPlace about writes through the pointer that `hashdb_find` hands out, RefCount
--   about the counts, Index about adding, reading back and the log. Session has the types of
--   src/name_server/name_server.h, Command the handlers of src/name_server/command.c, Process
--   src/name_server/process.c and Sync src/name_server/name_server_sync.c. One call of a handler by the
--   event loop is a function from a `Server` (a connection, the index and the connection to the slave)
--   and an `Event` (what the system answers in that call) to a `Server`; a run of the server is a
--   sequence of such calls. Under Process, Request goes from the bytes read to the call of a command,
--   Reply and Sends are about the writing of an answer, Replied, Added, Got and Refused about whole
--   commands, Shared about two clients, Forwarded about a master and its slave;
--   Sync.Answer is about what the slave answered.
-- - DataServer: Blocks is the block files of src/data_server/data_file.c; Upload is
--   `session_write_file` and the loop of `__file_add_loop_recv` of src/data_server/command.c, Download is
--   `__file_get_loop_send` there; NameClient is src/data_server/name_server_api.c: Answered under it
--   is about what the client is told, Registered about a data server and a name server together. Session
--   has the types of src/data_server/data_server.h, Command the handlers of src/data_server/command.c and
--   Process src/data_server/process.c, in the manner of the name server: `FileServer`, `FileEvent` and
--   `file_request_process`. Under Process, Heard goes from the bytes read to the call of a command,
--   Answered is about the writing of an answer, Accepted, Incoming, Received, Saved and Uploaded are about an
--   upload, Fetched about a download and RoundTrip about both. The loops that the two servers share in
--   their copies (`reply_loop`, `recv_loop`, `cmd_word`) are defined once, for the name server.
-- - Master: `server_find` of src/master_server/command.c, and in Turns the turns and marks of
--   src/master_server/server_check.c. Session is src/master_server/process.c with the commands: a call
--   `on_request` is a function of a `MasterSession`, whose `recv_bufs` the event loop fills; Answered is about one call
--   and Again about the next.
-- - Tests: runs and instances.
--
-- Bounds and fuel: `session_write_file` takes a byte or more in each round, and its fuel is the length
-- of the chunk and one more. The loop of `__file_add_loop_recv` may not end, so its fuel is an
-- argument. Each loop over a chain has `live + 1` rounds of fuel, where `live` counts the
-- allocated entries, and the invariant bounds a chain's length by it. The loop of `hashdb_init`
-- has one round for each byte of the file and one more, and each round but the last takes six
-- bytes or more. 16-bit and 32-bit arithmetic is written out with its wrap-around. The lengths
-- in calls of the table's operations are those that fit their 16-bit parameters.
-- `M_realloc` keeps only the first byte of an area of more than 32 KB, so the theorems on what a
-- string holds are about inputs and answers of at most 32 KB; a command whose
-- fields fit the arrays of `request_parse` is shorter.
--
-- The environment's answers are arguments: the address that an allocation returns, whether memory
-- is left, whether the log can be written, whether a seek or a write succeeds, what `read` gives.
-- A failed write of the log ends the process, as in the source. `sscanf` and `snprintf` on the names
-- of block files, `printf` of numbers, `isspace`, `crc32` of zlib, `strcasecmp`, `atoi` and BUFSIZ are other
-- libraries', and parameters; so are `TASK_WAIT_READ` and its kin of the event library, as a type.
--
-- Not modelled: the messages to the system log, `hashdb_list`, the event loop, the making and freeing of
-- sessions, `__session_reply` of the master server, which nothing calls, and the parts of src/lib_mrt that
-- the servers do not use for their own state.
-- src/lib_mrt/minheap.h, base64.c and xxtea.c are copies of other projects' code. `hashdb_grow` and
-- `hashdb_free` are definitions without a theorem.
pub mod Common
pub mod Run
pub mod Hash
pub mod Hashdb
pub mod Request
pub mod Config
pub mod NameServer
pub mod DataServer
pub mod Master
pub mod Tests
pub mod MemPool
pub mod Strings
