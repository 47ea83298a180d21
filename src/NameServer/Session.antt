-- ===== src/NameServer/Session.antt =====
-- name_server/name_server.h: the session behind a connection, and what the handlers of name_server
-- are given: the libraries, the configuration, and what the system answers to one call.
use tdss.Common.{ℕ, Bool, Option, List, [], ◌∷◌, ◌++◌, take, Bytes}
use tdss.Config.{Addr, NameServer}
use tdss.Hashdb.{Hashdb, Env}
use tdss.NameServer.FblockMem.{Fblock}
use tdss.Request.{Libc}
use tdss.Run.{Run, ok, ◌>>=◌}
use tdss.Strings.{Str, Memory, string_printf}

-- `SESSION_BEGIN` to `SESSION_END`, the states of a session and the results of a handler
pub data State : Type 0 where
  session_begin session_read session_write session_reply session_loop session_proc : State
  session_wait session_end : State

-- What a handler returns: one of these, or -1.
pub data Ret : Type 0 where
  state : State → Ret
  minus_one : Ret

-- `NEXT_WRITE` is 1, the number of `SESSION_READ`.
abbrev pub next_write : Ret
next_write = state session_read

-- What the event loop waits for on the connection
pub data TaskState : Type 0 where
  task_wait_read task_wait_write task_wait_noop task_wait_end : TaskState

-- The functions of `cmd_list`
pub data Command : Type 0 where
  file_info_add file_info_set file_info_get file_ref_dec file_ref_inc status cmd_nofound : Command

-- `session_t` of a client's connection, without `name_server`. No command is the null pointer.
pub record ClientSession : Type 0 where
  pub state : State
  pub next : State
  pub id : ℕ
  pub fb : Fblock
  pub proc : Option Command
  pub input : Str
  pub output : Str

-- `session_t` of a connection to the slave server, whose `parent` is the client's. `receives` tells
-- that its function is `__name_server_recv`, and not `__name_server_send`.
pub record Child : Type 0 where
  pub state : State
  pub receives : Bool
  pub task : TaskState
  pub input : Str
  pub output : Str

-- A connection, the index, the counter `sid`, the connection that the last `name_server_sync` made,
-- and the bytes written to the client.
pub record Server : Type 0 where
  pub session : ClientSession
  pub task : TaskState
  pub db : Hashdb
  pub sid : ℕ
  pub child : Option Child
  pub sent : Bytes

-- What the libraries compute: `isspace`, `%d` and `%u` for a 32-bit word, `sscanf` and `snprintf`
-- with "%x.%x", the crc of a name; and the memory for strings.
pub record Lib : Type 0 where
  pub libc : Libc
  pub is_space : ℕ → Bool
  pub signed : ℕ → Bytes
  pub unsigned : ℕ → Bytes
  pub scan : Bytes → Option (ℕ × ℕ)
  pub print : ℕ → ℕ → Bytes
  pub crc : Bytes → ℕ
  pub memory : Memory

-- `ns_conf`
pub record NameServerConf : Type 0 where
  pub server_id : ℕ
  pub server_type : ℕ
  pub servers : List NameServer

-- What one `read` gives: some bytes, the end of the stream, or -1 with EAGAIN, EINTR or another
-- error. When a list of them ends, the next one is EAGAIN.
pub data Reading : Type 0 where
  got : Bytes → Reading
  closed no_more interrupted failed : Reading

-- What one `write` gives: how many bytes it took, or -1 with EAGAIN, EINTR or another error.
pub data Writing : Type 0 where
  wrote : ℕ → Writing
  again stopped refused : Writing

-- What the system answers in one call of a handler: the reads and writes, what the index meets,
-- whether `inet_connect_init`, `M_alloc` for the new session and `inet_event_add` succeed.
pub record Event : Type 0 where
  pub reads : List Reading
  pub writes : List Writing
  pub env : Env
  pub connects : Addr → Bool
  pub session_mem : Bool
  pub added : Bool

abbrev pub crlf : Bytes
crlf = 13 ∷ 10 ∷ []

-- The string that a request is parsed from.
abbrev pub content : Str → Bytes
content s = take s.len s.str

-- The macro `session_return`; what `string_printf` returns is not looked at.
unfoldable pub session_return : Lib → Server → Bytes → Run (Ret × Server)
session_return lib s text = string_printf lib.memory s.session.output (text ++ crlf) >>= λ r. ok (
  state session_reply,
  record s { session = record s.session { state = session_reply; output = r.1 } },
)
