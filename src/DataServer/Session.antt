-- ===== src/DataServer/Session.antt =====
-- data_server/data_server.h: the session behind a connection to a data server, and what its handlers
-- are given.
use tdss.Common.{ℕ, Bool, Option, List, ◌++◌, Bytes}
use tdss.Config.{NameServer}
use tdss.DataServer.Blocks.{Store}
use tdss.DataServer.Blocks
use tdss.DataServer.Download.{SendfileResult}
use tdss.DataServer.Upload.{Recv}
use tdss.DataServer.Upload
use tdss.NameServer.FblockMem.{Fblock}
use tdss.NameServer.Session.{State, session_reply, Ret, state, TaskState, Child, Lib, Event, crlf}
use tdss.Run.{Run, ok, ◌>>=◌}
use tdss.Strings.{Str, string_printf}

-- The functions of `cmd_list`
pub data FileCommand : Type 0 where
  file_add file_get status cmd_nofound : FileCommand

-- What `ss->bf` points to: the block of a number, or a structure of its own for a file that was
-- opened to be read, with its path and `num`.
pub data OpenFile : Type 0 where
  block : ℕ → OpenFile
  reader : Bytes → ℕ → OpenFile

-- `session_t`; `bf_buf` is the part of the buffer that is in use.
pub record FileSession : Type 0 where
  pub state : State
  pub next : State
  pub request_id : ℕ
  pub fb_info : Fblock
  pub proc_size : ℕ
  pub proc : Option FileCommand
  pub input : Str
  pub output : Str
  pub bf : Option OpenFile
  pub bf_buf : Bytes

-- A connection; the block files that were made, with their paths; the bytes of every file on the
-- disk, zero behind its end; the connection to the name server that was made last; and the bytes
-- written to the client.
pub record FileServer : Type 0 where
  pub session : FileSession
  pub task : TaskState
  pub store : Store
  pub names : ℕ → Bytes
  pub files : Bytes → ℕ → ℕ
  pub child : Option Child
  pub sent : Bytes

-- The libraries: those that the name server uses, `basename`, and BUFSIZ.
pub record FileLib : Type 0 where
  pub lib : Lib
  pub base : Bytes → Bytes
  pub bufsiz : ℕ

-- `ds_conf`, and the configuration of the name servers
pub record DataServerConf : Type 0 where
  pub server_id : ℕ
  pub disk_id : ℕ
  pub data_path : Bytes
  pub max_block_size : ℕ
  pub servers : List NameServer

-- `struct statfs`
pub record Statfs : Type 0 where
  pub f_bsize : ℕ
  pub f_blocks : ℕ
  pub f_bavail : ℕ
  pub f_files : ℕ
  pub f_ffree : ℕ

-- What the system answers in one call: on the connections, for the body of a file and how many reads
-- of it are looked at, for the blocks and their files, the path of a file that is made, whether a
-- file can be opened to be read, `statfs`, and the text of `%m`.
pub record FileEvent : Type 0 where
  pub net : Event
  pub recvs : ℕ → Recv
  pub rounds : ℕ
  pub sendfiles : List SendfileResult
  pub blocks : Blocks.Disk
  pub disk : Upload.Disk
  pub new_name : Bytes
  pub opens : Bytes → Bool
  pub statfs : Option Statfs
  pub error_text : Bytes

-- The macro `session_return`
unfoldable pub file_return : FileLib → FileServer → Bytes → Run (Ret × FileServer)
file_return l s text = string_printf l.lib.memory s.session.output (text ++ crlf) >>= λ r. ok (
  state session_reply,
  record s { session = record s.session { state = session_reply; output = r.1 } },
)
