-- ===== src/DataServer/Command.antt =====
-- data_server/command.c: the handlers of the commands, and the list of them.
use tdss.Common.{
  ℕ, ◌+◌, ◌-◌, ◌*◌, ◌/◌, ◌%◌, ◌^◌, Bool, true, false, not, Option, none, some, List, [], ◌∷◌, ◌++◌,
  ltb, ◌==◌, if◌then◌else◌, take, length, replicate, Bytes, bytes, bytes_eq,
}
use tdss.DataServer.Blocks.{Store, Place, block_file_append, block_file_close}
use tdss.DataServer.Download.{
  Outcome, mrt_err, send_error, next_write, session_begin, file_get_loop_send,
}
use tdss.DataServer.NameClient.{no_fb, ns_file_info_add}
use tdss.DataServer.Session.{
  FileCommand, file_add, file_get, status, cmd_nofound, block, reader, FileServer, FileLib,
  DataServerConf, Statfs, FileEvent, file_return,
}
use tdss.DataServer.Upload.{Left, broke, aborted, file_add_loop_recv}
use tdss.DataServer.Upload
use tdss.NameServer.Command.{number_arg, text_arg, placed_number, placed_text}
use tdss.NameServer.FblockMem.{Fblock}
use tdss.NameServer.Session
use tdss.NameServer.Session.{
  State, session_read, session_write, session_wait, Ret, state, minus_one, Child, Lib, content,
}
use tdss.Request.{Arg, Value, request_parse}
use tdss.Run.{Run, ok, fault, ◌>>=◌}

-- The array `rq` of `file_add`
abbrev pub add_args : List Arg
add_args = text_arg (bytes "name") ∷ number_arg (bytes "size") ∷ []

-- The array `rq` of `file_get`
abbrev pub get_args : List Arg
get_args =
    text_arg (bytes "name")
    ∷ text_arg (bytes "file")
    ∷ number_arg (bytes "offset")
    ∷ number_arg (bytes "size")
    ∷ []

-- The places of `add_args` and of `get_args` are fields of `ss->fb_info`.
unfoldable pub add_places : List (Option Value) → Fblock → Fblock
unfolding placed_number placed_text
add_places (name ∷ size ∷ []) fb = record fb {
  name = placed_text name fb.name;
  size = placed_number size fb.size;
}
add_places _ fb = fb

unfoldable pub get_places : List (Option Value) → Fblock → Fblock
unfolding placed_number placed_text
get_places (name ∷ file ∷ offset ∷ size ∷ []) fb = record fb {
  name = placed_text name fb.name;
  file = placed_text file fb.file;
  offset = placed_number offset fb.offset;
  size = placed_number size fb.size;
}
get_places _ fb = fb

abbrev pub with_info : FileServer → Fblock → FileServer
with_info s fb = record s { session = record s.session { fb_info = fb } }

-- The bytes of a file that `ftruncate` has given a length
abbrev pub truncated : (ℕ → ℕ) → ℕ → ℕ → ℕ
truncated f len i = if ltb i len then f i else 0

abbrev pub with_file : (Bytes → ℕ → ℕ) → Bytes → (ℕ → ℕ) → Bytes → ℕ → ℕ
with_file files path f p = if bytes_eq path p then f else files p

-- What `block_file_append` does to the session and to the files: a new file has no bytes but zeros,
-- and in the current block the file is given its new length. `*pos` is eight bytes over `offset` and
-- `ref`.
unfoldable pub take_place : FileEvent → FileServer → Option Place × Store → Bool × FileServer
take_place ev s (none, st) = (false, record s { store = st })
take_place ev s (some p, st) = elim p.pos [
  | none ↦ (
    true,
    record s {
      session = record s.session { bf = some (block p.block) };
      store = st;
      names = λ i. if i == p.block then ev.new_name else s.names i;
      files = with_file s.files ev.new_name (λ i. 0);
    },
  )
  | some at ↦ (
    true,
    record s {
      session = record s.session {
        bf = some (block p.block);
        fb_info = record s.session.fb_info { offset = at % 2 ^ 32; ref = at / 2 ^ 32 % 2 ^ 32 };
      };
      store = st;
      files =
          with_file s.files (s.names p.block)
            (truncated (s.files (s.names p.block)) (at + s.session.fb_info.size));
    },
  )
]

-- `ss->bf->name`; nothing is there behind the null pointer.
unfoldable pub path_of : FileServer → Run Bytes
path_of s = elim s.session.bf [
  | none ↦ fault
  | some f ↦ ok (elim f [ block i ↦ s.names i | reader path num ↦ path ])
]

-- `block_file_close` on `ss->bf`; a file that was opened to be read has the state 1.
unfoldable pub close_file : FileServer → FileServer
close_file s = elim s.session.bf [
  | none ↦ s
  | some f ↦ elim f [
    | block i ↦ record s { store = block_file_close s.store i }
    | reader path num ↦ record s {
      session = record s.session { bf = some (reader path ((num + 2 ^ 32 - 1) % 2 ^ 32)) };
    }
  ]
]

-- The end of `file_add`, behind `block_file_append`
unfoldable pub add_answer : FileLib → FileEvent → Bool × FileServer → Run (Ret × FileServer)
add_answer l ev (false, s) = file_return l s (bytes "-1002 open file error:" ++ ev.error_text)
add_answer l ev (true, s) = path_of s >>= λ path.
    file_return l
      (record s {
        session = record s.session {
          fb_info = record s.session.fb_info { file = take 31 path };
          bf_buf = replicate (length s.session.bf_buf) 0;
          next = session_read;
        };
      })
      (bytes "1000 file:" ++ (path ++ bytes " create"))

-- `file_add` for a new command. The buffer is cleared, but `bf_size` and `proc_size` stay.
unfoldable pub add_file : FileLib → DataServerConf → FileEvent → FileServer → Run (Ret × FileServer)
add_file l conf ev s =
    request_parse l.lib.libc (content s.session.input) add_args 2 (none ∷ none ∷ []) >>= λ r.
    let s' = with_info s (add_places r.1 s.session.fb_info) in
    elim r.0 [
      | false ↦ file_return l s' (bytes "-1001")
      | true ↦ add_answer l ev (
          take_place ev s'
            (block_file_append conf.max_block_size s'.store s'.session.fb_info.size ev.blocks))
    ]

-- The session of `file_add_loop_recv` and its block file, put back
abbrev pub with_upload : FileServer → Bytes → Upload.BlockFile → Upload.Session → FileServer
with_upload s path bf u = record s {
  session = record s.session { proc_size = u.proc_size; bf_buf = u.bf_buf };
  files = with_file s.files path bf.content;
}

-- The end of `__file_add_loop_recv` when the file is there
unfoldable pub stored_answer :
    FileLib → DataServerConf → FileEvent → FileServer → Run (Ret × FileServer)
stored_answer l conf ev s =
    ns_file_info_add l.lib l.base conf.servers conf.server_id ev.net (record {
      state = s.session.state;
      task = s.task;
      fb_info = s.session.fb_info;
      output = s.session.output;
    })
    >>= λ r. elim r.0 [
      | true ↦ ok (state session_wait, record s { child = r.1 })
      | false ↦ file_return l s (bytes "-1011 name server connect error")
    ]

-- What comes behind the loop. NEXT_READ is 0, the number of SESSION_BEGIN.
unfoldable pub recv_answer :
    FileLib → DataServerConf → FileEvent → FileServer → Bytes → Left → Run (Ret × FileServer)
recv_answer l conf ev s path (aborted bf u) = ok (minus_one, close_file (with_upload s path bf u))
recv_answer l conf ev s path (broke bf u) =
    let s' = with_upload s path bf u in
    if s.session.fb_info.size == u.proc_size
    then (let closed = close_file s' in
        stored_answer l conf ev (record closed {
          session = record closed.session {
            proc_size = 0;
            bf_buf = [];
            next = State.session_begin;
          };
        }))
    else ok (state State.session_begin, s')

-- A descriptor that was opened to be read can not be written to.
abbrev pub disk_of : FileServer → Upload.Disk → Upload.Disk
disk_of s disk = elim s.session.bf [
  | some (reader path num) ↦ record disk { write_ok = λ i. false }
  | _ ↦ disk
]

-- `__file_add_loop_recv`
unfoldable pub recv_file :
    FileLib → DataServerConf → FileEvent → FileServer → Run (Ret × FileServer)
recv_file l conf ev s = path_of s >>= λ path.
    file_add_loop_recv ev.rounds l.bufsiz (disk_of s ev.disk) ev.recvs 0
      (record { content = s.files path; pos = 0 })
      (record {
        size = s.session.fb_info.size;
        offset = s.session.fb_info.offset;
        proc_size = s.session.proc_size;
        bf_buf = s.session.bf_buf;
      })
    >>= λ left. recv_answer l conf ev s path left

-- `__file_get_loop_send` on the session: what is done at each way out.
unfoldable pub send_answer : FileLib → FileEvent → FileServer → Outcome → Run (Ret × FileServer)
send_answer l ev s mrt_err = ok (minus_one, s)
send_answer l ev s send_error = file_return l s (bytes "-1002 sendfile error:" ++ ev.error_text)
send_answer l ev s next_write = ok (Session.next_write, s)
send_answer l ev s session_begin =
    let closed = close_file s in
    ok (
      state State.session_begin,
      record closed {
        session = record closed.session { state = State.session_begin; fb_info = no_fb };
      },
    )

unfoldable pub send_file : FileLib → FileEvent → FileServer → Run (Ret × FileServer)
send_file l ev s = path_of s >>= λ path.
    let r = file_get_loop_send ev.disk.seek_ok ev.sendfiles (s.files path) (record {
      size = s.session.fb_info.size;
      offset = s.session.fb_info.offset;
      proc_size = s.session.proc_size;
    }) in
    send_answer l ev
      (record s { session = record s.session { proc_size = r.1.proc_size }; sent = s.sent ++ r.2 })
      r.0

-- `block_file_open`: the path is cut to its array.
abbrev pub read_path : DataServerConf → Bytes → Bytes
read_path conf file = take 1022 (conf.data_path ++ 47 ∷ file)

-- `file_get` for a new command
unfoldable pub get_file : FileLib → DataServerConf → FileEvent → FileServer → Run (Ret × FileServer)
get_file l conf ev s =
    request_parse l.lib.libc (content s.session.input) get_args 4 (none ∷ none ∷ none ∷ none ∷ [])
    >>= λ r.
        let s' = with_info s (get_places r.1 s.session.fb_info) in
        let path = read_path conf s'.session.fb_info.file in
        if not r.0
        then file_return l s' (bytes "-1001")
        else if ev.opens path
        then file_return l
            (record s' {
              session = record s'.session {
                bf = some (reader path 1);
                proc_size = 0;
                fb_info = record s'.session.fb_info { file = take 31 path };
                next = session_write;
              };
            })
            (bytes "1000 open file:" ++ (path ++ bytes " success"))
        else file_return l s' (
            bytes "-1002 open file"
            ++ (s'.session.fb_info.name ++ (bytes " error:" ++ ev.error_text)))

-- `disk_status`: the sizes in megabytes, as 32-bit words; all zero when `statfs` fails.
pub record DiskInfo : Type 0 where
  pub disk_size : ℕ
  pub disk_free : ℕ
  pub inode_size : ℕ
  pub inode_free : ℕ

unfoldable pub disk_status : Option Statfs → DiskInfo
disk_status none = record { disk_size = 0; disk_free = 0; inode_size = 0; inode_free = 0 }
disk_status (some st) = record {
  disk_size = st.f_bsize * st.f_blocks % 2 ^ 64 / 2 ^ 20 % 2 ^ 32;
  disk_free = st.f_bsize * st.f_bavail % 2 ^ 64 / 2 ^ 20 % 2 ^ 32;
  inode_size = st.f_files % 2 ^ 32;
  inode_free = st.f_ffree % 2 ^ 32;
}

-- The answer of `status`
unfoldable pub status_text : FileLib → DataServerConf → DiskInfo → Bytes
status_text l conf dsi =
    bytes "1000 server_id="
    ++ (l.lib.signed conf.server_id
        ++ (bytes " disk_id="
            ++ (l.lib.signed conf.disk_id
                ++ (bytes " disk_size="
                    ++ (l.lib.signed dsi.disk_size
                        ++ (bytes " disk_free="
                            ++ (l.lib.signed dsi.disk_free
                                ++ (bytes " inode_size="
                                    ++ (l.lib.signed dsi.inode_size
                                        ++ (bytes " inode_free="
                                            ++ l.lib.signed dsi.inode_free))))))))))

-- The function of a command: what `file_add` and `file_get` do depends on the state.
unfoldable pub run_file_command :
    FileCommand → FileLib → DataServerConf → FileEvent → FileServer → Run (Ret × FileServer)
run_file_command file_add l conf ev s = elim s.session.state [
  | session_read ↦ recv_file l conf ev s
  | _ ↦ add_file l conf ev s
]
run_file_command file_get l conf ev s = elim s.session.state [
  | session_write ↦ send_file l ev s
  | _ ↦ get_file l conf ev s
]
run_file_command status l conf ev s = file_return l s (status_text l conf (disk_status ev.statfs))
run_file_command cmd_nofound l conf ev s = file_return l s (bytes "-1000 command no found")

-- `cmd_list`
abbrev pub file_commands : List (Bytes × FileCommand)
file_commands =
    (bytes "file_add", file_add) ∷ (bytes "file_get", file_get) ∷ (bytes "status", status) ∷ []

unfoldable pub find_file_command :
    (Bytes → Bytes → Bool) → Bytes → List (Bytes × FileCommand) → FileCommand
find_file_command same cmd [] = cmd_nofound
find_file_command same cmd ((name, c) ∷ list) =
    if same name cmd then c else find_file_command same cmd list
