-- ===== src/DataServer/NameClient.antt =====
-- data_server/name_server_api.c: how a data server tells the name server where a file lies, and what
-- it answers to the client that sent the file.
pub mod Registered
pub mod Answered
use tdss.Common.{
  ℕ, zero, suc, ◌-◌, Bool, true, false, not, Option, none, some, List, [], ◌∷◌, ◌++◌, ltb,
  if◌then◌else◌, length, take, Bytes, bytes, bytes_eq,
}
use tdss.Config.{Addr, NameServer, ns_get_master_addr}
use tdss.NameServer.FblockMem.{Fblock}
use tdss.NameServer.Session.{
  State, session_read, session_write, session_reply, session_proc, TaskState, task_wait_read,
  task_wait_write, task_wait_end, Child, Lib, Event, content,
}
use tdss.NameServer.Sync.{
  SyncCode, operate_success, err_ns_write, err_ns_read, err_ns_return, err_ns_proc, received, lost,
  recv_loop, left, ended, broken, send_loop,
}
use tdss.Run.{Run, ok, fault, ◌>>=◌}
use tdss.Strings.{Str, unused, string_printf}

-- The fields of the client's session and task that are used here.
pub record Uploader : Type 0 where
  pub state : State
  pub task : TaskState
  pub fb_info : Fblock
  pub output : Str

-- The line for a file, where `base` stands for `basename`
unfoldable pub info_line : Lib → (Bytes → Bytes) → Bytes → ℕ → Fblock → Bytes
info_line lib base command server_id fb =
    command
    ++ (bytes " server="
        ++ (lib.signed server_id
            ++ (bytes " name="
                ++ (fb.name
                    ++ (bytes " file="
                        ++ (base fb.file
                            ++ (bytes " offset="
                                ++ (lib.unsigned fb.offset
                                    ++ (bytes " size="
                                        ++ (lib.signed fb.size ++ 13 ∷ 10 ∷ []))))))))))

-- The common part of `ns_file_info_add` and `ns_file_info_set`, with the name of the command. The
-- flag is false for MRT_ERR.
unfoldable pub ns_file_info :
    Lib
    → (Bytes → Bytes)
    → List NameServer
    → ℕ
    → Event
    → Bytes
    → Uploader
    → Run (Bool × Option Child)
ns_file_info lib base servers server_id ev command s =
    ns_get_master_addr lib.crc servers s.fb_info.name >>= λ addr.
    if not (ev.connects addr)
    then ok (false, none)
    else if not ev.session_mem
    then (if ev.added then fault else ok (false, none))
    else (string_printf lib.memory unused (info_line lib base command server_id s.fb_info) >>= λ r.
        if ev.added
        then ok (
          true,
          some (record {
            state = session_write;
            receives = false;
            task = task_wait_write;
            input = unused;
            output = r.1;
          }),
        )
        else ok (false, none))

unfoldable pub ns_file_info_add :
    Lib → (Bytes → Bytes) → List NameServer → ℕ → Event → Uploader → Run (Bool × Option Child)
ns_file_info_add lib base servers server_id ev s =
    ns_file_info lib base servers server_id ev (bytes "file_info_add") s

unfoldable pub ns_file_info_set :
    Lib → (Bytes → Bytes) → List NameServer → ℕ → Event → Uploader → Run (Bool × Option Child)
ns_file_info_set lib base servers server_id ev s =
    ns_file_info lib base servers server_id ev (bytes "file_info_set") s

-- The `switch` and the tests of `__ns_process_finish`
unfoldable pub process_result : State → Bytes → SyncCode
process_result session_write answer = err_ns_write
process_result session_read answer = err_ns_read
process_result _ answer =
    if ltb (length answer) 4
    then err_ns_return
    else if bytes_eq (take 4 answer) (bytes "1000")
    then operate_success
    else err_ns_proc

-- The answer to the client
unfoldable pub process_text : SyncCode → Bytes → Bytes
process_text operate_success name = bytes "1000 success name:" ++ name
process_text err_ns_write name = bytes "-1012 save to name server error"
process_text err_ns_read name = bytes "-1013 save to name server error"
process_text err_ns_return name = bytes "-1014 save to name server error"
process_text err_ns_proc name = bytes "-1015 save to name server error"

abbrev pub no_fb : Fblock
no_fb = record { server = 0; size = 0; offset = 0; ref = 0; name = []; file = [] }

-- `__ns_process_finish`, where the client's connection can be added again
unfoldable pub ns_process_finish : Lib → Child → Uploader → Run (Child × Uploader)
ns_process_finish lib c s =
    string_printf lib.memory s.output
      (process_text (process_result c.state (content c.input)) s.fb_info.name)
    >>= λ r. ok (
      record c { task = task_wait_end },
      record s { state = session_reply; task = task_wait_write; output = r.1; fb_info = no_fb },
    )

-- `__name_server_recv`
unfoldable pub ns_recv : Lib → Event → Child → Uploader → Run (Child × Uploader)
ns_recv lib ev c s = recv_loop lib.memory c.input ev.reads >>= λ r. elim r [
  | received input ↦ ns_process_finish lib (record c { input = input; state = session_proc }) s
  | lost input ↦ ns_process_finish lib (record c { input = input }) s
]

-- `__name_server_send`
unfoldable pub ns_send : Lib → Event → Child → Uploader → Run (Child × Uploader)
ns_send lib ev c s = elim (send_loop c.output.idx (c.output.len - c.output.idx) false ev.writes) [
  | ended ↦ ns_process_finish lib c s
  | broken ↦ ns_process_finish lib c s
  | left pos zero ↦
      ok (record c { receives = true; task = task_wait_read; state = session_read }, s)
  | left pos (suc n) ↦
      ok (record c { output = record c.output { idx = pos }; task = task_wait_write }, s)
]
