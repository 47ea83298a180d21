-- ===== src/NameServer/Sync.antt =====
-- name_server/name_server_sync.c: what a master does to pass a command on to its slave.
pub mod Answer
use tdss.Common.{
  ℕ, zero, suc, ◌+◌, ◌-◌, Bool, true, false, not, Option, none, some, List, [], ◌∷◌, ◌++◌, ltb,
  ◌==◌, if◌then◌else◌, length, take, drop, Bytes, bytes, bytes_eq,
}
use tdss.Config.{Addr, ns_get_slave_addr}
use tdss.NameServer.Session.{
  State, session_begin, session_read, session_write, session_reply, session_loop, session_proc,
  session_wait, session_end, TaskState, task_wait_read, task_wait_write, task_wait_end, Child,
  Server, Lib, NameServerConf, Reading, got, closed, no_more, interrupted, failed, Writing, wrote,
  again, stopped, refused, Event, crlf, content,
}
use tdss.Run.{Run, ok, fault, ◌>>=◌}
use tdss.Strings.{Str, unused, Memory, string_printf, string_catb, string_copy}

-- The flag is false for MRT_ERR. With no memory for the session the connection is still added, and
-- then written to through the null pointer.
unfoldable pub name_server_sync : Lib → NameServerConf → Event → Server → Run (Bool × Server)
name_server_sync lib conf ev s =
    ns_get_slave_addr lib.crc conf.servers s.session.fb.name >>= λ addr.
    if not (ev.connects addr)
    then ok (false, s)
    else if not ev.session_mem
    then (if ev.added then fault else ok (false, s))
    else (string_copy lib.memory unused s.session.input >>= λ r.
        if ev.added
        then ok (
          true,
          record s {
            child = some (record {
              state = session_write;
              receives = false;
              task = task_wait_write;
              input = unused;
              output = r.1;
            });
          },
        )
        else ok (false, s))

-- `OPERATE_SUCCESS` and the errors
pub data SyncCode : Type 0 where
  operate_success err_ns_write err_ns_read err_ns_return err_ns_proc : SyncCode

-- The `switch` on the state, and the tests on what the slave answered
unfoldable pub sync_result : State → Bytes → SyncCode
sync_result session_write answer = err_ns_write
sync_result session_read answer = err_ns_read
sync_result _ answer =
    if ltb (length answer) 4
    then err_ns_return
    else if bytes_eq (take 4 answer) (bytes "1000")
    then operate_success
    else err_ns_proc

-- The text for the client
unfoldable pub sync_text : SyncCode → Bytes
sync_text operate_success = bytes "1000 success"
sync_text err_ns_write = bytes "-1012 sync to slave server error"
sync_text err_ns_read = bytes "-1013 sync to slave server error"
sync_text err_ns_return = bytes "-1014 sync to slave server error"
sync_text err_ns_proc = bytes "-1015 sync to slave server error"

-- `__name_server_sync_finish`, where the client's connection can be added again
unfoldable pub sync_finish : Lib → Child → Server → Run Server
sync_finish lib c s =
    string_printf lib.memory s.session.output
      (sync_text (sync_result c.state (content c.input)) ++ crlf)
    >>= λ r. ok (record s {
      session = record s.session { state = session_reply; output = r.1 };
      task = task_wait_write;
      child = some (record c { task = task_wait_end });
    })

-- How a loop of `read`s ends: with what has been read, or with an error.
pub data Received : Type 0 where
  received lost : Str → Received

unfoldable pub recv_loop : Memory → Str → List Reading → Run Received
recv_loop mem input [] = ok (received input)
recv_loop mem input (got line ∷ rs) = string_catb mem input line >>= λ r. recv_loop mem r.1 rs
recv_loop mem input (closed ∷ rs) = ok (received input)
recv_loop mem input (no_more ∷ rs) = ok (received input)
recv_loop mem input (interrupted ∷ rs) = recv_loop mem input rs
recv_loop mem input (failed ∷ rs) = ok (lost input)

-- `__name_server_recv`
unfoldable pub name_server_recv : Lib → Event → Child → Server → Run Server
name_server_recv lib ev c s = recv_loop lib.memory c.input ev.reads >>= λ r. elim r [
  | received input ↦ sync_finish lib (record c { input = input; state = session_proc }) s
  | lost input ↦ sync_finish lib (record c { input = input }) s
]

-- How the loop of `write`s ends: with the place and the number of bytes that are left, at a closed
-- connection, or with an error. The last `ssize` is 0 when nothing was to be written.
pub data Written : Type 0 where
  left : ℕ → ℕ → Written
  ended broken : Written

unfoldable pub send_loop : ℕ → ℕ → Bool → List Writing → Written
send_loop pos zero wrote_some ws = if wrote_some then left pos zero else ended
send_loop pos (suc n) wrote_some [] = left pos (suc n)
send_loop pos (suc n) wrote_some (wrote zero ∷ ws) = ended
send_loop pos (suc n) wrote_some (wrote (suc k) ∷ ws) = send_loop (pos + suc k) (n - k) true ws
send_loop pos (suc n) wrote_some (again ∷ ws) = left pos (suc n)
send_loop pos (suc n) wrote_some (stopped ∷ ws) = send_loop pos (suc n) true ws
send_loop pos (suc n) wrote_some (refused ∷ ws) = broken

-- `__name_server_send`
unfoldable pub name_server_send : Lib → Event → Child → Server → Run Server
name_server_send lib ev c s =
    elim (send_loop c.output.idx (c.output.len - c.output.idx) false ev.writes) [
      | ended ↦ sync_finish lib c s
      | broken ↦ sync_finish lib c s
      | left pos zero ↦ ok (record s {
        child = some (record c { receives = true; task = task_wait_read; state = session_read });
      })
      | left pos (suc n) ↦ ok (record s {
        child = some (record c { output = record c.output { idx = pos }; task = task_wait_write });
      })
    ]

-- The function of the connection to the slave, when the event loop calls it.
unfoldable pub child_process : Lib → Event → Server → Run Server
child_process lib ev s = elim (s.child) [
  | none ↦ ok s
  | some c ↦ if c.receives then name_server_recv lib ev c s else name_server_send lib ev c s
]
