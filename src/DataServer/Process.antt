-- ===== src/DataServer/Process.antt =====
-- data_server/process.c: the reading of a command, the writing of the answer, and the function that
-- the event loop calls for a client's connection.
pub mod Heard
pub mod Answered
pub mod Accepted
pub mod Incoming
pub mod Received
pub mod Saved
pub mod Uploaded
pub mod Fetched
pub mod RoundTrip
use tdss.Common.{
  zero, suc, ◌+◌, ◌-◌, ◌%◌, ◌^◌, Option, none, some, List, [], ◌∷◌, ◌++◌, ◌==◌, if◌then◌else◌,
  length, replicate, Bytes,
}
use tdss.DataServer.Command.{file_commands, find_file_command, run_file_command}
use tdss.DataServer.NameClient.{Uploader, ns_recv, ns_send}
use tdss.DataServer.Session.{FileServer, FileLib, DataServerConf, FileEvent}
use tdss.NameServer.Process.{gone, pushed, gave, reply_loop, cmd_word, next_task}
use tdss.NameServer.Session.{
  State, session_begin, session_read, session_write, session_reply, session_end, Ret, state,
  minus_one, next_write, Child, Lib, Reading, content,
}
use tdss.NameServer.Sync.{received, lost, recv_loop}
use tdss.Request.{cstr}
use tdss.Run.{Run, ok, fault, ◌>>=◌}
use tdss.Strings.{Str, string_zero}

-- `__session_reply`
unfoldable pub file_session_reply : FileEvent → FileServer → Run (Ret × FileServer)
file_session_reply ev s =
    let out = s.session.output in
    reply_loop ev.net.writes out.str out.idx (out.len - out.idx) (gave 0) s.sent >>= λ r. elim r [
      | gone sent ↦ ok (minus_one, record s { sent = sent })
      | pushed pb (suc max) sent ↦ ok (
        next_write,
        record s { session = record s.session { output = record out { idx = pb } }; sent = sent },
      )
      | pushed pb zero sent ↦ string_zero s.session.input >>= λ input. string_zero out >>= λ output.
          ok (
            state s.session.next,
            record s {
              session = record s.session { state = s.session.next; input = input; output = output };
              sent = sent;
            },
          )
    ]

-- What `request_command` has read: with an error, nothing, no name, or the name of a command.
pub data Hearing : Type 0 where
  dropped silent unnamed : Str → Hearing
  named : Str → Bytes → Hearing

-- `request_command` up to the loop that copies the name
unfoldable pub hear : Lib → List Reading → Str → Run Hearing
hear lib reads old = string_zero old >>= λ zeroed. recv_loop lib.memory zeroed reads >>= λ r.
    elim r [
      | lost input ↦ ok (dropped input)
      | received input ↦
          if input.len == 0
          then ok (silent input)
          else (cmd_word lib.is_space 0 (content input) >>= λ found. elim found [
            | none ↦ ok (unnamed input)
            | some word ↦ ok (named input word)
          ])
    ]

-- The session when it has read the input.
abbrev pub listening : FileServer → Str → FileServer
listening s input = record s {
  session = record s.session { state = session_begin; next = session_begin; input = input };
}

-- The end of `request_command`, with the name in `cmd[64]`
unfoldable pub call_file_command :
    FileLib → DataServerConf → FileEvent → FileServer → Bytes → Run (Ret × FileServer)
call_file_command l conf ev s word = cstr (word ++ replicate (64 - length word) 0) >>= λ cmd.
    elim cmd [
      | [] ↦ ok (state session_begin, s)
      | c ∷ cs ↦
          let command = find_file_command l.lib.libc.same_case (c ∷ cs) file_commands in
          run_file_command command l conf ev (record s {
            session = record s.session {
              request_id = (s.session.request_id + 1) % 2 ^ 32;
              proc = some command;
            };
          })
    ]

-- `request_command`
unfoldable pub file_request_command :
    FileLib → DataServerConf → FileEvent → FileServer → Run (Ret × FileServer)
file_request_command l conf ev s = hear l.lib ev.net.reads s.session.input >>= λ h. elim h [
  | dropped input ↦ ok (state session_end, listening s input)
  | silent input ↦ ok (state session_end, listening s input)
  | unnamed input ↦ ok (state session_begin, listening s input)
  | named input word ↦ call_file_command l conf ev (listening s input) word
]

-- `ss->proc(it)`
unfoldable pub call_file_proc :
    FileLib → DataServerConf → FileEvent → FileServer → Run (Ret × FileServer)
call_file_proc l conf ev s = elim (s.session.proc) [
  | none ↦ fault
  | some c ↦ run_file_command c l conf ev s
]

-- The first `switch` of `request_process`
unfoldable pub file_dispatch :
    FileLib → DataServerConf → FileEvent → FileServer → Run (Ret × FileServer)
file_dispatch l conf ev s = elim (s.session.state) [
  | session_read ↦ call_file_proc l conf ev s
  | session_write ↦ call_file_proc l conf ev s
  | session_reply ↦ file_session_reply ev s
  | _ ↦ file_request_command l conf ev s
]

-- `request_process`
unfoldable pub file_request_process :
    FileLib → DataServerConf → FileEvent → FileServer → Run FileServer
file_request_process l conf ev s =
    file_dispatch l conf ev s >>= λ r. ok (record r.1 { task = next_task r.0 r.1.task })

-- What `__ns_process_finish` left of the client's session
abbrev pub told : FileServer → Child × Uploader → FileServer
told s (c, u) = record s {
  session = record s.session { state = u.state; fb_info = u.fb_info; output = u.output };
  task = u.task;
  child = some c;
}

-- The function of the connection to the name server, when the event loop calls it.
unfoldable pub name_process : FileLib → FileEvent → FileServer → Run FileServer
name_process l ev s = elim (s.child) [
  | none ↦ ok s
  | some c ↦
      let u : Uploader = record {
        state = s.session.state;
        task = s.task;
        fb_info = s.session.fb_info;
        output = s.session.output;
      } in
      (if c.receives then ns_recv l.lib ev.net c u else ns_send l.lib ev.net c u) >>= λ r.
      ok (told s r)
]
