-- ===== src/NameServer/Process.antt =====
-- name_server/process.c: the reading of a command, the writing of the answer, and the function that
-- the event loop calls for a client's connection.
pub mod Request
pub mod Reply
pub mod Sends
pub mod Replied
pub mod Added
pub mod Refused
pub mod Got
pub mod Shared
pub mod Forwarded
use tdss.Common.{
  ℕ, zero, suc, ◌+◌, ◌-◌, ◌%◌, ◌^◌, Bool, true, false, ◌&&◌, Option, none, some, List, [], ◌∷◌,
  ◌++◌, ltb, ◌==◌, if◌then◌else◌, length, take, drop, replicate, Bytes,
}
use tdss.NameServer.Command.{cmd_list, find_command, run_command}
use tdss.NameServer.Session.{
  State, session_begin, session_read, session_write, session_reply, session_loop, session_proc,
  session_wait, session_end, Ret, state, minus_one, next_write, TaskState, task_wait_read,
  task_wait_write, task_wait_noop, task_wait_end, ClientSession, Server, Lib, NameServerConf,
  Writing, wrote, again, stopped, refused, Event, content,
}
use tdss.NameServer.Sync.{received, lost, recv_loop}
use tdss.Request.{cstr}
use tdss.Run.{Run, ok, fault, ◌>>=◌}
use tdss.Strings.{string_zero}

-- The value of `i` before a `write`: 0, what the last `write` gave, or -1.
pub data Last : Type 0 where
  gave : ℕ → Last
  error : Last

-- `pb + i`; in front of the area there is nothing.
unfoldable pub place : ℕ → Last → Run ℕ
place pb (gave n) = ok (pb + n)
place zero error = fault
place (suc pb) error = ok pb

-- How the loop ends: with `return -1`, or with `pb`, `max` and the bytes that were written.
pub data Pushed : Type 0 where
  gone : Bytes → Pushed
  pushed : ℕ → ℕ → Bytes → Pushed

-- The `while` loop of `__session_reply` over what the `write`s give; `write` is passed the place
-- `pb + i`, though `pb` has been moved by `i` already. What it takes from behind the area is other
-- memory.
unfoldable pub reply_loop : List Writing → Bytes → ℕ → ℕ → Last → Bytes → Run Pushed
reply_loop ws area pb zero i sent = ok (pushed pb zero sent)
reply_loop [] area pb (suc max) i sent = ok (pushed pb (suc max) sent)
reply_loop (w ∷ ws) area pb (suc max) i sent = place pb i >>= λ at. elim w [
  | wrote zero ↦ ok (gone sent)
  | wrote (suc n) ↦
      if ltb (length area) (at + suc n)
      then fault
      else reply_loop ws area (pb + suc n) (max - n) (gave (suc n))
          (sent ++ take (suc n) (drop at area))
  | again ↦ ok (pushed pb (suc max) sent)
  | stopped ↦ reply_loop ws area pb (suc max) error sent
  | refused ↦ place pb error >>= λ pb'. reply_loop ws area pb' (suc (suc max)) error sent
]

-- `__session_reply`
unfoldable pub session_reply_step : Event → Server → Run (Ret × Server)
session_reply_step ev s =
    let out = s.session.output in
    reply_loop ev.writes out.str out.idx (out.len - out.idx) (gave 0) s.sent >>= λ r. elim r [
      | gone sent ↦ ok (minus_one, record s { sent = sent })
      | pushed pb (suc max) sent ↦ ok (
        next_write,
        record s { session = record s.session { output = record out { idx = pb } }; sent = sent },
      )
      | pushed pb zero sent ↦ string_zero s.session.input >>= λ input. string_zero out >>= λ output.
          ok (
            state s.session.next,
            record s {
              session = record s.session { state = s.session.next; input = input; output = output };
              sent = sent;
            },
          )
    ]

-- The loop that copies the command's name to `cmd[64]`, from the `i`th character on. No name: the
-- end of the input was met.
unfoldable pub cmd_word : (ℕ → Bool) → ℕ → Bytes → Run (Option Bytes)
cmd_word is_space i [] = ok none
cmd_word is_space i (c ∷ input) = elim (is_space c && ltb 0 i) [
  | true ↦ ok (some [])
  | false ↦ elim (ltb i 64) [
    | false ↦ fault
    | true ↦ cmd_word is_space (suc i) input >>= λ r. elim r [
      | none ↦ ok none
      | some word ↦ ok (some (c ∷ word))
    ]
  ]
]

-- The end of `request_command`, with the name; `cmd` is a string only when a zero is left in it.
unfoldable pub call_command : Lib → NameServerConf → Event → Server → Bytes → Run (Ret × Server)
call_command lib conf ev s word = cstr (word ++ replicate (64 - length word) 0) >>= λ cmd.
    elim cmd [
      | [] ↦ ok (state session_begin, s)
      | c ∷ cs ↦
          let command = find_command lib.libc.same_case (c ∷ cs) cmd_list in
          run_command command lib conf ev (record s {
            session = record s.session { id = s.sid; proc = some command };
            sid = (s.sid + 1) % 2 ^ 32;
          })
    ]

-- `request_command`
unfoldable pub request_command : Lib → NameServerConf → Event → Server → Run (Ret × Server)
request_command lib conf ev s = string_zero s.session.input >>= λ zeroed.
    recv_loop lib.memory zeroed ev.reads >>= λ r. elim r [
      | lost input ↦ ok (
        state session_end,
        record s {
          session = record s.session { state = session_begin; next = session_begin; input = input };
        },
      )
      | received input ↦
          let s' : Server = record s {
            session = record s.session {
              state = session_begin;
              next = session_begin;
              input = input;
            };
          } in
          if input.len == 0
          then ok (state session_end, s')
          else (cmd_word lib.is_space 0 (content input) >>= λ found. elim found [
            | none ↦ ok (state session_begin, s')
            | some word ↦ call_command lib conf ev s' word
          ])
    ]

-- `ss->proc(it)`
unfoldable pub call_proc : Lib → NameServerConf → Event → Server → Run (Ret × Server)
call_proc lib conf ev s = elim (s.session.proc) [
  | none ↦ fault
  | some c ↦ run_command c lib conf ev s
]

-- The first `switch` of `request_process`
unfoldable pub dispatch : Lib → NameServerConf → Event → Server → Run (Ret × Server)
dispatch lib conf ev s = elim (s.session.state) [
  | session_read ↦ call_proc lib conf ev s
  | session_write ↦ call_proc lib conf ev s
  | session_reply ↦ session_reply_step ev s
  | _ ↦ request_command lib conf ev s
]

-- The second `switch`; no case is for -1.
unfoldable pub next_task : Ret → TaskState → TaskState
next_task (state session_end) old = task_wait_end
next_task (state session_begin) old = task_wait_read
next_task (state session_read) old = task_wait_read
next_task (state session_wait) old = task_wait_noop
next_task (state session_reply) old = task_wait_write
next_task (state session_write) old = task_wait_write
next_task _ old = old

unfoldable pub request_process : Lib → NameServerConf → Event → Server → Run Server
request_process lib conf ev s =
    dispatch lib conf ev s >>= λ r. ok (record r.1 { task = next_task r.0 r.1.task })
