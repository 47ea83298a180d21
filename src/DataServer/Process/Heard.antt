-- ===== src/DataServer/Process/Heard.antt =====
-- From the bytes of a command to the call of its function, in data_server/process.c.
use mathlib.Core.List.{append-nil, flatten}
use mathlib.Core.Path.{subst}
use tdss.Common.{
  ℕ, suc, ◌+◌, ◌-◌, ◌%◌, ◌^◌, ◌<◌, ◌≡◌, refl, sym, ◌∙◌, ap, true, false, some, List, [], ◌∷◌, ◌++◌,
  map, ◌==◌, arith, length, Bytes, ◌≤◌,
}
use tdss.DataServer.Command.{file_commands, find_file_command, run_file_command}
use tdss.DataServer.Process.{
  named, hear, listening, call_file_command, file_request_command, call_file_proc,
  file_session_reply, file_dispatch,
}
use tdss.DataServer.Session.{FileCommand, FileServer, FileLib, DataServerConf, FileEvent}
use tdss.NameServer.Process.{cmd_word}
use tdss.NameServer.Process.Request.{Unspaced, cmd_word-Unspaced}
use tdss.NameServer.Session.{
  State, session_begin, session_read, session_write, session_reply, Lib, Reading, got, content,
}
use tdss.NameServer.Sync.{received, recv_loop}
use tdss.NameServer.Sync.Answer.{recv_loop-chunks}
use tdss.Request.Fields.{Word, cstr-Word}
use tdss.Run.{ok}
use tdss.Strings.{Str, string_zero}
use tdss.Strings.Contents.{IsText, Gives, take-IsText, string_zero-Holds}

not_zero : (n m : ℕ) → n ≡ suc m → (n == 0) ≡ false
not_zero n m e = ground (arith, e)

hear_step :
    (lib : Lib) (reads : List Reading) (old zeroed input : Str) (word : Bytes)
    → string_zero old ≡ ok zeroed
    → recv_loop lib.memory zeroed reads ≡ ok (received input)
    → (input.len == 0) ≡ false
    → cmd_word lib.is_space 0 (content input) ≡ ok (some word)
    → hear lib reads old ≡ ok (named input word)
unfolding hear
hear_step lib reads old zeroed input word first run full found =
    rw (first, hear) (rw run (rw full (rw found refl)))

-- A message that starts with a name is read in any pieces.
pub hear-named :
    (lib : Lib) (chunks : List Bytes) (old : Str) (c : ℕ) (cs : Bytes) (stop : ℕ) (rest : Bytes)
    → Gives lib.memory
    → length old.str ≡ old.size
    → flatten chunks ≡ (c ∷ cs) ++ stop ∷ rest
    → Unspaced lib (c ∷ cs)
    → length (c ∷ cs) < 64
    → lib.is_space stop ≡ true
    → length ((c ∷ cs) ++ stop ∷ rest) ≤ 32768
    → (input : Str) × (hear lib (map got chunks) old ≡ ok (named input (c ∷ cs)))
      × IsText input ((c ∷ cs) ++ stop ∷ rest)
unfolding recv_loop
hear-named lib chunks old c cs stop rest gives sized whole un short space bounded =
    let message = (c ∷ cs) ++ stop ∷ rest in
    let (zeroed, first, (empty, _)) = string_zero-Holds old sized in
    let (input, run, read) =
      recv_loop-chunks lib.memory zeroed [] chunks [] gives empty
        (omega (arith, bounded, ap (λ (l : Bytes). length l) whole)) in
    let text : IsText input message = subst (IsText input) whole read in
    (
      input,
      hear_step lib (map got chunks) old zeroed input (c ∷ cs) first
          (ap (recv_loop lib.memory zeroed) (sym (append-nil (map got chunks))) ∙ run)
          (not_zero input.len _ text.1)
          (ap (cmd_word lib.is_space 0) (take-IsText input message text)
            ∙ cmd_word-Unspaced lib 0 (c ∷ cs) stop rest un space (omega arith)
                (omega (arith, short))),
      text,
    )

-- The session when the command has been found.
abbrev pub commanded : FileServer → Str → FileCommand → FileServer
commanded s input command = record s {
  session = record s.session {
    state = session_begin;
    next = session_begin;
    input = input;
    request_id = (s.session.request_id + 1) % 2 ^ 32;
    proc = some command;
  };
}

zeros : (n : ℕ) → suc n < 64 → 64 - suc n ≡ suc (62 - n)
zeros n h = omega arith

call_file_command-Word :
    (l : FileLib) (conf : DataServerConf) (ev : FileEvent) (s : FileServer) (input : Str) (c : ℕ)
    (cs : Bytes)
    → Word (c ∷ cs)
    → length (c ∷ cs) < 64
    → call_file_command l conf ev (listening s input) (c ∷ cs)
      ≡ run_file_command
          (find_file_command l.lib.libc.same_case (c ∷ cs) file_commands)
          l
          conf
          ev
          (commanded s input (find_file_command l.lib.libc.same_case (c ∷ cs) file_commands))
unfolding call_file_command
call_file_command-Word l conf ev s input c cs word short =
    rw (zeros (length cs) short) (rw (cstr-Word (c ∷ cs) (62 - length cs) word) refl)

idle :
    (l : FileLib) (conf : DataServerConf) (ev : FileEvent) (s : FileServer)
    → s.session.state ≡ session_begin
    → file_dispatch l conf ev s ≡ file_request_command l conf ev s
unfolding file_dispatch
idle l conf ev s e =
    ap
      (λ (t : State). elim t [
        | session_read ↦ call_file_proc l conf ev s
        | session_write ↦ call_file_proc l conf ev s
        | session_reply ↦ file_session_reply ev s
        | _ ↦ file_request_command l conf ev s
      ])
      e

heard_step :
    (l : FileLib) (conf : DataServerConf) (ev : FileEvent) (s : FileServer) (input : Str)
    (word : Bytes)
    → hear l.lib ev.net.reads s.session.input ≡ ok (named input word)
    → file_request_command l conf ev s ≡ call_file_command l conf ev (listening s input) word
unfolding file_request_command
heard_step l conf ev s input word run = rw run refl

-- What the client of a data server sent, in the pieces that the reads give, to a session that waits
-- for a command.
pub record Told (l : FileLib) (ev : FileEvent) (s : FileServer) (message : Bytes) : Type 0 where
  pub memory : Gives l.lib.memory
  pub waiting : s.session.state ≡ session_begin
  pub input : length s.session.input.str ≡ s.session.input.size
  pub output : length s.session.output.str ≡ s.session.output.size
  pub chunks : List Bytes
  pub reads : ev.net.reads ≡ map got chunks
  pub whole : flatten chunks ≡ message

-- A command of which the name is at most 63 bytes is passed on whole to its function.
pub file_dispatch-commanded :
    (l : FileLib) (conf : DataServerConf) (ev : FileEvent) (s : FileServer) (command : FileCommand)
    (c : ℕ) (cs : Bytes) (stop : ℕ) (rest : Bytes)
    → Told l ev s ((c ∷ cs) ++ stop ∷ rest)
    → Word (c ∷ cs)
    → Unspaced l.lib (c ∷ cs)
    → length (c ∷ cs) < 64
    → l.lib.is_space stop ≡ true
    → find_file_command l.lib.libc.same_case (c ∷ cs) file_commands ≡ command
    → length ((c ∷ cs) ++ stop ∷ rest) ≤ 32768
    → (input : Str) × IsText input ((c ∷ cs) ++ stop ∷ rest)
      × (file_dispatch l conf ev s ≡ run_file_command command l conf ev (commanded s input command))
file_dispatch-commanded l conf ev s command c cs stop rest told word un short space found bounded =
    let (input, run, text) =
      hear-named l.lib told.chunks s.session.input c cs stop rest told.memory told.input told.whole
        un short space bounded in
    (
      input,
      text,
      idle l conf ev s told.waiting
          ∙ heard_step l conf ev s input (c ∷ cs)
              (ap (λ (r : List Reading). hear l.lib r s.session.input) told.reads ∙ run)
          ∙ call_file_command-Word l conf ev s input c cs word short
          ∙ ap (λ (k : FileCommand). run_file_command k l conf ev (commanded s input k)) found,
    )
