-- ===== src/DataServer/Process/Answered.antt =====
-- The answers of data_server/process.c.
use mathlib.Core.Path.{ap₂}
use tdss.Common.{
  ℕ, suc, ◌+◌, ◌-◌, ◌≤◌, ◌≡◌, refl, ◌∙◌, ap, inl, inr, List, [], ◌∷◌, ◌++◌, take, arith, length,
  length-append, Bytes,
}
use tdss.DataServer.Process.{
  call_file_proc, file_request_command, file_session_reply, file_dispatch, file_request_process,
}
use tdss.DataServer.Session.{FileServer, FileLib, DataServerConf, FileEvent, file_return}
use tdss.NameServer.Process.{gave, pushed, reply_loop, next_task}
use tdss.NameServer.Process.Reply.{one_write, none_left, take-append_le}
use tdss.NameServer.Session.{
  State, session_read, session_write, session_reply, state, task_wait_write, Writing, wrote, crlf,
}
use tdss.Run.{ok}
use tdss.Strings.{Str, string_zero}
use tdss.Strings.Contents.{IsText, Gives, string_printf-Holds, string_zero-Holds}

-- The session with an answer to write.
abbrev pub replying : FileServer → Str → FileServer
replying s output = record s {
  session = record s.session { state = session_reply; output = output };
  task = task_wait_write;
}

-- What a handler that ends in `session_return` makes of the call.
pub file_return-replying :
    (l : FileLib) (conf : DataServerConf) (ev : FileEvent) (s s' : FileServer) (text : Bytes)
    → Gives l.lib.memory
    → length s'.session.output.str ≡ s'.session.output.size
    → file_dispatch l conf ev s ≡ file_return l s' text
    → (output : Str) × (file_request_process l conf ev s ≡ ok (replying s' output))
      × IsText output (text ++ crlf)
      × (output.idx ≡ 0)
unfolding file_request_process file_return next_task
file_return-replying l conf ev s s' text gives sized run =
    let (r, print, ((fine, holds), start)) =
      string_printf-Holds l.lib.memory s'.session.output (text ++ crlf) gives sized in
    (r.1, rw (run, file_return) (rw print refl), holds, start)

replies :
    (l : FileLib) (conf : DataServerConf) (ev : FileEvent) (s : FileServer)
    → s.session.state ≡ session_reply
    → file_dispatch l conf ev s ≡ file_session_reply ev s
unfolding file_dispatch
replies l conf ev s e =
    ap
      (λ (t : State). elim t [
        | session_read ↦ call_file_proc l conf ev s
        | session_write ↦ call_file_proc l conf ev s
        | session_reply ↦ file_session_reply ev s
        | _ ↦ file_request_command l conf ev s
      ])
      e

-- The session when all of the answer has been written.
abbrev pub written : FileServer → Str → Str → Bytes → FileServer
written s input output text = record s {
  session = record s.session { state = s.session.next; input = input; output = output };
  task = next_task (state s.session.next) s.task;
  sent = s.sent ++ text;
}

all_step :
    (ev : FileEvent) (s : FileServer) (pb : ℕ) (sent : Bytes) (input output : Str)
    → reply_loop ev.net.writes s.session.output.str s.session.output.idx
        (s.session.output.len - s.session.output.idx)
        (gave 0)
        s.sent
      ≡ ok (pushed pb 0 sent)
    → string_zero s.session.input ≡ ok input
    → string_zero s.session.output ≡ ok output
    → file_session_reply ev s
      ≡ ok (
        state s.session.next,
        record s {
          session = record s.session { state = s.session.next; input = input; output = output };
          sent = sent;
        },
      )
unfolding file_session_reply
all_step ev s pb sent input output run first second = rw (run, first, second) refl

take-all : (text : Bytes) → take (length text) text ≡ text
take-all [] = refl
take-all (c ∷ text) = ap (λ (l : Bytes). c ∷ l) (take-all text)

one_loop :
    (ws : List Writing) (out : Str) (max : ℕ) (text before : Bytes)
    → IsText out text
    → out.idx ≡ 0
    → suc max ≡ length text
    → reply_loop (wrote (suc max) ∷ ws) out.str out.idx (out.len - out.idx) (gave 0) before
      ≡ ok (pushed (0 + suc max) 0 (before ++ text))
one_loop ws out max text before (sized, len, inl (none', empty)) start all =
    absurd (omega (arith, all, ap (λ (l : Bytes). length l) empty))
one_loop ws out max text before (sized, len, inr (rest, str)) start all =
    let longer = ap (λ (l : Bytes). length l) str in
    let room : 0 + suc max ≤ length out.str =
      omega (arith, longer, all, length-append text (0 ∷ rest)) in
    ap₂ (λ (p m : ℕ). reply_loop (wrote (suc max) ∷ ws) out.str p m (gave 0) before) start
      (omega (arith, start, len, all))
    ∙ one_write ws out.str 0 max max before room
    ∙ ap₂
        (λ (m : ℕ) (b : Bytes).
          reply_loop ws out.str (0 + suc max) m (gave (suc max)) (before ++ b))
        (omega arith)
        (ap (take (suc max)) str
          ∙ take-append_le (suc max) text (0 ∷ rest) (omega (arith, all))
          ∙ ap (λ (n : ℕ). take n text) all
          ∙ take-all text)
    ∙ none_left ws out.str (0 + suc max) (suc max) (before ++ text)

-- When the whole answer is written at once, the client has been sent it, and the session is in the
-- state `next`.
pub file_reply-written :
    (l : FileLib) (conf : DataServerConf) (ev : FileEvent) (s : FileServer) (text : Bytes) (max : ℕ)
    (ws : List Writing)
    → s.session.state ≡ session_reply
    → length s.session.input.str ≡ s.session.input.size
    → IsText s.session.output text
    → s.session.output.idx ≡ 0
    → suc max ≡ length text
    → ev.net.writes ≡ wrote (suc max) ∷ ws
    → (input output : Str) × (file_request_process l conf ev s ≡ ok (written s input output text))
      × IsText input []
      × IsText output []
unfolding file_request_process
file_reply-written l conf ev s text max ws here sized holds start all writes =
    let out = s.session.output in
    let (input, first, (empty, _)) = string_zero-Holds s.session.input sized in
    let (output, second, (empty', _)) = string_zero-Holds out holds.0 in
    let run =
      ap (λ (w : List Writing). reply_loop w out.str out.idx (out.len - out.idx) (gave 0) s.sent)
        writes
      ∙ one_loop ws out max text s.sent holds start all in
    (
      input,
      output,
      rw
          (
            replies l conf ev s here,
            all_step ev s (0 + suc max) (s.sent ++ text) input output run first second,
          )
          refl,
      empty,
      empty',
    )
