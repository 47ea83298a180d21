-- ===== src/NameServer/Process/Replied.antt =====
-- What a command of name_server/process.c that ends in an answer makes of the connection.
use mathlib.Core.List.{append-nil}
use tdss.Common.{◌≡◌, refl, sym, ◌∙◌, ap, ◌++◌, take, arith, length, Bytes}
use tdss.NameServer.Process.{dispatch, next_task, request_process}
use tdss.NameServer.Process.Sends.{Sending}
use tdss.NameServer.Session.{
  session_reply, task_wait_write, Server, Lib, NameServerConf, Event, crlf, session_return,
}
use tdss.Run.{Returns}
use tdss.Strings.Contents.{Gives, string_printf-Holds}

-- The answer is left to be written, and nothing else than the output, the state and the task is
-- changed.
abbrev pub Replied : Server → Bytes → Server → Type 0
Replied s text s' =
    Sending s.sent (text ++ crlf) s'
    × (s'.task ≡ task_wait_write)
    × (s'.db ≡ s.db)
    × (s'.session.fb ≡ s.session.fb)

-- What a handler that ends in `session_return` makes of the call.
pub session_return-Replied :
    (lib : Lib) (conf : NameServerConf) (ev : Event) (s s' : Server) (text : Bytes)
    → Gives lib.memory
    → length s'.session.input.str ≡ s'.session.input.size
    → length s'.session.output.str ≡ s'.session.output.size
    → dispatch lib conf ev s ≡ session_return lib s' text
    → Returns (request_process lib conf ev s) (Replied s' text)
unfolding request_process session_return next_task
session_return-Replied lib conf ev s s' text gives input output run =
    let (r, print, ((fine, holds), start)) =
      string_printf-Holds lib.memory s'.session.output (text ++ crlf) gives output in
    (
      record s' {
        session = record s'.session { state = session_reply; output = r.1 };
        task = task_wait_write;
      },
      rw (run, session_return) (rw print refl),
      (
        record {
          replying = refl;
          answer = holds;
          begun = omega (arith, start);
          input = input;
          sent = sym (append-nil s'.sent) ∙ ap (λ n. s'.sent ++ take n (text ++ crlf)) (sym start);
        },
        refl,
        refl,
        refl,
      ),
    )
