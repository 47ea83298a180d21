-- ===== src/Tests/Replies.antt =====
-- Instances for the answers of name_server/process.c and name_server/name_server_sync.c.
use mathlib.Core.List.{flatten}
use tdss.Common.{
  zero, ◌/◌, ◌%◌, ltb, ℕ, suc, ◌+◌, ◌<◌, ◌≤◌, ◌≡◌, ◌≢◌, refl, true, false, some, none, inr, List,
  [], ◌∷◌, ◌++◌, map, arith, length, take, Bytes, bytes,
}
use tdss.NameServer.FblockMem.{Fblock}
use tdss.NameServer.Process.{next_task, request_process}
use tdss.NameServer.Process.Reply.{stopped_at, answered}
use tdss.NameServer.Process.Sends.{Sending, request_process-Sending, request_process-skips}
use tdss.NameServer.Session.{
  state, session_begin, session_read, session_reply, task_wait_read, task_wait_noop, Child, Server,
  Lib, NameServerConf, Writing, got, failed, wrote, again, Event, crlf,
}
use tdss.NameServer.Sync.{child_process}
use tdss.NameServer.Sync.Answer.{Answered, child_process-Answered}
use tdss.Request.{ends}
use tdss.Run.{Returns}
use tdss.Strings.{unused}
use tdss.Strings.Contents.{IsText}
use tdss.Tests.Request.{libc}
use tdss.Tests.Strings.{sevens, sevens-Gives, unused-IsText}
use tdss.Tests.Tables.{grants, large}

-- The digits of a number, at most as many as the fuel.
unfoldable pub decimal : ℕ → ℕ → Bytes
decimal zero n = []
decimal (suc fuel) n = elim (ltb n 10) [
  | true ↦ (48 + n) ∷ []
  | false ↦ decimal fuel (n / 10) ++ (48 + n % 10) ∷ []
]

-- One file, whatever its text
abbrev pub lib : Lib
lib = record {
  libc = libc;
  is_space = λ c. ends c;
  signed = decimal 10;
  unsigned = decimal 10;
  scan = λ file. some (77, 3);
  print = λ prefix suffix. prefix ∷ suffix ∷ [];
  crc = λ key. 0;
  memory = sevens;
}

abbrev pub slave_conf : NameServerConf
slave_conf = record { server_id = 1; server_type = 2; servers = [] }

abbrev pub no_file : Fblock
no_file = record { server = 0; size = 0; offset = 0; ref = 0; name = []; file = [] }

abbrev pub idle : Server
idle = record {
  session = record {
    state = session_begin;
    next = session_begin;
    id = 0;
    fb = no_file;
    proc = none;
    input = unused;
    output = unused;
  };
  task = task_wait_read;
  db = large;
  sid = 0;
  child = none;
  sent = [];
}

abbrev pub event : Event
event = record {
  reads = [];
  writes = [];
  env = grants 0;
  connects = λ a. true;
  session_mem = true;
  added = true;
}

abbrev answer : Bytes
answer = bytes "0123456789"

-- "01" has been sent.
abbrev half_sent : Server
half_sent = record idle {
  session = record idle.session {
    state = session_reply;
    output = record { str = bytes "0123456789" ++ 0 ∷ []; idx = 2; len = 10; size = 11 };
  };
  sent = bytes "01";
}

half_sent-Sending : Sending [] answer half_sent
half_sent-Sending = record {
  replying = refl;
  answer = (refl, refl, inr ([], refl));
  begun = omega arith;
  input = refl;
  sent = refl;
}

abbrev twice : Event
twice = record event { writes = wrote 2 ∷ wrote 1 ∷ again ∷ [] }

request_process-Sending_example :
    ((ws : List Writing)
      → event.writes ≡ again ∷ ws
      → Returns (request_process lib slave_conf event half_sent) (λ s'.
        Sending [] answer s'
        × (s'.session.output.idx ≡ 2)
        × (s'.task ≡ task_wait_read)
        × (s' ≡ stopped_at half_sent 2 half_sent.sent)))
    × ((n : ℕ) (ws : List Writing)
        → n < 7
        → event.writes ≡ wrote (suc n) ∷ again ∷ ws
        → Returns (request_process lib slave_conf event half_sent) (λ s'.
          Sending [] answer s'
          × (s'.session.output.idx ≡ 2 + suc n)
          × (s'.task ≡ task_wait_read)
          × (s' ≡ stopped_at half_sent (2 + suc n) (take (2 + suc n) answer))))
    × ((ws : List Writing)
        → event.writes ≡ wrote 8 ∷ ws
        → Returns (request_process lib slave_conf event half_sent) (λ s'.
          (s'.sent ≡ answer)
          × IsText s'.session.input []
          × IsText s'.session.output []
          × (s'.session.state ≡ session_begin)
          × (s' ≡ record (answered half_sent s'.session.input s'.session.output answer) {
            task = next_task (state session_begin) half_sent.task;
          })))
request_process-Sending_example =
    request_process-Sending lib slave_conf event half_sent [] answer 7 half_sent-Sending refl

-- "23" and "6" are written; "45" is left out.
request_process-skips_example :
    Returns
      (request_process lib slave_conf twice half_sent)
      (λ s'. (s'.sent ≡ bytes "0123" ++ bytes "6") × (s'.session.output.idx ≡ 5))
request_process-skips_example =
    request_process-skips lib slave_conf twice half_sent [] answer 7 half_sent-Sending refl 1 0 []
      (omega arith) refl

abbrev pub child : Child
child = record {
  state = session_read;
  receives = true;
  task = task_wait_read;
  input = unused;
  output = unused;
}

abbrev syncing : Server
syncing = record idle { task = task_wait_noop; child = some child }

abbrev pub chunks : List Bytes
chunks = bytes "10" ∷ bytes "00 ok" ∷ []

abbrev slave_answers : Event
slave_answers = record event { reads = got (bytes "10") ∷ got (bytes "00 ok") ∷ [] }

chunks_short : length (flatten chunks) ≤ 32768
unfolding flatten
chunks_short = omega arith

child_process-Answered_example :
    ((tail : Bytes)
      → slave_answers.reads ≡ map got chunks
      → flatten chunks ≡ bytes "1000" ++ tail
      → Returns (child_process lib slave_answers syncing) (Answered (bytes "1000 success" ++ crlf)))
    × (slave_answers.reads ≡ map got chunks
        → length (flatten chunks) < 4
        → Returns
            (child_process lib slave_answers syncing)
            (Answered (bytes "-1014 sync to slave server error" ++ crlf)))
    × (slave_answers.reads ≡ map got chunks
        → 4 ≤ length (flatten chunks)
        → take 4 (flatten chunks) ≢ bytes "1000"
        → Returns
            (child_process lib slave_answers syncing)
            (Answered (bytes "-1015 sync to slave server error" ++ crlf)))
    × (slave_answers.reads ≡ map got chunks ++ failed ∷ []
        → child.state ≡ session_read
        → Returns
            (child_process lib slave_answers syncing)
            (Answered (bytes "-1013 sync to slave server error" ++ crlf)))
child_process-Answered_example =
    child_process-Answered lib slave_answers syncing child chunks sevens-Gives refl refl refl
      unused-IsText chunks_short
