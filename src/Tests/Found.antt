-- ===== src/Tests/Found.antt =====
-- Instances for master_server/process.c: a search for a data server, and what comes after it.
use mathlib.Core.List.{flatten}
use tdss.Common.{
  ◌≡◌, refl, inl, true, some, [], ◌∷◌, ◌++◌, arith, bytes, bytes_eq, ◌≤◌, length, ◌+◌,
}
use tdss.DataServer.Process.Accepted.{name_field, size_field}
use tdss.Master.Session.{
  MasterSession, MasterLib, find_args, find_master_command, on_request, reply_text,
}
use tdss.Master.Session.Again.{with_more, next_finding, on_request-repeats}
use tdss.Master.Session.Answered.{find_text, Asks, AnswersFind, on_request-AnswersFind}
use tdss.NameServer.Session.{session_begin, crlf}
use tdss.Request.{ends, find_arg}
use tdss.Request.Command.{InOrder}
use tdss.Request.Fields.{is_word-Word}
use tdss.Run.{Returns, ◌>>=◌}
use tdss.Strings.{unused}
use tdss.Strings.Contents.{IsText}
use tdss.Tests.Master.{three}
use tdss.Tests.Replies.{lib}
use tdss.Tests.Sessions.{Word-Unspaced, field-Good}
use tdss.Tests.Strings.{sevens-Gives}
use tdss.Tests.Tables.{red}

abbrev master_lib : MasterLib
master_lib = record { lib = lib; scan = λ fname. some 1 }

-- Two name servers that are up, and the command in one buffer
abbrev client : MasterSession
client = record {
  id = 0;
  state = session_begin;
  input = unused;
  output = unused;
  recv_bufs = find_text red (bytes "5") (10 ∷ []) ∷ [];
  sid = 0;
  master = record { data_server = three; name_server = 2 ∷ 2 ∷ []; work_id = 0 };
  addrs = λ i. (bytes "ip", 80);
  sizes = λ i. (9000, 9000);
  counts = λ i. (0, 0);
}

find-InOrder : InOrder lib.libc find_args 2 0 (name_field red ∷ size_field (bytes "5") ∷ [])
unfolding find_arg bytes_eq ends
find-InOrder = (
  field-Good (bytes "name") red 32 refl refl (λ e. cc) (λ e. cc) (omega arith) (omega arith) refl,
  refl,
  (
    field-Good (bytes "size") (bytes "5") 13 refl refl (λ e. cc) (λ e. cc) (omega arith)
        (omega arith) refl,
    refl,
    tt,
  ),
)

asks : Asks master_lib client red (bytes "5") (10 ∷ [])
unfolding find_master_command flatten bytes_eq ends
asks = record {
  memory = sevens-Gives;
  before = [];
  input = (refl, refl, inl (refl, refl));
  output = refl;
  whole = refl;
  short = omega arith;
  fields = find-InOrder;
  unspaced = Word-Unspaced (bytes "server_find") (is_word-Word (bytes "server_find") refl);
  space = refl;
  found = refl;
}

on_request-AnswersFind_example :
    Returns (on_request master_lib client) (AnswersFind master_lib client red (bytes "5") (10 ∷ []))
on_request-AnswersFind_example =
    on_request-AnswersFind master_lib client red (bytes "5") (10 ∷ []) asks

more_short :
    length (find_text red (bytes "5") (10 ∷ []))
      + length (flatten (client.recv_bufs ++ (bytes "status" ++ crlf) ∷ []))
    ≤ 32768
unfolding flatten
more_short = omega arith

-- The client goes on with `status`.
on_request-repeats_example :
    Returns
      (on_request master_lib client >>= λ r.
        on_request master_lib (with_more r.1 ((bytes "status" ++ crlf) ∷ [])))
      (λ r'.
        (r'.0 ≡ true)
        × IsText r'.1.output (
            reply_text master_lib client.addrs (next_finding master_lib client red (bytes "5")).0
            ++ crlf))
on_request-repeats_example =
    on_request-repeats master_lib client red (bytes "5") (10 ∷ []) ((bytes "status" ++ crlf) ∷ [])
      asks more_short
