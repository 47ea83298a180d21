-- ===== src/Master/Session/Again.antt =====
-- A second command on a connection of the master server, in master_server/process.c.
use mathlib.Core.List.{append_assoc, flatten}
use mathlib.Core.Path.{subst}
use tdss.Common.{
  length, ℕ, ◌%◌, ◌^◌, ◌≡◌, refl, ◌∙◌, ap, true, List, [], ◌∷◌, ◌++◌, take, Bytes, bytes, ◌≤◌,
  length-append, arith, ◌+◌,
}
use tdss.DataServer.Process.Accepted.{name_field, size_field}
use tdss.Master.Session.{MasterSession, MasterLib, on_request, reply_text}
use tdss.Master.Session.Answered.{Asks, find_text, finding, on_request-AnswersFind}
use tdss.Master
use tdss.Master.{Master, Reply}
use tdss.NameServer.Session.{crlf}
use tdss.Request.Command.{Field, message}
use tdss.Run.{Returns, ◌>>=◌}
use tdss.Strings.Contents.{IsText}

message-append :
    (fs : List Field) (rest more : Bytes) → message fs rest ++ more ≡ message fs (rest ++ more)
message-append [] rest more = refl
message-append (f ∷ fs) rest more =
    append_assoc f.key (61 ∷ (f.val ++ f.stop ∷ message fs rest)) more
    ∙ ap (λ (t : Bytes). f.key ++ 61 ∷ t)
        (append_assoc f.val (f.stop ∷ message fs rest) more
          ∙ ap (λ (t : Bytes). f.val ++ f.stop ∷ t) (message-append fs rest more))

find_text-append :
    (name size rest more : Bytes)
    → find_text name size rest ++ more ≡ find_text name size (rest ++ more)
find_text-append name size rest more =
    let fs = name_field name ∷ size_field size ∷ [] in
    append_assoc (bytes "server_find") (32 ∷ message fs rest) more
    ∙ ap (λ (t : Bytes). bytes "server_find" ++ 32 ∷ t) (message-append fs rest more)

-- The session when the event loop has put more buffers behind those that are there.
abbrev pub with_more : MasterSession → List Bytes → MasterSession
with_more s more = record s { recv_bufs = s.recv_bufs ++ more }

abbrev searched : MasterLib → Master → Bytes → Bytes → Reply × Master
searched l m name size = Master.server_find l.scan m (take 32 name) (l.lib.libc.atoi size % 2 ^ 32)

-- What a second search for the same name and size finds.
abbrev pub next_finding : MasterLib → MasterSession → Bytes → Bytes → Reply × Master
next_finding l s name size = searched l (finding l s name size).1 name size

-- On a connection whose input and buffers are a `server_find`, a call after which the event loop adds
-- buffers, whatever they hold as long as the input stays within 32 KB, is followed by a call that
-- answers with another search for the first command's name and size.
pub on_request-repeats :
    (l : MasterLib) (s : MasterSession) (name size rest : Bytes) (more : List Bytes)
    → Asks l s name size rest
    → length (find_text name size rest) + length (flatten (s.recv_bufs ++ more)) ≤ 32768
    → Returns (on_request l s >>= λ r. on_request l (with_more r.1 more)) (λ r'.
      (r'.0 ≡ true)
      × IsText r'.1.output (reply_text l s.addrs (next_finding l s name size).0 ++ crlf))
on_request-repeats l s name size rest more asks bounded =
    let ((_, t), run, (done, output, input, master, bufs, addrs)) =
      on_request-AnswersFind l s name size rest asks in
    let t' = with_more t more in
    let again : Asks l t' name size (rest ++ flatten t'.recv_bufs) = record {
      memory = asks.memory;
      before = find_text name size rest;
      input = input;
      output = output.0;
      whole = find_text-append name size rest (flatten t'.recv_bufs);
      short = omega (
        arith,
        bounded,
        length-append (find_text name size rest) (flatten t'.recv_bufs),
        ap (λ (l : Bytes). length l) (find_text-append name size rest (flatten t'.recv_bufs)),
        ap (λ (bs : List Bytes). length (flatten (bs ++ more))) bufs,
      );
      fields = asks.fields;
      unspaced = asks.unspaced;
      space = asks.space;
      found = asks.found;
    } in
    let (r', run', (done', output', _, _, _, _)) =
      on_request-AnswersFind l t' name size (rest ++ flatten t'.recv_bufs) again in
    (
      r',
      rw run run',
      (
        done',
        subst
            (λ (m : Master).
              IsText r'.1.output (reply_text l s.addrs (searched l m name size).0 ++ crlf))
            master
            (subst
              (λ (a : ℕ → Bytes × ℕ).
                IsText r'.1.output (reply_text l a (searched l t.master name size).0 ++ crlf))
              addrs output'),
      ),
    )
