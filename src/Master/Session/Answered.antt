-- ===== src/Master/Session/Answered.antt =====
-- From the bytes in a connection's buffers to the answer, in master_server/process.c.
use mathlib.Core.List.{append-nil, append_assoc, flatten}
use mathlib.Core.Path.{subst}
use tdss.Common.{
  ℕ, suc, ◌-◌, ◌%◌, ◌^◌, ◌<◌, ◌≡◌, refl, sym, ◌∙◌, ap, Bool, true, false, Option, none, some, List,
  [], ◌∷◌, ◌++◌, ◌==◌, arith, length, take, Bytes, bytes, ◌+◌, ◌≤◌, length-append,
}
use tdss.DataServer.Process.Accepted.{name_field, size_field, two_none}
use tdss.Master
use tdss.Master.{Master, Reply}
use tdss.Master.Session.{
  MasterSession, MasterLib, MasterCommand, server_find, find_args, find_places, find_answer,
  find_server, reply_text, master_return, run_master_command, find_master_command, master_commands,
  call_master_command, numbered, master_request_command, take_bufs, on_request,
}
use tdss.NameServer.Command.{placed_text, placed_number}
use tdss.NameServer.Process.{cmd_word}
use tdss.NameServer.Process.Request.{Unspaced, cmd_word-Unspaced}
use tdss.NameServer.Session.{State, session_reply, content, crlf}
use tdss.Request.{Value, ends, request_parse, convert}
use tdss.Request.Command.{InOrder, message, request_parse-message, values}
use tdss.Request.Fields.{Word, cstr-Word, is_word-Word}
use tdss.Run.{Returns, ok}
use tdss.Strings.{Str, Memory, string_printf}
use tdss.Strings.Contents.{IsText, Gives, take-IsText, string_catb-short, string_printf-Holds}

-- The bytes of all buffers go behind the input.
take_bufs-IsText :
    (mem : Memory) (input : Str) (before : Bytes) (bufs : List Bytes)
    → Gives mem
    → IsText input before
    → length before + length (flatten bufs) ≤ 32768
    → (s : Str) × (take_bufs mem input bufs ≡ ok (true, s)) × IsText s (before ++ flatten bufs)
unfolding take_bufs flatten
take_bufs-IsText mem input before [] gives t short =
    (input, refl, subst (IsText input) (sym (append-nil before)) t)
take_bufs-IsText mem input before (buf ∷ bufs) gives t short =
    let all = length-append buf (flatten bufs) in
    let ((b, s), run, (fine, held)) =
      string_catb-short mem input before buf gives t (omega (arith, short, all)) in
    let (s', rest, holds) =
      take_bufs-IsText mem s (before ++ buf) bufs gives held
        (omega (arith, short, all, length-append before buf)) in
    (
      s',
      rw (run, take_bufs)
          (ap (λ (c : Bool). elim c [ false ↦ ok (false, s) | true ↦ take_bufs mem s bufs ]) fine
            ∙ rest),
      subst (IsText s') (append_assoc before buf (flatten bufs)) holds,
    )

abbrev pub find_text : Bytes → Bytes → Bytes → Bytes
find_text name size rest =
    bytes "server_find" ++ 32 ∷ message (name_field name ∷ size_field size ∷ []) rest

find-Word : Word (bytes "server_find")
unfolding ends
find-Word = is_word-Word (bytes "server_find") refl

find_server-parsed :
    (l : MasterLib) (s : MasterSession) (vs : List (Option Value)) (fname : Bytes) (size : ℕ)
    → request_parse l.lib.libc (content s.input) find_args 2 (none ∷ none ∷ []) ≡ ok (true, vs)
    → find_places vs ≡ (fname, size)
    → find_server l s ≡ find_answer l s fname size
unfolding find_server
find_server-parsed l s vs fname size parsed places =
    rw parsed (ap (λ (p : Bytes × ℕ). find_answer l s p.0 p.1) places)

find_places-values :
    (l : MasterLib) (name size : Bytes)
    → find_places (values l.lib.libc (name_field name ∷ size_field size ∷ []))
      ≡ (take 32 name, l.lib.libc.atoi size % 2 ^ 32)
unfolding find_places placed_number placed_text convert
find_places-values l name size = refl

called_step :
    (l : MasterLib) (s : MasterSession) (c : ℕ) (cs : Bytes)
    → Word (c ∷ cs)
    → length (c ∷ cs) < 64
    → call_master_command l s (c ∷ cs)
      ≡ run_master_command
          (find_master_command l.lib.libc.same_case (c ∷ cs) master_commands)
          l
          (numbered s)
unfolding call_master_command
called_step l s c cs word short =
    let zeros : 64 - suc (length cs) ≡ suc (62 - length cs) = omega (arith, short) in
    rw zeros (rw (cstr-Word (c ∷ cs) (62 - length cs) word) refl)

request_step :
    (l : MasterLib) (s : MasterSession) (word : Bytes)
    → (s.input.len == 0) ≡ false
    → cmd_word l.lib.is_space 0 (content s.input) ≡ ok (some word)
    → master_request_command l s ≡ call_master_command l s word
unfolding master_request_command
request_step l s word full found = rw full (rw found refl)

on_request_step :
    (l : MasterLib) (s t : MasterSession) (input : Str) (st : State)
    → take_bufs l.lib.memory s.input s.recv_bufs ≡ ok (true, input)
    → master_request_command l (record s { input = input }) ≡ ok (st, t)
    → on_request l s ≡ ok (true, t)
unfolding on_request
on_request_step l s t input st taken run = rw (taken, on_request) (rw run refl)

not_zero : (n m : ℕ) → n ≡ suc m → (n == 0) ≡ false
not_zero n m e = ground (arith, e)

-- The input so far and the bytes in the buffers are `server_find` with a name and a size, and
-- whatever follows, at most 32 KB in all; the C library finds the words that are meant.
pub record Asks (l : MasterLib) (s : MasterSession) (name size rest : Bytes) : Type 0 where
  pub memory : Gives l.lib.memory
  pub before : Bytes
  pub input : IsText s.input before
  pub output : length s.output.str ≡ s.output.size
  pub whole : before ++ flatten s.recv_bufs ≡ find_text name size rest
  pub short : length (find_text name size rest) ≤ 32768
  pub fields : InOrder l.lib.libc find_args 2 0 (name_field name ∷ size_field size ∷ [])
  pub unspaced : Unspaced l.lib (bytes "server_find")
  pub space : l.lib.is_space 32 ≡ true
  pub found :
      find_master_command l.lib.libc.same_case (bytes "server_find") master_commands ≡ server_find

-- What `server_find` gives for a name and a size as they stand in the command
abbrev pub finding : MasterLib → MasterSession → Bytes → Bytes → Reply × Master
finding l s name size =
    Master.server_find l.scan s.master (take 32 name) (l.lib.libc.atoi size % 2 ^ 32)

-- The session when the command has been answered, and has been read.
abbrev pub AnswersFind :
    MasterLib → MasterSession → Bytes → Bytes → Bytes → Bool × MasterSession → Type 0
AnswersFind l s name size rest r =
    (r.0 ≡ true)
    × IsText r.1.output (reply_text l s.addrs (finding l s name size).0 ++ crlf)
    × IsText r.1.input (find_text name size rest)
    × (r.1.master ≡ (finding l s name size).1)
    × (r.1.recv_bufs ≡ s.recv_bufs)
    × (r.1.addrs ≡ s.addrs)

module _ (l : MasterLib) (s : MasterSession) (name size rest : Bytes)
    (asks : Asks l s name size rest) where
  -- The command comes to the search for a data server.
  reaches_find :
      (input : Str) × (take_bufs l.lib.memory s.input s.recv_bufs ≡ ok (true, input))
      × IsText input (find_text name size rest)
      × (master_request_command l (record s { input = input })
          ≡ find_answer l
              (numbered (record s { input = input }))
              (take 32 name)
              (l.lib.libc.atoi size % 2 ^ 32))
  unfolding run_master_command ends
  reaches_find =
      let fs = name_field name ∷ size_field size ∷ [] in
      let (input, taken, read) =
        take_bufs-IsText l.lib.memory s.input asks.before s.recv_bufs asks.memory asks.input (
          omega (
            arith,
            asks.short,
            length-append asks.before (flatten s.recv_bufs),
            ap (λ (l : Bytes). length l) asks.whole,
          )) in
      let holds : IsText input (find_text name size rest) = subst (IsText input) asks.whole read in
      let t : MasterSession = record s { input = input } in
      let parsed : request_parse l.lib.libc (content input) find_args 2 (none ∷ none ∷ [])
          ≡ ok (true, values l.lib.libc fs) =
        ap (λ (b : Bytes). request_parse l.lib.libc b find_args 2 (none ∷ none ∷ []))
          (take-IsText input (find_text name size rest) holds)
        ∙ ap
            (λ (o : List (Option Value)).
              request_parse l.lib.libc (find_text name size rest) find_args 2 o)
            (sym two_none)
        ∙ request_parse-message l.lib.libc find_args (bytes "server_find") 32 (name_field name)
            (size_field size ∷ []) rest find-Word (omega arith) refl asks.fields in
      (
        input,
        taken,
        holds,
        request_step l t (bytes "server_find") (not_zero input.len _ holds.1) (
              ap (cmd_word l.lib.is_space 0) (take-IsText input (find_text name size rest) holds)
              ∙ cmd_word-Unspaced l.lib 0 (bytes "server_find") 32 (message fs rest) asks.unspaced
                  asks.space (omega arith) (omega arith))
            ∙ called_step l t 115 (bytes "erver_find") find-Word (omega arith)
            ∙ ap (λ (k : MasterCommand). run_master_command k l (numbered t)) asks.found
            ∙ find_server-parsed l (numbered t) _ (take 32 name) (l.lib.libc.atoi size % 2 ^ 32)
                parsed (find_places-values l name size),
      )

answer_step :
    (l : MasterLib) (s : MasterSession) (text : Bytes) (r : Bool × Str)
    → string_printf l.lib.memory s.output (text ++ crlf) ≡ ok r
    → master_return l s text ≡ ok (session_reply, record s { state = session_reply; output = r.1 })
unfolding master_return
answer_step l s text r run = rw run refl

find_answer-Holds :
    (l : MasterLib) (s : MasterSession) (fname : Bytes) (size : ℕ)
    → Gives l.lib.memory
    → length s.output.str ≡ s.output.size
    → (output : Str) × (find_answer l s fname size
        ≡ ok (
          session_reply,
          record s {
            state = session_reply;
            output = output;
            master = (Master.server_find l.scan s.master fname size).1;
          },
        ))
      × IsText output
          (reply_text l s.addrs (Master.server_find l.scan s.master fname size).0 ++ crlf)
unfolding find_answer
find_answer-Holds l s fname size gives sized =
    let answer = Master.server_find l.scan s.master fname size in
    let text = reply_text l s.addrs answer.0 in
    let (r, run, ((_, holds), _)) =
      string_printf-Holds l.lib.memory s.output (text ++ crlf) gives sized in
    (r.1, answer_step l (record s { master = answer.1 }) text r run, holds)

-- A client's bytes that, with what was read before, are `server_find` with a name and a size and
-- whatever follows, at most 32 KB in all, are answered with the data server that is found for these, or the error; the
-- `work_id` goes on with the search, and the bytes stay in the input and in the buffers.
pub on_request-AnswersFind :
    (l : MasterLib) (s : MasterSession) (name size rest : Bytes)
    → Asks l s name size rest
    → Returns (on_request l s) (AnswersFind l s name size rest)
on_request-AnswersFind l s name size rest asks =
    let (input, taken, holds, run) = reaches_find l s name size rest asks in
    let t = numbered (record s { input = input }) in
    let (output, answer, text) =
      find_answer-Holds l t (take 32 name) (l.lib.libc.atoi size % 2 ^ 32) asks.memory
        asks.output in
    let t' : MasterSession = record t {
      state = session_reply;
      output = output;
      master = (finding l s name size).1;
    } in
    (
      (true, t'),
      on_request_step l s t' input session_reply taken (run ∙ answer),
      (refl, text, holds, refl, refl, refl),
    )
