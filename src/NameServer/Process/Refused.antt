-- ===== src/NameServer/Process/Refused.antt =====
-- What `file_ref_dec` and `file_ref_inc` of name_server/command.c do with a command as it comes from
-- the network.
use mathlib.Core.Path.{ap₂}
use tdss.Common.{
  ℕ, ◌<◌, ◌≡◌, refl, sym, ◌∙◌, ap, ◌⊎◌, inl, inr, true, false, Option, none, List, [], ◌∷◌, ◌++◌,
  arith, length, replicate, replicate-suc, replicate-zero, Bytes, bytes,
}
use tdss.NameServer.Command.{
  text_arg, name_args, name_field, with_fb, dec_ref, inc_ref, cmd_list, run_command, find_command,
}
use tdss.NameServer.Process.{request_process}
use tdss.NameServer.Process.Replied.{session_return-Replied}
use tdss.NameServer.Process.Request.{Asked, Unspaced, called, request_command-called}
use tdss.NameServer.Process.Sends.{Sending}
use tdss.NameServer.Session.{
  task_wait_write, Command, file_ref_dec, file_ref_inc, Server, Lib, NameServerConf, Event, crlf,
  content, session_return,
}
use tdss.Request.{ends, Value, request_parse}
use tdss.Request.Command.{command-le, Field, message, values, InOrder, request_parse-missing}
use tdss.Request.Fields.{Word}
use tdss.Run.{Returns, ok}
use tdss.Strings.Contents.{take-IsText}

-- The one field of the commands
abbrev pub named : Bytes → Field
named name = record { arg = text_arg (bytes "name"); key = bytes "name"; val = name; stop = 13 }

abbrev Counts : Command → Type 0
Counts command = (command ≡ file_ref_dec) ⊎ (command ≡ file_ref_inc)

pub one_none : replicate {A = Option Value} 1 none ≡ none ∷ []
one_none =
    replicate-suc {A = Option Value} 0 none
    ∙ ap (λ (l : List (Option Value)). none ∷ l) (replicate-zero {A = Option Value} none)

refusal :
    (lib : Lib) (conf : NameServerConf) (ev : Event) (s : Server) (command : Command)
    (vs : List (Option Value))
    → request_parse lib.libc (content s.session.input) name_args 7 (none ∷ []) ≡ ok (false, vs)
    → Counts command
    → run_command command lib conf ev s
      ≡ session_return lib
          (with_fb s (name_field vs s.session.fb))
          (bytes "-1001 request parse error")
unfolding run_command dec_ref inc_ref
refusal lib conf ev s command vs parsed (inl dec) =
    ap (λ (c : Command). run_command c lib conf ev s) dec ∙ rw (parsed, dec_ref) refl
refusal lib conf ev s command vs parsed (inr inc) =
    ap (λ (c : Command). run_command c lib conf ev s) inc ∙ rw (parsed, inc_ref) refl

-- `file_ref_dec` and `file_ref_inc` with one well-formed name are answered with an error, and the table
-- is left as it is: no count changes.
pub request_process-Refused :
    (lib : Lib) (conf : NameServerConf) (ev : Event) (s : Server) (c : ℕ) (cs name : Bytes)
    → Asked lib ev s ((c ∷ cs) ++ 32 ∷ message (named name ∷ []) (10 ∷ []))
    → Word (c ∷ cs)
    → Unspaced lib (c ∷ cs)
    → length (c ∷ cs) < 64
    → lib.is_space 32 ≡ true
    → InOrder lib.libc name_args 7 0 (named name ∷ [])
    → Counts (find_command lib.libc.same_case (c ∷ cs) cmd_list)
    → Returns (request_process lib conf ev s) λ s'.
      Sending s.sent (bytes "-1001 request parse error" ++ crlf) s'
      × (s'.task ≡ task_wait_write)
      × (s'.db ≡ s.db)
unfolding ends
request_process-Refused lib conf ev s c cs name asked word un short space order counts =
    let text = (c ∷ cs) ++ 32 ∷ message (named name ∷ []) (10 ∷ []) in
    let command = find_command lib.libc.same_case (c ∷ cs) cmd_list in
    let vs = values lib.libc (named name ∷ []) in
    let (input, holds, run) =
      request_command-called lib conf ev s c cs 32 (message (named name ∷ []) (10 ∷ [])) asked word
        un short space
        (command-le lib.libc name_args 7 (c ∷ cs) 32 (named name ∷ []) order short (omega arith)) in
    let parsed : request_parse lib.libc (content input) name_args 7 (none ∷ []) ≡ ok (false, vs) =
      ap₂ (λ (b : Bytes) (l : List (Option Value)). request_parse lib.libc b name_args 7 l)
        (take-IsText input text holds) (sym one_none)
      ∙ request_parse-missing lib.libc name_args 7 (c ∷ cs) 32 (named name ∷ []) (10 ∷ []) word
          (omega (arith, short)) refl order (omega arith) (refl, tt) in
    let handled = called s input command in
    let (s', process, (sending, task, db, _)) =
      session_return-Replied lib conf ev s (with_fb handled (name_field vs s.session.fb))
        (bytes "-1001 request parse error") asked.memory holds.0 asked.output
        (run ∙ refusal lib conf ev handled command vs parsed counts) in
    (s', process, (sending, task, db))
