-- ===== src/NameServer/Process/Got.antt =====
-- What `file_info_get` of name_server/command.c answers.
use mathlib.Core.Path.{subst, ap₂}
use tdss.Common.{
  ◌≡◌, ◌≢◌, refl, sym, ◌∙◌, ap, true, Option, none, some, List, [], ◌∷◌, ◌++◌, take, arith, length,
  Bytes, bytes, ◌%◌, ◌^◌,
}
use tdss.Hashdb.Holds.{Represents}
use tdss.NameServer.Command.{
  name_args, name_field, placed_text, with_fb, get_info, info_text, cmd_list, run_command,
  find_command,
}
use tdss.NameServer.FblockMem.{FblockMem, Fblock, fbm_bytes, fblock_mem_get}
use tdss.NameServer.Index.{fblock_mem_get-kept}
use tdss.NameServer.Layout.{Fits}
use tdss.NameServer.Process.{dispatch, request_process}
use tdss.NameServer.Process.Replied.{session_return-Replied}
use tdss.NameServer.Process.Refused.{named, one_none}
use tdss.NameServer.Process.Request.{Asked, Unspaced, called, request_command-called}
use tdss.NameServer.Process.Sends.{Sending}
use tdss.NameServer.Session.{
  task_wait_write, Command, file_info_get, Server, Lib, NameServerConf, Event, crlf, content,
  session_return,
}
use tdss.Request.{ends, convert, Value, request_parse}
use tdss.Request.Command.{message, values, InOrder, command-le, request_parse-message}
use tdss.Request.Fields.{Word, is_word-Word}
use tdss.Run.{Returns, ok, ◌>>=◌}
use tdss.Strings.Contents.{take-IsText}

-- The client has sent `file_info_get` with a name, and the C library finds the words that are meant.
pub record Gets (lib : Lib) (ev : Event) (s : Server) (name : Bytes) : Type 0 where
  pub asked : Asked lib ev s (bytes "file_info_get" ++ 32 ∷ message (named name ∷ []) (10 ∷ []))
  pub fields : InOrder lib.libc name_args 1 0 (named name ∷ [])
  pub unspaced : Unspaced lib (bytes "file_info_get")
  pub space : lib.is_space 32 ≡ true
  pub found : find_command lib.libc.same_case (bytes "file_info_get") cmd_list ≡ file_info_get

name_field-values :
    (lib : Lib) (name : Bytes) (fb : Fblock)
    → name_field (values lib.libc (named name ∷ [])) fb ≡ record fb { name = take 32 name }
unfolding name_field placed_text convert
name_field-values lib name fb = refl

-- The answer to `file_info_get` when a file is found, and when it is not.
abbrev get_answer : Lib → Option Fblock → Bytes
get_answer lib none = bytes "-1102 mem get error"
get_answer lib (some fb) = info_text lib fb

get-Word : Word (bytes "file_info_get")
unfolding ends
get-Word = is_word-Word (bytes "file_info_get") refl

abbrev pub found_in : Lib → Server → Option Fblock → Server
found_in lib s none = s
found_in lib s (some fb) = with_fb s fb

get_info-answers :
    (lib : Lib) (s : Server) (vs : List (Option Value)) (fb : Fblock) (found : Option Fblock)
    → request_parse lib.libc (content s.session.input) name_args 1 (none ∷ []) ≡ ok (true, vs)
    → name_field vs s.session.fb ≡ fb
    → fblock_mem_get lib.print s.db fb ≡ ok found
    → get_info lib s ≡ session_return lib (found_in lib (with_fb s fb) found) (get_answer lib found)
unfolding get_info
get_info-answers lib s vs fb found parsed fields run = rw parsed (
    ap
      (λ (g : Fblock). fblock_mem_get lib.print s.db g >>= λ r. elim r [
        | none ↦ session_return lib (with_fb s g) (bytes "-1102 mem get error")
        | some h ↦ session_return lib (with_fb s h) (info_text lib h)
      ])
      fields
    ∙ rw run (by_found found))
  where
    by_found :
        (o : Option Fblock)
        → (elim o [
          | none ↦ session_return lib (with_fb s fb) (bytes "-1102 mem get error")
          | some h ↦ session_return lib (with_fb s h) (info_text lib h)
        ])
          ≡ session_return lib (found_in lib (with_fb s fb) o) (get_answer lib o)
    by_found none = refl
    by_found (some h) = refl

-- What the client is told of a file that is kept.
abbrev pub shown : Lib → Bytes → FblockMem → Fblock
shown lib name b = record {
  server = b.server;
  size = b.size;
  offset = b.offset;
  ref = b.ref;
  name = name;
  file = lib.print b.prefix (b.suffix % 2 ^ 16);
}

module _ (lib : Lib) (conf : NameServerConf) (ev : Event) (s : Server) (name : Bytes)
    (gets : Gets lib ev s name) where
  replied :
      (found : Option Fblock) (h : Server) (asked : Fblock)
      → length h.session.input.str ≡ h.session.input.size
      → length h.session.output.str ≡ h.session.output.size
      → h.sent ≡ s.sent
      → h.db ≡ s.db
      → dispatch lib conf ev s
        ≡ session_return lib (found_in lib (with_fb h asked) found) (get_answer lib found)
      → Returns (request_process lib conf ev s) λ s'.
        Sending s.sent (get_answer lib found ++ crlf) s'
        × (s'.task ≡ task_wait_write)
        × (s'.db ≡ s.db)
  replied none h asked input output sent db run =
      let (s', process, (sending, task, same, _)) =
        session_return-Replied lib conf ev s (with_fb h asked) _ gets.asked.memory input output
          run in
      (
        s',
        process,
        (
          subst (λ (b : Bytes). Sending b (get_answer lib none ++ crlf) s') sent sending,
          task,
          same ∙ db,
        ),
      )
  replied (some fb) h asked input output sent db run =
      let (s', process, (sending, task, same, _)) =
        session_return-Replied lib conf ev s (with_fb (with_fb h asked) fb) _ gets.asked.memory
          input output run in
      (
        s',
        process,
        (
          subst (λ (b : Bytes). Sending b (get_answer lib (some fb) ++ crlf) s') sent sending,
          task,
          same ∙ db,
        ),
      )

  get_answers :
      (found : Option Fblock)
      → fblock_mem_get lib.print s.db (record s.session.fb { name = take 32 name }) ≡ ok found
      → Returns (request_process lib conf ev s) λ s'.
        Sending s.sent (get_answer lib found ++ crlf) s'
        × (s'.task ≡ task_wait_write)
        × (s'.db ≡ s.db)
  unfolding run_command ends
  get_answers found got =
      let text = bytes "file_info_get" ++ 32 ∷ message (named name ∷ []) (10 ∷ []) in
      let vs = values lib.libc (named name ∷ []) in
      let (input, holds, run) =
        request_command-called lib conf ev s 102 (bytes "ile_info_get") 32
          (message (named name ∷ []) (10 ∷ [])) gets.asked get-Word gets.unspaced (omega arith)
          gets.space
          (command-le lib.libc name_args 1 (bytes "file_info_get") 32 (named name ∷ []) gets.fields
            (omega arith) (omega arith)) in
      let parsed : request_parse lib.libc (content input) name_args 1 (none ∷ []) ≡ ok (true, vs) =
        ap₂ (λ (b : Bytes) (l : List (Option Value)). request_parse lib.libc b name_args 1 l)
          (take-IsText input text holds) (sym one_none)
        ∙ request_parse-message lib.libc name_args (bytes "file_info_get") 32 (named name) []
            (10 ∷ []) get-Word (omega arith) refl gets.fields in
      let handled = called s input file_info_get in
      let asked = record s.session.fb { name = take 32 name } in
      let ends_so : dispatch lib conf ev s
          ≡ session_return lib (found_in lib (with_fb handled asked) found) (get_answer lib found) =
        run
        ∙ ap (λ (c : Command). run_command c lib conf ev (called s input c)) gets.found
        ∙ get_info-answers lib handled vs asked found parsed
            (name_field-values lib name s.session.fb) got in
      let (s', process, (sending, task, db)) =
        replied found (called s input file_info_get) asked holds.0 gets.asked.output refl refl
          ends_so in
      (s', process, (sending, task, db))

  -- A well-formed `file_info_get`, to a table that stands for a map: when the name is kept with
  -- fields that fit their widths, the answer tells its server, block file, offset, size and count;
  -- when it is not there, the answer is an error. The table stays as it is.
  pub request_process-Got :
      {f : Bytes → Option Bytes} (b : FblockMem)
      → Represents s.db f
      → take 32 name ≢ []
      → Fits b
      → (f (take 32 name) ≡ some (fbm_bytes b)
          → Returns (request_process lib conf ev s) λ s'.
            Sending s.sent (info_text lib (shown lib (take 32 name) b) ++ crlf) s'
            × (s'.task ≡ task_wait_write)
            × (s'.db ≡ s.db))
        × (f (take 32 name) ≡ none
            → Returns (request_process lib conf ev s) λ s'.
              Sending s.sent (bytes "-1102 mem get error" ++ crlf) s'
              × (s'.task ≡ task_wait_write)
              × (s'.db ≡ s.db))
  request_process-Got {f} b rep k fits =
      let asked = record s.session.fb { name = take 32 name } in
      let kept_so = fblock_mem_get-kept {f = f} lib.print asked b rep k fits in
      (
        λ there. get_answers (some (shown lib (take 32 name) b)) (kept_so.0 there),
        λ missing. get_answers none (kept_so.1 missing),
      )
