-- ===== src/NameServer/Process/Added.antt =====
-- What `file_info_add` of name_server/command.c does with a command as it comes from the network, on
-- a slave.
use mathlib.Core.Path.{subst, ap₂}
use tdss.Common.{
  ℕ, ◌+◌, ◌%◌, ◌^◌, ◌≤◌, ◌≡◌, refl, sym, ◌∙◌, ap, ◌≢◌, Bool, true, Option, none, some, List, [],
  ◌∷◌, ◌++◌, take, arith, replicate, replicate-suc, replicate-zero, Bytes, bytes,
}
use tdss.Hashdb.{Hashdb}
use tdss.Hashdb.Enter.{update}
use tdss.Hashdb.Holds.{Represents}
use tdss.Hashdb.Insert.{Grants}
use tdss.NameServer.Command.{
  number_arg, text_arg, info_args, info_fields, placed_number, placed_text, with_fb, sync_or_reply,
  info_done, add_info, cmd_list, run_command, find_command,
}
use tdss.NameServer.FblockMem.{FblockMem, Fblock, fbm_bytes, fbm_of, fblock_mem_add}
use tdss.NameServer.Index.{kept, fblock_mem_add-counts}
use tdss.NameServer.Process.{dispatch, request_process}
use tdss.NameServer.Process.Replied.{session_return-Replied}
use tdss.NameServer.Process.Request.{Asked, Unspaced, called, request_command-called}
use tdss.NameServer.Process.Sends.{Sending}
use tdss.NameServer.Session.{
  task_wait_write, Command, file_info_add, Server, Lib, NameServerConf, Event, crlf, content,
  session_return,
}
use tdss.Request.{ends, Value, convert, request_parse}
use tdss.Request.Command.{Field, message, values, InOrder, command-le, request_parse-message}
use tdss.Request.Fields.{Word, is_word-Word}
use tdss.Run.{Returns, ok, ◌>>=◌}
use tdss.Strings.{Str}
use tdss.Strings.Contents.{IsText, take-IsText}

-- The fields of the command, from the texts of their values
abbrev pub server_field : Bytes → Field
server_field server = record {
  arg = number_arg (bytes "server");
  key = bytes "server";
  val = server;
  stop = 32;
}

abbrev pub file_fields : Bytes → Bytes → Bytes → Bytes → List Field
file_fields name file offset size =
    record { arg = text_arg (bytes "name"); key = bytes "name"; val = name; stop = 32 }
    ∷ record { arg = text_arg (bytes "file"); key = bytes "file"; val = file; stop = 32 }
    ∷ record { arg = number_arg (bytes "offset"); key = bytes "offset"; val = offset; stop = 32 }
    ∷ record { arg = number_arg (bytes "size"); key = bytes "size"; val = size; stop = 13 }
    ∷ []

abbrev pub add_fields : Bytes → Bytes → Bytes → Bytes → Bytes → List Field
add_fields server name file offset size = server_field server ∷ file_fields name file offset size

-- What `ss->fb` is after the parsing.
abbrev pub sent_file : Lib → Bytes → Bytes → Bytes → Bytes → Bytes → ℕ → Fblock
sent_file lib server name file offset size ref = record {
  server = lib.libc.atoi server % 2 ^ 32;
  size = lib.libc.atoi size % 2 ^ 32;
  offset = lib.libc.atoi offset % 2 ^ 32;
  ref = ref;
  name = take 32 name;
  file = take 32 file;
}

info_fields-values :
    (lib : Lib) (server name file offset size : Bytes) (fb : Fblock)
    → info_fields (values lib.libc (add_fields server name file offset size)) fb
      ≡ sent_file lib server name file offset size fb.ref
unfolding info_fields placed_number placed_text convert
info_fields-values lib server name file offset size fb = refl

slave_replies :
    (lib : Lib) (conf : NameServerConf) (ev : Event) (s : Server)
    → conf.server_type ≡ 2
    → sync_or_reply lib conf ev s ≡ session_return lib s (bytes "1000 ok")
unfolding sync_or_reply
slave_replies lib conf ev s slave = rw slave refl

add_info-added :
    (lib : Lib) (conf : NameServerConf) (ev : Event) (s : Server) (vs : List (Option Value))
    (fb : Fblock) (m : Hashdb)
    → request_parse lib.libc
        (content s.session.input)
        info_args
        5
        (none ∷ none ∷ none ∷ none ∷ none ∷ [])
      ≡ ok (true, vs)
    → info_fields vs s.session.fb ≡ fb
    → fblock_mem_add lib.scan s.db fb ev.env ≡ ok (true, m)
    → add_info lib conf ev s ≡ sync_or_reply lib conf ev (record (with_fb s fb) { db = m })
unfolding add_info info_done
add_info-added lib conf ev s vs fb m parsed fields added = rw parsed (
    ap
      (λ (g : Fblock). fblock_mem_add lib.scan s.db g ev.env >>= λ a.
        info_done lib conf ev (a.0, record (with_fb s g) { db = a.1 }))
      fields
    ∙ rw added refl)

five_none : replicate {A = Option Value} 5 none ≡ none ∷ none ∷ none ∷ none ∷ none ∷ []
five_none =
    rw
      (
        replicate-suc {A = Option Value} 4 none,
        replicate-suc {A = Option Value} 3 none,
        replicate-suc {A = Option Value} 2 none,
        replicate-suc {A = Option Value} 1 none,
        replicate-suc {A = Option Value} 0 none,
        replicate-zero {A = Option Value} none,
      )
      refl

add-Word : Word (bytes "file_info_add")
unfolding ends
add-Word = is_word-Word (bytes "file_info_add") refl

-- The client has sent `file_info_add` with the five values, and the C library finds the words that
-- are meant.
pub record Adds (lib : Lib) (ev : Event) (s : Server) (server name file offset size : Bytes)
    : Type 0 where
  pub asked :
      Asked lib ev s
        (bytes "file_info_add" ++ 32 ∷ message (add_fields server name file offset size) (10 ∷ []))
  pub fields : InOrder lib.libc info_args 5 0 (add_fields server name file offset size)
  pub unspaced : Unspaced lib (bytes "file_info_add")
  pub space : lib.is_space 32 ≡ true
  pub found : find_command lib.libc.same_case (bytes "file_info_add") cmd_list ≡ file_info_add

module _ (lib : Lib) (conf : NameServerConf) (ev : Event) (s : Server)
    (server name file offset size : Bytes) (adds : Adds lib ev s server name file offset size) where
  abbrev pub added_file : Fblock
  added_file = sent_file lib server name file offset size s.session.fb.ref

  -- When the index takes the file, the handler comes to its last part.
  pub add_reaches :
      (m : Hashdb)
      → fblock_mem_add lib.scan s.db added_file ev.env ≡ ok (true, m)
      → (input : Str) × IsText input (
          bytes "file_info_add" ++ 32 ∷ message (add_fields server name file offset size) (10 ∷ []))
        × (dispatch lib conf ev s
            ≡ sync_or_reply lib conf ev
                (record (with_fb (called s input file_info_add) added_file) { db = m }))
  unfolding run_command ends
  add_reaches m added =
      let text =
        bytes "file_info_add" ++ 32 ∷ message (add_fields server name file offset size) (10 ∷ []) in
      let (input, holds, run) =
        request_command-called lib conf ev s 102 (bytes "ile_info_add") 32
          (message (add_fields server name file offset size) (10 ∷ [])) adds.asked add-Word
          adds.unspaced (omega arith) adds.space
          (command-le lib.libc info_args 5 (bytes "file_info_add") 32
            (add_fields server name file offset size) adds.fields (omega arith) (omega arith)) in
      let parsed : request_parse lib.libc (content input) info_args 5
            (none ∷ none ∷ none ∷ none ∷ none ∷ [])
          ≡ ok (true, values lib.libc (add_fields server name file offset size)) =
        ap₂ (λ (b : Bytes) (l : List (Option Value)). request_parse lib.libc b info_args 5 l)
          (take-IsText input text holds) (sym five_none)
        ∙ request_parse-message lib.libc info_args (bytes "file_info_add") 32 (server_field server)
            (file_fields name file offset size) (10 ∷ []) add-Word (omega arith) refl adds.fields in
      (
        input,
        holds,
        run
            ∙ ap (λ (c : Command). run_command c lib conf ev (called s input c)) adds.found
            ∙ add_info-added lib conf ev (called s input file_info_add) _ added_file m parsed
                (info_fields-values lib server name file offset size s.session.fb) added,
      )

  -- The handler of a slave ends with the answer.
  add_answers :
      (m : Hashdb)
      → conf.server_type ≡ 2
      → fblock_mem_add lib.scan s.db added_file ev.env ≡ ok (true, m)
      → Returns (request_process lib conf ev s) λ s'.
        Sending s.sent (bytes "1000 ok" ++ crlf) s' × (s'.task ≡ task_wait_write) × (s'.db ≡ m)
  add_answers m slave added =
      let (input, holds, run) = add_reaches m added in
      let after : Server = record (with_fb (called s input file_info_add) added_file) { db = m } in
      let (s', process, (sending, task, db, _)) =
        session_return-Replied lib conf ev s after (bytes "1000 ok") adds.asked.memory holds.0
          adds.asked.output (run ∙ slave_replies lib conf ev after slave) in
      (s', process, (sending, task, db))

  answered_add :
      (g : Bytes → Option Bytes)
      → conf.server_type ≡ 2
      → Returns
          (fblock_mem_add lib.scan s.db added_file ev.env)
          (λ r. (r.0 ≡ true) × Represents r.1 g)
      → Returns (request_process lib conf ev s) λ s'.
        Sending s.sent (bytes "1000 ok" ++ crlf) s'
        × (s'.task ≡ task_wait_write)
        × Represents s'.db g
  answered_add g slave (r, added, (fine, rep)) =
      let (s', run, (sending, task, db)) =
        add_answers r.1 slave (added ∙ ap (λ (b : Bool). ok (b, r.1)) fine) in
      (s', run, (sending, task, subst (λ (m : Hashdb). Represents m g) (sym db) rep))

  -- A slave that is sent a well-formed `file_info_add` for a file whose block file's name can be
  -- read, with a table that stands for a map, of at least 2 ^ 16 chains, memory at an unused address
  -- and a log that can be written: it answers "1000 ok" and waits to write that. Under a new name
  -- the table then stands for the map with the file's server, size, offset and block file, and a
  -- count of 1; under a name that is there, only the count kept with it goes up by one, modulo
  -- 2 ^ 32.
  pub request_process-Added :
      {f : Bytes → Option Bytes} (prefix suffix : ℕ)
      → conf.server_type ≡ 2
      → Represents s.db f
      → 2 ^ 16 ≤ s.db.size
      → take 32 name ≢ []
      → Grants ev.env s.db
      → lib.scan (take 32 file) ≡ some (prefix, suffix)
      → (f (take 32 name) ≡ none
          → Returns (request_process lib conf ev s) λ s'.
            Sending s.sent (bytes "1000 ok" ++ crlf) s'
            × (s'.task ≡ task_wait_write)
            × Represents s'.db
                (update f (take 32 name) (some (fbm_bytes (kept added_file prefix suffix)))))
        × ((old : Bytes) (b : FblockMem)
            → f (take 32 name) ≡ some old
            → fbm_of old ≡ some b
            → Returns (request_process lib conf ev s) λ s'.
              Sending s.sent (bytes "1000 ok" ++ crlf) s'
              × (s'.task ≡ task_wait_write)
              × Represents s'.db (
                  update f
                    (take 32 name)
                    (some (fbm_bytes (record b { ref = (b.ref + 1) % 2 ^ 32 })))))
  request_process-Added {f} prefix suffix slave rep wide k g scanned =
      let counts =
        fblock_mem_add-counts {f = f} lib.scan added_file prefix suffix ev.env rep wide k g
          scanned in
      (
        λ new. answered_add _ slave (counts.0 new),
        λ old b there of. answered_add _ slave (counts.1 old b there of),
      )
