-- ===== src/DataServer/Process/Accepted.antt =====
-- What `file_add` of data_server/command.c does with a command as it comes from the network.
use mathlib.Core.Path.{ap₂}
use tdss.Common.{
  ◌%◌, ◌^◌, ◌≡◌, refl, sym, ◌∙◌, ap, true, Option, none, List, [], ◌∷◌, ◌++◌, take, length, arith,
  replicate, replicate-suc, replicate-zero, Bytes, bytes,
}
use tdss.DataServer.Blocks.{block_file_append}
use tdss.DataServer.Command.{
  add_args, add_places, with_info, take_place, path_of, add_answer, add_file, run_file_command,
  file_commands, find_file_command,
}
use tdss.DataServer.Process.{file_dispatch, file_request_process}
use tdss.DataServer.Process.Answered.{replying, file_return-replying}
use tdss.DataServer.Process.Heard.{Told, commanded, file_dispatch-commanded}
use tdss.DataServer.Session.{file_add, FileServer, FileLib, DataServerConf, FileEvent, file_return}
use tdss.NameServer.Command.{number_arg, text_arg, placed_number, placed_text}
use tdss.NameServer.FblockMem.{Fblock}
use tdss.NameServer.Process.Request.{Unspaced}
use tdss.NameServer.Session.{session_read, crlf, content}
use tdss.Request.{ends, Value, convert, request_parse}
use tdss.Request.Command.{command-le, Field, message, values, InOrder, request_parse-message}
use tdss.Request.Fields.{Word, is_word-Word}
use tdss.Run.{ok}
use tdss.Strings.{Str}
use tdss.Strings.Contents.{IsText, take-IsText}

-- The fields of the command, from the texts of their values
abbrev pub name_field : Bytes → Field
name_field name = record {
  arg = text_arg (bytes "name");
  key = bytes "name";
  val = name;
  stop = 32;
}

abbrev pub size_field : Bytes → Field
size_field size = record {
  arg = number_arg (bytes "size");
  key = bytes "size";
  val = size;
  stop = 13;
}

abbrev pub upload_text : Bytes → Bytes → Bytes
upload_text name size =
    bytes "file_add" ++ 32 ∷ message (name_field name ∷ size_field size ∷ []) (10 ∷ [])

-- The client has sent `file_add` with a name and a size, and the C library finds the words that are
-- meant.
pub record Uploads (l : FileLib) (ev : FileEvent) (s : FileServer) (name size : Bytes)
    : Type 0 where
  pub told : Told l ev s (upload_text name size)
  pub fields : InOrder l.lib.libc add_args 2 0 (name_field name ∷ size_field size ∷ [])
  pub unspaced : Unspaced l.lib (bytes "file_add")
  pub space : l.lib.is_space 32 ≡ true
  pub found : find_file_command l.lib.libc.same_case (bytes "file_add") file_commands ≡ file_add

-- What `ss->fb_info` is after the parsing.
abbrev pub asked_file : FileLib → Bytes → Bytes → Fblock → Fblock
asked_file l name size fb = record fb { name = take 32 name; size = l.lib.libc.atoi size % 2 ^ 32 }

add_places-values :
    (l : FileLib) (name size : Bytes) (fb : Fblock)
    → add_places (values l.lib.libc (name_field name ∷ size_field size ∷ [])) fb
      ≡ asked_file l name size fb
unfolding add_places placed_number placed_text convert
add_places-values l name size fb = refl

pub two_none : replicate {A = Option Value} 2 none ≡ none ∷ none ∷ []
two_none =
    rw
      (
        replicate-suc {A = Option Value} 1 none,
        replicate-suc {A = Option Value} 0 none,
        replicate-zero {A = Option Value} none,
      )
      refl

add-Word : Word (bytes "file_add")
unfolding ends
add-Word = is_word-Word (bytes "file_add") refl

-- The session when a place has been found in the file of a path.
abbrev pub ready : FileServer → Bytes → FileServer
ready t path = record t {
  session = record t.session {
    fb_info = record t.session.fb_info { file = take 31 path };
    bf_buf = replicate (length t.session.bf_buf) 0;
    next = session_read;
  };
}

add_answer-ready :
    (l : FileLib) (ev : FileEvent) (t : FileServer) (path : Bytes)
    → path_of t ≡ ok path
    → add_answer l ev (true, t)
      ≡ file_return l (ready t path) (bytes "1000 file:" ++ (path ++ bytes " create"))
unfolding add_answer
add_answer-ready l ev t path here = rw here refl

add_file-parsed :
    (l : FileLib) (conf : DataServerConf) (ev : FileEvent) (s : FileServer)
    (vs : List (Option Value)) (fb : Fblock)
    → request_parse l.lib.libc (content s.session.input) add_args 2 (none ∷ none ∷ [])
      ≡ ok (true, vs)
    → add_places vs s.session.fb_info ≡ fb
    → add_file l conf ev s
      ≡ add_answer l ev (
          take_place ev
            (with_info s fb)
            (block_file_append conf.max_block_size s.store fb.size ev.blocks))
unfolding add_file
add_file-parsed l conf ev s vs fb parsed fields = rw parsed (
    ap
      (λ (g : Fblock). add_answer l ev (
        take_place ev (with_info s g)
          (block_file_append conf.max_block_size s.store g.size ev.blocks)))
      fields)

module _ (l : FileLib) (conf : DataServerConf) (ev : FileEvent) (s : FileServer) (name size : Bytes)
    (uploads : Uploads l ev s name size) where
  abbrev pub asked : FileServer → FileServer
  asked t = with_info t (asked_file l name size s.session.fb_info)

  -- The command comes to the search for a place.
  add_reaches :
      (input : Str) × IsText input (upload_text name size)
      × (file_dispatch l conf ev s
          ≡ add_answer l ev (
              take_place ev (asked (commanded s input file_add)) (
                block_file_append conf.max_block_size s.store
                  (l.lib.libc.atoi size % 2 ^ 32)
                  ev.blocks)))
  unfolding run_file_command ends
  add_reaches =
      let fs = name_field name ∷ size_field size ∷ [] in
      let (input, holds, run) =
        file_dispatch-commanded l conf ev s file_add 102 (bytes "ile_add") 32 (message fs (10 ∷ []))
          uploads.told add-Word uploads.unspaced (omega arith) uploads.space uploads.found
          (command-le l.lib.libc add_args 2 (bytes "file_add") 32 fs uploads.fields (omega arith)
            (omega arith)) in
      let parsed : request_parse l.lib.libc (content input) add_args 2 (none ∷ none ∷ [])
          ≡ ok (true, values l.lib.libc fs) =
        ap₂ (λ (b : Bytes) (o : List (Option Value)). request_parse l.lib.libc b add_args 2 o)
          (take-IsText input (upload_text name size) holds) (sym two_none)
        ∙ request_parse-message l.lib.libc add_args (bytes "file_add") 32 (name_field name)
            (size_field size ∷ []) (10 ∷ []) add-Word (omega arith) refl uploads.fields in
      (
        input,
        holds,
        run
            ∙ add_file-parsed l conf ev (commanded s input file_add) _
                (asked_file l name size s.session.fb_info) parsed
                (add_places-values l name size s.session.fb_info),
      )

  -- The session with a place.
  pub add_answers :
      (t : (input : Str) → FileServer) (path : Bytes)
      → ((input : Str)
          → take_place ev (asked (commanded s input file_add)) (
              block_file_append conf.max_block_size s.store
                (l.lib.libc.atoi size % 2 ^ 32)
                ev.blocks)
            ≡ (true, t input))
      → ((input : Str) → path_of (t input) ≡ ok path)
      → ((input : Str) → (t input).session.output ≡ s.session.output)
      → (input output : Str) × IsText input (upload_text name size)
        × (file_request_process l conf ev s ≡ ok (replying (ready (t input) path) output))
        × IsText output ((bytes "1000 file:" ++ (path ++ bytes " create")) ++ crlf)
        × (output.idx ≡ 0)
  add_answers t path takes here same =
      let (input, holds, run) = add_reaches in
      let (output, process, text, start) =
        file_return-replying l conf ev s (ready (t input) path)
          (bytes "1000 file:" ++ (path ++ bytes " create")) uploads.told.memory
          (ap (λ (o : Str). length o.str) (same input)
            ∙ uploads.told.output
            ∙ ap (λ (o : Str). o.size) (sym (same input)))
          (run
            ∙ ap (add_answer l ev) (takes input)
            ∙ add_answer-ready l ev (t input) path (here input)) in
      (input, output, holds, process, text, start)
