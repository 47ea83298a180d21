-- ===== src/DataServer/Process/Fetched.antt =====
-- A download from data_server/process.c, from the command to the last byte.
use mathlib.Core.Path.{ap₂}
use tdss.Common.{
  ℕ, suc, ◌+◌, ◌-◌, ◌%◌, ◌^◌, ◌≡◌, refl, sym, ◌∙◌, ap, Bool, true, Option, none, some, List, [],
  ◌∷◌, ◌++◌, map, take, arith, length, if◌then◌else◌, replicate, replicate-suc, replicate-zero,
  Bytes, bytes,
}
use tdss.DataServer.Blocks.{block_file_close}
use tdss.DataServer.Command.{
  get_args, get_places, with_info, read_path, path_of, close_file, get_file, send_answer, send_file,
  run_file_command, file_commands, find_file_command,
}
use tdss.DataServer.Download.{
  Download, Outcome, session_begin, SendfileResult, section, sent, total, file_get_loop_send,
}
use tdss.DataServer.Download.Calls.{file_get_loop_send-repeats}
use tdss.DataServer.NameClient.{no_fb}
use tdss.DataServer.Process.{
  call_file_proc, file_session_reply, file_request_command, file_dispatch, file_request_process,
}
use tdss.DataServer.Process.Accepted.{name_field, size_field}
use tdss.DataServer.Process.Answered.{replying, written, file_return-replying, file_reply-written}
use tdss.DataServer.Process.Heard.{Told, commanded, file_dispatch-commanded}
use tdss.DataServer.Process.Received.{process_step}
use tdss.DataServer.Process.Saved.{file_calls, one_call}
use tdss.DataServer.Session.{
  FileCommand, file_get, OpenFile, block, reader, FileServer, FileLib, DataServerConf, FileEvent,
  file_return,
}
use tdss.NameServer.Command.{number_arg, text_arg, placed_number, placed_text}
use tdss.NameServer.FblockMem.{Fblock}
use tdss.NameServer.Process.{next_task}
use tdss.NameServer.Process.Request.{Unspaced}
use tdss.NameServer.Session.{
  State, session_read, session_write, session_reply, state, task_wait_read, Writing, wrote, crlf,
  content,
}
use tdss.Request.{ends, Value, convert, request_parse}
use tdss.Request.Command.{command-le, Field, message, values, InOrder, request_parse-message}
use tdss.Request.Fields.{Word, is_word-Word}
use tdss.Run.{Run, Returns, ok, ◌>>=◌}
use tdss.Strings.{Str}
use tdss.Strings.Contents.{IsText, take-IsText}

-- The fields of the command, from the texts of their values
abbrev pub file_fields : Bytes → Bytes → Bytes → List Field
file_fields file offset size =
    record { arg = text_arg (bytes "file"); key = bytes "file"; val = file; stop = 32 }
    ∷ record { arg = number_arg (bytes "offset"); key = bytes "offset"; val = offset; stop = 32 }
    ∷ size_field size
    ∷ []

abbrev first_field : Bytes → Field
first_field name = name_field name

abbrev pub download_text : Bytes → Bytes → Bytes → Bytes → Bytes
download_text name file offset size =
    bytes "file_get" ++ 32 ∷ message (name_field name ∷ file_fields file offset size) (10 ∷ [])

-- The client has sent `file_get` with the four values, and the C library finds the words that are
-- meant.
pub record Downloads (l : FileLib) (ev : FileEvent) (s : FileServer) (name file offset size : Bytes)
    : Type 0 where
  pub told : Told l ev s (download_text name file offset size)
  pub fields : InOrder l.lib.libc get_args 4 0 (name_field name ∷ file_fields file offset size)
  pub unspaced : Unspaced l.lib (bytes "file_get")
  pub space : l.lib.is_space 32 ≡ true
  pub found : find_file_command l.lib.libc.same_case (bytes "file_get") file_commands ≡ file_get

-- What `ss->fb_info` is after the parsing.
abbrev pub wanted_file : FileLib → Bytes → Bytes → Bytes → Bytes → Fblock → Fblock
wanted_file l name file offset size fb = record fb {
  name = take 32 name;
  file = take 32 file;
  offset = l.lib.libc.atoi offset % 2 ^ 32;
  size = l.lib.libc.atoi size % 2 ^ 32;
}

get_places-values :
    (l : FileLib) (name file offset size : Bytes) (fb : Fblock)
    → get_places (values l.lib.libc (name_field name ∷ file_fields file offset size)) fb
      ≡ wanted_file l name file offset size fb
unfolding get_places placed_number placed_text convert
get_places-values l name file offset size fb = refl

four_none : replicate {A = Option Value} 4 none ≡ none ∷ none ∷ none ∷ none ∷ []
four_none =
    rw
      (
        replicate-suc {A = Option Value} 3 none,
        replicate-suc {A = Option Value} 2 none,
        replicate-suc {A = Option Value} 1 none,
        replicate-suc {A = Option Value} 0 none,
        replicate-zero {A = Option Value} none,
      )
      refl

get-Word : Word (bytes "file_get")
unfolding ends
get-Word = is_word-Word (bytes "file_get") refl

-- The session when the file of a path has been opened.
abbrev pub opened : FileServer → Bytes → FileServer
opened s path = record s {
  session = record s.session {
    bf = some (reader path 1);
    proc_size = 0;
    fb_info = record s.session.fb_info { file = take 31 path };
    next = session_write;
  };
}

abbrev pub opened_text : Bytes → Bytes
opened_text path = bytes "1000 open file:" ++ (path ++ bytes " success")

get_file-opened :
    (l : FileLib) (conf : DataServerConf) (ev : FileEvent) (s : FileServer)
    (vs : List (Option Value)) (fb : Fblock)
    → request_parse l.lib.libc (content s.session.input) get_args 4 (none ∷ none ∷ none ∷ none ∷ [])
      ≡ ok (true, vs)
    → get_places vs s.session.fb_info ≡ fb
    → ev.opens (read_path conf fb.file) ≡ true
    → get_file l conf ev s
      ≡ file_return l
          (opened (with_info s fb) (read_path conf fb.file))
          (opened_text (read_path conf fb.file))
unfolding get_file
get_file-opened l conf ev s vs fb parsed fields open_ok = rw parsed (
    ap
      (λ (g : Fblock).
        if ev.opens (read_path conf g.file)
        then file_return l (opened (with_info s g) (read_path conf g.file))
            (opened_text (read_path conf g.file))
        else file_return l (with_info s g)
            (bytes "-1002 open file" ++ (g.name ++ (bytes " error:" ++ ev.error_text))))
      fields
    ∙ rw open_ok refl)

module _ (l : FileLib) (conf : DataServerConf) (ev : FileEvent) (s : FileServer) where
  sends :
      s.session.state ≡ session_write
      → s.session.proc ≡ some file_get
      → file_dispatch l conf ev s ≡ send_file l ev s
  unfolding file_dispatch call_file_proc run_file_command
  sends here proc =
      ap
        (λ (t : State). elim t [
          | session_read ↦ call_file_proc l conf ev s
          | session_write ↦ call_file_proc l conf ev s
          | session_reply ↦ file_session_reply ev s
          | _ ↦ file_request_command l conf ev s
        ])
        here
      ∙ ap
          (λ (o : Option FileCommand). elim o [
            | none ↦ Run.fault
            | some c ↦ run_file_command c l conf ev s
          ])
          proc
      ∙ ap (λ (t : State). elim t [ session_write ↦ send_file l ev s | _ ↦ get_file l conf ev s ])
          here

-- The session when the file has been sent; the structure of the file is not freed.
abbrev pub fetched : FileServer → Bytes → Bytes → FileServer
fetched s path out = record s {
  session = record s.session {
    state = State.session_begin;
    proc_size = 0;
    fb_info = no_fb;
    bf = some (reader path 0);
  };
  task = task_wait_read;
  sent = s.sent ++ out;
}

path_of-reader :
    (s : FileServer) (path : Bytes) (num : ℕ)
    → s.session.bf ≡ some (reader path num)
    → path_of s ≡ ok path
unfolding path_of
path_of-reader s path num e =
    ap
      (λ (o : Option OpenFile). elim o [
        | none ↦ Run.fault
        | some f ↦ ok (elim f [ block j ↦ s.names j | reader p n ↦ p ])
      ])
      e

close_file-reader :
    (s : FileServer) (path : Bytes)
    → s.session.bf ≡ some (reader path 1)
    → close_file s ≡ record s { session = record s.session { bf = some (reader path 0) } }
unfolding close_file
close_file-reader s path e =
    ap
      (λ (o : Option OpenFile). elim o [
        | none ↦ s
        | some f ↦ elim f [
          | block j ↦ record s { store = block_file_close s.store j }
          | reader p num ↦ record s {
            session = record s.session { bf = some (reader p ((num + 2 ^ 32 - 1) % 2 ^ 32)) };
          }
        ]
      ])
      e

send_file-all :
    (l : FileLib) (ev : FileEvent) (s : FileServer) (path : Bytes) (ns : List ℕ)
    (ss : List SendfileResult)
    → s.session.bf ≡ some (reader path 1)
    → s.session.proc_size ≡ 0
    → ev.disk.seek_ok ≡ true
    → ev.sendfiles ≡ map sent ns ++ ss
    → total ns ≡ s.session.fb_info.size
    → send_file l ev s
      ≡ ok (
        state State.session_begin,
        record (fetched s path
            (section (s.files path) s.session.fb_info.offset s.session.fb_info.size)) {
              task = s.task;
            },
      )
unfolding send_file send_answer
send_file-all l ev s path ns ss file fresh seek sendfiles whole =
    let run : file_get_loop_send ev.disk.seek_ok ev.sendfiles (s.files path) (record {
      size = s.session.fb_info.size;
      offset = s.session.fb_info.offset;
      proc_size = s.session.proc_size;
    })
        ≡ (
          session_begin,
          record { size = 0; offset = 0; proc_size = 0 },
          section (s.files path) s.session.fb_info.offset s.session.fb_info.size,
        ) =
      ap₂
        (λ (b : Bool) (n : ℕ). file_get_loop_send b ev.sendfiles (s.files path) (record {
          size = s.session.fb_info.size;
          offset = s.session.fb_info.offset;
          proc_size = n;
        }))
        seek fresh
      ∙ ap
          (λ (r : List SendfileResult). file_get_loop_send true r (s.files path) (record {
            size = s.session.fb_info.size;
            offset = s.session.fb_info.offset;
            proc_size = 0;
          }))
          sendfiles
      ∙ (file_get_loop_send-repeats (s.files path) s.session.fb_info.size s.session.fb_info.offset
            ns [] ss []).0
          whole in
    let after : FileServer = record s {
      session = record s.session { proc_size = 0 };
      sent = s.sent ++ section (s.files path) s.session.fb_info.offset s.session.fb_info.size;
    } in
    ap
      (λ (r : Run Bytes). r >>= λ p.
        let r = file_get_loop_send ev.disk.seek_ok ev.sendfiles (s.files p) (record {
          size = s.session.fb_info.size;
          offset = s.session.fb_info.offset;
          proc_size = s.session.proc_size;
        }) in
        send_answer l ev
          (record s {
            session = record s.session { proc_size = r.1.proc_size };
            sent = s.sent ++ r.2;
          })
          r.0)
      (path_of-reader s path 1 file)
    ∙ ap
        (λ (r : Outcome × Download × Bytes).
          send_answer l ev
            (record s {
              session = record s.session { proc_size = r.1.proc_size };
              sent = s.sent ++ r.2;
            })
            r.0)
        run
    ∙ ap
        (λ (closed : FileServer). ok (
          state State.session_begin,
          record closed {
            session = record closed.session { state = State.session_begin; fb_info = no_fb };
          },
        ))
        (close_file-reader after path file)

module _ (l : FileLib) (conf : DataServerConf) (ev : FileEvent) (s : FileServer)
    (name file offset size : Bytes) (downloads : Downloads l ev s name file offset size) where
  abbrev pub wanted : FileServer → FileServer
  wanted t = with_info t (wanted_file l name file offset size s.session.fb_info)

  abbrev pub wanted_path : Bytes
  wanted_path = read_path conf (take 32 file)

  -- The answer to the command
  get_accepted :
      ev.opens wanted_path ≡ true
      → (input output : Str) × IsText input (download_text name file offset size)
        × (file_request_process l conf ev s
            ≡ ok (replying (opened (wanted (commanded s input file_get)) wanted_path) output))
        × IsText output (opened_text wanted_path ++ crlf)
        × (output.idx ≡ 0)
  unfolding run_file_command ends
  get_accepted open_ok =
      let fs = name_field name ∷ file_fields file offset size in
      let (input, holds, run) =
        file_dispatch-commanded l conf ev s file_get 102 (bytes "ile_get") 32 (message fs (10 ∷ []))
          downloads.told get-Word downloads.unspaced (omega arith) downloads.space downloads.found
          (command-le l.lib.libc get_args 4 (bytes "file_get") 32 fs downloads.fields (omega arith)
            (omega arith)) in
      let parsed : request_parse l.lib.libc (content input) get_args 4
            (none ∷ none ∷ none ∷ none ∷ [])
          ≡ ok (true, values l.lib.libc fs) =
        ap₂ (λ (b : Bytes) (o : List (Option Value)). request_parse l.lib.libc b get_args 4 o)
          (take-IsText input (download_text name file offset size) holds) (sym four_none)
        ∙ request_parse-message l.lib.libc get_args (bytes "file_get") 32 (name_field name)
            (file_fields file offset size) (10 ∷ []) get-Word (omega arith) refl downloads.fields in
      let (output, process, text, start) =
        file_return-replying l conf ev s (opened (wanted (commanded s input file_get)) wanted_path)
          (opened_text wanted_path) downloads.told.memory downloads.told.output
          (run
            ∙ get_file-opened l conf ev (commanded s input file_get) _
                (wanted_file l name file offset size s.session.fb_info) parsed
                (get_places-values l name file offset size s.session.fb_info) open_ok) in
      (input, output, holds, process, text, start)

  pub file_calls-Fetched :
      (answer last : FileEvent) (ws : List Writing) (max : ℕ) (ns : List ℕ)
      (ss : List SendfileResult)
      → ev.opens wanted_path ≡ true
      → answer.net.writes ≡ wrote (suc max) ∷ ws
      → suc max ≡ length (opened_text wanted_path ++ crlf)
      → last.disk.seek_ok ≡ true
      → last.sendfiles ≡ map sent ns ++ ss
      → total ns ≡ l.lib.libc.atoi size % 2 ^ 32
      → Returns (file_calls l conf (ev ∷ answer ∷ last ∷ []) s) (λ s'.
        (s'.sent
          ≡ (s.sent ++ (opened_text wanted_path ++ crlf))
            ++ section
                (s.files wanted_path)
                (l.lib.libc.atoi offset % 2 ^ 32)
                (l.lib.libc.atoi size % 2 ^ 32))
        × (s'.files ≡ s.files)
        × (s'.session.state ≡ State.session_begin)
        × (s'.task ≡ task_wait_read)
        × (s'.session.bf ≡ some (reader wanted_path 0)))
  unfolding next_task
  file_calls-Fetched answer last ws max ns ss open_ok writes all seek sendfiles whole =
      let (input, output, holds, run, text, start) = get_accepted open_ok in
      let asked : FileServer =
        replying (opened (wanted (commanded s input file_get)) wanted_path) output in
      let (input', output', run', _, _) =
        file_reply-written l conf answer asked (opened_text wanted_path ++ crlf) max ws refl holds.0
          text start all writes in
      let now : FileServer = written asked input' output' (opened_text wanted_path ++ crlf) in
      let out =
        section (s.files wanted_path) (l.lib.libc.atoi offset % 2 ^ 32)
          (l.lib.libc.atoi size % 2 ^ 32) in
      (
        fetched now wanted_path out,
        one_call l conf ev (answer ∷ last ∷ []) s asked run (
            one_call l conf answer (last ∷ []) asked now run' (
              one_call l conf last [] now (fetched now wanted_path out)
                (process_step l conf last now
                  (record (fetched now wanted_path out) { task = now.task })
                  (state State.session_begin)
                  (sends l conf last now refl refl
                    ∙ send_file-all l last now wanted_path ns ss refl refl seek sendfiles whole))
                refl)),
        (refl, refl, refl, refl, refl),
      )
