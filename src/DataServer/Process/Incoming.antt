-- ===== src/DataServer/Process/Incoming.antt =====
-- The body of a file as it comes in over several calls of data_server/process.c.
use tdss.Common.{
  ℕ, ◌+◌, ◌-◌, ◌%◌, ◌^◌, ◌≡◌, refl, ◌∙◌, ap, true, false, Option, none, some, [], ◌==◌,
  bytes_eq_refl, Bytes,
}
use tdss.DataServer.Blocks.{block_file_close}
use tdss.DataServer.Command.{
  with_file, path_of, close_file, with_upload, stored_answer, recv_answer, disk_of, recv_file,
  run_file_command, add_file,
}
use tdss.DataServer.Process.{
  call_file_proc, file_session_reply, file_request_command, file_dispatch,
}
use tdss.DataServer.Session.{
  FileCommand, file_add, OpenFile, block, reader, FileServer, FileLib, DataServerConf, FileEvent,
}
use tdss.DataServer.Upload
use tdss.DataServer.Upload.{BlockFile, splice, Left, broke, aborted, file_add_loop_recv}
use tdss.DataServer.Upload.Chunk.{Receiving}
use tdss.NameServer.Session.{
  State, session_begin, session_read, session_write, session_reply, state,
}
use tdss.Run.{Run, ok, ◌>>=◌}

pub with_file-same :
    (files : Bytes → ℕ → ℕ) (path : Bytes) (f : ℕ → ℕ) → with_file files path f path ≡ f
with_file-same files path f = rw (bytes_eq_refl path) refl

-- The fields of the session that the transfer uses
abbrev pub upload_of : FileServer → Upload.Session
upload_of s = record {
  size = s.session.fb_info.size;
  offset = s.session.fb_info.offset;
  proc_size = s.session.proc_size;
  bf_buf = s.session.bf_buf;
}

abbrev pub file_of : FileServer → Bytes → BlockFile
file_of s path = record { content = s.files path; pos = 0 }

-- A session in which a file comes in for the block of a number, at its place over what was there
-- before; `body` has come so far.
pub record Incoming (l : FileLib) (before : ℕ → ℕ) (i : ℕ) (s : FileServer) (body : Bytes)
    : Type 0 where
  pub reading : s.session.state ≡ session_read
  pub proc : s.session.proc ≡ some file_add
  pub file : s.session.bf ≡ some (block i)
  pub taken : Receiving l.bufsiz before (file_of s (s.names i)) (upload_of s) body

-- The file of the block, and what the loop does there.
pub path_of-block :
    (s : FileServer) (i : ℕ) → s.session.bf ≡ some (block i) → path_of s ≡ ok (s.names i)
unfolding path_of
path_of-block s i e =
    ap
      (λ (o : Option OpenFile). elim o [
        | none ↦ Run.fault
        | some f ↦ ok (elim f [ block j ↦ s.names j | reader path num ↦ path ])
      ])
      e

pub close_file-block :
    (s : FileServer) (i : ℕ)
    → s.session.bf ≡ some (block i)
    → close_file s ≡ record s { store = block_file_close s.store i }
unfolding close_file
close_file-block s i e =
    ap
      (λ (o : Option OpenFile). elim o [
        | none ↦ s
        | some f ↦ elim f [
          | block j ↦ record s { store = block_file_close s.store j }
          | reader path num ↦ record s {
            session = record s.session { bf = some (reader path ((num + 2 ^ 32 - 1) % 2 ^ 32)) };
          }
        ]
      ])
      e

disk_of-block :
    (s : FileServer) (i : ℕ) (disk : Upload.Disk)
    → s.session.bf ≡ some (block i)
    → disk_of s disk ≡ disk
disk_of-block s i disk e =
    ap
      (λ (o : Option OpenFile). elim o [
        | some (reader path num) ↦ record disk { write_ok = λ j. false }
        | _ ↦ disk
      ])
      e

module _ (l : FileLib) (conf : DataServerConf) (ev : FileEvent) (s : FileServer) where
  pub receives :
      s.session.state ≡ session_read
      → s.session.proc ≡ some file_add
      → file_dispatch l conf ev s ≡ recv_file l conf ev s
  unfolding file_dispatch call_file_proc run_file_command
  receives here proc =
      ap
        (λ (t : State). elim t [
          | session_read ↦ call_file_proc l conf ev s
          | session_write ↦ call_file_proc l conf ev s
          | session_reply ↦ file_session_reply ev s
          | _ ↦ file_request_command l conf ev s
        ])
        here
      ∙ ap
          (λ (o : Option FileCommand). elim o [
            | none ↦ Run.fault
            | some c ↦ run_file_command c l conf ev s
          ])
          proc
      ∙ ap
          (λ (t : State). elim t [
            | session_read ↦ recv_file l conf ev s
            | _ ↦ add_file l conf ev s
          ])
          here

  pub recv_file-left :
      (i : ℕ) (left : Left)
      → s.session.bf ≡ some (block i)
      → file_add_loop_recv ev.rounds l.bufsiz ev.disk ev.recvs 0
          (file_of s (s.names i))
          (upload_of s)
        ≡ ok left
      → recv_file l conf ev s ≡ recv_answer l conf ev s (s.names i) left
  unfolding recv_file
  recv_file-left i left file run =
      ap
        (λ (r : Run Bytes). r >>= λ path.
          file_add_loop_recv ev.rounds l.bufsiz (disk_of s ev.disk) ev.recvs 0 (file_of s path)
            (upload_of s)
          >>= λ end. recv_answer l conf ev s path end)
        (path_of-block s i file)
      ∙ ap
          (λ (d : Upload.Disk).
            file_add_loop_recv ev.rounds l.bufsiz d ev.recvs 0 (file_of s (s.names i)) (upload_of s)
            >>= λ end. recv_answer l conf ev s (s.names i) end)
          (disk_of-block s i ev.disk file)
      ∙ ap (λ (r : Run Left). r >>= λ end. recv_answer l conf ev s (s.names i) end) run

  pub goes_on :
      (path : Bytes) (bf : BlockFile) (u : Upload.Session)
      → (s.session.fb_info.size == u.proc_size) ≡ false
      → recv_answer l conf ev s path (broke bf u)
        ≡ ok (state session_begin, with_upload s path bf u)
  unfolding recv_answer
  goes_on path bf u more = rw more refl

  -- The session when the file is there and the block file has been given back.
  abbrev pub arrived : ℕ → BlockFile → FileServer
  arrived i bf = record s {
    session = record s.session { proc_size = 0; bf_buf = []; next = session_begin };
    store = block_file_close s.store i;
    files = with_file s.files (s.names i) bf.content;
  }

  pub ends :
      (i : ℕ) (bf : BlockFile) (u : Upload.Session)
      → s.session.bf ≡ some (block i)
      → (s.session.fb_info.size == u.proc_size) ≡ true
      → recv_answer l conf ev s (s.names i) (broke bf u) ≡ stored_answer l conf ev (arrived i bf)
  unfolding recv_answer
  ends i bf u file all = rw all (
      ap
        (λ (closed : FileServer). stored_answer l conf ev (record closed {
          session = record closed.session { proc_size = 0; bf_buf = []; next = session_begin };
        }))
        (close_file-block (with_upload s (s.names i) bf u) i file))
