-- ===== src/DataServer/Process/Received.antt =====
-- A file that comes in over several calls of data_server/process.c is stored, and the name server is
-- told of it.
use mathlib.Core.List.{append-nil, flatten}
use mathlib.Core.Path.{subst}
use tdss.Common.{
  ℕ, ◌+◌, ◌<◌, ◌≤◌, ◌≡◌, refl, sym, ◌∙◌, ap, true, false, some, List, ◌++◌, ◌==◌, arith, length,
  length-append, Bytes,
}
use tdss.DataServer.Command.{with_upload, stored_answer, recv_answer}
use tdss.DataServer.NameClient.{Uploader, ns_file_info_add}
use tdss.DataServer.NameClient.Registered.{Connects, ns_file_info_add-Tells}
use tdss.DataServer.Process.{file_dispatch, file_request_process}
use tdss.DataServer.Process.Incoming.{
  with_file-same, upload_of, file_of, Incoming, receives, recv_file-left, goes_on, arrived, ends,
}
use tdss.DataServer.Session.{FileServer, FileLib, DataServerConf, FileEvent}
use tdss.DataServer.Upload
use tdss.DataServer.Upload.{BlockFile, splice, broke}
use tdss.DataServer.Upload.Chunk.{Receiving, Works}
use tdss.DataServer.Upload.Parts.{recv-Taken}
use tdss.DataServer.Upload.Whole.{Arrive}
use tdss.NameServer.Process.{next_task}
use tdss.NameServer.Process.Forwarded.{add_text}
use tdss.NameServer.Session.{
  session_begin, session_wait, Ret, state, task_wait_read, task_wait_noop, Child,
}
use tdss.Run.{ok}
use tdss.Strings.Contents.{IsText, Gives}

-- In one call these chunks come, and then no more; the disk works.
abbrev pub Comes : FileEvent → List Bytes → Type 0
Comes ev chunks = Works ev.disk × Arrive ev.recvs 0 chunks × (length chunks < ev.rounds)

count_of :
    (bufsiz : ℕ) (before : ℕ → ℕ) (bf : BlockFile) (u : Upload.Session) (body : Bytes)
    → Receiving bufsiz before bf u body
    → u.proc_size + length u.bf_buf ≡ length body
count_of bufsiz before bf u body r =
    let count = length-append r.written u.bf_buf in
    omega (arith, r.proc, count, ap (λ (b : Bytes). length b) r.whole)

differs : (size n : ℕ) → n < size → (size == n) ≡ false
differs size n h = ground arith

equals : (size n : ℕ) → n ≡ size → (size == n) ≡ true
equals size n h = ground arith

pub process_step :
    (l : FileLib) (conf : DataServerConf) (ev : FileEvent) (s s' : FileServer) (r : Ret)
    → file_dispatch l conf ev s ≡ ok (r, s')
    → file_request_process l conf ev s ≡ ok (record s' { task = next_task r s'.task })
unfolding file_request_process
process_step l conf ev s s' r run = rw run refl

-- The session when a part has come.
abbrev pub part_taken : FileServer → ℕ → BlockFile → Upload.Session → FileServer
part_taken s i bf u = record (with_upload s (s.names i) bf u) { task = task_wait_read }

still-Receiving :
    (l : FileLib) (before : ℕ → ℕ) (i : ℕ) (s : FileServer) (body : Bytes) (bf : BlockFile)
    (u : Upload.Session)
    → Receiving l.bufsiz before bf u body
    → u.size ≡ s.session.fb_info.size
    → u.offset ≡ s.session.fb_info.offset
    → Receiving l.bufsiz before
        (file_of (part_taken s i bf u) (s.names i))
        (upload_of (part_taken s i bf u))
        body
still-Receiving l before i s body bf u r size offset = record {
  written = r.written;
  whole = r.whole;
  proc = r.proc;
  placed =
      with_file-same s.files (s.names i) bf.content
      ∙ r.placed
      ∙ ap (λ (o : ℕ). splice before o r.written) offset;
  room = r.room;
  fits = subst (λ (n : ℕ). length body ≤ n) size r.fits;
  done = λ e. r.done (e ∙ sym size);
}

abbrev uploader : FileServer → Uploader
uploader s = record {
  state = s.session.state;
  task = s.task;
  fb_info = s.session.fb_info;
  output = s.session.output;
}

module _ (l : FileLib) (conf : DataServerConf) (before : ℕ → ℕ) (i : ℕ)
    (some_room : 0 < l.bufsiz) where
  pub part_received :
      (ev : FileEvent) (s : FileServer) (body : Bytes) (chunks : List Bytes)
      → Incoming l before i s body
      → Comes ev chunks
      → length (body ++ flatten chunks) < s.session.fb_info.size
      → (bf : BlockFile) × (u : Upload.Session) × (file_request_process l conf ev s
          ≡ ok (part_taken s i bf u))
        × Incoming l before i (part_taken s i bf u) (body ++ flatten chunks)
  unfolding next_task
  part_received ev s body chunks incoming (works, arrive, rounds) more =
      let (left, run, (bf, u, broken, r, size, offset)) =
        recv-Taken ev.rounds l.bufsiz ev.disk before ev.recvs 0 (file_of s (s.names i))
          (upload_of s) body chunks some_room works arrive incoming.taken (omega (arith, more))
          rounds in
      let count = count_of l.bufsiz before bf u (body ++ flatten chunks) r in
      (
        bf,
        u,
        process_step l conf ev s (with_upload s (s.names i) bf u) (state session_begin) (
            receives l conf ev s incoming.reading incoming.proc
            ∙ recv_file-left l conf ev s i left incoming.file run
            ∙ ap (recv_answer l conf ev s (s.names i)) broken
            ∙ goes_on l conf ev s (s.names i) bf u
                (differs s.session.fb_info.size u.proc_size (omega (arith, more, count)))),
        record {
          reading = incoming.reading;
          proc = incoming.proc;
          file = incoming.file;
          taken = still-Receiving l before i s (body ++ flatten chunks) bf u r size offset;
        },
      )

  -- The session when the file is there and the name server is being told.
  abbrev pub registering : FileEvent → FileServer → BlockFile → Child → FileServer
  registering ev s bf c = record (arrived l conf ev s i bf) {
    child = some c;
    task = task_wait_noop;
  }

  registers :
      (ev : FileEvent) (s : FileServer) (bf : BlockFile) (c : Child)
      → ns_file_info_add l.lib l.base conf.servers conf.server_id ev.net (uploader s)
        ≡ ok (true, some c)
      → stored_answer l conf ev (arrived l conf ev s i bf)
        ≡ ok (state session_wait, record (arrived l conf ev s i bf) { child = some c })
  unfolding stored_answer
  registers ev s bf c run = rw run refl

  pub whole_received :
      (ev : FileEvent) (s : FileServer) (body : Bytes) (chunks : List Bytes)
      → Incoming l before i s body
      → Comes ev chunks
      → length (body ++ flatten chunks) ≡ s.session.fb_info.size
      → Gives l.lib.memory
      → Connects l.lib conf.servers ev.net s.session.fb_info.name
      → (bf : BlockFile) × (c : Child) × (file_request_process l conf ev s
          ≡ ok (registering ev s bf c))
        × (bf.content ≡ splice before s.session.fb_info.offset (body ++ flatten chunks))
        × IsText c.output (
            add_text
              (l.lib.signed conf.server_id)
              s.session.fb_info.name
              (l.base s.session.fb_info.file)
              (l.lib.unsigned s.session.fb_info.offset)
              (l.lib.signed s.session.fb_info.size))
        × (c.output.idx ≡ 0)
  unfolding next_task
  whole_received ev s body chunks incoming (works, arrive, rounds) all gives connects =
      let whole = body ++ flatten chunks in
      let (left, run, (bf, u, broken, r, size, offset)) =
        recv-Taken ev.rounds l.bufsiz ev.disk before ev.recvs 0 (file_of s (s.names i))
          (upload_of s) body chunks some_room works arrive incoming.taken (omega (arith, all))
          rounds in
      let empty : length u.bf_buf ≡ 0 = ap (λ (b : Bytes). length b) (r.done (all ∙ sym size)) in
      let count = count_of l.bufsiz before bf u whole r in
      let same : r.written ≡ whole =
        sym (append-nil r.written)
        ∙ ap (λ (b : Bytes). r.written ++ b) (sym (r.done (all ∙ sym size)))
        ∙ r.whole in
      let (answer, tell, (c, is, text, start, _, _)) =
        ns_file_info_add-Tells l.lib l.base conf.servers conf.server_id ev.net (uploader s) gives
          connects in
      (
        bf,
        c,
        process_step l conf ev s (record (arrived l conf ev s i bf) { child = some c })
            (state session_wait)
            (receives l conf ev s incoming.reading incoming.proc
              ∙ recv_file-left l conf ev s i left incoming.file run
              ∙ ap (recv_answer l conf ev s (s.names i)) broken
              ∙ ends l conf ev s i bf u incoming.file
                  (equals s.session.fb_info.size u.proc_size (omega (arith, all, count, empty)))
              ∙ registers ev s bf c (tell ∙ ap (λ x. ok x) is)),
        r.placed
            ∙ ap (λ (o : ℕ). splice before o r.written) offset
            ∙ ap (splice before s.session.fb_info.offset) same,
        text,
        start,
      )
