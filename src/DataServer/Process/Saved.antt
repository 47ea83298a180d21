-- ===== src/DataServer/Process/Saved.antt =====
-- A whole upload to data_server/process.c, from the body's first byte on.
use mathlib.Core.List.{append_assoc, flatten}
use mathlib.Core.Path.{subst}
use tdss.Common.{
  ℕ, ◌<◌, ◌≡◌, refl, sym, ◌∙◌, ap, false, some, List, [], ◌∷◌, ◌++◌, map, arith, length,
  length-append, bytes_eq, Bytes,
}
use tdss.DataServer.Command.{with_file}
use tdss.DataServer.NameClient.Registered.{Connects}
use tdss.DataServer.Process.{file_request_process}
use tdss.DataServer.Process.Incoming.{with_file-same, Incoming}
use tdss.DataServer.Process.Received.{Comes, part_taken, part_received, registering, whole_received}
use tdss.DataServer.Session.{FileServer, FileLib, DataServerConf, FileEvent}
use tdss.DataServer.Upload
use tdss.DataServer.Upload.{BlockFile, splice}
use tdss.NameServer.Process.Forwarded.{add_text}
use tdss.NameServer.Session.{session_begin, task_wait_noop, Child}
use tdss.Run.{Run, Returns, ok, ◌>>=◌}
use tdss.Strings.Contents.{IsText, Gives}

-- Several calls for one connection
abbrev pub file_calls : FileLib → DataServerConf → List FileEvent → FileServer → Run FileServer
file_calls l conf [] s = ok s
file_calls l conf (ev ∷ evs) s = file_request_process l conf ev s >>= λ s'. file_calls l conf evs s'

-- What comes in some calls, and all of it together
abbrev pub Parts : List (FileEvent × List Bytes) → Type 0
Parts [] = Unit
Parts ((ev, chunks) ∷ parts) = Comes ev chunks × Parts parts

abbrev pub pieces : List (FileEvent × List Bytes) → Bytes
pieces [] = []
pieces ((ev, chunks) ∷ parts) = flatten chunks ++ pieces parts

-- The body lies in the block's file at its place over what was there, other files and what the client
-- was sent are as they were, the session can begin anew and waits for the name server, and the connection to that has the line
-- about the file to send.
abbrev pub Saved : FileLib → DataServerConf → (ℕ → ℕ) → ℕ → FileServer → Bytes → FileServer → Type 0
Saved l conf before i s body s' =
    (s'.files (s.names i) ≡ splice before s.session.fb_info.offset body)
    × ((path : Bytes) → bytes_eq (s.names i) path ≡ false → s'.files path ≡ s.files path)
    × (s'.session.proc_size ≡ 0)
    × (s'.session.bf_buf ≡ [])
    × (s'.session.next ≡ session_begin)
    × (s'.task ≡ task_wait_noop)
    × (s'.sent ≡ s.sent)
    × ((c : Child) × (s'.child ≡ some c)
        × IsText c.output (
            add_text (l.lib.signed conf.server_id) s.session.fb_info.name
              (l.base s.session.fb_info.file) (l.lib.unsigned s.session.fb_info.offset)
              (l.lib.signed s.session.fb_info.size))
        × (c.output.idx ≡ 0))

other_file :
    (files : Bytes → ℕ → ℕ) (path : Bytes) (f : ℕ → ℕ) (p : Bytes)
    → bytes_eq path p ≡ false
    → with_file files path f p ≡ files p
other_file files path f p e = rw e refl

Saved-part :
    (l : FileLib) (conf : DataServerConf) (before : ℕ → ℕ) (i : ℕ) (s : FileServer) (bf : BlockFile)
    (u : Upload.Session) (body : Bytes) (s' : FileServer)
    → Saved l conf before i (part_taken s i bf u) body s'
    → Saved l conf before i s body s'
Saved-part l conf before i s bf u body s' (file, others, none_left, empty, next, task, sent, told) =
    (
      file,
      λ p e. others p e ∙ other_file s.files (s.names i) bf.content p e,
      none_left,
      empty,
      next,
      task,
      sent,
      told,
    )

pub one_call :
    (l : FileLib) (conf : DataServerConf) (ev : FileEvent) (evs : List FileEvent)
    (s s' : FileServer) {x : Run FileServer}
    → file_request_process l conf ev s ≡ ok s'
    → file_calls l conf evs s' ≡ x
    → file_calls l conf (ev ∷ evs) s ≡ x
one_call l conf ev evs s s' run rest = rw run rest

module _ (l : FileLib) (conf : DataServerConf) (before : ℕ → ℕ) (i : ℕ) (some_room : 0 < l.bufsiz)
    (gives : Gives l.lib.memory) where
  pub calls_from :
      (parts : List (FileEvent × List Bytes)) (ev : FileEvent) (chunks : List Bytes)
      (s : FileServer) (body : Bytes)
      → Incoming l before i s body
      → Parts parts
      → Comes ev chunks
      → 0 < length (flatten chunks)
      → length (body ++ (pieces parts ++ flatten chunks)) ≡ s.session.fb_info.size
      → Connects l.lib conf.servers ev.net s.session.fb_info.name
      → Returns
          (file_calls l conf (map (λ p. p.0) parts ++ ev ∷ []) s)
          (Saved l conf before i s (body ++ (pieces parts ++ flatten chunks)))
  calls_from [] ev chunks s body incoming come comes some_more all connects =
      let (bf, c, run, content, text, start) =
        whole_received l conf before i some_room ev s body chunks incoming comes all gives
          connects in
      (
        registering l conf before i some_room ev s bf c,
        one_call l conf ev [] s _ run refl,
        (
          with_file-same s.files (s.names i) bf.content ∙ content,
          λ p e. other_file s.files (s.names i) bf.content p e,
          refl,
          refl,
          refl,
          refl,
          refl,
          (c, refl, text, start),
        ),
      )
  calls_from ((ev', chunks') ∷ parts) ev chunks s body incoming (now, later) comes some_more all
        connects =
      let same : (body ++ flatten chunks') ++ (pieces parts ++ flatten chunks)
          ≡ body ++ ((flatten chunks' ++ pieces parts) ++ flatten chunks) =
        append_assoc body (flatten chunks') (pieces parts ++ flatten chunks)
        ∙ ap (λ (b : Bytes). body ++ b)
            (sym (append_assoc (flatten chunks') (pieces parts) (flatten chunks))) in
      let all' = ap (λ (b : Bytes). length b) same ∙ all in
      let more : length (body ++ flatten chunks') < s.session.fb_info.size = omega (
        arith,
        all',
        some_more,
        length-append (body ++ flatten chunks') (pieces parts ++ flatten chunks),
        length-append (pieces parts) (flatten chunks),
      ) in
      let (bf, u, run, incoming') =
        part_received l conf before i some_room ev' s body chunks' incoming now more in
      let (s', rest, saved) =
        calls_from parts ev chunks (part_taken s i bf u) (body ++ flatten chunks') incoming' later
          comes some_more all' connects in
      (
        s',
        one_call l conf ev' _ s (part_taken s i bf u) run rest,
        subst (λ (b : Bytes). Saved l conf before i s b s') same
            (Saved-part l conf before i s bf u
              ((body ++ flatten chunks') ++ (pieces parts ++ flatten chunks)) s' saved),
      )
