-- ===== src/DataServer/NameClient/Answered.antt =====
-- What the name server's answer to data_server/name_server_api.c makes of the client's session.
use mathlib.Core.List.{append-nil, flatten}
use tdss.Common.{
  ◌<◌, ◌≤◌, ◌≢◌, take, bytes, ◌≡◌, refl, sym, ◌∙◌, ap, List, [], ◌∷◌, ◌++◌, map, length, Bytes,
  arith,
}
use tdss.DataServer.NameClient.{
  Uploader, process_result, process_text, no_fb, ns_process_finish, ns_recv,
}
use tdss.NameServer.Session.{
  State, session_begin, session_read, session_write, session_reply, session_loop, session_proc,
  session_wait, session_end, task_wait_write, task_wait_end, Child, Lib, got, failed, Event,
  content,
}
use tdss.NameServer.Sync.{
  sync_result, SyncCode, operate_success, err_ns_return, err_ns_proc, err_ns_read, received, lost,
  recv_loop,
}
use tdss.NameServer.Sync.Answer.{
  recv_loop-chunks, success_result, short_result, other_result, read_result,
}
use tdss.Run.{Returns, ok}
use tdss.Strings.{Str}
use tdss.Strings.Contents.{IsText, Gives, take-IsText, string_printf-Holds}

process_result-sync_result :
    (state : State) (answer : Bytes) → process_result state answer ≡ sync_result state answer
unfolding process_result sync_result
process_result-sync_result session_begin answer = refl
process_result-sync_result session_read answer = refl
process_result-sync_result session_write answer = refl
process_result-sync_result session_reply answer = refl
process_result-sync_result session_loop answer = refl
process_result-sync_result session_proc answer = refl
process_result-sync_result session_wait answer = refl
process_result-sync_result session_end answer = refl

-- The client's connection is to be written to, with the text as its answer, its file is forgotten,
-- and the name server's connection is to be closed.
abbrev pub Told : Bytes → Child × Uploader → Type 0
Told text r =
    (r.0.task ≡ task_wait_end)
    × (r.1.task ≡ task_wait_write)
    × (r.1.state ≡ session_reply)
    × (r.1.fb_info ≡ no_fb)
    × IsText r.1.output text
    × (r.1.output.idx ≡ 0)

ns_process_finish-Told :
    (lib : Lib) (c : Child) (s : Uploader) (code : SyncCode)
    → Gives lib.memory
    → length s.output.str ≡ s.output.size
    → sync_result c.state (content c.input) ≡ code
    → Returns (ns_process_finish lib c s) (Told (process_text code s.fb_info.name))
unfolding ns_process_finish
ns_process_finish-Told lib c s code gives sized result =
    let (r, run, ((fine, holds), start)) =
      string_printf-Holds lib.memory s.output (process_text code s.fb_info.name) gives sized in
    (
      (
        record c { task = task_wait_end },
        record s { state = session_reply; task = task_wait_write; output = r.1; fb_info = no_fb },
      ),
      rw (process_result-sync_result c.state (content c.input)) (rw result (rw run refl)),
      (refl, refl, refl, refl, holds, start),
    )

recv_received :
    (lib : Lib) (ev : Event) (c : Child) (s : Uploader) (input : Str)
    → recv_loop lib.memory c.input ev.reads ≡ ok (received input)
    → ns_recv lib ev c s
      ≡ ns_process_finish lib (record c { input = input; state = session_proc }) s
unfolding ns_recv
recv_received lib ev c s input run = rw run refl

recv_lost :
    (lib : Lib) (ev : Event) (c : Child) (s : Uploader) (input : Str)
    → recv_loop lib.memory c.input ev.reads ≡ ok (lost input)
    → ns_recv lib ev c s ≡ ns_process_finish lib (record c { input = input }) s
unfolding ns_recv
recv_lost lib ev c s input run = rw run refl

module _ (lib : Lib) (ev : Event) (s : Uploader) (c : Child) (chunks : List Bytes)
    (gives : Gives lib.memory) (sized : length s.output.str ≡ s.output.size)
    (empty : IsText c.input []) (short : length (flatten chunks) ≤ 32768) where
  reads_to_end :
      (code : SyncCode)
      → ev.reads ≡ map got chunks
      → sync_result session_proc (flatten chunks) ≡ code
      → Returns (ns_recv lib ev c s) (Told (process_text code s.fb_info.name))
  unfolding recv_loop
  reads_to_end code reads result =
      let (input, run, text) =
        recv_loop-chunks lib.memory c.input [] chunks [] gives empty (omega (arith, short)) in
      let all : recv_loop lib.memory c.input ev.reads ≡ ok (received input) =
        ap (recv_loop lib.memory c.input) (reads ∙ sym (append-nil (map got chunks))) ∙ run in
      let (r, finish, told) =
        ns_process_finish-Told lib (record c { input = input; state = session_proc }) s code gives
          sized
          (ap (sync_result session_proc) (take-IsText input (flatten chunks) text) ∙ result) in
      (r, recv_received lib ev c s input all ∙ finish, told)

  -- When the name server's answer about an uploaded file, of at most 32 KB, has been read, in any pieces, the client
  -- gets an answer, the session forgets the file and the name server's connection is closed: "1000
  -- success name:" and the name of the file when the name server's answer starts with 1000, and an
  -- error of its own when it is shorter than that, when it starts with anything else, and when a
  -- read fails.
  pub ns_recv-Told :
      ((tail : Bytes)
        → ev.reads ≡ map got chunks
        → flatten chunks ≡ bytes "1000" ++ tail
        → Returns (ns_recv lib ev c s) (Told (bytes "1000 success name:" ++ s.fb_info.name)))
      × (ev.reads ≡ map got chunks
          → length (flatten chunks) < 4
          → Returns (ns_recv lib ev c s) (Told (bytes "-1014 save to name server error")))
      × (ev.reads ≡ map got chunks
          → 4 ≤ length (flatten chunks)
          → take 4 (flatten chunks) ≢ bytes "1000"
          → Returns (ns_recv lib ev c s) (Told (bytes "-1015 save to name server error")))
      × (ev.reads ≡ map got chunks ++ failed ∷ []
          → c.state ≡ session_read
          → Returns (ns_recv lib ev c s) (Told (bytes "-1013 save to name server error")))
  unfolding recv_loop process_text
  ns_recv-Told = (
    λ tail reads starts.
        reads_to_end operate_success reads
          (ap (sync_result session_proc) starts ∙ success_result tail),
    λ reads less. reads_to_end err_ns_return reads (short_result (flatten chunks) less),
    λ reads enough other.
        reads_to_end err_ns_proc reads (other_result (flatten chunks) enough other),
    λ reads state.
        let (input, run, text) =
          recv_loop-chunks lib.memory c.input [] chunks (failed ∷ []) gives empty
            (omega (arith, short)) in
        let (r, finish, told) =
          ns_process_finish-Told lib (record c { input = input }) s err_ns_read gives sized
            (read_result c (content input) state) in
        (
          r,
          recv_lost lib ev c s input (ap (recv_loop lib.memory c.input) reads ∙ run) ∙ finish,
          told,
        ),
  )
