-- ===== src/NameServer/Sync/Answer.antt =====
-- What the slave's answer to name_server/name_server_sync.c makes of the client's session.
use mathlib.Core.List.{append_assoc, append-nil, flatten}
use mathlib.Core.Path.{subst}
use tdss.Common.{
  ◌<◌, ◌≤◌, ◌≢◌, take, arith, bytes, if◌then◌else◌, bytes_eq, Bool-cases, eq_of_bytes_eq, inl, inr,
  ltb, bytes_eq_refl, ◌≡◌, refl, sym, ◌∙◌, ap, Bool, true, false, Option, none, some, List, [], ◌∷◌,
  ◌++◌, map, length, Bytes, ◌+◌, length-append,
}
use tdss.NameServer.Session.{
  State, session_read, session_reply, session_proc, task_wait_write, task_wait_end, Child, Server,
  Lib, Reading, got, failed, Event, crlf, content,
}
use tdss.NameServer.Sync.{
  sync_result, sync_text, sync_finish, name_server_send, SyncCode, operate_success, err_ns_return,
  err_ns_proc, err_ns_read, received, lost, recv_loop, name_server_recv, child_process,
}
use tdss.Run.{Returns, ok}
use tdss.Strings.{Str, Memory}
use tdss.Strings.Contents.{IsText, Gives, take-IsText, string_catb-short, string_printf-Holds}

-- The chunks are put one behind the other, up to 32 KB, and the loop goes on with what comes behind
-- them.
pub recv_loop-chunks :
    (mem : Memory) (input : Str) (text : Bytes) (chunks : List Bytes) (rs : List Reading)
    → Gives mem
    → IsText input text
    → length text + length (flatten chunks) ≤ 32768
    → (s : Str) × (recv_loop mem input (map got chunks ++ rs) ≡ recv_loop mem s rs)
      × IsText s (text ++ flatten chunks)
unfolding recv_loop flatten
recv_loop-chunks mem input text [] rs gives t short =
    (input, refl, subst (IsText input) (sym (append-nil text)) t)
recv_loop-chunks mem input text (line ∷ chunks) rs gives t short =
    let all = length-append line (flatten chunks) in
    let ((b, s), run, (fine, held)) =
      string_catb-short mem input text line gives t (omega (arith, short, all)) in
    let (s', rest, holds) =
      recv_loop-chunks mem s (text ++ line) chunks rs gives held
        (omega (arith, short, all, length-append text line)) in
    (
      s',
      rw (run, recv_loop) rest,
      subst (IsText s') (append_assoc text line (flatten chunks)) holds,
    )

-- The client's connection is to be written to, with the text as its answer, and the slave's is to
-- be closed.
abbrev pub Answered : Bytes → Server → Type 0
Answered text s =
    (s.task ≡ task_wait_write)
    × (s.session.state ≡ session_reply)
    × IsText s.session.output text
    × (s.session.output.idx ≡ 0)
    × ((c : Child) × (s.child ≡ some c) × (c.task ≡ task_wait_end))

sync_finish-Answered :
    (lib : Lib) (c : Child) (s : Server) (code : SyncCode)
    → Gives lib.memory
    → length s.session.output.str ≡ s.session.output.size
    → sync_result c.state (content c.input) ≡ code
    → Returns (sync_finish lib c s) (Answered (sync_text code ++ crlf))
unfolding sync_finish
sync_finish-Answered lib c s code gives sized result =
    let (r, run, ((fine, holds), start)) =
      string_printf-Holds lib.memory s.session.output (sync_text code ++ crlf) gives sized in
    (
      record s {
        session = record s.session { state = session_reply; output = r.1 };
        task = task_wait_write;
        child = some (record c { task = task_wait_end });
      },
      rw (result, sync_finish) (rw run refl),
      (refl, refl, holds, start, (record c { task = task_wait_end }, refl, refl)),
    )

child_receives :
    (lib : Lib) (ev : Event) (s : Server) (c : Child)
    → s.child ≡ some c
    → c.receives ≡ true
    → child_process lib ev s ≡ name_server_recv lib ev c s
unfolding child_process
child_receives lib ev s c connected reading =
    ap
      (λ (o : Option Child). elim o [
        | none ↦ ok s
        | some d ↦ if d.receives then name_server_recv lib ev d s else name_server_send lib ev d s
      ])
      connected
    ∙ ap (λ (b : Bool). if b then name_server_recv lib ev c s else name_server_send lib ev c s)
        reading

recv_received :
    (lib : Lib) (ev : Event) (s : Server) (c : Child) (input : Str)
    → recv_loop lib.memory c.input ev.reads ≡ ok (received input)
    → name_server_recv lib ev c s
      ≡ sync_finish lib (record c { input = input; state = session_proc }) s
unfolding name_server_recv
recv_received lib ev s c input run = rw run refl

recv_lost :
    (lib : Lib) (ev : Event) (s : Server) (c : Child) (input : Str)
    → recv_loop lib.memory c.input ev.reads ≡ ok (lost input)
    → name_server_recv lib ev c s ≡ sync_finish lib (record c { input = input }) s
unfolding name_server_recv
recv_lost lib ev s c input run = rw run refl

pub success_result :
    (tail : Bytes) → sync_result session_proc (bytes "1000" ++ tail) ≡ operate_success
unfolding sync_result
success_result tail =
    let long : ltb (length (bytes "1000" ++ tail)) 4 ≡ false = ground arith in
    rw (long, bytes_eq_refl (bytes "1000")) refl

pub short_result :
    (answer : Bytes) → length answer < 4 → sync_result session_proc answer ≡ err_ns_return
unfolding sync_result
short_result answer less = ground arith

pub other_result :
    (answer : Bytes)
    → 4 ≤ length answer
    → take 4 answer ≢ bytes "1000"
    → sync_result session_proc answer ≡ err_ns_proc
unfolding sync_result
other_result answer enough other =
    let long : ltb (length answer) 4 ≡ false = ground (arith, enough) in
    elim (Bool-cases (bytes_eq (take 4 answer) (bytes "1000"))) [
      | inl same ↦ absurd (other (eq_of_bytes_eq _ _ same))
      | inr differ ↦ rw (long, differ) refl
    ]

pub read_result :
    (c : Child) (answer : Bytes) → c.state ≡ session_read → sync_result c.state answer ≡ err_ns_read
unfolding sync_result
read_result c answer e = ap (λ (t : State). sync_result t answer) e

module _ (lib : Lib) (ev : Event) (s : Server) (c : Child) (chunks : List Bytes)
    (gives : Gives lib.memory) (sized : length s.session.output.str ≡ s.session.output.size)
    (connected : s.child ≡ some c) (reading : c.receives ≡ true) (empty : IsText c.input [])
    (short : length (flatten chunks) ≤ 32768) where
  reads_to_end :
      (code : SyncCode)
      → ev.reads ≡ map got chunks
      → sync_result session_proc (flatten chunks) ≡ code
      → Returns (child_process lib ev s) (Answered (sync_text code ++ crlf))
  unfolding recv_loop
  reads_to_end code reads result =
      let (input, run, text) =
        recv_loop-chunks lib.memory c.input [] chunks [] gives empty (omega (arith, short)) in
      let all : recv_loop lib.memory c.input ev.reads ≡ ok (received input) =
        ap (recv_loop lib.memory c.input) (reads ∙ sym (append-nil (map got chunks))) ∙ run in
      let (s', finish, answered) =
        sync_finish-Answered lib (record c { input = input; state = session_proc }) s code gives
          sized
          (ap (sync_result session_proc) (take-IsText input (flatten chunks) text) ∙ result) in
      (
        s',
        child_receives lib ev s c connected reading ∙ recv_received lib ev s c input all ∙ finish,
        answered,
      )

  -- When the slave's answer of at most 32 KB has been read, in any pieces, the client gets an answer and the slave's
  -- connection is closed: "1000 success" when the slave's answer starts with 1000, an error of its
  -- own when it is shorter than that, when it starts with anything else, and when a read fails.
  pub child_process-Answered :
      ((tail : Bytes)
        → ev.reads ≡ map got chunks
        → flatten chunks ≡ bytes "1000" ++ tail
        → Returns (child_process lib ev s) (Answered (bytes "1000 success" ++ crlf)))
      × (ev.reads ≡ map got chunks
          → length (flatten chunks) < 4
          → Returns
              (child_process lib ev s)
              (Answered (bytes "-1014 sync to slave server error" ++ crlf)))
      × (ev.reads ≡ map got chunks
          → 4 ≤ length (flatten chunks)
          → take 4 (flatten chunks) ≢ bytes "1000"
          → Returns
              (child_process lib ev s)
              (Answered (bytes "-1015 sync to slave server error" ++ crlf)))
      × (ev.reads ≡ map got chunks ++ failed ∷ []
          → c.state ≡ session_read
          → Returns
              (child_process lib ev s)
              (Answered (bytes "-1013 sync to slave server error" ++ crlf)))
  unfolding recv_loop sync_text
  child_process-Answered = (
    λ tail reads starts.
        reads_to_end operate_success reads
          (ap (sync_result session_proc) starts ∙ success_result tail),
    λ reads less. reads_to_end err_ns_return reads (short_result (flatten chunks) less),
    λ reads enough other.
        reads_to_end err_ns_proc reads (other_result (flatten chunks) enough other),
    λ reads state.
        let (input, run, text) =
          recv_loop-chunks lib.memory c.input [] chunks (failed ∷ []) gives empty
            (omega (arith, short)) in
        let (s', finish, answered) =
          sync_finish-Answered lib (record c { input = input }) s err_ns_read gives sized
            (read_result c (content input) state) in
        (
          s',
          child_receives lib ev s c connected reading
              ∙ recv_lost lib ev s c input (ap (recv_loop lib.memory c.input) reads ∙ run)
              ∙ finish,
          answered,
        ),
  )
