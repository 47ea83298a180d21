-- ===== src/NameServer/Process/Reply.antt =====
-- The writing of an answer in name_server/process.c.
use mathlib.Core.List.{append_assoc}
use tdss.Common.{
  ℕ, zero, suc, ◌+◌, ◌-◌, ◌≤◌, ◌≡◌, refl, sym, ◌∙◌, ap, false, List, [], ◌∷◌, ◌++◌, ltb, arith,
  length, take, drop, Bytes,
}
use tdss.NameServer.Process.{
  gave, Pushed, pushed, place, next_task, call_proc, request_command, reply_loop,
  session_reply_step, dispatch, request_process,
}
use tdss.NameServer.Session.{
  State, session_reply, session_read, session_write, next_write, state, task_wait_read, Server, Lib,
  NameServerConf, Writing, wrote, again, Event,
}
use tdss.Run.{Run, ok, fault}
use tdss.Strings.{Str, string_zero}

add_zero : (n : ℕ) → n + 0 ≡ n
add_zero n = omega arith

inside_area : (size at n : ℕ) → at + suc n ≤ size → ltb size (at + suc n) ≡ false
inside_area size at n h = ground arith

pub one_write :
    (ws : List Writing) (area : Bytes) (pb max n : ℕ) (sent : Bytes)
    → pb + suc n ≤ length area
    → reply_loop (wrote (suc n) ∷ ws) area pb (suc max) (gave 0) sent
      ≡ reply_loop ws area
          (pb + suc n)
          (max - n)
          (gave (suc n))
          (sent ++ take (suc n) (drop pb area))
unfolding reply_loop place
one_write ws area pb max n sent inside =
    rw (add_zero pb) (rw (inside_area (length area) pb n inside) refl)

-- The next write of the same call takes its bytes from `k` bytes too far.
pub next_write_skips :
    (ws : List Writing) (area : Bytes) (pb max n k : ℕ) (sent : Bytes)
    → pb + k + suc n ≤ length area
    → reply_loop (wrote (suc n) ∷ ws) area pb (suc max) (gave k) sent
      ≡ reply_loop ws area
          (pb + suc n)
          (max - n)
          (gave (suc n))
          (sent ++ take (suc n) (drop (pb + k) area))
unfolding reply_loop place
next_write_skips ws area pb max n k sent inside =
    rw (inside_area (length area) (pb + k) n inside) refl

pub no_write :
    (ws : List Writing) (area : Bytes) (pb max k : ℕ) (sent : Bytes)
    → reply_loop (again ∷ ws) area pb (suc max) (gave k) sent ≡ ok (pushed pb (suc max) sent)
unfolding reply_loop place
no_write ws area pb max k sent = refl

pub none_left :
    (ws : List Writing) (area : Bytes) (pb k : ℕ) (sent : Bytes)
    → reply_loop ws area pb 0 (gave k) sent ≡ ok (pushed pb 0 sent)
unfolding reply_loop
none_left ws area pb k sent = refl

take-nil : (n : ℕ) → take {A = ℕ} n [] ≡ []
take-nil zero = refl
take-nil (suc n) = refl

suc_add : (i k : ℕ) → suc (i + k) ≡ suc i + k
suc_add i k = omega arith

take-add : (i k : ℕ) (xs : Bytes) → take i xs ++ take k (drop i xs) ≡ take (i + k) xs
take-add zero k xs = ap (λ n. take n xs) (omega arith)
take-add (suc i) k [] = take-nil k ∙ sym (take-nil (suc i + k))
take-add (suc i) k (x ∷ xs) =
    ap (λ (l : Bytes). x ∷ l) (take-add i k xs) ∙ ap (λ n. take n (x ∷ xs)) (suc_add i k)

pub take-append_le : (n : ℕ) (xs ys : Bytes) → n ≤ length xs → take n (xs ++ ys) ≡ take n xs
take-append_le zero xs ys h = refl
take-append_le (suc n) [] ys h = absurd (omega arith)
take-append_le (suc n) (x ∷ xs) ys h =
    ap (λ (l : Bytes). x ∷ l) (take-append_le n xs ys (omega arith))

-- What has been sent and the next bytes from the same place are the start of the text.
pub sent_more :
    (before text rest : Bytes) (i k : ℕ)
    → i + k ≤ length text
    → (before ++ take i text) ++ take k (drop i (text ++ rest)) ≡ before ++ take (i + k) text
sent_more before text rest i k le =
    append_assoc before (take i text) (take k (drop i (text ++ rest)))
    ∙ ap (λ (l : Bytes). before ++ l)
        (ap (λ (l : Bytes). l ++ take k (drop i (text ++ rest)))
            (sym (take-append_le i text rest (omega (arith, le))))
          ∙ take-add i k (text ++ rest)
          ∙ take-append_le (i + k) text rest le)

replies :
    (lib : Lib) (conf : NameServerConf) (ev : Event) (s : Server)
    → s.session.state ≡ session_reply
    → dispatch lib conf ev s ≡ session_reply_step ev s
unfolding dispatch
replies lib conf ev s e =
    ap
      (λ (t : State). elim t [
        | session_read ↦ call_proc lib conf ev s
        | session_write ↦ call_proc lib conf ev s
        | session_reply ↦ session_reply_step ev s
        | _ ↦ request_command lib conf ev s
      ])
      e

-- The session when a part of the answer is left to be sent.
abbrev pub stopped_at : Server → ℕ → Bytes → Server
stopped_at s pb sent = record s {
  session = record s.session { output = record s.session.output { idx = pb } };
  sent = sent;
  task = task_wait_read;
}

-- The session when all of the answer has been sent.
abbrev pub answered : Server → Str → Str → Bytes → Server
answered s input output sent = record s {
  session = record s.session { state = s.session.next; input = input; output = output };
  sent = sent;
}

module _ (lib : Lib) (conf : NameServerConf) (ev : Event) (s : Server)
    (replying : s.session.state ≡ session_reply) where
  abbrev pub loop : Run Pushed
  loop =
      reply_loop ev.writes s.session.output.str s.session.output.idx
        (s.session.output.len - s.session.output.idx) (gave 0) s.sent

  part_step :
      (pb max : ℕ) (sent : Bytes)
      → loop ≡ ok (pushed pb (suc max) sent)
      → session_reply_step ev s
        ≡ ok (
          next_write,
          record s {
            session = record s.session { output = record s.session.output { idx = pb } };
            sent = sent;
          },
        )
  unfolding session_reply_step
  part_step pb max sent run = rw run refl

  pub part_sent :
      (pb max : ℕ) (sent : Bytes)
      → loop ≡ ok (pushed pb (suc max) sent)
      → request_process lib conf ev s ≡ ok (stopped_at s pb sent)
  unfolding request_process next_task
  part_sent pb max sent run = rw (replies lib conf ev s replying, part_step pb max sent run) refl

  all_step :
      (pb : ℕ) (sent : Bytes) (input output : Str)
      → loop ≡ ok (pushed pb 0 sent)
      → string_zero s.session.input ≡ ok input
      → string_zero s.session.output ≡ ok output
      → session_reply_step ev s ≡ ok (state s.session.next, answered s input output sent)
  unfolding session_reply_step
  all_step pb sent input output run first second = rw (run, first, second) refl

  pub all_sent :
      (pb : ℕ) (sent : Bytes) (input output : Str)
      → loop ≡ ok (pushed pb 0 sent)
      → string_zero s.session.input ≡ ok input
      → string_zero s.session.output ≡ ok output
      → request_process lib conf ev s
        ≡ ok (record (answered s input output sent) {
          task = next_task (state s.session.next) s.task;
        })
  unfolding request_process
  all_sent pb sent input output run first second =
      rw (replies lib conf ev s replying, all_step pb sent input output run first second) refl

  pub loop_faults : loop ≡ fault → request_process lib conf ev s ≡ fault
  unfolding request_process session_reply_step
  loop_faults run = rw (replies lib conf ev s replying) (rw (run, session_reply_step) refl)
