-- ===== src/NameServer/Process/Sends.antt =====
-- How an answer reaches the client over several calls of name_server/process.c, and what goes wrong
-- when one call writes twice.
use mathlib.Core.Path.{ap₂}
use tdss.Common.{
  ℕ, zero, suc, ◌+◌, ◌-◌, ◌<◌, ◌≤◌, ◌≡◌, refl, ◌∙◌, ap, inl, inr, List, [], ◌∷◌, ◌++◌, arith,
  length, length-append, take, drop, Bytes,
}
use tdss.NameServer.Process.{gave, Pushed, pushed, reply_loop, next_task, request_process}
use tdss.NameServer.Process.Reply.{
  one_write, take-append_le, no_write, none_left, next_write_skips, sent_more, stopped_at, answered,
  part_sent, all_sent, loop,
}
use tdss.NameServer.Session.{
  state, session_reply, task_wait_read, Server, Lib, NameServerConf, Writing, wrote, again, Event,
}
use tdss.Run.{Run, Returns, ok}
use tdss.Strings.{Str}
use tdss.Strings.Contents.{IsText, string_zero-Holds}

-- The session has an answer to write, and the client has been sent the part before `idx`, behind
-- what it had been sent before the answer.
pub record Sending (before text : Bytes) (s : Server) : Type 0 where
  pub replying : s.session.state ≡ session_reply
  pub answer : IsText s.session.output text
  pub begun : s.session.output.idx ≤ length text
  pub input : length s.session.input.str ≡ s.session.input.size
  pub sent : s.sent ≡ before ++ take s.session.output.idx text

area_of :
    (s : Str) (text : Bytes)
    → IsText s text
    → s.idx < length text
    → (rest : Bytes) × (s.str ≡ text ++ 0 ∷ rest)
area_of s text (sized, len, inl (none', empty)) less =
    absurd (omega (arith, less, ap (λ (l : Bytes). length l) empty))
area_of s text (sized, len, inr filled) less = filled

inside :
    (s : Str) (text : Bytes) (n : ℕ)
    → IsText s text
    → s.idx + suc n ≤ length text
    → s.idx + suc n ≤ length s.str
inside s text n t le =
    let (rest, str) = area_of s text t (omega (arith, le)) in
    omega (arith, le, ap (λ (l : Bytes). length l) str, length-append text (0 ∷ rest))

left_over :
    (s : Str) (text : Bytes) (max : ℕ)
    → IsText s text
    → s.idx + suc max ≡ length text
    → s.len - s.idx ≡ suc max
left_over s text max (sized, len, content) e = omega (arith, len, e)

one_left : (max n : ℕ) → n < max → max - n ≡ suc (max - suc n)
one_left max n h = omega (arith, h)

take-drop-append :
    (p k : ℕ) (xs ys : Bytes) → p + k ≤ length xs → take k (drop p (xs ++ ys)) ≡ take k (drop p xs)
take-drop-append zero k xs ys le = take-append_le k xs ys (omega (arith, le))
take-drop-append (suc p) k [] ys le = absurd (omega (arith, le))
take-drop-append (suc p) k (x ∷ xs) ys le = take-drop-append p k xs ys (omega (arith, le))

take-all : (text : Bytes) → take (length text) text ≡ text
take-all [] = refl
take-all (c ∷ text) = ap (λ (l : Bytes). c ∷ l) (take-all text)

module _ (lib : Lib) (conf : NameServerConf) (ev : Event) (s : Server) (before text : Bytes)
    (max : ℕ) (sending : Sending before text s)
    (left : s.session.output.idx + suc max ≡ length text) where
  run_from :
      (ws : List Writing) (r : Run Pushed)
      → ev.writes ≡ ws
      → reply_loop ws s.session.output.str s.session.output.idx (suc max) (gave 0) s.sent ≡ r
      → loop lib conf ev s sending.replying ≡ r
  run_from ws r writes run =
      ap₂
        (λ (w : List Writing) (m : ℕ).
          reply_loop w s.session.output.str s.session.output.idx m (gave 0) s.sent)
        writes (left_over s.session.output text max sending.answer left)
      ∙ run

  chunk_sent :
      (n : ℕ)
      → n ≤ max
      → s.sent ++ take (suc n) (drop s.session.output.idx s.session.output.str)
        ≡ before ++ take (s.session.output.idx + suc n) text
  chunk_sent n le =
      let (rest, str) = area_of s.session.output text sending.answer (omega (arith, left)) in
      ap₂ (λ (a b : Bytes). a ++ take (suc n) (drop s.session.output.idx b)) sending.sent str
      ∙ sent_more before text (0 ∷ rest) s.session.output.idx (suc n) (omega (arith, left, le))

  write_chunk :
      (n : ℕ) (ws : List Writing)
      → n ≤ max
      → ev.writes ≡ wrote (suc n) ∷ ws
      → loop lib conf ev s sending.replying
        ≡ reply_loop ws s.session.output.str
            (s.session.output.idx + suc n)
            (max - n)
            (gave (suc n))
            (before ++ take (s.session.output.idx + suc n) text)
  write_chunk n ws le writes = run_from (wrote (suc n) ∷ ws) _ writes (
      one_write ws s.session.output.str s.session.output.idx max n s.sent
        (inside s.session.output text n sending.answer (omega (arith, left, le)))
      ∙ ap
          (reply_loop ws s.session.output.str (s.session.output.idx + suc n) (max - n)
            (gave (suc n)))
          (chunk_sent n le))

  again_later :
      (pb more : ℕ) (sent : Bytes)
      → pb ≤ length text
      → sent ≡ before ++ take pb text
      → loop lib conf ev s sending.replying ≡ ok (pushed pb (suc more) sent)
      → Returns (request_process lib conf ev s) (λ s'.
        Sending before text s'
        × (s'.session.output.idx ≡ pb)
        × (s'.task ≡ task_wait_read)
        × (s' ≡ stopped_at s pb sent))
  again_later pb more sent le is run = (
    stopped_at s pb sent,
    part_sent lib conf ev s sending.replying pb more sent run,
    (
      record {
        replying = sending.replying;
        answer = sending.answer;
        begun = le;
        input = sending.input;
        sent = is;
      },
      refl,
      refl,
      refl,
    ),
  )

  all_written :
      (ws : List Writing)
      → ev.writes ≡ wrote (suc max) ∷ ws
      → loop lib conf ev s sending.replying
        ≡ ok (pushed (s.session.output.idx + suc max) 0 (before ++ text))
  all_written ws writes =
      write_chunk max ws (omega arith) writes
      ∙ ap₂
          (λ m (b : Bytes).
            reply_loop ws s.session.output.str (s.session.output.idx + suc max) m (gave (suc max))
              (before ++ b))
          (omega arith) (ap (λ n. take n text) left ∙ take-all text)
      ∙ none_left ws s.session.output.str (s.session.output.idx + suc max) (suc max)
          (before ++ text)

  -- A session that has a part of its answer to send: a call in which nothing can be written changes
  -- nothing but what is waited for, and one in which a part is written and then no more goes on
  -- behind that part; both then wait for the client to send something, and not for the time when the
  -- client can be written to. When the rest is written at once, the client has been sent exactly the
  -- answer, both strings are empty again, and the session is in the state `next`. Nothing else of
  -- the session, the index and the slave's connection is changed by any of these.
  pub request_process-Sending :
      ((ws : List Writing)
        → ev.writes ≡ again ∷ ws
        → Returns (request_process lib conf ev s) (λ s'.
          Sending before text s'
          × (s'.session.output.idx ≡ s.session.output.idx)
          × (s'.task ≡ task_wait_read)
          × (s' ≡ stopped_at s s.session.output.idx s.sent)))
      × ((n : ℕ) (ws : List Writing)
          → n < max
          → ev.writes ≡ wrote (suc n) ∷ again ∷ ws
          → Returns (request_process lib conf ev s) (λ s'.
            Sending before text s'
            × (s'.session.output.idx ≡ s.session.output.idx + suc n)
            × (s'.task ≡ task_wait_read)
            × (s'
                ≡ stopped_at s
                    (s.session.output.idx + suc n)
                    (before ++ take (s.session.output.idx + suc n) text))))
      × ((ws : List Writing)
          → ev.writes ≡ wrote (suc max) ∷ ws
          → Returns (request_process lib conf ev s) (λ s'.
            (s'.sent ≡ before ++ text)
            × IsText s'.session.input []
            × IsText s'.session.output []
            × (s'.session.state ≡ s.session.next)
            × (s' ≡ record (answered s s'.session.input s'.session.output (before ++ text)) {
              task = next_task (state s.session.next) s.task;
            })))
  request_process-Sending = (
    λ ws writes. again_later s.session.output.idx max s.sent sending.begun sending.sent (
        run_from (again ∷ ws) _ writes
          (no_write ws s.session.output.str s.session.output.idx max 0 s.sent)),
    λ n ws less writes.
        again_later (s.session.output.idx + suc n) (max - suc n) _ (omega (arith, left, less)) refl
          (write_chunk n (again ∷ ws) (omega (arith, less)) writes
            ∙ rw (one_left max n less)
                (no_write ws s.session.output.str _ (max - suc n) (suc n) _)),
    λ ws writes.
        let (input, first, (empty, _)) = string_zero-Holds s.session.input sending.input in
        let (output, second, (empty', _)) = string_zero-Holds s.session.output sending.answer.0 in
        (
          record (answered s input output (before ++ text)) {
            task = next_task (state s.session.next) s.task;
          },
          all_sent lib conf ev s sending.replying _ _ input output (all_written ws writes) first
              second,
          (refl, empty, empty', refl, refl),
        ),
  )

  -- When a call writes twice, the second write leaves out as many bytes of the answer as the first
  -- one took, and `idx` does not count the bytes that were left out.
  pub request_process-skips :
      (n k : ℕ) (ws : List Writing)
      → s.session.output.idx + suc n + suc n + suc k < length text
      → ev.writes ≡ wrote (suc n) ∷ wrote (suc k) ∷ again ∷ ws
      → Returns (request_process lib conf ev s) (λ s'.
        (s'.sent
          ≡ (before ++ take (s.session.output.idx + suc n) text)
            ++ take (suc k) (drop (s.session.output.idx + suc n + suc n) text))
        × (s'.session.output.idx ≡ s.session.output.idx + suc n + suc k))
  request_process-skips n k ws more writes =
      let out = s.session.output in
      let sent' = before ++ take (out.idx + suc n) text in
      let (rest, str) = area_of out text sending.answer (omega (arith, left)) in
      let room : out.idx + suc n + suc n + suc k ≤ length out.str =
        omega (arith, more, ap (λ (l : Bytes). length l) str, length-append text (0 ∷ rest)) in
      let run : loop lib conf ev s sending.replying
          ≡ ok (
              pushed (out.idx + suc n + suc k) (suc (max - suc n - suc k))
                (sent' ++ take (suc k) (drop (out.idx + suc n + suc n) out.str))) =
        write_chunk n (wrote (suc k) ∷ again ∷ ws) (omega (arith, left, more)) writes
        ∙ ap
            (λ m.
              reply_loop (wrote (suc k) ∷ again ∷ ws) out.str (out.idx + suc n) m (gave (suc n))
                sent')
            (one_left max n (omega (arith, left, more)))
        ∙ next_write_skips (again ∷ ws) out.str (out.idx + suc n) (max - suc n) k (suc n) sent' room
        ∙ ap
            (λ m.
              reply_loop (again ∷ ws) out.str (out.idx + suc n + suc k) m (gave (suc k))
                (sent' ++ take (suc k) (drop (out.idx + suc n + suc n) out.str)))
            (one_left (max - suc n) k (omega (arith, left, more)))
        ∙ no_write ws out.str (out.idx + suc n + suc k) (max - suc n - suc k) (suc k) _ in
      (
        stopped_at s _ _,
        part_sent lib conf ev s sending.replying _ _ _ run,
        (
          ap (λ (l : Bytes). sent' ++ l)
              (ap (λ (l : Bytes). take (suc k) (drop (out.idx + suc n + suc n) l)) str
                ∙ take-drop-append (out.idx + suc n + suc n) (suc k) text (0 ∷ rest)
                    (omega (arith, more))),
          refl,
        ),
      )
