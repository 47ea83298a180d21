-- ===== src/DataServer/Upload/Chunk.antt =====
-- `session_write_file` of data_server/command.c: the bytes of a file reach the block file in order,
-- however the connection cuts them.
use mathlib.Core.List.{append_assoc, append-nil}
use mathlib.Core.Path.{subst}
use tdss.Common.{
  ℕ, zero, suc, ◌+◌, ◌-◌, ◌<◌, ◌≤◌, ◌≡◌, refl, sym, ◌∙◌, ap, ◌≢◌, inl, inr, Bool, true, false, ◌||◌,
  some, [], ◌∷◌, ◌++◌, arith, ltb, ◌==◌, if◌then◌else◌, Bool-cases, length, length-append,
  append-take-drop, length-take, take, drop, Bytes,
}
use tdss.DataServer.Upload.{BlockFile, Session, Disk, splice, chunk_size, flush, write_loop}
use tdss.Run.{Run, ok}

add_zero : (n : ℕ) → n + 0 ≡ n
add_zero n = omega arith

splice-append :
    (f : ℕ → ℕ) (i : ℕ) (xs ys : Bytes)
    → splice f i (xs ++ ys) ≡ splice (splice f i xs) (i + length xs) ys
splice-append f i [] ys = rw (add_zero i)
splice-append f i (x ∷ xs) ys =
    splice-append (λ j. if j == i then x else f j) (suc i) xs ys
    ∙ ap (λ (k : ℕ). splice (splice f i (x ∷ xs)) k ys) (omega arith)

-- The session has taken `body` of a file of `s.size` bytes: what is written stands at its place over
-- `before`, the rest is in the buffer, and nothing is left in it once all has come.
pub record Receiving (bufsiz : ℕ) (before : ℕ → ℕ) (bf : BlockFile) (s : Session) (body : Bytes)
    : Type 0 where
  pub written : Bytes
  pub whole : written ++ s.bf_buf ≡ body
  pub proc : s.proc_size ≡ length written
  pub placed : bf.content ≡ splice before s.offset written
  pub room : length s.bf_buf < bufsiz
  pub fits : length body ≤ s.size
  pub done : length body ≡ s.size → s.bf_buf ≡ []

not_due : (a b c d : ℕ) → ((a == b) || (c == d)) ≡ false → (a ≢ b) × (c ≢ d)
not_due a b c d e = (λ q. ground arith, λ q. ground arith)

-- Every seek and every write succeeds.
abbrev pub Works : Disk → Type 0
Works disk = (disk.seek_ok ≡ true) × ((i : ℕ) → disk.write_ok i ≡ true)

-- After a step the session is receiving, with the descriptor behind what it wrote.
abbrev pub Stepped : ℕ → (ℕ → ℕ) → Session → Bytes → BlockFile × Session → Type 0
Stepped bufsiz before s body (bf', s') =
    Receiving bufsiz before bf' s' body
    × (bf'.pos ≡ s'.offset + s'.proc_size)
    × (s'.size ≡ s.size)
    × (s'.offset ≡ s.offset)

module _ (bufsiz : ℕ) (disk : Disk) (works : Works disk) (before : ℕ → ℕ)
    (some_room : 0 < bufsiz) where
  flush-Stepped :
      (bf : BlockFile) (s : Session) (body taken : Bytes)
      → (r : Receiving bufsiz before bf s body) → bf.pos ≡ s.offset + s.proc_size
      → length s.bf_buf + length taken ≤ bufsiz
      → length (body ++ taken) ≤ s.size
      → (t : BlockFile × Session) × (flush bufsiz disk bf (record s { bf_buf = s.bf_buf ++ taken })
          ≡ some t)
        × Stepped bufsiz before s (body ++ taken) t
  unfolding flush
  flush-Stepped bf s body taken r pos room fits =
      let whole : r.written ++ (s.bf_buf ++ taken) ≡ body ++ taken =
        sym (append_assoc r.written s.bf_buf taken) ∙ ap (λ (l : Bytes). l ++ taken) r.whole in
      let buf = s.bf_buf ++ taken in
      let long : length r.written + length buf ≡ length (body ++ taken) =
        sym (length-append r.written buf) ∙ ap length whole in
      elim (Bool-cases ((length buf == bufsiz) || (s.size == s.proc_size + length buf))) [
        | inl e ↦ (
          (
            record { content = splice bf.content bf.pos buf; pos = bf.pos + length buf },
            record s { proc_size = s.proc_size + length buf; bf_buf = [] },
          ),
          rw (e, works.1 bf.pos) refl,
          (
            record {
              written = r.written ++ buf;
              whole = append-nil (r.written ++ buf) ∙ whole;
              proc = omega (arith, r.proc, length-append r.written buf);
              placed =
                  rw (r.placed, pos, r.proc) (sym (splice-append before s.offset r.written buf));
              room = some_room;
              fits = fits;
              done = λ _. refl;
            },
            omega (arith, pos),
            refl,
            refl,
          ),
        )
        | inr e ↦
            let (part, more) = not_due (length buf) bufsiz s.size (s.proc_size + length buf) e in
            (
              (bf, record s { bf_buf = buf }),
              rw e refl,
              (
                record {
                  written = r.written;
                  whole = whole;
                  proc = r.proc;
                  placed = r.placed;
                  room = omega (arith, part, room, length-append s.bf_buf taken);
                  fits = fits;
                  done = λ all. absurd (more (omega (arith, all, long, r.proc)));
                },
                pos,
                refl,
                refl,
              ),
            )
      ]

  chunk_size-bounds :
      (lsize n : ℕ)
      → 0 < lsize
      → 0 < n
      → (0 < chunk_size lsize n) × (chunk_size lsize n ≤ n) × (chunk_size lsize n ≤ lsize)
  unfolding chunk_size
  chunk_size-bounds lsize n pos more = elim (Bool-cases (ltb n lsize)) [
    | inl e ↦ rw e (more, omega arith, ground arith)
    | inr e ↦ rw e (pos, ground arith, omega arith)
  ]

  recut : (body line : Bytes) (k : ℕ) → (body ++ take k line) ++ drop k line ≡ body ++ line
  recut body line k =
      append_assoc body (take k line) (drop k line)
      ∙ ap (λ (l : Bytes). body ++ l) (append-take-drop k line)

  parts : (k : ℕ) (line : Bytes) → length (take k line) + length (drop k line) ≡ length line
  parts k line =
      sym (length-append (take k line) (drop k line)) ∙ ap length (append-take-drop k line)

  take_part :
      (bf : BlockFile) (s : Session) (body line : Bytes) (k : ℕ)
      → Receiving bufsiz before bf s body
      → bf.pos ≡ s.offset + s.proc_size
      → length (body ++ line) ≤ s.size
      → k ≤ length line
      → k ≤ bufsiz - length s.bf_buf
      → (t : BlockFile × Session) × (flush bufsiz disk bf
            (record s { bf_buf = s.bf_buf ++ take k line })
          ≡ some t)
        × Stepped bufsiz before s (body ++ take k line) t
  take_part bf s body line k r pos fits within free =
      flush-Stepped bf s body (take k line) r pos (omega (arith, r.room, length-take k line within))
        (omega (
          arith,
          length-take k line within,
          length-append body line,
          length-append body (take k line),
        ))

  abbrev part : Session → Bytes → ℕ
  part s line = chunk_size (bufsiz - length s.bf_buf) (length line)

  write_loop-cons :
      (fuel : ℕ) (bf : BlockFile) (s : Session) (c : ℕ) (str : Bytes) (t : BlockFile × Session)
      {x : Run (Bool × BlockFile × Session)}
      → flush bufsiz disk bf (record s { bf_buf = s.bf_buf ++ take (part s (c ∷ str)) (c ∷ str) })
        ≡ some t
      → write_loop fuel bufsiz disk t.0 t.1 (drop (part s (c ∷ str)) (c ∷ str)) ≡ x
      → write_loop (suc fuel) bufsiz disk bf s (c ∷ str) ≡ x
  unfolding write_loop
  write_loop-cons fuel bf s c str t step rest = rw (step, write_loop) rest

  pub write_loop-Stepped :
      (fuel : ℕ) (bf : BlockFile) (s : Session) (body str : Bytes)
      → Receiving bufsiz before bf s body
      → bf.pos ≡ s.offset + s.proc_size
      → length (body ++ str) ≤ s.size
      → length str < fuel
      → (t : BlockFile × Session) × (write_loop fuel bufsiz disk bf s str ≡ ok (true, t.0, t.1))
        × Stepped bufsiz before s (body ++ str) t
  unfolding write_loop
  write_loop-Stepped fuel bf s body [] r pos fits h =
      ((bf, s), refl, (rw (append-nil body) r, pos, refl, refl))
  write_loop-Stepped zero bf s body (c ∷ str) r pos fits h = absurd (omega arith)
  write_loop-Stepped (suc fuel) bf s body (c ∷ str) r pos fits h =
      let line = c ∷ str in
      let k = part s line in
      let (more, within, free) =
        chunk_size-bounds (bufsiz - length s.bf_buf) (length line) (omega (arith, r.room))
          (omega arith) in
      let (t, step, now) = take_part bf s body line k r pos fits within free in
      let (t', rest, then') =
        write_loop-Stepped fuel t.0 t.1 (body ++ take k line) (drop k line) now.0 now.1
          (rw (recut body line k, now.2) fits)
          (omega (arith, length-take k line within, parts k line)) in
      (
        t',
        write_loop-cons fuel bf s c str t step rest,
        (
          subst (Receiving bufsiz before t'.0 t'.1) (recut body line k) then'.0,
          then'.1,
          then'.2 ∙ now.2,
          then'.3 ∙ now.3,
        ),
      )
