-- ===== src/DataServer/Upload/Whole.antt =====
-- The transfer of a whole file into a block file: `session_write_file` and `__file_add_loop_recv` of
-- data_server/command.c.
use mathlib.Core.List.{append_assoc, append-nil, flatten}
use tdss.Common.{
  ℕ, zero, suc, ◌+◌, ◌<◌, ◌≤◌, ◌≡◌, refl, sym, ◌∙◌, ap, Bool, true, false, List, [], ◌∷◌, ◌++◌,
  arith, ltb, length, length-append, Bytes,
}
use tdss.DataServer.Upload.{
  BlockFile, Session, Disk, splice, write_loop, session_write_file, Recv, line, closed, again, Left,
  broke, file_add_loop_recv,
}
use tdss.DataServer.Upload.Chunk.{Receiving, Works, write_loop-Stepped}
use tdss.Run.{Run, Returns, ok, hang}

-- A session with an empty buffer that has written nothing is receiving, and has taken nothing.
fresh-Receiving :
    (bufsiz : ℕ) (bf : BlockFile) (size offset : ℕ)
    → 0 < bufsiz
    → Receiving bufsiz bf.content bf
        (record { size = size; offset = offset; proc_size = 0; bf_buf = [] })
        []
fresh-Receiving bufsiz bf size offset pos = record {
  written = [];
  whole = refl;
  proc = refl;
  placed = refl;
  room = pos;
  fits = omega arith;
  done = λ _. refl;
}

not_over : (a b : ℕ) → b ≤ a → ltb a b ≡ false
not_over a b h = ground arith

into_loop :
    (bufsiz : ℕ) (disk : Disk) (bf : BlockFile) (s : Session) (str : Bytes)
    {x : Run (Bool × BlockFile × Session)}
    → ltb s.size (s.proc_size + length str) ≡ false
    → disk.seek_ok ≡ true
    → write_loop (length str + 1) bufsiz disk (record bf { pos = s.offset + s.proc_size }) s str ≡ x
    → session_write_file bufsiz disk bf s str ≡ x
unfolding session_write_file
into_loop bufsiz disk bf s str within seek run = rw within (simp seek run)

-- With every seek and write succeeding and a buffer of at least one byte, a chunk that does not
-- pass the end of the file is taken: afterwards the bytes so far and the chunk are in the block
-- file at the file's place or in the buffer, in order, and all of them are in the block file when
-- the file is complete.
pub session_write_file-Receiving :
    (bufsiz : ℕ) (disk : Disk) (before : ℕ → ℕ) (bf : BlockFile) (s : Session) (body str : Bytes)
    → 0 < bufsiz
    → Works disk
    → Receiving bufsiz before bf s body
    → length (body ++ str) ≤ s.size
    → (t : BlockFile × Session) × (session_write_file bufsiz disk bf s str ≡ ok (true, t.0, t.1))
      × Receiving bufsiz before t.0 t.1 (body ++ str)
      × (t.1.size ≡ s.size)
      × (t.1.offset ≡ s.offset)
unfolding session_write_file
session_write_file-Receiving bufsiz disk before bf s body str pos works r fits =
    let there = record bf { pos = s.offset + s.proc_size } in
    let moved : Receiving bufsiz before there s body = record {
      written = r.written;
      whole = r.whole;
      proc = r.proc;
      placed = r.placed;
      room = r.room;
      fits = r.fits;
      done = r.done;
    } in
    let count : length r.written + length s.bf_buf ≡ length body =
      sym (length-append r.written s.bf_buf) ∙ ap length r.whole in
    let within =
      not_over s.size (s.proc_size + length str)
        (omega (arith, fits, count, r.proc, length-append body str)) in
    let (t, run, now) =
      write_loop-Stepped bufsiz disk works before pos (length str + 1) there s body str moved refl
        fits (omega arith) in
    (t, into_loop bufsiz disk bf s str within works.0 run, now.0, now.2, now.3)

-- From the `n`th on, `read` gives the chunks, and then says that no more has come yet.
abbrev pub Arrive : (ℕ → Recv) → ℕ → List Bytes → Type 0
Arrive reads n [] = reads n ≡ again
Arrive reads n (c ∷ cs) = (reads n ≡ line c) × Arrive reads (suc n) cs

-- The session has the whole file, and it stands in the block file.
abbrev Stored : (ℕ → ℕ) → Session → Bytes → Left → Type 0
Stored before s file left =
    (bf' : BlockFile) × (s' : Session) × (left ≡ broke bf' s')
    × (s'.proc_size ≡ s.size)
    × (s'.bf_buf ≡ [])
    × (bf'.content ≡ splice before s.offset file)

Receiving-Stored :
    (bufsiz : ℕ) (before : ℕ → ℕ) (bf : BlockFile) (s : Session) (body : Bytes)
    → Receiving bufsiz before bf s body
    → length body ≡ s.size
    → Stored before s body (broke bf s)
Receiving-Stored bufsiz before bf s body r all =
    let empty = r.done all in
    let same : r.written ≡ body =
      sym (append-nil r.written) ∙ ap (λ (l : Bytes). r.written ++ l) (sym empty) ∙ r.whole in
    (bf, s, refl, r.proc ∙ ap length same ∙ all, empty, r.placed ∙ ap (splice before s.offset) same)

pub recv_line :
    (fuel bufsiz : ℕ) (disk : Disk) (reads : ℕ → Recv) (n : ℕ) (bf bf' : BlockFile) (s s' : Session)
    (c : Bytes) {x : Run Left}
    → reads n ≡ line c
    → session_write_file bufsiz disk bf s c ≡ ok (true, bf', s')
    → file_add_loop_recv fuel bufsiz disk reads (suc n) bf' s' ≡ x
    → file_add_loop_recv (suc fuel) bufsiz disk reads n bf s ≡ x
unfolding file_add_loop_recv
recv_line fuel bufsiz disk reads n bf bf' s s' c come run rest =
    rw (come, file_add_loop_recv) (rw run rest)

recv_rest :
    (fuel bufsiz : ℕ) (disk : Disk) (before : ℕ → ℕ) (reads : ℕ → Recv) (n : ℕ) (bf : BlockFile)
    (s : Session) (body : Bytes) (chunks : List Bytes)
    → 0 < bufsiz
    → Works disk
    → Arrive reads n chunks
    → Receiving bufsiz before bf s body
    → length (body ++ flatten chunks) ≡ s.size
    → length chunks < fuel
    → Returns
        (file_add_loop_recv fuel bufsiz disk reads n bf s)
        (Stored before s (body ++ flatten chunks))
unfolding file_add_loop_recv flatten
recv_rest zero bufsiz disk before reads n bf s body chunks pos works arrive r all h =
    absurd (omega arith)
recv_rest (suc fuel) bufsiz disk before reads n bf s body [] pos works arrive r all h =
    let same = append-nil body in
    (
      broke bf s,
      rw (arrive, file_add_loop_recv) refl,
      rw same (Receiving-Stored bufsiz before bf s body r (ap length (sym same) ∙ all)),
    )
recv_rest (suc fuel) bufsiz disk before reads n bf s body (c ∷ cs) pos works arrive r all h =
    let same = append_assoc body c (flatten cs) in
    let (t, run, r', size, offset) =
      session_write_file-Receiving bufsiz disk before bf s body c pos works r (
        omega (
          arith,
          all,
          length-append body (c ++ flatten cs),
          length-append c (flatten cs),
          length-append body c,
        )) in
    let (left, rest, (bf', s', broken, proc, empty, placed)) =
      recv_rest fuel bufsiz disk before reads (suc n) t.0 t.1 (body ++ c) cs pos works arrive.1 r'
        (ap length same ∙ all ∙ sym size) (omega arith) in
    (
      left,
      recv_line fuel bufsiz disk reads n bf t.0 s t.1 c arrive.0 run rest,
      (bf', s', broken, proc ∙ size, empty, placed ∙ rw (offset, same) refl),
    )

-- With every seek and write succeeding and a buffer of at least one byte, a file that arrives in
-- chunks whose lengths add up to its size is stored, however it is cut: the loop ends within a
-- round more than there are chunks, all of it is written, the buffer is empty, and the block file
-- holds the chunks in order at the file's place and is as before elsewhere.
file_add_loop_recv-Stored :
    (bufsiz : ℕ) (disk : Disk) (reads : ℕ → Recv) (bf : BlockFile) (size offset : ℕ)
    (chunks : List Bytes) (fuel : ℕ)
    → 0 < bufsiz
    → Works disk
    → Arrive reads 0 chunks
    → length (flatten chunks) ≡ size
    → length chunks < fuel
    → Returns
        (file_add_loop_recv fuel bufsiz disk reads 0 bf
          (record { size = size; offset = offset; proc_size = 0; bf_buf = [] }))
        (Stored bf.content
          (record { size = size; offset = offset; proc_size = 0; bf_buf = [] })
          (flatten chunks))
file_add_loop_recv-Stored bufsiz disk reads bf size offset chunks fuel pos works arrive all h =
    recv_rest fuel bufsiz disk bf.content reads 0 bf _ [] chunks pos works arrive
      (fresh-Receiving bufsiz bf size offset pos) all h

empty_chunk :
    (bufsiz : ℕ) (disk : Disk) (bf : BlockFile) (s : Session)
    → s.proc_size ≤ s.size
    → disk.seek_ok ≡ true
    → session_write_file bufsiz disk bf s []
      ≡ ok (true, record bf { pos = s.offset + s.proc_size }, s)
unfolding write_loop
empty_chunk bufsiz disk bf s le seek =
    into_loop bufsiz disk bf s [] (not_over s.size (s.proc_size + 0) (omega arith)) seek refl

-- When the connection is closed while no more than the size of the file is written, and seeks
-- succeed, the loop does not end, whatever the fuel: it takes the end of the stream for a chunk of
-- no bytes.
pub file_add_loop_recv-closed :
    (fuel bufsiz : ℕ) (disk : Disk) (reads : ℕ → Recv) (n : ℕ) (bf : BlockFile) (s : Session)
    → ((i : ℕ) → n ≤ i → reads i ≡ closed)
    → s.proc_size ≤ s.size
    → disk.seek_ok ≡ true
    → file_add_loop_recv fuel bufsiz disk reads n bf s ≡ hang
unfolding file_add_loop_recv
file_add_loop_recv-closed zero bufsiz disk reads n bf s end le seek = refl
file_add_loop_recv-closed (suc fuel) bufsiz disk reads n bf s end le seek =
    rw (end n (omega arith), file_add_loop_recv)
      (rw (empty_chunk bufsiz disk bf s le seek) (
        file_add_loop_recv-closed fuel bufsiz disk reads (suc n) _ s (λ i h. end i (omega arith)) le
          seek))
