-- ===== src/DataServer/Upload/Parts.antt =====
-- `__file_add_loop_recv` of data_server/command.c when a part of the file comes.
use mathlib.Core.List.{append_assoc, append-nil, flatten}
use mathlib.Core.Path.{subst}
use tdss.Common.{
  ℕ, zero, suc, ◌<◌, ◌≤◌, ◌≡◌, refl, sym, ◌∙◌, List, [], ◌∷◌, ◌++◌, arith, length, length-append,
  Bytes,
}
use tdss.DataServer.Upload.{BlockFile, Session, Disk, Recv, again, Left, broke, file_add_loop_recv}
use tdss.DataServer.Upload.Chunk.{Receiving, Works}
use tdss.DataServer.Upload.Whole.{Arrive, recv_line, session_write_file-Receiving}
use tdss.Run.{Returns, ok}

-- The loop has been left by `break`, and the session has taken the bytes.
abbrev pub Taken : ℕ → (ℕ → ℕ) → Session → Bytes → Left → Type 0
Taken bufsiz before s body left =
    (bf' : BlockFile) × (s' : Session) × (left ≡ broke bf' s')
    × Receiving bufsiz before bf' s' body
    × (s'.size ≡ s.size)
    × (s'.offset ≡ s.offset)

stops :
    (fuel bufsiz : ℕ) (disk : Disk) (reads : ℕ → Recv) (n : ℕ) (bf : BlockFile) (s : Session)
    → reads n ≡ again
    → file_add_loop_recv (suc fuel) bufsiz disk reads n bf s ≡ ok (broke bf s)
unfolding file_add_loop_recv
stops fuel bufsiz disk reads n bf s end = rw (end, file_add_loop_recv) refl

-- With every seek and write succeeding and a buffer of at least one byte, the chunks that come in
-- one call are taken, as long as they do not pass the end of the file.
pub recv-Taken :
    (fuel bufsiz : ℕ) (disk : Disk) (before : ℕ → ℕ) (reads : ℕ → Recv) (n : ℕ) (bf : BlockFile)
    (s : Session) (body : Bytes) (chunks : List Bytes)
    → 0 < bufsiz
    → Works disk
    → Arrive reads n chunks
    → Receiving bufsiz before bf s body
    → length (body ++ flatten chunks) ≤ s.size
    → length chunks < fuel
    → Returns
        (file_add_loop_recv fuel bufsiz disk reads n bf s)
        (Taken bufsiz before s (body ++ flatten chunks))
unfolding flatten
recv-Taken zero bufsiz disk before reads n bf s body chunks pos works arrive r fits h =
    absurd (omega arith)
recv-Taken (suc fuel) bufsiz disk before reads n bf s body [] pos works arrive r fits h = (
  broke bf s,
  stops fuel bufsiz disk reads n bf s arrive,
  (bf, s, refl, subst (Receiving bufsiz before bf s) (sym (append-nil body)) r, refl, refl),
)
recv-Taken (suc fuel) bufsiz disk before reads n bf s body (c ∷ cs) pos works arrive r fits h =
    let same = append_assoc body c (flatten cs) in
    let (t, run, r', size, offset) =
      session_write_file-Receiving bufsiz disk before bf s body c pos works r (
        omega (
          arith,
          fits,
          length-append body (c ++ flatten cs),
          length-append c (flatten cs),
          length-append body c,
        )) in
    let (left, rest, (bf', s', broken, taken, size', offset')) =
      recv-Taken fuel bufsiz disk before reads (suc n) t.0 t.1 (body ++ c) cs pos works arrive.1 r'
        (rw (same, size) fits) (omega arith) in
    (
      left,
      recv_line fuel bufsiz disk reads n bf t.0 s t.1 c arrive.0 run rest,
      (
        bf',
        s',
        broken,
        subst (Receiving bufsiz before bf' s') same taken,
        size' ∙ size,
        offset' ∙ offset,
      ),
    )
