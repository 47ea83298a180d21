-- ===== src/DataServer/Upload.antt =====
-- data_server/command.c: a file that comes in over a connection is written to its place in a block
-- file, through the session's buffer.
pub mod Chunk
pub mod Whole
pub mod Parts
use tdss.Common.{
  ℕ, zero, suc, ◌+◌, ◌-◌, Bool, true, false, ◌||◌, Option, none, some, List, [], ◌∷◌, ◌++◌, ltb,
  ◌==◌, if◌then◌else◌, length, take, drop, Bytes,
}
use tdss.Run.{Run, ok, hang, ◌>>=◌}

-- The bytes of a block file, and the position of its descriptor, which all sessions share.
pub record BlockFile : Type 0 where
  pub content : ℕ → ℕ
  pub pos : ℕ

-- The fields of `session_t` that a transfer uses: `fb_info.size` and `fb_info.offset`, how much is
-- written, and the `bf_size` bytes of `bf_buf` that are in use. Negative sizes are not modelled.
pub record Session : Type 0 where
  pub size : ℕ
  pub offset : ℕ
  pub proc_size : ℕ
  pub bf_buf : Bytes

-- What the system answers: whether `lseek` succeeds, and whether a `write` at a position does. A
-- write that succeeds writes all its bytes.
pub record Disk : Type 0 where
  pub seek_ok : Bool
  pub write_ok : ℕ → Bool

-- The bytes from a position on, overwritten.
abbrev pub splice : (ℕ → ℕ) → ℕ → Bytes → ℕ → ℕ
splice f i [] = f
splice f i (b ∷ bs) = splice (λ j. if j == i then b else f j) (suc i) bs

-- The loop of `session_write_file`, with BUFSIZ of the C library as `bufsiz`: fills the buffer, and
-- writes it when it is full or holds the end of the file.
unfoldable pub flush : ℕ → Disk → BlockFile → Session → Option (BlockFile × Session)
flush bufsiz disk bf s =
    if (length s.bf_buf == bufsiz) || (s.size == s.proc_size + length s.bf_buf)
    then (if disk.write_ok bf.pos
        then some (
          record { content = splice bf.content bf.pos s.bf_buf; pos = bf.pos + length s.bf_buf },
          record s { proc_size = s.proc_size + length s.bf_buf; bf_buf = [] },
        )
        else none)
    else some (bf, s)

-- `lsize > size ? size : lsize`
unfoldable pub chunk_size : ℕ → ℕ → ℕ
chunk_size lsize size = if ltb size lsize then size else lsize

unfoldable pub write_loop :
    ℕ → ℕ → Disk → BlockFile → Session → Bytes → Run (Bool × BlockFile × Session)
unfolding flush
write_loop fuel bufsiz disk bf s [] = ok (true, bf, s)
write_loop zero bufsiz disk bf s (c ∷ str) = hang
write_loop (suc fuel) bufsiz disk bf s (c ∷ str) =
    let csize = chunk_size (bufsiz - length s.bf_buf) (length (c ∷ str)) in
    let s' = record s { bf_buf = s.bf_buf ++ take csize (c ∷ str) } in
    elim (flush bufsiz disk bf s') [
      | none ↦ ok (false, bf, s')
      | some (bf', s'') ↦ write_loop fuel bufsiz disk bf' s'' (drop csize (c ∷ str))
    ]

-- The flag is false for MRT_ERR.
unfoldable pub session_write_file :
    ℕ → Disk → BlockFile → Session → Bytes → Run (Bool × BlockFile × Session)
unfolding write_loop
session_write_file bufsiz disk bf s str =
    if ltb s.size (s.proc_size + length str)
    then ok (false, bf, s)
    else if disk.seek_ok
    then write_loop (length str + 1) bufsiz disk (record bf { pos = s.offset + s.proc_size }) s str
    else ok (false, bf, s)

-- What `read` gives on the connection: bytes, the end of the stream, or an error.
pub data Recv : Type 0 where
  line : Bytes → Recv
  closed again interrupted failed : Recv

-- How the loop of `__file_add_loop_recv` is left: by `break`, or with MRT_ERR and the block file
-- handed back.
pub data Left : Type 0 where
  broke aborted : BlockFile → Session → Left

-- What the loop does with the result of `session_write_file`.
abbrev next_read : (BlockFile → Session → Run Left) → Bool × BlockFile × Session → Run Left
next_read rest (true, bf, s) = rest bf s
next_read rest (false, bf, s) = ok (aborted bf s)

-- The loop of `__file_add_loop_recv`, on the results of `read` from the `n`th on. At the end of the
-- stream `read` gives 0, which is no error.
unfoldable pub file_add_loop_recv : ℕ → ℕ → Disk → (ℕ → Recv) → ℕ → BlockFile → Session → Run Left
file_add_loop_recv zero bufsiz disk reads n bf s = hang
file_add_loop_recv (suc fuel) bufsiz disk reads n bf s =
    let rest = file_add_loop_recv fuel bufsiz disk reads (suc n) in
    elim (reads n) [
      | again ↦ ok (broke bf s)
      | interrupted ↦ rest bf s
      | failed ↦ ok (aborted bf s)
      | closed ↦ session_write_file bufsiz disk bf s [] >>= next_read rest
      | line str ↦ session_write_file bufsiz disk bf s str >>= next_read rest
    ]
