-- ===== src/DataServer/Download.antt =====
-- data_server/command.c: `__file_get_loop_send`, which sends a file from its place in a block file to
-- the client with `sendfile`.
pub mod Calls
use mathlib.Core.List.{append_assoc, append-nil}
use mathlib.Core.Path.{ap₂}
use tdss.Common.{
  ℕ, zero, suc, ◌+◌, ◌-◌, ◌<◌, ◌≤◌, ◌≡◌, refl, sym, ◌∙◌, ap, inl, inr, Bool, Bool-cases, true,
  false, List, [], ◌∷◌, ◌++◌, map, ltb, lt→ltb, ◌==◌, arith, if◌then◌else◌, Bytes,
}

-- What one `sendfile` gives: how many bytes it sent, or -1 with EAGAIN, EINTR or another error. When
-- a list of them ends, the next one is EAGAIN.
pub data SendfileResult : Type 0 where
  sent : ℕ → SendfileResult
  again interrupted failed : SendfileResult

-- The bytes of a file from a position on.
abbrev pub section : (ℕ → ℕ) → ℕ → ℕ → Bytes
section content i zero = []
section content i (suc n) = content i ∷ section content (suc i) n

-- How the loop is left: with `proc_size` and the bytes that went to the client, or with an error.
pub data Stopped : Type 0 where
  stopped broken : ℕ → Bytes → Stopped

-- The `while` loop; `sendfile` moves `of` behind the bytes that it sent.
unfoldable pub sendfile_loop : List SendfileResult → (ℕ → ℕ) → ℕ → ℕ → ℕ → Bytes → Stopped
sendfile_loop [] content of size proc_size out = stopped proc_size out
sendfile_loop (s ∷ ss) content of size proc_size out = elim (ltb proc_size size) [
  | false ↦ stopped proc_size out
  | true ↦ elim s [
    | sent n ↦ sendfile_loop ss content (of + n) size (proc_size + n) (out ++ section content of n)
    | again ↦ stopped proc_size out
    | interrupted ↦ sendfile_loop ss content of size proc_size out
    | failed ↦ broken proc_size out
  ]
]

-- `fb_info.size`, `fb_info.offset` and `proc_size` of the session
pub record Download : Type 0 where
  pub size : ℕ
  pub offset : ℕ
  pub proc_size : ℕ

-- What the function returns: MRT_ERR, the error answer of `sendfile`, NEXT_WRITE, or SESSION_BEGIN
-- with the block file closed.
pub data Outcome : Type 0 where
  mrt_err send_error next_write session_begin : Outcome

-- The end of `__file_get_loop_send`; `s_zero` clears `fb_info`.
unfoldable pub finish_send : Download → Stopped → Outcome × Download × Bytes
finish_send d (broken proc_size out) = (send_error, record d { proc_size = proc_size }, out)
finish_send d (stopped proc_size out) =
    if d.size == proc_size
    then (session_begin, record { size = 0; offset = 0; proc_size = 0 }, out)
    else (next_write, record d { proc_size = proc_size }, out)

-- Each call starts at `fb_info.offset`. `seek_ok` tells whether `lseek` succeeds.
unfoldable pub file_get_loop_send :
    Bool → List SendfileResult → (ℕ → ℕ) → Download → Outcome × Download × Bytes
file_get_loop_send seek_ok ss content d =
    if seek_ok
    then finish_send d (sendfile_loop ss content d.offset d.size d.proc_size [])
    else (mrt_err, d, [])

abbrev pub total : List ℕ → ℕ
total [] = 0
total (n ∷ ns) = n + total ns
