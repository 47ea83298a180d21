-- ===== src/Hashdb/Binlog.antt =====
-- lib_mrt/hashdb.c: `hashdb_init`, which reads the operation log back, and `hashdb_flush_binlog`,
-- which writes a new one from the table.
use tdss.Common.{
  ℕ, zero, suc, ◌+◌, ◌*◌, Bool, true, false, ◌||◌, Option, none, some, List, [], ◌∷◌, ◌++◌, ltb,
  ◌==◌, if◌then◌else◌, length, take, drop, Bytes, ◌&&◌,
}
use tdss.Hashdb.{Ptr, null, Entry, Hashdb, Env, load, sec_bytes, hashdb_create}
use tdss.Hashdb.Ops.{hashdb_insert, hashdb_update, hashdb_delete}
use tdss.Run.{Run, ok, hang, ◌>>=◌}

-- The `switch` on the type of a record; what the operations return is only logged.
unfoldable pub apply_record : Hashdb → ℕ → Bytes → Bytes → Env → Run Hashdb
apply_record m type key val env =
    if type == 1
    then (hashdb_insert m key val env >>= λ r. ok r.1)
    else if type == 2
    then (hashdb_update m key val env >>= λ r. ok r.1)
    else if type == 3
    then (hashdb_delete m key env >>= λ r. ok r.1)
    else ok m

-- The callback `load`: whether a record is to be passed over.
abbrev pub Skip : Type 0
Skip = ℕ → Bytes → Bytes → Bool

-- What the three `fread`s of one round make of the rest of the file.
pub data Read : Type 0 where
  at_end broken : Read
  read : ℕ → Bytes → Bytes → Bytes → Read

-- An `fread` of no bytes counts as failed, so a record with an empty key is an error.
unfoldable pub read_body : ℕ → ℕ → ℕ → Bytes → Read
read_body type klen vlen body =
    if klen == 0 || ltb (length body) klen || ltb (length (drop klen body)) vlen
    then broken
    else read type (take klen body) (take vlen (drop klen body)) (drop vlen (drop klen body))

unfoldable pub read_record : Bytes → Read
unfolding read_body
read_record (type ∷ pad ∷ k₀ ∷ k₁ ∷ v₀ ∷ v₁ ∷ body) =
    read_body type (k₀ + k₁ * 256) (v₀ + v₁ * 256) body
read_record _ = at_end

-- The `while` loop over the rest of the file; `none` is `goto hashdb_load_error`.
unfoldable pub replay_loop : ℕ → Skip → (ℕ → Env) → ℕ → Hashdb → Bytes → Run (Option Hashdb)
replay_loop zero skip envs n m file = hang
replay_loop (suc fuel) skip envs n m file = elim (read_record file) [
  | at_end ↦ ok (some m)
  | broken ↦ ok none
  | read type key val rest ↦
      (if skip type key val then ok m else apply_record m type key val (envs n)) >>= λ m'.
      replay_loop fuel skip envs (suc n) m' rest
]

-- No file name gives an empty table with no log; a file can be opened. The old table of `*phdb` is
-- not modelled.
unfoldable pub hashdb_init : Option Bytes → Skip → Env → (ℕ → Env) → Run (Option Hashdb)
hashdb_init none skip env envs = ok (hashdb_create 108631 env)
hashdb_init (some file) skip env envs = elim (hashdb_create 108631 env) [
  | none ↦ ok none
  | some m ↦ replay_loop (length file + 1) skip envs 0 m file >>= λ r. elim r [
    | none ↦ ok none
    | some m' ↦ ok (some (record m' { stat = 1; binlog = file }))
  ]
]

-- What the system answers `hashdb_flush_binlog`: whether there is a name for the new file and it can
-- be opened, which of the three writes for an entry fail, and after how many bytes, and whether
-- `fflush`, `unlink` of the old log and `link` succeed.
pub record FlushEnv : Type 0 where
  pub opened : Bool
  pub failed : Ptr → ℕ → Option ℕ
  pub synced : Bool
  pub unlinked : Bool
  pub linked : Bool

-- `fwrite`
unfoldable pub put : Option ℕ → Bytes → Bytes → Bool × Bytes
put none out bs = (true, out ++ bs)
put (some n) out bs = (false, out ++ take n bs)

-- `__hashdb_flush_entry` leaves the rest of an entry out when a write fails.
unfoldable pub flush_entry : (ℕ → Option ℕ) → Entry → Bytes → Bytes
flush_entry failed e out =
    let (sec_done, sec_out) = put (failed 0) out (sec_bytes 1 (length e.key) (length e.val)) in
    let (key_done, key_out) = put (failed 1) sec_out e.key in
    if sec_done then (if key_done then (put (failed 2) key_out e.val).1 else key_out) else sec_out

-- `hashdb_walk` over one chain with `__hashdb_flush_entry`
unfoldable pub flush_chain : (Ptr → ℕ → Option ℕ) → ℕ → Hashdb → Ptr → Bytes → Run Bytes
flush_chain failed zero m p out = hang
flush_chain failed (suc fuel) m p out = elim (p == null) [
  | true ↦ ok out
  | false ↦
      load m.heap.cell p >>= λ e. flush_chain failed fuel m e.next (flush_entry (failed p) e out)
]

unfoldable pub flush_all : (Ptr → ℕ → Option ℕ) → List Ptr → Hashdb → Bytes → Run Bytes
flush_all failed [] m out = ok out
flush_all failed (p ∷ ps) m out =
    flush_chain failed (m.heap.live + 1) m p out >>= flush_all failed ps m

-- How `hashdb_flush_binlog` ends: HDB_OK with a new log, -1 with the old log, or -1 when the old
-- log's name is gone and `bfp` is closed.
pub data Flushed : Type 0 where
  flushed kept log_lost : Hashdb → Flushed

-- `hashdb_flush_binlog`; a table without a log has an empty `bname`, which can not be unlinked.
unfoldable pub hashdb_flush_binlog : FlushEnv → Hashdb → Run Flushed
hashdb_flush_binlog env m =
    if env.opened
    then (flush_all env.failed m.buckets m [] >>= λ log.
        if env.synced && ((m.stat == 1) && env.unlinked)
        then (if env.linked then ok (flushed (record m { binlog = log })) else ok (log_lost m))
        else ok (kept m))
    else ok (kept m)
