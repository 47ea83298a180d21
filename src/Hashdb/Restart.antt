-- ===== src/Hashdb/Restart.antt =====
-- `hashdb_init` of lib_mrt/hashdb.c on a whole log file.
use tdss.Common.{
  ℕ, ◌+◌, ◌<◌, ◌≤◌, ◌≡◌, refl, true, Option, none, some, List, [], ◌∷◌, ◌++◌, arith, length,
  length-append, Bytes,
}
use tdss.Hashdb.{Hashdb, Env, blank, sec_bytes}
use tdss.Hashdb.Binlog.{hashdb_init}
use tdss.Hashdb.Create.{hashdb_create-Represents}
use tdss.Hashdb.Holds.{Represents}
use tdss.Hashdb.Recovery.{no_skip, replay_loop-recover_all}
use tdss.Hashdb.Replay.{Record, record_bytes, log_of, AllFit, recover_all, Supplies, Ready}
use tdss.Run.{ok}

abbrev pub nothing : Bytes → Option Bytes
nothing _ = none

length-log_of : (rs : List Record) → length rs ≤ length (log_of rs)
unfolding sec_bytes
length-log_of [] = omega arith
length-log_of (r ∷ rs) = omega (arith, length-append (record_bytes r) (log_of rs), length-log_of rs)

pub started :
    (m : Hashdb) (f : Bytes → Option Bytes) (log : Bytes)
    → Represents m f
    → Represents (record m { stat = 1; binlog = log }) f
started m f log (rows, t) = (
  rows,
  record {
    pos = t.pos;
    width = t.width;
    height = t.height;
    heads = t.heads;
    chains = t.chains;
    live = t.live;
    used = t.used;
    reads = t.reads;
  },
)

-- What a start needs: memory for the table, and for every entry at an address of its own.
abbrev pub Memory : Env → (ℕ → Env) → Type 0
Memory env envs = (env.table_mem ≡ true) × Supplies envs 0 blank

-- `hashdb_init` on a log of records whose keys are not empty and whose lengths fit 16 bits, and
-- perhaps a header that was cut off, with memory at new addresses for every entry, ends without a
-- fault, with a table that stands for what the records say one after another, and in use of that
-- log.
pub hashdb_init-recover_all :
    (rs : List Record) (torn : Bytes) (env : Env) (envs : ℕ → Env)
    → AllFit rs
    → length torn < 6
    → Memory env envs
    → (m : Hashdb) × (hashdb_init (some (log_of rs ++ torn)) no_skip env envs ≡ ok (some m))
      × Represents m (recover_all nothing rs)
      × (m.stat ≡ 1)
      × (m.binlog ≡ log_of rs ++ torn)
unfolding hashdb_init
hashdb_init-recover_all rs torn env envs fits short (mem, supplies) =
    let (m, made, empty, wide, _, heap, _) =
      (hashdb_create-Represents 108631 env (omega arith)).0 mem in
    let ready : Ready envs 0 nothing m = (empty, omega arith, λ j le. rw heap (supplies j le)) in
    let fuel = length (log_of rs ++ torn) + 1 in
    let (m', run, represents) =
      replay_loop-recover_all fuel envs 0 m nothing rs torn ready fits short
        (omega (arith, length-log_of rs, length-append (log_of rs) torn)) in
    (
      record m' { stat = 1; binlog = log_of rs ++ torn },
      rw (made, run, hashdb_init) refl,
      started m' _ _ represents,
      refl,
      refl,
    )
