-- ===== src/Tests/Tables.antt =====
-- Tables for the tests of lib_mrt/hashdb.c.
use tdss.Common.{
  ℕ, suc, ◌≡◌, refl, ◌≢◌, true, Option, some, [], arith, Bytes, bytes, replicate, bytes_eq_refl,
}
use tdss.Run.{Returns}
use tdss.Hashdb.{null, Hashdb, Env, blank}
use tdss.Hashdb.Enter.{update}
use tdss.Hashdb.Insert.{Grants}
use tdss.Hashdb.Ops.{hashdb_insert}
use tdss.Hashdb.Restart.{nothing, Memory}
use tdss.Hashdb.Synced.{Synced, started_empty-Synced, hashdb_insert-Synced}

-- An environment that has what is asked for, with the next entry at address `n + 1`.
abbrev pub grants : ℕ → Env
grants n = record {
  entry = suc n;
  key_mem = true;
  val_mem = true;
  table_mem = true;
  write_ok = true;
}

pub grants-Memory : Memory (grants 0) grants
grants-Memory = (
  refl,
  λ j _. (
    λ (e : suc j ≡ null). omega arith,
    refl,
    refl,
    refl,
    refl,
    λ k lt (e : suc k ≡ suc j). omega arith,
  ),
)

-- A table of the size that `hashdb_init` asks for, in use of an empty log.
abbrev pub large : Hashdb
large = record blank { idx = 10; size = 129793; stat = 1; buckets = replicate 129793 null }

pub grants-Grants : (n : ℕ) → Grants (grants n) large
grants-Grants n = (λ (e : suc n ≡ null). omega arith, refl, refl, refl, refl)

pub large-Synced : Synced large nothing
large-Synced = started_empty-Synced 129793 10 (omega arith)

abbrev pub red : Bytes
red = bytes "red"

abbrev pub green : Bytes
green = bytes "green"

pub red-ne : red ≢ []
red-ne e = cc

pub green-ne : green ≢ []
green-ne e = cc

pub large_insert :
    Returns
      (hashdb_insert large red green (grants 0))
      λ r. Synced r.1 (update nothing red (some green))
large_insert =
    hashdb_insert-Synced red green (grants 0) large-Synced red-ne green-ne (omega arith)
      (omega arith) (grants-Grants 0)

-- The large table with the value `green` under the key `red`.
abbrev pub one : Hashdb
one = large_insert.0.1

abbrev pub one_map : Bytes → Option Bytes
one_map = update nothing red (some green)

pub one-Synced : Synced one one_map
one-Synced = large_insert.2

pub one_map-red : one_map red ≡ some green
one_map-red = rw (bytes_eq_refl red)
