-- ===== src/Tests/Hashdb.antt =====
-- Runs and instances of the theorems on lib_mrt/hashdb.c.
use mathlib.Core.Path.{subst}
use tdss.Common.{
  ◌^◌, sym, ap, length, Option, Bytes, Bool-cases, bytes_eq, eq_of_bytes_eq, inl, inr, ◌<◌, ◌≡◌,
  refl, ◌≢◌, false, none, some, [], ◌∷◌, ◌++◌, arith, true, ◌⊎◌, ◌&&◌, ◌==◌,
}
use tdss.Hashdb.{null, Hashdb, hdb_arg_inval, Env, hashdb_find}
use tdss.Hashdb.Binlog.{hashdb_init}
use tdss.Hashdb.Delete.{Deleted, hashdb_delete-Deleted}
use tdss.Hashdb.Enter.{update}
use tdss.Hashdb.Find.{Found, hashdb_find-Found}
use tdss.Hashdb.Dump.{Small, AllDone, hashdb_init-hashdb_flush_binlog}
use tdss.Hashdb.Binlog.{FlushEnv, flushed, kept, log_lost, hashdb_flush_binlog}
use tdss.Hashdb.Holds.{Represents}
use tdss.Hashdb.Insert.{Inserted, hashdb_insert-Inserted}
use tdss.Hashdb.Ops.{hashdb_insert, hashdb_update, hashdb_delete}
use tdss.Hashdb.Recovery.{no_skip}
use tdss.Hashdb.Replay.{Record, log_of, recover_all}
use tdss.Hashdb.Restart.{nothing, hashdb_init-recover_all}
use tdss.Hashdb.Synced.{Synced, inserted, hashdb_insert-Synced, hashdb_delete-comes_back}
use tdss.Hashdb.Update.{Updated, hashdb_update-Updated}
use tdss.Run.{Returns, ok}
use tdss.Tests.Tables.{
  grants, grants-Memory, grants-Grants, large, large-Synced, red, green, red-ne, green-ne, one,
  one_map, one-Synced, one_map-red,
}

abbrev no_value : Env
no_value = record (grants 0) { val_mem = false }

abbrev no_key : Env
no_key = record (grants 0) { key_mem = false }

hashdb_find-Found_example :
    (hashdb_find one [] ≡ ok (hdb_arg_inval, null))
    × (red ≢ [] → Returns (hashdb_find one red) (Found one red (one_map red)))
hashdb_find-Found_example = hashdb_find-Found red one-Synced.represents

hashdb_insert-Inserted_example :
    Returns
      (hashdb_insert large red green (grants 0))
      (Inserted large nothing red green (grants 0) none)
hashdb_insert-Inserted_example =
    hashdb_insert-Inserted red green (grants 0) large-Synced.represents large-Synced.wide red-ne
      green-ne (grants-Grants 0)

hashdb_delete-Deleted_example :
    Returns (hashdb_delete one red (grants 1)) (Deleted one one_map red (one_map red))
hashdb_delete-Deleted_example =
    hashdb_delete-Deleted red (grants 1) one-Synced.represents red-ne refl

hashdb_update-Updated_example :
    Returns (hashdb_update one red red (grants 1)) (Updated one one_map red red (one_map red))
hashdb_update-Updated_example =
    hashdb_update-Updated red red (grants 1) one-Synced.represents red-ne red-ne refl refl

abbrev set_red : Record
set_red = record { type = 1; key = red; val = green }

abbrev drop_red : Record
drop_red = record { type = 3; key = red; val = [] }

hashdb_init-recover_all_example :
    (m : Hashdb) × (hashdb_init
        (some (log_of (set_red ∷ drop_red ∷ []) ++ (1 ∷ 0 ∷ [])))
        no_skip
        (grants 0)
        grants
      ≡ ok (some m))
    × Represents m (recover_all nothing (set_red ∷ drop_red ∷ []))
    × (m.stat ≡ 1)
    × (m.binlog ≡ log_of (set_red ∷ drop_red ∷ []) ++ (1 ∷ 0 ∷ []))
hashdb_init-recover_all_example =
    hashdb_init-recover_all (set_red ∷ drop_red ∷ []) (1 ∷ 0 ∷ []) (grants 0) grants
      ((red-ne, omega arith, omega arith), ((red-ne, omega arith, omega arith), tt)) (omega arith)
      grants-Memory

hashdb_insert-Synced_example :
    Returns
      (hashdb_insert large red green (grants 0))
      λ r. Synced r.1 (inserted nothing red green none)
hashdb_insert-Synced_example =
    hashdb_insert-Synced red green (grants 0) large-Synced red-ne green-ne (omega arith)
      (omega arith) (grants-Grants 0)

hashdb_delete-comes_back_example : Returns (hashdb_delete one red (grants 1)) λ r.
    Represents r.1 (update one_map red none)
    × ((m : Hashdb) × (hashdb_init (some r.1.binlog) no_skip (grants 0) grants ≡ ok (some m))
        × Represents m one_map)
hashdb_delete-comes_back_example =
    hashdb_delete-comes_back red (grants 1) (grants 0) grants one-Synced red-ne (omega arith)
      one_map-red refl grants-Memory

value_or_green : Option Bytes → Bytes
value_or_green none = green
value_or_green (some v) = v

one_map-Small : Small one_map
unfolding value_or_green
one_map-Small k v e = elim (Bool-cases (bytes_eq k red)) [
  | inl same ↦
      let found : some green ≡ some v = rw same at e in
      let is_red : red ≡ k = sym (eq_of_bytes_eq k red same) in
      let is_green : green ≡ v = ap value_or_green found in
      subst (λ (b : Bytes). (b ≢ []) × (length b < 2 ^ 16) × (v ≢ []) × (length v < 2 ^ 16)) is_red
        (subst (λ (b : Bytes). (red ≢ []) × (length red < 2 ^ 16) × (b ≢ []) × (length b < 2 ^ 16))
          is_green (red-ne, omega arith, green-ne, omega arith))
  | inr other ↦ absurd (none_there k v other e)
]
  where
    none_there : (k v : Bytes) → bytes_eq k red ≡ false → one_map k ≡ some v → ⊥
    none_there k v other e = let gone : none ≡ some v = rw other at e in cc

abbrev no_failure : FlushEnv
no_failure = record {
  opened = true;
  failed = λ p i. none;
  synced = true;
  unlinked = true;
  linked = true;
}

hashdb_init-hashdb_flush_binlog_example :
    (AllDone no_failure one
      → (log : Bytes) × (hashdb_flush_binlog no_failure one
          ≡ ok (flushed (record one { binlog = log })))
        × ((m' : Hashdb) × (hashdb_init (some log) no_skip (grants 0) grants ≡ ok (some m'))
            × Represents m' one_map
            × (m'.binlog ≡ log)))
    × ((one.stat ≢ 1) ⊎ ((true ≡ false) ⊎ (true ≡ false))
        → hashdb_flush_binlog no_failure one ≡ ok (kept one))
    × (true ≡ true
        → (true && ((one.stat == 1) && true)) ≡ true
        → true ≡ false
        → hashdb_flush_binlog no_failure one ≡ ok (log_lost one))
hashdb_init-hashdb_flush_binlog_example =
    hashdb_init-hashdb_flush_binlog no_failure (grants 0) grants one-Synced.represents one_map-Small
      grants-Memory
