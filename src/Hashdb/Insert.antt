-- ===== src/Hashdb/Insert.antt =====
-- `hashdb_insert` and `hashdb_push` of lib_mrt/hashdb.c, on every branch.
use tdss.Common.{
  ◌^◌, ◌<◌, ◌≤◌, ◌≡◌, refl, ◌≢◌, ◌⊎◌, inl, inr, true, false, Option, none, some, [], arith,
  Option-cases, Bytes,
}
use tdss.Hashdb.{null, Hashdb, Code, hdb_err_nomem, hdb_key_exist, Env}
use tdss.Hashdb.Enter.{update, log_bytes, Wrote, enter-Wrote}
use tdss.Hashdb.Find.{not_null, nonempty, locate_none, locate_some}
use tdss.Hashdb.Holds.{Represents}
use tdss.Hashdb.Ops.{hashdb_insert, hashdb_push, make_room}
use tdss.Run.{Returns, ok, fault}

-- What the environment must grant for a new entry.
abbrev pub Grants : Env → Hashdb → Type 0
Grants env m =
    (env.entry ≢ null)
    × (m.heap.cell env.entry ≡ none)
    × (env.key_mem ≡ true)
    × (env.val_mem ≡ true)
    × (env.write_ok ≡ true)

-- The outcome of an insertion, by what the map holds under the key.
abbrev pub Inserted :
    Hashdb → (Bytes → Option Bytes) → Bytes → Bytes → Env → Option Bytes → Code × Hashdb → Type 0
Inserted m f key val env (some old) r = r ≡ (hdb_key_exist, m)
Inserted m f key val env none r =
    Wrote m (update f key (some val)) (log_bytes m 1 key val) env.entry r

-- A table of 2 ^ 16 chains or more that stands for a map never grows, however many entries it has:
-- `used` is a 16-bit number.
make_room-never_grows :
    {m : Hashdb} {f : Bytes → Option Bytes} (env : Env)
    → Represents m f
    → 2 ^ 16 ≤ m.size
    → make_room m env ≡ ok (m, true)
unfolding make_room
make_room-never_grows {m} env (rows, t) wide =
    let few : m.used < m.size = omega (arith, t.used) in ground arith

insert_new :
    {m : Hashdb} {f : Bytes → Option Bytes} (key val : Bytes) (env : Env)
    → Represents m f
    → 2 ^ 16 ≤ m.size
    → key ≢ []
    → val ≢ []
    → Grants env m
    → f key ≡ none
    → Returns
        (hashdb_insert m key val env)
        (Wrote m (update f key (some val)) (log_bytes m 1 key val) env.entry)
unfolding hashdb_insert
insert_new {m} {f} key val env (rows, t) wide k v (nn, fresh, km, vm, wr) e =
    rw
      (
        nonempty key k,
        nonempty val v,
        locate_none {f = f} key (rows, t) e,
        make_room-never_grows {f = f} env (rows, t) wide,
      )
      (simp (km, not_null nn, vm) (enter-Wrote t key val 0 env.entry nn fresh e env refl wr))

insert_old :
    {m : Hashdb} {f : Bytes → Option Bytes} {old : Bytes} (key val : Bytes) (env : Env)
    → Represents m f
    → key ≢ []
    → val ≢ []
    → f key ≡ some old
    → hashdb_insert m key val env ≡ ok (hdb_key_exist, m)
unfolding hashdb_insert
insert_old {f} {old} key val env r k v e =
    let (p, run, at) = locate_some {f = f} key r e in
    rw (nonempty key k, nonempty val v, run, not_null at.0)

-- For a key and a value that are not empty, in a table of at least 2 ^ 16 chains that stands for a
-- map, with memory at an unused address and a log that can be written: `hashdb_insert` ends without
-- a fault; it refuses a key that is there and changes nothing, and gives a new key the value and
-- changes no other key. In the second case a log in use gets one record of type 1.
pub hashdb_insert-Inserted :
    {m : Hashdb} {f : Bytes → Option Bytes} (key val : Bytes) (env : Env)
    → Represents m f
    → 2 ^ 16 ≤ m.size
    → key ≢ []
    → val ≢ []
    → Grants env m
    → Returns (hashdb_insert m key val env) (Inserted m f key val env (f key))
hashdb_insert-Inserted {m} {f} key val env r wide k v g = elim (Option-cases (f key)) [
  | inl e ↦ rw e (insert_new {f = f} key val env r wide k v g e)
  | inr (old, e) ↦ rw e ((hdb_key_exist, m), insert_old {f = f} key val env r k v e, refl)
]

-- For a key and a value that are not empty, in a table of at least 2 ^ 16 chains that stands for a
-- map, with memory at an unused address and a log that can be written: `hashdb_push` ends without a
-- fault; it refuses a key that is there and changes nothing, and gives a new key the value and
-- changes no other key. In the second case a log in use gets one record of type 1.
pub hashdb_push-Inserted :
    {m : Hashdb} {f : Bytes → Option Bytes} (key val : Bytes) (env : Env)
    → Represents m f
    → 2 ^ 16 ≤ m.size
    → key ≢ []
    → val ≢ []
    → Grants env m
    → Returns (hashdb_push m key val env) (Inserted m f key val env (f key))
unfolding hashdb_push
hashdb_push-Inserted {m} {f} key val env (rows, t) wide k v (nn, fresh, km, vm, wr) =
    elim (Option-cases (f key)) [
      | inl e ↦
          rw
            (
              e,
              nonempty key k,
              nonempty val v,
              locate_none {f = f} key (rows, t) e,
              make_room-never_grows {f = f} env (rows, t) wide,
            )
            (simp (km, not_null nn) (enter-Wrote t key val 1 env.entry nn fresh e env refl wr))
      | inr (old, e) ↦
          let (p, run, at) = locate_some {f = f} key (rows, t) e in
          rw (e, nonempty key k, nonempty val v, run, not_null at.0)
            ((hdb_key_exist, m), refl, refl)
    ]

-- When the memory for the entry or for its key is missing, in a table of at least 2 ^ 16 chains
-- that stands for a map, the insertion of a new key and a value that are not empty says so and
-- changes nothing.
pub hashdb_insert-no_memory :
    {m : Hashdb} {f : Bytes → Option Bytes} (key val : Bytes) (env : Env)
    → Represents m f
    → 2 ^ 16 ≤ m.size
    → key ≢ []
    → val ≢ []
    → f key ≡ none
    → (env.entry ≡ null) ⊎ (env.key_mem ≡ false)
    → hashdb_insert m key val env ≡ ok (hdb_err_nomem, m)
unfolding hashdb_insert
hashdb_insert-no_memory {f} key val env r wide k v e lack =
    rw
      (
        nonempty key k,
        nonempty val v,
        locate_none {f = f} key r e,
        make_room-never_grows {f = f} env r wide,
      )
      (ground arith)

-- When the memory for the value is missing and that for the entry and its key is there, in a table
-- of at least 2 ^ 16 chains that stands for a map, the insertion of a new key and a value that are
-- not empty faults: it frees the caller's key.
hashdb_insert-frees_key :
    {m : Hashdb} {f : Bytes → Option Bytes} (key val : Bytes) (env : Env)
    → Represents m f
    → 2 ^ 16 ≤ m.size
    → key ≢ []
    → val ≢ []
    → f key ≡ none
    → env.entry ≢ null
    → env.key_mem ≡ true
    → env.val_mem ≡ false
    → hashdb_insert m key val env ≡ fault
unfolding hashdb_insert
hashdb_insert-frees_key {f} key val env r wide k v e nn km vm =
    rw
      (
        nonempty key k,
        nonempty val v,
        locate_none {f = f} key r e,
        make_room-never_grows {f = f} env r wide,
      )
      (simp (km, not_null nn, vm))
