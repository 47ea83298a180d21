-- ===== src/Hashdb/Ops.antt =====
-- lib_mrt/hashdb.c: the operations of the table: insert, push, update, delete and free.
use tdss.Common.{
  ℕ, zero, suc, ◌+◌, ◌-◌, ◌%◌, ◌^◌, Bool, true, false, ◌||◌, not, Option, none, some, List, [], ◌∷◌,
  leb, ◌==◌, if◌then◌else◌, length, set, Bytes,
}
use tdss.Hash.{hashcode_index, hashcode_create}
use tdss.Hashdb.{
  Ptr, null, Entry, Heap, Hashdb, Code, hdb_ok, hdb_err_nomem, hdb_key_exist, hdb_key_nofound,
  hdb_arg_inval, Env, write, load, set_prev, set_next, hashdb_locate, hashdb_link, hashdb_grow,
  log_if_started,
}
use tdss.Run.{Run, ok, fault, hang, ◌>>=◌}

-- The entry that `calloc` clears and the code fills in.
abbrev pub new_entry : Bytes → Bytes → ℕ → Entry
new_entry key val val_type = record {
  key = key;
  val = val;
  val_type = val_type;
  hash_code = hashcode_create key;
  next = null;
  prev = null;
}

-- The part of `hashdb_insert` and `hashdb_push` behind the allocations.
unfoldable pub enter : Hashdb → Bytes → Bytes → ℕ → Env → Run (Code × Hashdb)
enter m key val val_type env = do
  let e = new_entry key val val_type
  m ←
      hashdb_link
        (record m {
          heap = record { cell = write m.heap.cell env.entry (some e); live = m.heap.live + 1 };
        })
        env.entry
  m ← log_if_started m 1 key val env
  ok (hdb_ok, m)

-- `(map->used >= map->size) && hashdb_grow(map) == -1`; the flag is false if the growing failed.
unfoldable pub make_room : Hashdb → Env → Run (Hashdb × Bool)
make_room m env = if leb m.size m.used then hashdb_grow m env else ok (m, true)

-- A failing `malloc` of the value is followed by `free(key)`, where `key` is the caller's buffer.
unfoldable pub hashdb_insert : Hashdb → Bytes → Bytes → Env → Run (Code × Hashdb)
hashdb_insert m key val env =
    if length key == 0 || length val == 0
    then ok (hdb_arg_inval, m)
    else (hashdb_locate m key >>= λ p.
        if not (p == null)
        then ok (hdb_key_exist, m)
        else (make_room m env >>= λ room.
            if not room.1 || env.entry == null || not env.key_mem
            then ok (hdb_err_nomem, room.0)
            else if not env.val_mem
            then fault
            else enter room.0 key val 0 env))

-- The value is not copied, and is marked by `val_type`.
unfoldable pub hashdb_push : Hashdb → Bytes → Bytes → Env → Run (Code × Hashdb)
hashdb_push m key val env =
    if length key == 0 || length val == 0
    then ok (hdb_arg_inval, m)
    else (hashdb_locate m key >>= λ p.
        if not (p == null)
        then ok (hdb_key_exist, m)
        else (make_room m env >>= λ room.
            if not room.1 || env.entry == null || not env.key_mem
            then ok (hdb_err_nomem, room.0)
            else enter room.0 key val 1 env))

-- `he->val = nval`
unfoldable pub set_val : Hashdb → Ptr → Bytes → Run Hashdb
set_val m p val = do
  e ← load m.heap.cell p
  ok (record m {
    heap = record {
      cell = write m.heap.cell p (some (record e { val = val }));
      live = m.heap.live;
    };
  })

unfoldable pub hashdb_update : Hashdb → Bytes → Bytes → Env → Run (Code × Hashdb)
hashdb_update m key val env =
    if length key == 0 || length val == 0
    then ok (hdb_arg_inval, m)
    else (hashdb_locate m key >>= λ p.
        if p == null
        then ok (hdb_key_nofound, m)
        else if not env.val_mem
        then ok (hdb_err_nomem, m)
        else (set_val m p val >>= λ m'.
            log_if_started m' 2 key val env >>= λ m''. ok (hdb_ok, m'')))

-- Joins the neighbours of the entry `e` at `p`, and frees it.
unfoldable pub unlink_entry : (Ptr → Option Entry) → Ptr → Entry → Run (Ptr → Option Entry)
unlink_entry h p e = do
  h ← if e.next == null then ok h else set_prev h e.next e.prev
  h ← if e.prev == null then ok h else set_next h e.prev e.next
  ok (write h p none)

-- Takes the entry `p` out of the chain of bucket `i`.
unfoldable pub unlink : Hashdb → ℕ → Ptr → Run Hashdb
unfolding unlink_entry
unlink m i p = do
  e ← load m.heap.cell p
  h ← unlink_entry m.heap.cell p e
  ok (record m {
    heap = record { cell = h; live = m.heap.live - 1 };
    buckets = if e.prev == null then set m.buckets i e.next else m.buckets;
    used = (m.used + 2 ^ 16 - 1) % 2 ^ 16;
  })

-- The log gets a record of type 1 with no value.
unfoldable pub hashdb_delete : Hashdb → Bytes → Env → Run (Code × Hashdb)
hashdb_delete m key env =
    if length key == 0
    then ok (hdb_arg_inval, m)
    else (hashdb_locate m key >>= λ p.
        if p == null
        then ok (hdb_key_nofound, m)
        else (unlink m (hashcode_index key m.size) p >>= λ m'.
            log_if_started m' 1 key [] env >>= λ m''. ok (hdb_ok, m'')))

free_chain : ℕ → Heap → Ptr → Run Heap
free_chain zero h p = hang
free_chain (suc fuel) h p = elim (p == null) [
  | true ↦ ok h
  | false ↦ load h.cell p >>= λ e.
      free_chain fuel (record { cell = write h.cell p none; live = h.live - 1 }) e.next
]

-- `hashdb_free`: every chain in turn; the array and the map itself go with the state.
unfoldable pub hashdb_free : List Ptr → Heap → Run Heap
unfolding free_chain
hashdb_free [] h = ok h
hashdb_free (p ∷ ps) h = free_chain (h.live + 1) h p >>= hashdb_free ps
