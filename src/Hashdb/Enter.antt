-- ===== src/Hashdb/Enter.antt =====
-- `hashdb_link` of lib_mrt/hashdb.c, and an entry put in front of its chain.
use tdss.Common.{
  ℕ, ◌+◌, ◌%◌, ◌^◌, ◌≡◌, refl, sym, ◌∙◌, ap, ◌≢◌, inl, inr, true, false, Option, none, some, List,
  [], ◌∷◌, ◌++◌, arith, ◌==◌, Bool-cases, length, get_or, set, if◌then◌else◌, Bytes, bytes_eq,
  eq_of_bytes_eq,
}
use tdss.Hash.{hashcode_index, hashcode_index-lt}
use tdss.Hashdb.{
  Ptr, null, Entry, Hashdb, Code, hdb_ok, Env, write, load, set_next, hashdb_link,
  hashdb_append_binlog, sec_bytes,
}
use tdss.Hashdb.Chain.{
  Cell, Cells, head, entry_of, has, lookup, Chain, frame-write, not-has_of_none, home_of_has,
}
use tdss.Hashdb.Holds.{Holds, Represents, row, bucket-head, Keeps, with_row, with_row-Holds}
use tdss.Hashdb.Ops.{new_entry, enter}
use tdss.Hashdb.Relink.{relink, set_prev-relink, relink-Chain, relink-outside}
use tdss.Run.{Returns, ok}

abbrev pub update : (Bytes → Option Bytes) → Bytes → Option Bytes → Bytes → Option Bytes
update f k v q = if bytes_eq q k then v else f q

-- The bytes that a write of type `operate` adds to the log, if the log is in use.
abbrev pub log_bytes : Hashdb → ℕ → Bytes → Bytes → Bytes
log_bytes m operate key val =
    if m.stat == 1
    then m.binlog ++ (sec_bytes operate (length key) (length val) ++ (key ++ val))
    else m.binlog

pub load-write :
    (h : Ptr → Option Entry) (a : Ptr) (e : Entry) → a ≢ null → load (write h a (some e)) a ≡ ok e
unfolding load write
load-write h a e nn = ground arith

-- A successful write: the table stands for `f'`, the log holds `log`, and no address but `new` is
-- in use that was not.
abbrev pub Wrote : Hashdb → (Bytes → Option Bytes) → Bytes → Ptr → Code × Hashdb → Type 0
Wrote m f' log new (c, m') =
    (c ≡ hdb_ok)
    × Represents m' f'
    × (m'.binlog ≡ log)
    × (m'.size ≡ m.size)
    × (m'.stat ≡ m.stat)
    × ((a : Ptr) → m.heap.cell a ≡ none → a ≢ new → m'.heap.cell a ≡ none)

module _ {m : Hashdb} {rows : List Cells} {f : Bytes → Option Bytes} (t : Holds m rows f)
    (key val : Bytes) (type a : ℕ) (nn : a ≢ null) (fresh : m.heap.cell a ≡ none)
    (absent : f key ≡ none) where
  abbrev added : Cell
  added = record { addr = a; key = key; val = val; val_type = type }

  i : ℕ
  i = hashcode_index key m.size

  entered : Ptr → Option Entry
  entered = write m.heap.cell a (some (new_entry key val type))

  headed : Ptr → Option Entry
  headed = write entered a (some (entry_of added null (head (row t key))))

  -- The heap with the new entry in front of its chain.
  heap_after : Ptr → Option Entry
  heap_after = relink headed a (row t key)

  out : has a (row t key) ≡ false
  out = not-has_of_none _ _ _ a null (row t key) (t.chains _) fresh

  headed-Chain : Chain headed m.size i null (row t key)
  unfolding headed entered i
  headed-Chain =
      frame-write _ _ _ a _ null (row t key)
        (frame-write _ _ _ a _ null (row t key) (t.chains _) out) out

  new-Chain : Chain heap_after m.size i null (added ∷ row t key)
  unfolding heap_after i
  new-Chain = (
    nn,
    relink-outside headed m.size (hashcode_index key m.size) a (row t key) a out
        ∙ unfold headed write in ground arith,
    refl,
    out,
    t.reads key ∙ absent,
    relink-Chain headed m.size (hashcode_index key m.size) null a (row t key)
        (unfold i in headed-Chain),
  )

  keeps : Keeps m.heap.cell heap_after m.size i
  unfolding heap_after headed entered write i
  keeps b e at other = elim (Bool-cases (has b (row t key))) [
    | inl mem ↦
        let (e', at', home) = home_of_has m.heap.cell m.size _ b null _ (t.chains _) mem in
        absurd (other (ground arith))
    | inr no_mem ↦
        relink-outside _ m.size (hashcode_index key m.size) a (row t key) b no_mem ∙ ground arith
  ]

  used_eq : (m.used + 1) % 2 ^ 16 ≡ (m.heap.live + 1) % 2 ^ 16
  used_eq = omega (arith, t.used)

  link_run :
      hashdb_link (record m { heap = record { cell = entered; live = m.heap.live + 1 } }) a
      ≡ ok (with_row m i (added ∷ row t key) heap_after (m.heap.live + 1) m.binlog)
  unfolding hashdb_link set_next entered heap_after headed i
  link_run =
      rw (load-write m.heap.cell a _ nn, bucket-head t key)
        (rw (set_prev-relink headed m.size i null a (row t key) headed-Chain) (rw used_eq))

  hit :
      (k : Bytes)
      → hashcode_index k m.size ≡ i
      → lookup k (added ∷ row t key) ≡ update f key (some val) k
  unfolding lookup i
  hit k home =
      ap (λ (o : Option Bytes). if bytes_eq k key then some val else o)
        (ap (λ (j : ℕ). lookup k (get_or rows j [])) (sym home) ∙ t.reads k)

  miss : (k : Bytes) → hashcode_index k m.size ≢ i → f k ≡ update f key (some val) k
  unfolding i
  miss k other = ground (arith, eq_of_bytes_eq k key)

  spares : (b : Ptr) → m.heap.cell b ≡ none → b ≢ a → heap_after b ≡ none
  unfolding heap_after headed entered write
  spares b unused ne =
      let no_mem = not-has_of_none _ _ _ b null (row t key) (t.chains _) unused in
      relink-outside _ m.size (hashcode_index key m.size) a (row t key) b no_mem ∙ ground arith

  -- With an allocated entry and a log that can be written, the new pair is in the table.
  pub enter-Wrote :
      (env : Env)
      → env.entry ≡ a
      → env.write_ok ≡ true
      → Returns
          (enter m key val type env)
          (Wrote m (update f key (some val)) (log_bytes m 1 key val) a)
  unfolding enter entered hashdb_append_binlog
  enter-Wrote env at wr =
      let log = log_bytes m 1 key val in
      (
        (hdb_ok, with_row m i (added ∷ row t key) heap_after (m.heap.live + 1) log),
        rw (at, link_run) (ground arith),
        (
          refl,
          (
            set rows i (added ∷ row t key),
            with_row-Holds t i (added ∷ row t key) heap_after (m.heap.live + 1) log _
                (unfold i in hashcode_index-lt key m.size t.pos) new-Chain keeps
                (unfold i in omega arith) hit miss,
          ),
          refl,
          refl,
          refl,
          spares,
        ),
      )
