-- ===== src/Hashdb/Delete.antt =====
-- `hashdb_delete` of lib_mrt/hashdb.c, on every branch.
use tdss.Common.{
  ℕ, ◌+◌, ◌-◌, ◌%◌, ◌^◌, ◌≡◌, refl, sym, ◌∙◌, ap, ◌≢◌, inl, inr, true, false, Option, none, some,
  List, [], arith, ◌==◌, Bool-cases, Option-cases, length, get_or, set, set-get_or_self,
  length-get_or-le, if◌then◌else◌, Bytes, bytes_eq, eq_of_bytes_eq,
}
use tdss.Hash.{hashcode_index, hashcode_index-lt}
use tdss.Hashdb.{Ptr, null, Entry, Hashdb, Code, hdb_ok, hdb_key_nofound, Env, hashdb_append_binlog}
use tdss.Hashdb.Chain.{
  Cells, head, has, lookup, find_addr, find_addr-some, home_of_has, not-has_of_none,
}
use tdss.Hashdb.Enter.{update, log_bytes, Wrote}
use tdss.Hashdb.Find.{not_null, nonempty, locate_none}
use tdss.Hashdb.Holds.{
  Holds, Represents, row, Keeps, with_row, with_row-Holds, hashdb_locate-find_addr,
}
use tdss.Hashdb.Ops.{unlink, hashdb_delete}
use tdss.Hashdb.Unlink.{erase, lookup-erase, length-erase, unlink_entry-erase, HeadAfter}
use tdss.Run.{Returns, ok}

module _ {m : Hashdb} {rows : List Cells} {f : Bytes → Option Bytes} (t : Holds m rows f)
    (key : Bytes) {v : Bytes} (found : f key ≡ some v) where
  there : lookup key (row t key) ≡ some v
  there = t.reads key ∙ found

  abbrev left : Cells
  left = erase key (row t key)

  buckets_after :
      (e : Entry)
      → HeadAfter m.heap.cell m.size (hashcode_index key m.size) key e (row t key)
      → (if e.prev == null then set m.buckets (hashcode_index key m.size) e.next else m.buckets)
        ≡ set m.buckets (hashcode_index key m.size) (head left)
  buckets_after e (inl (first, next)) = rw (first, next)
  buckets_after e (inr (inner, same)) =
      rw (not_null inner, ← same, ← t.heads (hashcode_index key m.size))
        (sym (set-get_or_self m.buckets (hashcode_index key m.size) null))

  used_after : (m.used + 2 ^ 16 - 1) % 2 ^ 16 ≡ (m.heap.live - 1) % 2 ^ 16
  used_after = omega (
    arith,
    t.used,
    t.live,
    length-get_or-le rows (hashcode_index key m.size),
    length-erase key (row t key) {v = v} there,
  )

  live_after : m.heap.live - 1 + length (row t key) ≡ m.heap.live + length left
  live_after = omega (
    arith,
    t.live,
    length-get_or-le rows (hashcode_index key m.size),
    length-erase key (row t key) {v = v} there,
  )

  hit :
      (k : Bytes)
      → hashcode_index k m.size ≡ hashcode_index key m.size
      → lookup k left ≡ update f key none k
  hit k home =
      lookup-erase m.heap.cell m.size _ key k null (row t key) (t.chains _)
      ∙ ap (λ (o : Option Bytes). if bytes_eq k key then none else o)
          (ap (λ (j : ℕ). lookup k (get_or rows j [])) (sym home) ∙ t.reads k)

  miss :
      (k : Bytes) → hashcode_index k m.size ≢ hashcode_index key m.size → f k ≡ update f key none k
  miss k other = ground (arith, eq_of_bytes_eq k key)

  keeps :
      (g : Ptr → Option Entry)
      → ((a : Ptr) → has a (row t key) ≡ false → g a ≡ m.heap.cell a)
      → Keeps m.heap.cell g m.size (hashcode_index key m.size)
  keeps g outside b e at other = elim (Bool-cases (has b (row t key))) [
    | inl mem ↦
        let (e', at', home) = home_of_has m.heap.cell m.size _ b null _ (t.chains _) mem in
        absurd (other (ground arith))
    | inr no_mem ↦ outside b no_mem
  ]

  -- The entry is unlinked, and the table stands for the map without the key.
  pub unlink-Holds :
      (g : Ptr → Option Entry) × (unlink m (hashcode_index key m.size) (find_addr key (row t key))
        ≡ ok (
            with_row m
              (hashcode_index key m.size)
              (erase key (row t key))
              g
              (m.heap.live - 1)
              m.binlog))
      × ((log : Bytes)
          → Represents
              (with_row m
                (hashcode_index key m.size)
                (erase key (row t key))
                g
                (m.heap.live - 1)
                log)
              (update f key none))
      × ((a : Ptr) → m.heap.cell a ≡ none → g a ≡ none)
  unfolding unlink
  unlink-Holds =
      let (e, g, at, cut, chain, outside, after) =
        unlink_entry-erase m.heap.cell m.size _ key (row t key) {v = v} (t.chains _) there in
      (
        g,
        rw (at, cut, buckets_after e after, used_after) refl,
        λ log. (
          set rows (hashcode_index key m.size) left,
          with_row-Holds t _ left g (m.heap.live - 1) log _ (hashcode_index-lt key m.size t.pos)
              chain (keeps g outside) live_after hit miss,
        ),
        λ a unused.
            outside a (not-has_of_none _ _ _ a null (row t key) (t.chains _) unused) ∙ unused,
      )

-- The outcome of a deletion, by what the map holds under the key.
abbrev pub Deleted : Hashdb → (Bytes → Option Bytes) → Bytes → Option Bytes → Code × Hashdb → Type 0
Deleted m f key none r = r ≡ (hdb_key_nofound, m)
Deleted m f key (some old) r = Wrote m (update f key none) (log_bytes m 1 key []) null r

-- For a key that is not empty, in a table that stands for a map, with a log that can be written:
-- `hashdb_delete` ends without a fault; it takes the key out and leaves every other key, or says
-- that it is not there and changes nothing. In the first case a log in use gets a record of type 1
-- that has no value.
pub hashdb_delete-Deleted :
    {m : Hashdb} {f : Bytes → Option Bytes} (key : Bytes) (env : Env)
    → Represents m f
    → key ≢ []
    → env.write_ok ≡ true
    → Returns (hashdb_delete m key env) (Deleted m f key (f key))
unfolding hashdb_delete hashdb_append_binlog
hashdb_delete-Deleted {m} {f} key env (rows, t) k wr = elim (Option-cases (f key)) [
  | inl e ↦
      rw (e, nonempty key k, locate_none {f = f} key (rows, t) e) ((hdb_key_nofound, m), refl, refl)
  | inr (old, e) ↦
      let nn =
        find_addr-some m.heap.cell m.size _ key old null (row t key) (t.chains _)
          (there t key {v = old} e) in
      let (g, cut, holds, spares) = unlink-Holds t key {v = old} e in
      let log = log_bytes m 1 key [] in
      rw (e, nonempty key k, hashdb_locate-find_addr t key)
        (rw (not_null nn.0, cut)
          (
            (
              hdb_ok,
              with_row m (hashcode_index key m.size) (erase key (row t key)) g (m.heap.live - 1)
                  log,
            ),
            ground arith,
            (refl, holds log, refl, refl, refl, λ a unused _. spares a unused),
          ))
]
