-- ===== src/Hashdb/Update.antt =====
-- `hashdb_update` of lib_mrt/hashdb.c, on every branch.
use tdss.Common.{
  ℕ, ◌≡◌, refl, sym, ◌∙◌, ap, ◌≢◌, inl, inr, true, false, Option, none, some, List, [], ◌∷◌, arith,
  Bool-cases, Option-cases, length, get_or, set, set-get_or_self, if◌then◌else◌, Bytes, bytes_eq,
  eq_of_bytes_eq,
}
use tdss.Hash.{hashcode_index, hashcode_index-lt}
use tdss.Hashdb.{
  Ptr, null, Entry, Hashdb, Code, hdb_ok, hdb_key_nofound, Env, write, hashdb_append_binlog,
}
use tdss.Hashdb.Chain.{
  Cells, head, entry_of, has, lookup, find_addr, find_addr-some, Chain, frame-write, home_of_has,
}
use tdss.Hashdb.Enter.{update, log_bytes, Wrote}
use tdss.Hashdb.Find.{not_null, nonempty, locate_none}
use tdss.Hashdb.Holds.{
  Holds, Represents, row, Keeps, with_row, with_row-Holds, hashdb_locate-find_addr,
}
use tdss.Hashdb.Unlink.{load_at}
use tdss.Hashdb.Ops.{set_val, hashdb_update}
use tdss.Run.{Returns, ok}

-- The first cell with the key gets the value `v`.
unfoldable pub assign : Bytes → Bytes → Cells → Cells
assign key v [] = []
assign key v (c ∷ xs) =
    if bytes_eq key c.key then record c { val = v } ∷ xs else c ∷ assign key v xs

has-assign : (a : Ptr) (key v : Bytes) (xs : Cells) → has a (assign key v xs) ≡ has a xs
unfolding assign
has-assign a key v [] = refl
has-assign a key v (c ∷ xs) = ground (arith, has-assign a key v xs)

head-assign : (key v : Bytes) (xs : Cells) → head (assign key v xs) ≡ head xs
unfolding assign
head-assign key v [] = refl
head-assign key v (c ∷ xs) = ground arith

length-assign : (key v : Bytes) (xs : Cells) → length (assign key v xs) ≡ length xs
unfolding assign
length-assign key v [] = refl
length-assign key v (c ∷ xs) = ground (arith, length-assign key v xs)

lookup-assign :
    (k key v : Bytes) (xs : Cells) {old : Bytes}
    → lookup key xs ≡ some old
    → lookup k (assign key v xs) ≡ (if bytes_eq k key then some v else lookup k xs)
unfolding lookup assign
lookup-assign k key v [] {old} e = cc
lookup-assign k key v (c ∷ xs) {old} e = ground (
  arith,
  lookup-assign k key v xs {old = old},
  eq_of_bytes_eq k key,
  eq_of_bytes_eq key c.key,
  eq_of_bytes_eq k c.key,
)

lookup-assign-none :
    (k key v : Bytes) (xs : Cells) → lookup k xs ≡ none → lookup k (assign key v xs) ≡ none
unfolding lookup assign
lookup-assign-none k key v [] e = refl
lookup-assign-none k key v (c ∷ xs) e = ground (arith, lookup-assign-none k key v xs)

write_self :
    (h : Ptr → Option Entry) (a : Ptr) (e e' : Entry) (v : Bytes)
    → h a ≡ some e
    → h a ≡ some e'
    → write h a (some (record e { val = v })) a ≡ some (record e' { val = v })
unfolding write
write_self h a e e' v at at' = ground arith

write_other : (h : Ptr → Option Entry) (a b : Ptr) (o : Option Entry) → b ≢ a → write h a o b ≡ h b
unfolding write
write_other h a b o ne = ground arith

spares_write :
    (h : Ptr → Option Entry) (a b : Ptr) (e e' : Entry)
    → h a ≡ some e
    → h b ≡ none
    → write h a (some e') b ≡ none
unfolding write
spares_write h a b e e' at unused = ground arith

ne_of_has : (a b : Ptr) (xs : Cells) → has a xs ≡ true → has b xs ≡ false → b ≢ a
ne_of_has a b xs mem out e = cc (ap (λ (x : Ptr). has x xs) e)

has-find_addr :
    (key : Bytes) (xs : Cells) → find_addr key xs ≢ null → has (find_addr key xs) xs ≡ true
unfolding find_addr
has-find_addr key [] nn = absurd (nn refl)
has-find_addr key (c ∷ xs) nn = ground (arith, has-find_addr key xs)

module _ (h : Ptr → Option Entry) (size i : ℕ) (key v : Bytes) where
  set_val-Chain :
      (prev : Ptr) (xs : Cells) (e : Entry)
      → Chain h size i prev xs
      → h (find_addr key xs) ≡ some e
      → find_addr key xs ≢ null
      → Chain
          (write h (find_addr key xs) (some (record e { val = v })))
          size
          i
          prev
          (assign key v xs)
  unfolding assign find_addr
  set_val-Chain prev [] e t at nn = absurd (nn refl)
  set_val-Chain prev (c ∷ xs) e t at nn = elim (Bool-cases (bytes_eq key c.key)) [
    | inl same ↦
        let at' : h c.addr ≡ some e = rw same at at in
        rw same (
          t.0,
          write_self h c.addr e (entry_of c prev (head xs)) v at' t.1,
          t.2,
          t.3,
          t.4,
          frame-write h size i c.addr _ c.addr xs t.5 t.3,
        )
    | inr other ↦
        let at' : h (find_addr key xs) ≡ some e = rw other at at in
        let nn' : find_addr key xs ≢ null = rw other at nn in
        let mem = has-find_addr key xs nn' in
        rw other (
          t.0,
          write_other h (find_addr key xs) c.addr _ (ne_of_has _ c.addr xs mem t.3)
              ∙ t.1
              ∙ ap (λ (p : Ptr). some (entry_of c prev p)) (sym (head-assign key v xs)),
          t.2,
          has-assign c.addr key v xs ∙ t.3,
          lookup-assign-none c.key key v xs t.4,
          set_val-Chain c.addr xs e t.5 at' nn',
        )
  ]

module _ {m : Hashdb} {rows : List Cells} {f : Bytes → Option Bytes} (t : Holds m rows f)
    (key val : Bytes) {old : Bytes} (found : f key ≡ some old) where
  there : lookup key (row t key) ≡ some old
  there = t.reads key ∙ found

  keeps :
      (e : Entry)
      → find_addr key (row t key) ≢ null
      → Keeps m.heap.cell
          (write m.heap.cell (find_addr key (row t key)) (some e))
          m.size
          (hashcode_index key m.size)
  keeps e nn b eb at other =
      write_other m.heap.cell (find_addr key (row t key)) b _
        (λ (q : b ≡ find_addr key (row t key)).
          let (e', at', home) =
            home_of_has m.heap.cell m.size _ (find_addr key (row t key)) null (row t key)
              (t.chains _) (has-find_addr key (row t key) nn) in
          let same : eb ≡ e' = ground (arith, q) in
          other (ap (λ (x : Entry). hashcode_index x.key m.size) same ∙ home))

  -- The value is replaced, and the table stands for the map with the new value.
  pub set_val-Holds :
      (p : Ptr) × (p ≢ null)
      × (find_addr key (row t key) ≡ p)
      × (g : Ptr → Option Entry) × (set_val m p val
          ≡ ok (
              with_row m
                (hashcode_index key m.size)
                (assign key val (row t key))
                g
                m.heap.live
                m.binlog))
      × ((log : Bytes)
          → Represents
              (with_row m
                (hashcode_index key m.size)
                (assign key val (row t key))
                g
                m.heap.live
                log)
              (update f key (some val)))
      × ((a : Ptr) → m.heap.cell a ≡ none → g a ≡ none)
  unfolding set_val
  set_val-Holds =
      let i = hashcode_index key m.size in
      let (nn, e, at, _, _) =
        find_addr-some m.heap.cell m.size i key old null (row t key) (t.chains _) there in
      let g = write m.heap.cell (find_addr key (row t key)) (some (record e { val = val })) in
      (
        find_addr key (row t key),
        nn,
        refl,
        g,
        rw (
          load_at m.heap.cell _ e nn at,
          head-assign key val (row t key),
          ← t.heads i,
          set-get_or_self m.buckets i null,
          ← t.used,
        ),
        λ log. (
          set rows i (assign key val (row t key)),
          with_row-Holds t i (assign key val (row t key)) g m.heap.live log _
              (hashcode_index-lt key m.size t.pos)
              (set_val-Chain m.heap.cell m.size i key val null (row t key) e (t.chains _) at nn)
              (keeps _ nn) (omega (arith, length-assign key val (row t key)))
              (λ k home.
                lookup-assign k key val (row t key) {old = old} there
                ∙ ap (λ (o : Option Bytes). if bytes_eq k key then some val else o)
                    (ap (λ (j : ℕ). lookup k (get_or rows j [])) (sym home) ∙ t.reads k))
              (λ k other. ground (arith, eq_of_bytes_eq k key)),
        ),
        λ a unused. spares_write m.heap.cell (find_addr key (row t key)) a e _ at unused,
      )

-- The outcome of an update, by what the map holds under the key.
abbrev pub Updated :
    Hashdb → (Bytes → Option Bytes) → Bytes → Bytes → Option Bytes → Code × Hashdb → Type 0
Updated m f key val none r = r ≡ (hdb_key_nofound, m)
Updated m f key val (some old) r = Wrote m (update f key (some val)) (log_bytes m 2 key val) null r

-- For a key and a value that are not empty, in a table that stands for a map, with memory and a log
-- that can be written: `hashdb_update` ends without a fault; it replaces the value of a key that is
-- there and leaves every other key, or says that it is not there and changes nothing. In the first
-- case a log in use gets a record of type 2.
pub hashdb_update-Updated :
    {m : Hashdb} {f : Bytes → Option Bytes} (key val : Bytes) (env : Env)
    → Represents m f
    → key ≢ []
    → val ≢ []
    → env.val_mem ≡ true
    → env.write_ok ≡ true
    → Returns (hashdb_update m key val env) (Updated m f key val (f key))
unfolding hashdb_update hashdb_append_binlog
hashdb_update-Updated {m} {f} key val env (rows, t) k v vm wr = elim (Option-cases (f key)) [
  | inl e ↦
      rw (e, nonempty key k, nonempty val v, locate_none {f = f} key (rows, t) e)
        ((hdb_key_nofound, m), refl, refl)
  | inr (old, e) ↦
      let (p, nn, same, g, run, holds, spares) = set_val-Holds t key val {old = old} e in
      let i = hashcode_index key m.size in
      let log = log_bytes m 2 key val in
      rw (e, nonempty key k, nonempty val v, hashdb_locate-find_addr t key, same)
        (rw (not_null nn, run)
          (simp vm (
            (hdb_ok, with_row m i (assign key val (row t key)) g m.heap.live log),
            ground arith,
            (refl, holds log, refl, refl, refl, λ a unused _. spares a unused),
          )))
]
