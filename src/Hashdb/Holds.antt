-- ===== src/Hashdb/Holds.antt =====
-- The invariant of lib_mrt/hashdb.c, and the partial map that a table stands for.
use mathlib.Core.List.{flatten}
use tdss.Common.{
  ℕ, zero, suc, ◌+◌, ◌%◌, ◌^◌, ◌<◌, ◌≡◌, refl, sym, ◌∙◌, ap, ◌≢◌, inl, inr, Option, some, List, [],
  ◌∷◌, arith, ◌==◌, ==_iff, Bool-cases, length, get_or, set, length-set, get_or-set_self,
  get_or-set_ne, length-flatten-set, length-get_or-le, Bytes,
}
use tdss.Hash.{hashcode_index, hashcode_index-lt}
use tdss.Hashdb.{Ptr, null, Entry, Hashdb, bucket, hashdb_locate}
use tdss.Hashdb.Chain.{
  Cells, head, Chain, find_addr, lookup, frame, home_of_has, locate_loop-find_addr,
}
use tdss.Run.{ok}

-- `rows` are the chains of `m`, bucket by bucket, and together they hold the map `f`.
pub record Holds (m : Hashdb) (rows : List Cells) (f : Bytes → Option Bytes) : Type 0 where
  pub pos : 0 < m.size
  pub width : length m.buckets ≡ m.size
  pub height : length rows ≡ m.size
  pub heads : (i : ℕ) → get_or m.buckets i null ≡ head (get_or rows i [])
  pub chains : (i : ℕ) → Chain m.heap.cell m.size i null (get_or rows i [])
  pub live : m.heap.live ≡ length (flatten rows)
  pub used : m.used ≡ m.heap.live % 2 ^ 16
  pub reads : (k : Bytes) → lookup k (get_or rows (hashcode_index k m.size) []) ≡ f k

-- The table stands for the map `f`.
abbrev pub Represents : Hashdb → (Bytes → Option Bytes) → Type 0
Represents m f = (rows : List Cells) × Holds m rows f

pub bucket-get_or : (ps : List Ptr) (i : ℕ) → i < length ps → bucket ps i ≡ ok (get_or ps i null)
unfolding bucket
bucket-get_or [] i h = absurd (omega arith)
bucket-get_or (p ∷ ps) zero h = refl
bucket-get_or (p ∷ ps) (suc i) h = bucket-get_or ps i (omega arith)

module _ {m : Hashdb} {rows : List Cells} {f : Bytes → Option Bytes} (t : Holds m rows f) where
  abbrev pub row : Bytes → Cells
  row k = get_or rows (hashcode_index k m.size) []

  pub home-lt : (k : Bytes) → hashcode_index k m.size < length m.buckets
  home-lt k = omega (arith, hashcode_index-lt k m.size t.pos, t.width)

  pub bucket-head : (k : Bytes) → bucket m.buckets (hashcode_index k m.size) ≡ ok (head (row k))
  bucket-head k = bucket-get_or m.buckets _ (home-lt k) ∙ ap ok (t.heads (hashcode_index k m.size))

  pub length-row-lt : (i : ℕ) → length (get_or rows i []) < m.heap.live + 1
  length-row-lt i = omega (arith, length-get_or-le rows i, t.live)

  -- `hashdb_locate` ends, without a fault, at the entry with the key.
  pub hashdb_locate-find_addr : (k : Bytes) → hashdb_locate m k ≡ ok (find_addr k (row k))
  unfolding hashdb_locate
  hashdb_locate-find_addr k = rw (bucket-head k) (
      locate_loop-find_addr m.heap.cell m.size (hashcode_index k m.size) (m.heap.live + 1) k null
        (row k) (t.chains (hashcode_index k m.size)) (length-row-lt (hashcode_index k m.size)))

-- `g` leaves alone every entry whose key belongs to another bucket than `i`.
abbrev pub Keeps : (h g : Ptr → Option Entry) → ℕ → ℕ → Type 0
Keeps h g size i = (a : Ptr) (e : Entry) → h a ≡ some e → hashcode_index e.key size ≢ i → g a ≡ h a

-- The table with chain `i` replaced.
abbrev pub with_row : Hashdb → ℕ → Cells → (Ptr → Option Entry) → ℕ → Bytes → Hashdb
with_row m i ys g live log = record m {
  heap = record { cell = g; live = live };
  buckets = set m.buckets i (head ys);
  used = live % 2 ^ 16;
  binlog = log;
}

module _ {m : Hashdb} {rows : List Cells} {f : Bytes → Option Bytes} (t : Holds m rows f) where
  chains-set :
      (i : ℕ) (ys : Cells) (g : Ptr → Option Entry)
      → i < m.size
      → Chain g m.size i null ys
      → Keeps m.heap.cell g m.size i
      → (j : ℕ) → Chain g m.size j null (get_or (set rows i ys) j [])
  chains-set i ys g lt c keeps j = elim (Bool-cases (i == j)) [
    | inl e ↦
        let same : i ≡ j = (==_iff i j).0 e in
        rw (← same, get_or-set_self rows i ys [] (omega (arith, t.height))) c
    | inr e ↦
        let other : i ≢ j = ground arith in
        rw (get_or-set_ne rows i j ys [] other) (
          frame m.heap.cell m.size j g null (get_or rows j []) (t.chains j) λ a mem.
            let (e, at, home) = home_of_has m.heap.cell m.size j a null _ (t.chains j) mem in
            keeps a e at (λ (q : hashcode_index e.key m.size ≡ i). other (sym q ∙ home)))
  ]

  -- Every write to a table replaces one chain.
  pub with_row-Holds :
      (i : ℕ) (ys : Cells) (g : Ptr → Option Entry) (live : ℕ) (log : Bytes)
      (f' : Bytes → Option Bytes)
      → i < m.size
      → Chain g m.size i null ys
      → Keeps m.heap.cell g m.size i
      → live + length (get_or rows i []) ≡ m.heap.live + length ys
      → ((k : Bytes) → hashcode_index k m.size ≡ i → lookup k ys ≡ f' k)
      → ((k : Bytes) → hashcode_index k m.size ≢ i → f k ≡ f' k)
      → Holds (with_row m i ys g live log) (set rows i ys) f'
  with_row-Holds i ys g live log f' lt c keeps count hit miss = record {
    pos = t.pos;
    width = length-set m.buckets i (head ys) ∙ t.width;
    height = length-set rows i ys ∙ t.height;
    heads = λ j. elim (Bool-cases (i == j)) [
      | inl e ↦
          let same : i ≡ j = (==_iff i j).0 e in
          rw (
            ← same,
            get_or-set_self rows i ys [] (omega (arith, t.height)),
            get_or-set_self m.buckets i (head ys) null (omega (arith, t.width)),
          )
      | inr e ↦
          let other : i ≢ j = ground arith in
          rw (get_or-set_ne rows i j ys [] other, get_or-set_ne m.buckets i j (head ys) null other)
            (t.heads j)
    ];
    chains = chains-set i ys g lt c keeps;
    live = omega (arith, length-flatten-set rows i ys (omega (arith, t.height)), count, t.live);
    used = refl;
    reads = λ k. elim (Bool-cases (i == hashcode_index k m.size)) [
      | inl e ↦
          let same : i ≡ hashcode_index k m.size = (==_iff _ _).0 e in
          rw (← same, get_or-set_self rows i ys [] (omega (arith, t.height))) (hit k (sym same))
      | inr e ↦
          let other : i ≢ hashcode_index k m.size = ground arith in
          rw (get_or-set_ne rows i _ ys [] other) (t.reads k ∙ miss k (λ q. other (sym q)))
    ];
  }
