-- ===== src/Hashdb.antt =====
-- lib_mrt/hashdb.c and hashdb.h: the chained hash table behind the name server, on an explicit heap
-- of doubly linked entries, with the operation log that each write appends to.
-- Not modelled: `hashdb_list` and the messages to the system log. `hashdb_walk` is part of
-- `hashdb_flush_binlog` in Binlog.
pub mod Ops
pub mod Chain
pub mod Relink
pub mod Holds
pub mod Find
pub mod Enter
pub mod Insert
pub mod Unlink
pub mod Delete
pub mod Update
pub mod Create
pub mod Binlog
pub mod Replay
pub mod Recovery
pub mod Restart
pub mod Synced
pub mod Flush
pub mod Rows
pub mod Dump
use tdss.Common.{
  ℕ, zero, suc, ◌+◌, ◌/◌, ◌%◌, ◌^◌, Bool, true, false, ◌&&◌, ◌||◌, not, Option, none, some, List,
  [], ◌∷◌, ◌++◌, ltb, leb, ◌==◌, if◌then◌else◌, length, get_or, set, replicate, Bytes, bytes_eq,
}
use tdss.Hash.{hashcode_index, hashcode_create}
use tdss.Run.{Run, ok, fault, hang, exited, ◌>>=◌}

abbrev pub Ptr : Type 0
Ptr = ℕ

abbrev pub null : Ptr
null = 0

-- `hashdb_entry_t`. `key_len` and `val_len` are the lengths of `key` and `val`.
pub record Entry : Type 0 where
  pub key : Bytes
  pub val : Bytes
  pub val_type : ℕ
  pub hash_code : ℕ
  pub next : Ptr
  pub prev : Ptr

-- The entries that are allocated, by address, and how many there are. No loop over a chain makes
-- more than `live` rounds, so `live + 1` is the fuel of each.
pub record Heap : Type 0 where
  pub cell : Ptr → Option Entry
  pub live : ℕ

-- `hashdb_t`. `buckets` is the array `data`; `binlog` holds the bytes written to `bfp`.
pub record Hashdb : Type 0 where
  pub stat : ℕ
  pub size : ℕ
  pub used : ℕ
  pub idx : ℕ
  pub buckets : List Ptr
  pub heap : Heap
  pub binlog : Bytes

pub data Code : Type 0 where
  hdb_ok hdb_err_nomem hdb_key_exist hdb_key_nofound hdb_arg_inval : Code

-- What the environment answers in one operation: the address that `calloc` returns for an entry
-- (null on failure), whether the two `malloc`s and the `calloc` of a new table succeed, and whether
-- the log can be written.
pub record Env : Type 0 where
  pub entry : Ptr
  pub key_mem : Bool
  pub val_mem : Bool
  pub table_mem : Bool
  pub write_ok : Bool

abbrev pub primes : List ℕ
primes =
    433 ∷ 1201 ∷ 3469 ∷ 10093 ∷ 18253 ∷ 28813 ∷ 43201 ∷ 60493 ∷ 76801 ∷ 106033 ∷ 129793 ∷ 169933
    ∷ 209089 ∷ 245389 ∷ 280909 ∷ 326701 ∷ 397489 ∷ 534253 ∷ 596749 ∷ 685453 ∷ 762049 ∷ 842701
    ∷ 940801 ∷ 1037233 ∷ 1138369 ∷ 1267501 ∷ 1403569 ∷ 1529389 ∷ 1642801 ∷ 1769473 ∷ 1910413
    ∷ 2036929 ∷ 2229133 ∷ 2376301 ∷ 2550253 ∷ 2707501 ∷ 2892973 ∷ 3060301 ∷ 3269809 ∷ 3434701
    ∷ 3616813 ∷ 3844273 ∷ 4036801 ∷ 4234033 ∷ 4435969 ∷ 4642609 ∷ 4869229 ∷ 5101249 ∷ 5322673
    ∷ 5548801 ∷ 5779633 ∷ 6015169 ∷ 6255409 ∷ 6553453 ∷ 6858433 ∷ 7133293 ∷ 7394701 ∷ 7699213
    ∷ 7970701 ∷ 8406829 ∷ 8690413 ∷ 9103693 ∷ 9612301 ∷ 10002829 ∷ 10334209 ∷ 10693633 ∷ 11059201
    ∷ 11524801 ∷ 12120301 ∷ 12607501 ∷ 13029169 ∷ 13483201 ∷ 14022733 ∷ 14414593 ∷ 14838529
    ∷ 15431473 ∷ 15842413 ∷ 16286701 ∷ 16708801 ∷ 17222449 ∷ 17714701 ∷ 18184333 ∷ 18750001
    ∷ 19263469 ∷ 19783873 ∷ 20750701 ∷ 21258733 ∷ 21934849 ∷ 22489933 ∷ 23018701 ∷ 23654593
    ∷ 24367501 ∷ 24917773 ∷ 25579201 ∷ 26142913 ∷ 26892109 ∷ 27542701 ∷ 28237873 ∷ 28978993
    ∷ 29616493 ∷ 30337201 ∷ 31105201 ∷ 31804609 ∷ 32709613 ∷ 33627313 ∷ 34476301 ∷ 35253553
    ∷ 35997889 ∷ 36876109 ∷ 37935409 ∷ 38836813 ∷ 39879949 ∷ 40715569 ∷ 41559853 ∷ 42367693
    ∷ 43137793 ∷ 44144689 ∷ 45256369 ∷ 46146253 ∷ 47044801 ∷ 47904049 ∷ 48722701 ∷ 49645873
    ∷ 50479213 ∷ 51916801 ∷ 52869613 ∷ 54391693 ∷ 55366849 ∷ 56298673 ∷ 57238273 ∷ 58132813
    ∷ 59087533 ∷ 59996353 ∷ 61671469 ∷ 62654701 ∷ 63645709 ∷ 64755949 ∷ 65819569 ∷ 66778573
    ∷ 67744513 ∷ 69004849 ∷ 70334893 ∷ 72088813 ∷ 73092289 ∷ 74162353 ∷ 75842353 ∷ 77480173
    ∷ 78581773 ∷ 80000689 ∷ 81120001 ∷ 82435693 ∷ 83571853 ∷ 84715789 ∷ 86060209 ∷ 87220993
    ∷ 88585069 ∷ 89828353 ∷ 91278769 ∷ 92474113 ∷ 94753201 ∷ 96038893 ∷ 97401613 ∷ 98636269
    ∷ 101198593 ∷ []

unfoldable pub write : (Ptr → Option Entry) → Ptr → Option Entry → Ptr → Option Entry
write h p c a = if a == p then c else h a

-- `*p`
unfoldable pub load : (Ptr → Option Entry) → Ptr → Run Entry
load h p = if p == null then fault else elim (h p) [ none ↦ fault | some e ↦ ok e ]

-- `p->prev = q`
unfoldable pub set_prev : (Ptr → Option Entry) → Ptr → Ptr → Run (Ptr → Option Entry)
set_prev h p q = do e ← load h p; ok (write h p (some (record e { prev = q })))

-- `p->next = q`
unfoldable pub set_next : (Ptr → Option Entry) → Ptr → Ptr → Run (Ptr → Option Entry)
set_next h p q = do e ← load h p; ok (write h p (some (record e { next = q })))

-- `map->data[i]`
unfoldable pub bucket : List Ptr → ℕ → Run Ptr
bucket [] i = fault
bucket (p ∷ ps) zero = ok p
bucket (p ∷ ps) (suc i) = bucket ps i

unfoldable pub matches : Bytes → ℕ → Entry → Bool
matches key hc e = (length key == length e.key) && (hc == e.hash_code) && bytes_eq key e.key

-- The loop of `hashdb_locate`, `hashdb_find`, `hashdb_update` and `hashdb_delete`.
unfoldable pub locate_loop : ℕ → (Ptr → Option Entry) → Bytes → ℕ → Ptr → Run Ptr
locate_loop zero h key hc p = hang
locate_loop (suc fuel) h key hc p = elim (p == null) [
  | true ↦ ok null
  | false ↦ load h p >>= λ e. elim (matches key hc e) [
    | true ↦ ok p
    | false ↦ locate_loop fuel h key hc e.next
  ]
]

unfoldable pub hashdb_locate : Hashdb → Bytes → Run Ptr
hashdb_locate m key = do
  p ← bucket m.buckets (hashcode_index key m.size)
  locate_loop (m.heap.live + 1) m.heap.cell key (hashcode_create key) p

-- The second result is the entry whose `val` is handed out.
unfoldable pub hashdb_find : Hashdb → Bytes → Run (Code × Ptr)
hashdb_find m key =
    if length key == 0
    then ok (hdb_arg_inval, null)
    else (hashdb_locate m key >>= λ p.
        ok (if p == null then (hdb_key_nofound, null) else (hdb_ok, p)))

unfoldable pub hashdb_link : Hashdb → Ptr → Run Hashdb
hashdb_link m elm = do
  e ← load m.heap.cell elm
  let i = hashcode_index e.key m.size
  head ← bucket m.buckets i
  h ← set_next m.heap.cell elm head
  h ← if head == null then ok h else set_prev h head elm
  ok (record m {
    heap = record { cell = h; live = m.heap.live };
    buckets = set m.buckets i elm;
    used = (m.used + 1) % 2 ^ 16;
  })

-- `map->data` is assigned before the test for failure.
unfoldable pub hashdb_size : Hashdb → ℕ → Bool → Hashdb × Bool
hashdb_size m size mem =
    if mem
    then (record m { buckets = replicate size null; size = size; used = 0 }, true)
    else (record m { buckets = [] }, false)

-- `hashdb_create`: the index of the first prime above `size`, which may be past the last one.
unfoldable pub prime_index : List ℕ → ℕ → ℕ
prime_index [] size = 0
prime_index (p ∷ ps) size = if ltb size p then 0 else prime_index ps size + 1

abbrev pub blank : Hashdb
blank = record {
  stat = 0;
  size = 0;
  used = 0;
  idx = 0;
  buckets = [];
  heap = record { cell = λ _. none; live = 0 };
  binlog = [];
}

unfoldable pub hashdb_create : ℕ → Env → Option Hashdb
hashdb_create size env =
    let idx = prime_index primes size in
    let (m, made) = hashdb_size (record blank { idx = idx }) (get_or primes idx 0) env.table_mem in
    if leb (length primes) idx || not made then none else some m

move_chain : ℕ → Hashdb → Ptr → Run Hashdb
move_chain zero m p = hang
move_chain (suc fuel) m p = elim (p == null) [
  | true ↦ ok m
  | false ↦ load m.heap.cell p >>= λ e. hashdb_link m p >>= λ m'. move_chain fuel m' e.next
]

move_all : List Ptr → Hashdb → Run Hashdb
move_all [] m = ok m
move_all (p ∷ ps) m = move_chain (m.heap.live + 1) m p >>= λ m'. move_all ps m'

-- `++map->idx` past the last prime reads outside the array.
unfoldable pub hashdb_grow : Hashdb → Env → Run (Hashdb × Bool)
unfolding move_chain move_all
hashdb_grow m env =
    let idx = (m.idx + 1) % 2 ^ 8 in
    if leb (length primes) idx
    then fault
    else let (m', made) =
        hashdb_size (record m { idx = idx }) (get_or primes idx 0) env.table_mem in
      if made then (move_all m.buckets m' >>= λ r. ok (r, true)) else ok (m', false)

-- `hashdb_sec_t`: a byte, a byte of padding and two little-endian 16-bit numbers.
unfoldable pub sec_bytes : ℕ → ℕ → ℕ → Bytes
sec_bytes type klen vlen =
    type ∷ 0 ∷ (klen % 256) ∷ (klen / 256 % 256) ∷ (vlen % 256) ∷ (vlen / 256 % 256) ∷ []

unfoldable pub hashdb_append_binlog : Hashdb → ℕ → Bytes → Bytes → Env → Run Hashdb
hashdb_append_binlog m operate key val env =
    if operate == 0 || ltb 3 operate
    then ok m
    else if env.write_ok
    then ok (record m {
      binlog = m.binlog ++ (sec_bytes operate (length key) (length val) ++ (key ++ val));
    })
    else exited

abbrev pub log_if_started : Hashdb → ℕ → Bytes → Bytes → Env → Run Hashdb
log_if_started m operate key val env =
    if m.stat == 1 then hashdb_append_binlog m operate key val env else ok m
