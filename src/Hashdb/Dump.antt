-- ===== src/Hashdb/Dump.antt =====
-- A start of lib_mrt/hashdb.c from the log that `hashdb_flush_binlog` writes.
use mathlib.Core.List.{flatten, append-nil}
use mathlib.Core.Path.{subst, fun_ext}
use tdss.Common.{
  ℕ, suc, ◌+◌, ◌<◌, ◌^◌, ◌≡◌, refl, sym, ◌∙◌, ap, ◌≢◌, inl, inr, true, false, Bool, Bool-cases,
  Option, none, some, List, [], ◌∷◌, arith, ◌==◌, if◌then◌else◌, length, get_or, Bytes, bytes_eq,
  bytes_eq_refl, bytes_eq_symm, ◌⊎◌, ◌&&◌,
}
use tdss.Hash.{hashcode_index}
use tdss.Hashdb.{Ptr, null, Hashdb, Env}
use tdss.Hashdb.Binlog.{
  FlushEnv, flushed, kept, log_lost, flush_all, hashdb_flush_binlog, hashdb_init,
}
use tdss.Hashdb.Chain.{Cell, Cells, Chain, lookup, lookup-other}
use tdss.Hashdb.Enter.{update}
use tdss.Hashdb.Flush.{records_of, Unfailing, flush_all-log_of, flush_all-ends}
use tdss.Hashdb.Holds.{Holds, Represents, length-row-lt}
use tdss.Hashdb.Rows.{Distinct, or_else, Rows, lookup-flatten, flatten-Distinct}
use tdss.Hashdb.Recovery.{no_skip}
use tdss.Hashdb.Replay.{log_of, AllFit, recover, recover_all}
use tdss.Hashdb.Restart.{nothing, Memory, hashdb_init-recover_all}
use tdss.Run.{ok}

-- The map has none of the keys.
abbrev Fresh : (Bytes → Option Bytes) → Cells → Type 0
Fresh g [] = Unit
Fresh g (c ∷ xs) = (g c.key ≡ none) × Fresh g xs

-- The values are not empty.
abbrev Filled : Cells → Type 0
Filled [] = Unit
Filled (c ∷ xs) = (c.val ≢ []) × Filled xs

-- What the cells hold, and what the map holds under the other keys.
abbrev over : Cells → (Bytes → Option Bytes) → Bytes → Option Bytes
over xs g k = or_else (lookup k xs) (g k)

some-not_none : {v : Bytes} → some v ≡ none → ⊥
some-not_none e = cc

found :
    (v key k : Bytes) (rest : Option Bytes)
    → bytes_eq key k ≡ true
    → (if bytes_eq key k then some v else rest) ≡ some v
found v key k rest e = rw e refl

lookup_miss :
    (key : Bytes) (c : Cell) (xs : Cells)
    → lookup key (c ∷ xs) ≡ none
    → (bytes_eq key c.key ≡ false) × (lookup key xs ≡ none)
unfolding lookup
lookup_miss key c xs e = elim (Bool-cases (bytes_eq key c.key)) [
  | inl same ↦ absurd (some-not_none (sym (found c.val key c.key _ same) ∙ e))
  | inr other ↦ (other, rw other at e)
]

Fresh-update :
    (g : Bytes → Option Bytes) (key v : Bytes) (xs : Cells)
    → Fresh g xs
    → lookup key xs ≡ none
    → Fresh (update g key (some v)) xs
Fresh-update g key v [] fresh e = tt
Fresh-update g key v (c ∷ xs) (new, fresh) e =
    let (other, rest) = lookup_miss key c xs e in
    (rw (bytes_eq_symm c.key key ∙ other) new, Fresh-update g key v xs fresh rest)

long : (n : ℕ) → (suc n == 0) ≡ false
long n = ground arith

recover_new :
    (g : Bytes → Option Bytes) (key val : Bytes)
    → val ≢ []
    → g key ≡ none
    → recover g (record { type = 1; key = key; val = val }) ≡ update g key (some val)
unfolding recover
recover_new g key [] ne e = absurd (ne refl)
recover_new g key (v ∷ val) ne e = rw (e, long (length val)) refl

swap :
    (b : Bool) (o x : Option Bytes) (v : Bytes)
    → (b ≡ true → o ≡ none)
    → or_else o (if b then some v else x) ≡ or_else (if b then some v else o) x
swap true o x v h = ap (λ (p : Option Bytes). or_else p (some v)) (h refl)
swap false o x v h = refl

over_step :
    (c : Cell) (xs : Cells) (g : Bytes → Option Bytes) (k : Bytes)
    → lookup c.key xs ≡ none
    → over xs (update g c.key (some c.val)) k ≡ over (c ∷ xs) g k
unfolding lookup
over_step c xs g k once =
    swap (bytes_eq k c.key) (lookup k xs) (g k) c.val (λ same. lookup-other k c.key xs same ∙ once)

pub recover_all-over :
    (xs : Cells) (g : Bytes → Option Bytes) (k : Bytes)
    → Distinct xs
    → Fresh g xs
    → Filled xs
    → recover_all g (records_of xs) k ≡ over xs g k
unfolding lookup
recover_all-over [] g k distinct fresh filled = refl
recover_all-over (c ∷ xs) g k (once, distinct) (new, fresh) (ne, filled) =
    ap (λ (h : Bytes → Option Bytes). recover_all h (records_of xs) k)
      (recover_new g c.key c.val ne new)
    ∙ recover_all-over xs (update g c.key (some c.val)) k distinct
        (Fresh-update g c.key c.val xs fresh once) filled
    ∙ over_step c xs g k once

-- Keys and values of the map are not empty, and their lengths fit 16 bits.
abbrev pub Small : (Bytes → Option Bytes) → Type 0
Small f =
    (k v : Bytes) → f k ≡ some v → (k ≢ []) × (length k < 2 ^ 16) × (v ≢ []) × (length v < 2 ^ 16)

lookup_more :
    (k v : Bytes) (c : Cell) (xs : Cells)
    → lookup c.key xs ≡ none
    → lookup k xs ≡ some v
    → lookup k (c ∷ xs) ≡ some v
unfolding lookup
lookup_more k v c xs once e = elim (Bool-cases (bytes_eq k c.key)) [
  | inl same ↦ absurd (some-not_none (sym e ∙ lookup-other k c.key xs same ∙ once))
  | inr other ↦ rw other e
]

lookup_first : (c : Cell) (xs : Cells) → lookup c.key (c ∷ xs) ≡ some c.val
unfolding lookup
lookup_first c xs = rw (bytes_eq_refl c.key) refl

records_of-AllFit :
    (f : Bytes → Option Bytes) (xs : Cells)
    → Small f
    → Distinct xs
    → ((k v : Bytes) → lookup k xs ≡ some v → f k ≡ some v)
    → AllFit (records_of xs) × Filled xs
records_of-AllFit f [] small distinct holds = (tt, tt)
records_of-AllFit f (c ∷ xs) small (once, distinct) holds =
    let (ne, short, ne', short') = small c.key c.val (holds c.key c.val (lookup_first c xs)) in
    let (fits, filled) =
      records_of-AllFit f xs small distinct (λ k v e. holds k v (lookup_more k v c xs once e)) in
    (((ne, short, short'), fits), (ne', filled))

nothing-Fresh : (xs : Cells) → Fresh nothing xs
nothing-Fresh [] = tt
nothing-Fresh (c ∷ xs) = (refl, nothing-Fresh xs)

or_nothing : (o : Option Bytes) → or_else o none ≡ o
or_nothing none = refl
or_nothing (some v) = refl

zero_add : (i : ℕ) → i ≡ 0 + i
zero_add i = omega arith

module _ {m : Hashdb} {rows : List Cells} {f : Bytes → Option Bytes} (t : Holds m rows f) where
  from_zero : Rows m.heap.cell m.size 0 rows
  from_zero i =
      subst (λ n. Chain m.heap.cell m.size n null (get_or rows i [])) (zero_add i) (t.chains i)

  reads_all : (k : Bytes) → lookup k (flatten rows) ≡ f k
  reads_all k =
      lookup-flatten m.heap.cell m.size 0 (hashcode_index k m.size) k rows from_zero (omega arith)
      ∙ t.reads k

  writes_all :
      (failed : Ptr → ℕ → Option ℕ)
      → Unfailing failed
      → flush_all failed m.buckets m [] ≡ ok (log_of (records_of (flatten rows)))
  writes_all failed fine =
      flush_all-log_of failed m m.buckets rows [] (t.width ∙ sym t.height) t.heads
        (λ i. (i, t.chains i)) (length-row-lt t) fine

  walks_all :
      (failed : Ptr → ℕ → Option ℕ) → (log : Bytes) × (flush_all failed m.buckets m [] ≡ ok log)
  walks_all failed =
      flush_all-ends failed m m.buckets rows [] (t.width ∙ sym t.height) t.heads
        (λ i. (i, t.chains i)) (length-row-lt t)

  recovers :
      AllFit (records_of (flatten rows)) × Filled (flatten rows)
      → recover_all nothing (records_of (flatten rows)) ≡ f
  recovers (fits, filled) = fun_ext λ k.
      recover_all-over (flatten rows) nothing k
        (flatten-Distinct m.heap.cell m.size 0 rows from_zero) (nothing-Fresh (flatten rows)) filled
      ∙ or_nothing (lookup k (flatten rows))
      ∙ reads_all k

-- Every step of `hashdb_flush_binlog` succeeds, for a table with a log.
abbrev pub AllDone : FlushEnv → Hashdb → Type 0
AllDone fenv m =
    (fenv.opened ≡ true)
    × Unfailing fenv.failed
    × (fenv.synced ≡ true)
    × (m.stat ≡ 1)
    × (fenv.unlinked ≡ true)
    × (fenv.linked ≡ true)

and_false : (b : Bool) → (b && false) ≡ false
and_false true = refl
and_false false = refl

stat_one : (n : ℕ) → n ≡ 1 → (n == 1) ≡ true
stat_one n e = ground (arith, e)

stat_other : (n : ℕ) → n ≢ 1 → (n == 1) ≡ false
stat_other n ne = elim (Bool-cases (n == 1)) [ inl e ↦ absurd (ne (ground (arith, e))) | inr e ↦ e ]

flushed_step :
    (fenv : FlushEnv) (m : Hashdb) (log : Bytes)
    → AllDone fenv m
    → flush_all fenv.failed m.buckets m [] ≡ ok log
    → hashdb_flush_binlog fenv m ≡ ok (flushed (record m { binlog = log }))
unfolding hashdb_flush_binlog
flushed_step fenv m log (opened, _, synced, stat, unlinked, linked) run =
    rw opened (rw run (rw (synced, stat_one m.stat stat, unlinked) (rw linked refl)))

refused_step :
    (fenv : FlushEnv) (m : Hashdb) (log : Bytes)
    → flush_all fenv.failed m.buckets m [] ≡ ok log
    → (fenv.synced && ((m.stat == 1) && fenv.unlinked)) ≡ false
    → hashdb_flush_binlog fenv m ≡ ok (kept m)
unfolding hashdb_flush_binlog
refused_step fenv m log run refused = elim (Bool-cases fenv.opened) [
  | inl opened ↦ rw opened (rw run (rw refused refl))
  | inr closed ↦ rw closed refl
]

lost_step :
    (fenv : FlushEnv) (m : Hashdb) (log : Bytes)
    → flush_all fenv.failed m.buckets m [] ≡ ok log
    → fenv.opened ≡ true
    → (fenv.synced && ((m.stat == 1) && fenv.unlinked)) ≡ true
    → fenv.linked ≡ false
    → hashdb_flush_binlog fenv m ≡ ok (log_lost m)
unfolding hashdb_flush_binlog
lost_step fenv m log run opened unlinked unnamed =
    rw opened (rw run (rw unlinked (rw unnamed refl)))

-- For a table that stands for a map: when the table has a log, the files can be made, written,
-- unlinked and linked, and its keys and values are not empty and fit their 16-bit lengths, a start
-- from the log that is written, with memory at new addresses for every entry, ends without a fault,
-- with a table for the same map. When the table has no log, or `fflush` or `unlink` fails, the call
-- returns, with an error, and the table and its log are as before; when all but `link` succeeds, the
-- log is lost; both whatever writes fail.
pub hashdb_init-hashdb_flush_binlog :
    {m : Hashdb} {f : Bytes → Option Bytes} (fenv : FlushEnv) (env : Env) (envs : ℕ → Env)
    → Represents m f
    → Small f
    → Memory env envs
    → (AllDone fenv m
        → (log : Bytes) × (hashdb_flush_binlog fenv m ≡ ok (flushed (record m { binlog = log })))
          × ((m' : Hashdb) × (hashdb_init (some log) no_skip env envs ≡ ok (some m'))
              × Represents m' f
              × (m'.binlog ≡ log)))
      × ((m.stat ≢ 1) ⊎ ((fenv.synced ≡ false) ⊎ (fenv.unlinked ≡ false))
          → hashdb_flush_binlog fenv m ≡ ok (kept m))
      × (fenv.opened ≡ true
          → (fenv.synced && ((m.stat == 1) && fenv.unlinked)) ≡ true
          → fenv.linked ≡ false
          → hashdb_flush_binlog fenv m ≡ ok (log_lost m))
hashdb_init-hashdb_flush_binlog {m} {f} fenv env envs (rows, t) small memory =
    let rs = records_of (flatten rows) in
    let good =
      records_of-AllFit f (flatten rows) small
        (flatten-Distinct m.heap.cell m.size 0 rows (from_zero t))
        (λ k v e. sym (reads_all t k) ∙ e) in
    let (m', run, rep, _, log) =
      hashdb_init-recover_all rs [] env envs good.0 (omega arith) memory in
    let whole = append-nil (log_of rs) in
    let (out, walked) = walks_all t fenv.failed in
    (
      λ works. (
        log_of rs,
        flushed_step fenv m (log_of rs) works (writes_all t fenv.failed works.1),
        (
          m',
          ap (λ (l : Bytes). hashdb_init (some l) no_skip env envs) (sym whole) ∙ run,
          subst (Represents m') (recovers t good) rep,
          log ∙ whole,
        ),
      ),
      λ fails. refused_step fenv m out walked (refused fails),
      λ opened unlinked unnamed. lost_step fenv m out walked opened unlinked unnamed,
    )
  where
    refused :
        (m.stat ≢ 1) ⊎ ((fenv.synced ≡ false) ⊎ (fenv.unlinked ≡ false))
        → (fenv.synced && ((m.stat == 1) && fenv.unlinked)) ≡ false
    refused (inl ne) = rw (stat_other m.stat ne) (and_false fenv.synced)
    refused (inr (inl e)) = rw e refl
    refused (inr (inr e)) =
        rw e (ap (λ (b : Bool). fenv.synced && b) (and_false (m.stat == 1)) ∙ and_false fenv.synced)
