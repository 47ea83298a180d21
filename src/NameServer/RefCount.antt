-- ===== src/NameServer/RefCount.antt =====
-- The reference counts of name_server/fblock_mem.c.
use mathlib.Core.Path.{subst, fun_ext}
use tdss.Common.{
  ℕ, ◌+◌, ◌-◌, ◌%◌, ◌^◌, ◌<◌, ◌≤◌, ◌≡◌, refl, ◌∙◌, ap, ◌≢◌, true, false, Option, some, none, [],
  ltb, arith, Bool-cases, bytes_eq, bytes_eq_refl, Bytes, inl, inr,
}
use tdss.Hashdb.{Ptr, null, Entry, Hashdb, hdb_key_nofound, Env, load, hashdb_find}
use tdss.Hashdb.Delete.{Deleted, hashdb_delete-Deleted}
use tdss.Hashdb.Enter.{update, Wrote}
use tdss.Hashdb.Find.{nonempty, locate_none}
use tdss.Hashdb.Holds.{Represents}
use tdss.NameServer.FblockMem.{
  FblockMem, Fblock, fblock_to_mem, fblock_mem_set, fbm_bytes, fbm_of, load_fbm, no_file, done,
  fblock_ref_inc, ref_dec_at, fblock_ref_dec,
}
use tdss.NameServer.InPlace.{hashdb_find-set_val}
use tdss.Run.{Returns, ok, fault}

pub find_missing :
    {m : Hashdb} {f : Bytes → Option Bytes} (name : Bytes)
    → Represents m f
    → name ≢ []
    → f name ≡ none
    → hashdb_find m name ≡ ok (hdb_key_nofound, null)
unfolding hashdb_find
find_missing {f} name r k e = rw (nonempty name k, locate_none {f = f} name r e)

pub load_fbm-of :
    (m : Hashdb) (p : Ptr) (e : Entry) (old : Bytes) (b : FblockMem)
    → load m.heap.cell p ≡ ok e
    → e.val ≡ old
    → fbm_of old ≡ some b
    → load_fbm m p ≡ ok b
unfolding load_fbm
load_fbm-of m p e old b at val of =
    rw at
      (ap (λ (o : Option FblockMem). elim o [ none ↦ fault | some c ↦ ok c ]) (ap fbm_of val ∙ of))

-- In a table that stands for a map, for a name that is not empty: the count of a file that is
-- stored goes up by one, modulo 2 ^ 32, nothing else in the map changes, and nothing is logged. For
-- a name that is not there the answer is 0, and nothing changes.
pub fblock_ref_inc-counts :
    {m : Hashdb} {f : Bytes → Option Bytes} (name : Bytes)
    → Represents m f
    → name ≢ []
    → ((old : Bytes) (b : FblockMem)
        → f name ≡ some old
        → fbm_of old ≡ some b
        → Returns (fblock_ref_inc m name) λ r.
          (r.0 ≡ done)
          × Represents r.1
              (update f name (some (fbm_bytes (record b { ref = (b.ref + 1) % 2 ^ 32 }))))
          × (r.1.binlog ≡ m.binlog))
      × (f name ≡ none → fblock_ref_inc m name ≡ ok (no_file, m))
unfolding fblock_ref_inc
fblock_ref_inc-counts {m} {f} name r k = (
  λ old b found of.
      let (p, run, (e, at, val), write) = hashdb_find-set_val {f = f} {old = old} name r k found in
      let (m', wrote, (rep, log, _)) =
        write (fbm_bytes (record b { ref = (b.ref + 1) % 2 ^ 32 })) in
      (
        (done, m'),
        rw run (rw (load_fbm-of m p e old b at val of) (rw wrote refl)),
        (refl, rep, log),
      ),
  λ e. rw (find_missing {f = f} name r k e) refl,
)

one_less : (b : FblockMem) → 2 ≤ b.ref → b.ref < 2 ^ 32 → (b.ref + 2 ^ 32 - 1) % 2 ^ 32 ≡ b.ref - 1
one_less b two small = omega arith

zero_left : (b : FblockMem) → b.ref ≡ 1 → ltb ((b.ref + 2 ^ 32 - 1) % 2 ^ 32) 1 ≡ true
zero_left b one = rw one refl

low : (b : FblockMem) → 2 ≤ b.ref → b.ref < 2 ^ 32 → ltb ((b.ref + 2 ^ 32 - 1) % 2 ^ 32) 1 ≡ false
low b two small = ground (arith, one_less b two small)

pub update_self : (f : Bytes → Option Bytes) (k : Bytes) (v : Option Bytes) → update f k v k ≡ v
update_self f k v = rw (bytes_eq_refl k)

update_twice :
    (f : Bytes → Option Bytes) (k : Bytes) (v w : Option Bytes)
    → update (update f k v) k w ≡ update f k w
update_twice f k v w =
    fun_ext λ q. elim (Bool-cases (bytes_eq q k)) [ inl e ↦ rw e refl | inr e ↦ rw e refl ]

-- In a table that stands for a map, with a log that can be written and a name that is not empty:
-- the count of a file that is stored goes down by one while it is 2 or more, and at 1 the file is
-- taken out of the index. No other file changes, and a name that is not there changes nothing.
pub fblock_ref_dec-counts :
    {m : Hashdb} {f : Bytes → Option Bytes} (name : Bytes) (env : Env)
    → Represents m f
    → name ≢ []
    → env.write_ok ≡ true
    → ((old : Bytes) (b : FblockMem)
        → f name ≡ some old
        → fbm_of old ≡ some b
        → 2 ≤ b.ref
        → b.ref < 2 ^ 32
        → Returns (fblock_ref_dec m name env) λ r.
          (r.0 ≡ done)
          × Represents r.1 (update f name (some (fbm_bytes (record b { ref = b.ref - 1 })))))
      × ((old : Bytes) (b : FblockMem)
          → f name ≡ some old
          → fbm_of old ≡ some b
          → b.ref ≡ 1
          → Returns
              (fblock_ref_dec m name env)
              λ r. (r.0 ≡ done) × Represents r.1 (update f name none))
      × (f name ≡ none → fblock_ref_dec m name env ≡ ok (no_file, m))
unfolding fblock_ref_dec ref_dec_at
fblock_ref_dec-counts {m} {f} name env r k wr = (
  λ old b found of two small.
      let (p, run, (e, at, val), write) = hashdb_find-set_val {f = f} {old = old} name r k found in
      let (m', wrote, (rep, log, _)) =
        write (fbm_bytes (record b { ref = (b.ref + 2 ^ 32 - 1) % 2 ^ 32 })) in
      (
        (done, m'),
        rw run (rw (load_fbm-of m p e old b at val of) (rw wrote (rw (low b two small) refl))),
        (
          refl,
          subst (λ (n : ℕ). Represents m' (update f name (some (fbm_bytes (record b { ref = n })))))
              (one_less b two small) rep,
        ),
      ),
  λ old b found of one.
      let (p, run, (e, at, val), write) = hashdb_find-set_val {f = f} {old = old} name r k found in
      let (m', wrote, (rep, log, _)) =
        write (fbm_bytes (record b { ref = (b.ref + 2 ^ 32 - 1) % 2 ^ 32 })) in
      let v = fbm_bytes (record b { ref = (b.ref + 2 ^ 32 - 1) % 2 ^ 32 }) in
      let f' = update f name (some v) in
      let (q, gone, out) = hashdb_delete-Deleted {f = f'} name env rep k wr in
      let w : Wrote m' (update f' name none) _ null q =
        subst (λ (o : Option Bytes). Deleted m' f' name o q) (update_self f name (some v)) out in
      (
        (done, q.1),
        rw run
            (rw (load_fbm-of m p e old b at val of) (rw wrote (rw (zero_left b one, gone) refl))),
        (refl, subst (Represents q.1) (update_twice f name (some v) none) w.1),
      ),
  λ e. rw (find_missing {f = f} name r k e) refl,
)

load_fbm-null : (m : Hashdb) → load_fbm m null ≡ fault
unfolding load_fbm load
load_fbm-null m = refl

-- In a table that stands for a map, for a name that is not empty and a name of a block file that
-- can be read, `fblock_mem_set` never sets anything: when the file is there it leaves the table as
-- it is and reports success, and when it is not there it reads through a null pointer.
fblock_mem_set-sets_nothing :
    {m : Hashdb} {f : Bytes → Option Bytes} (scan : Bytes → Option (ℕ × ℕ)) (fb : Fblock)
    (prefix suffix : ℕ)
    → Represents m f
    → fb.name ≢ []
    → scan fb.file ≡ some (prefix, suffix)
    → ((old : Bytes) → f fb.name ≡ some old → fblock_mem_set scan m fb ≡ ok (true, m))
      × (f fb.name ≡ none → fblock_mem_set scan m fb ≡ fault)
unfolding fblock_mem_set fblock_to_mem
fblock_mem_set-sets_nothing {m} {f} scan fb prefix suffix r k scanned = (
  λ old found.
      let (p, run, _, _) = hashdb_find-set_val {f = f} {old = old} fb.name r k found in
      rw (scanned, fblock_mem_set, fblock_to_mem) (rw run refl),
  λ missing.
      rw (scanned, fblock_mem_set, fblock_to_mem)
        (rw (find_missing {f = f} fb.name r k missing) (rw (load_fbm-null m) refl)),
)
