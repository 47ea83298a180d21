-- ===== src/NameServer/Index.antt =====
-- Adding a file to the index of name_server/fblock_mem.c and reading it back, and what a restart
-- keeps of a reference count.
use mathlib.Core.Path.{subst}
use tdss.Common.{
  ℕ, ◌+◌, ◌%◌, ◌^◌, ◌≤◌, ◌≡◌, refl, ◌∙◌, ap, ◌≢◌, true, Option, some, none, [], arith, Bytes,
}
use tdss.Hashdb.{Hashdb, Code, hdb_ok, hdb_key_exist, Env}
use tdss.Hashdb.Binlog.{hashdb_init}
use tdss.Hashdb.Enter.{update, Wrote, log_bytes}
use tdss.Hashdb.Holds.{Represents}
use tdss.Hashdb.Insert.{Grants, Inserted, hashdb_insert-Inserted}
use tdss.Hashdb.Ops.{hashdb_insert}
use tdss.Hashdb.Recovery.{no_skip}
use tdss.Hashdb.Restart.{Memory}
use tdss.Hashdb.Synced.{Synced, restart-Represents}
use tdss.NameServer.FblockMem.{
  FblockMem, Fblock, fbm_bytes, fbm_of, Result, done, fblock_ref_inc, fblock_to_mem, fblock_mem_add,
  fblock_mem_get,
}
use tdss.NameServer.InPlace.{hashdb_find-set_val}
use tdss.NameServer.Layout.{Fits, fbm_of-fbm_bytes}
use tdss.NameServer.RefCount.{fblock_ref_inc-counts, find_missing, load_fbm-of, update_self}
use tdss.Run.{Returns, ok}

-- What is kept of a file whose block file's name gives the two numbers.
abbrev pub kept : Fblock → ℕ → ℕ → FblockMem
kept fb prefix suffix = record {
  server = fb.server % 2 ^ 16;
  ref = 1;
  size = fb.size % 2 ^ 32;
  prefix = prefix % 2 ^ 32;
  suffix = suffix % 2 ^ 32;
  offset = fb.offset % 2 ^ 32;
}

pub kept-Fits : (fb : Fblock) (prefix suffix : ℕ) → Fits (kept fb prefix suffix)
kept-Fits fb prefix suffix =
    (omega arith, omega arith, omega arith, omega arith, omega arith, omega arith)

-- The lower half of a word
pub half_of_word : (n : ℕ) → n % 2 ^ 32 % 2 ^ 16 ≡ n % 2 ^ 16
half_of_word n = omega arith

to_mem :
    (scan : Bytes → Option (ℕ × ℕ)) (fb : Fblock) (prefix suffix : ℕ)
    → scan fb.file ≡ some (prefix, suffix)
    → fblock_to_mem scan fb ≡ some (kept fb prefix suffix)
unfolding fblock_to_mem
to_mem scan fb prefix suffix scanned = rw (scanned, fblock_to_mem) refl

fbm_bytes-ne : (b : FblockMem) → fbm_bytes b ≢ []
unfolding fbm_bytes
fbm_bytes-ne b e = cc

add_new :
    (scan : Bytes → Option (ℕ × ℕ)) (m : Hashdb) (fb : Fblock) (prefix suffix : ℕ) (env : Env)
    (c : Code) (m' : Hashdb)
    → scan fb.file ≡ some (prefix, suffix)
    → hashdb_insert m fb.name (fbm_bytes (kept fb prefix suffix)) env ≡ ok (c, m')
    → c ≡ hdb_ok
    → fblock_mem_add scan m fb env ≡ ok (true, m')
unfolding fblock_mem_add
add_new scan m fb prefix suffix env c m' scanned run code =
    rw (to_mem scan fb prefix suffix scanned, fblock_mem_add) (rw run (rw code refl))

add_again :
    (scan : Bytes → Option (ℕ × ℕ)) (m : Hashdb) (fb : Fblock) (prefix suffix : ℕ) (env : Env)
    (c : Result) (m' : Hashdb)
    → scan fb.file ≡ some (prefix, suffix)
    → hashdb_insert m fb.name (fbm_bytes (kept fb prefix suffix)) env ≡ ok (hdb_key_exist, m)
    → fblock_ref_inc m fb.name ≡ ok (c, m')
    → c ≡ done
    → fblock_mem_add scan m fb env ≡ ok (true, m')
unfolding fblock_mem_add
add_again scan m fb prefix suffix env c m' scanned run counted code =
    rw (to_mem scan fb prefix suffix scanned, fblock_mem_add) (rw run (rw counted (rw code refl)))

-- In a table of at least 2 ^ 16 chains that stands for a map, with memory at an unused address, a
-- log that can be written, a name that is not empty and a name of a block file that can be read:
-- adding a file with a new name keeps it with a count of 1. Adding a name again only counts it: the
-- place and size kept for it stay those of the first time. No other name changes.
pub fblock_mem_add-counts :
    {m : Hashdb} {f : Bytes → Option Bytes} (scan : Bytes → Option (ℕ × ℕ)) (fb : Fblock)
    (prefix suffix : ℕ) (env : Env)
    → Represents m f
    → 2 ^ 16 ≤ m.size
    → fb.name ≢ []
    → Grants env m
    → scan fb.file ≡ some (prefix, suffix)
    → (f fb.name ≡ none
        → Returns (fblock_mem_add scan m fb env) λ r.
          (r.0 ≡ true)
          × Represents r.1 (update f fb.name (some (fbm_bytes (kept fb prefix suffix)))))
      × ((old : Bytes) (b : FblockMem)
          → f fb.name ≡ some old
          → fbm_of old ≡ some b
          → Returns (fblock_mem_add scan m fb env) λ r.
            (r.0 ≡ true)
            × Represents r.1
                (update f fb.name (some (fbm_bytes (record b { ref = (b.ref + 1) % 2 ^ 32 })))))
unfolding fblock_mem_add
fblock_mem_add-counts {m} {f} scan fb prefix suffix env r wide k g scanned =
    let v = fbm_bytes (kept fb prefix suffix) in
    let (q, run, out) = hashdb_insert-Inserted {f = f} fb.name v env r wide k (fbm_bytes-ne _) g in
    (
      λ e.
          let w : Wrote m (update f fb.name (some v)) (log_bytes m 1 fb.name v) env.entry q =
            subst (λ (o : Option Bytes). Inserted m f fb.name v env o q) e out in
          ((true, q.1), add_new scan m fb prefix suffix env q.0 q.1 scanned run w.0, (refl, w.1)),
      λ old b e of.
          let same : q ≡ (hdb_key_exist, m) =
            subst (λ (o : Option Bytes). Inserted m f fb.name v env o q) e out in
          let (t, counted, (finished, rep, _)) =
            (fblock_ref_inc-counts {f = f} fb.name r k).0 old b e of in
          (
            (true, t.1),
            add_again scan m fb prefix suffix env t.0 t.1 scanned (run ∙ ap ok same) counted
                finished,
            (refl, rep),
          ),
    )

-- In a table that stands for a map, for a name that is not empty: a file that is kept with fields
-- that fit their widths is read back with its server, place, size and count, and the name of the
-- block file printed from the two numbers. A name that is not there is an error.
pub fblock_mem_get-kept :
    {m : Hashdb} {f : Bytes → Option Bytes} (print : ℕ → ℕ → Bytes) (fb : Fblock) (b : FblockMem)
    → Represents m f
    → fb.name ≢ []
    → Fits b
    → (f fb.name ≡ some (fbm_bytes b)
        → fblock_mem_get print m fb
          ≡ ok (
              some (record fb {
                file = print b.prefix (b.suffix % 2 ^ 16);
                server = b.server;
                offset = b.offset;
                size = b.size;
                ref = b.ref;
              })))
      × (f fb.name ≡ none → fblock_mem_get print m fb ≡ ok none)
unfolding fblock_mem_get
fblock_mem_get-kept {m} {f} print fb b r k fits = (
  λ found.
      let (p, run, (e, at, val), _) =
        hashdb_find-set_val {f = f} {old = fbm_bytes b} fb.name r k found in
      rw run (rw (load_fbm-of m p e (fbm_bytes b) b at val (fbm_of-fbm_bytes b fits)) refl),
  λ missing. rw (find_missing {f = f} fb.name r k missing) refl,
)

-- Under the same conditions as for adding a file, a file added under a new name is found, with a
-- count of 1, with its server, offset and size cut to 16, 32 and 32 bits, and with the name of its
-- block file printed from the two numbers.
pub fblock_mem_get-fblock_mem_add :
    {m : Hashdb} {f : Bytes → Option Bytes} (scan : Bytes → Option (ℕ × ℕ)) (print : ℕ → ℕ → Bytes)
    (fb : Fblock) (prefix suffix : ℕ) (env : Env)
    → Represents m f
    → 2 ^ 16 ≤ m.size
    → fb.name ≢ []
    → Grants env m
    → scan fb.file ≡ some (prefix, suffix)
    → f fb.name ≡ none
    → Returns (fblock_mem_add scan m fb env) λ r.
      (r.0 ≡ true)
      × (fblock_mem_get print r.1 fb
          ≡ ok (
              some (record fb {
                file = print (prefix % 2 ^ 32) (suffix % 2 ^ 16);
                server = fb.server % 2 ^ 16;
                offset = fb.offset % 2 ^ 32;
                size = fb.size % 2 ^ 32;
                ref = 1;
              })))
fblock_mem_get-fblock_mem_add {m} {f} scan print fb prefix suffix env r wide k g scanned new =
    let v = fbm_bytes (kept fb prefix suffix) in
    let (q, run, (added, rep)) =
      (fblock_mem_add-counts {f = f} scan fb prefix suffix env r wide k g scanned).0 new in
    (
      q,
      run,
      (
        added,
        (fblock_mem_get-kept {f = update f fb.name (some v)} print fb (kept fb prefix suffix) rep k
                (kept-Fits fb prefix suffix)).0
              (update_self f fb.name (some v))
            ∙ ap
                (λ (n : ℕ). ok (
                  some (record fb {
                    file = print (prefix % 2 ^ 32) n;
                    server = fb.server % 2 ^ 16;
                    offset = fb.offset % 2 ^ 32;
                    size = fb.size % 2 ^ 32;
                    ref = 1;
                  })))
                (half_of_word suffix),
      ),
    )

-- A reference that was counted is forgotten by a restart: on a running table that its log gives
-- back, counting a reference to a file that is stored changes the count in the table, but
-- `hashdb_init`, with memory at new addresses for every entry, makes a table for the map with the
-- old count from the log.
pub fblock_ref_inc-forgotten :
    {m : Hashdb} {f : Bytes → Option Bytes} (name old : Bytes) (b : FblockMem) (env : Env)
    (envs : ℕ → Env)
    → Synced m f
    → name ≢ []
    → f name ≡ some old
    → fbm_of old ≡ some b
    → Memory env envs
    → Returns (fblock_ref_inc m name) λ r.
      Represents r.1 (update f name (some (fbm_bytes (record b { ref = (b.ref + 1) % 2 ^ 32 }))))
      × ((m' : Hashdb) × (hashdb_init (some r.1.binlog) no_skip env envs ≡ ok (some m'))
          × Represents m' f)
fblock_ref_inc-forgotten {m} {f} name old b env envs s k found of mem =
    let (r, run, (_, rep, log)) =
      (fblock_ref_inc-counts {f = f} name s.represents k).0 old b found of in
    let (m', start, again, _, _) = restart-Represents env envs s mem in
    (r, run, (rep, (m', rw log start, again)))
