-- ===== src/Hashdb/Synced.antt =====
-- lib_mrt/hashdb.c across a restart: which operations `hashdb_init` restores from the log they wrote.
use mathlib.Core.List.{append_assoc, append-nil}
use mathlib.Core.Path.{subst}
use tdss.Common.{
  ℕ, ◌^◌, ◌<◌, ◌≤◌, ◌≡◌, refl, sym, ◌∙◌, ap, ◌≢◌, true, Option, none, some, List, [], ◌∷◌, ◌++◌,
  arith, length, replicate, Bytes,
}
use tdss.Hashdb.{null, Hashdb, Code, Env, blank}
use tdss.Hashdb.Binlog.{hashdb_init}
use tdss.Hashdb.Create.{empty-Holds}
use tdss.Hashdb.Delete.{Deleted, hashdb_delete-Deleted}
use tdss.Hashdb.Enter.{update, log_bytes, Wrote}
use tdss.Hashdb.Find.{nonempty}
use tdss.Hashdb.Holds.{Represents}
use tdss.Hashdb.Insert.{Grants, Inserted, hashdb_insert-Inserted}
use tdss.Hashdb.Ops.{hashdb_insert, hashdb_update, hashdb_delete}
use tdss.Hashdb.Recovery.{no_skip}
use tdss.Hashdb.Replay.{Record, record_bytes, log_of, Fits, AllFit, recover, recover_all}
use tdss.Hashdb.Update.{Updated, hashdb_update-Updated}
use tdss.Run.{Returns, ok}
use tdss.Hashdb.Restart.{nothing, started, Memory, hashdb_init-recover_all}

-- The log of a running table gives its map back.
pub record Synced (m : Hashdb) (f : Bytes → Option Bytes) : Type 0 where
  pub records : List Record
  pub logged : m.binlog ≡ log_of records
  pub fits : AllFit records
  pub restores : recover_all nothing records ≡ f
  pub represents : Represents m f
  pub running : m.stat ≡ 1
  pub wide : 2 ^ 16 ≤ m.size

AllFit-snoc : (rs : List Record) (r : Record) → AllFit rs → Fits r → AllFit (rs ++ r ∷ [])
AllFit-snoc [] r a f = (f, tt)
AllFit-snoc (s ∷ rs) r a f = (a.0, AllFit-snoc rs r a.1 f)

log_of-snoc : (rs : List Record) (r : Record) → log_of (rs ++ r ∷ []) ≡ log_of rs ++ record_bytes r
log_of-snoc [] r = append-nil (record_bytes r)
log_of-snoc (s ∷ rs) r =
    ap (λ (l : Bytes). record_bytes s ++ l) (log_of-snoc rs r)
    ∙ sym (append_assoc (record_bytes s) (log_of rs) (record_bytes r))

recover_all-snoc :
    (f : Bytes → Option Bytes) (rs : List Record) (r : Record)
    → recover_all f (rs ++ r ∷ []) ≡ recover (recover_all f rs) r
recover_all-snoc f [] r = refl
recover_all-snoc f (s ∷ rs) r = recover_all-snoc (recover f s) rs r

-- What the log of `m'` restores, when `m'` is a table after one more record.
Synced-snoc :
    (m m' : Hashdb) (f f' : Bytes → Option Bytes) (r : Record)
    → (s : Synced m f) → Fits r
    → m'.binlog ≡ m.binlog ++ record_bytes r
    → recover f r ≡ f'
    → Represents m' f'
    → m'.stat ≡ m.stat
    → m'.size ≡ m.size
    → Synced m' f'
Synced-snoc m m' f f' r s fits log eq rep stat size = record {
  records = s.records ++ r ∷ [];
  logged = log ∙ ap (λ (l : Bytes). l ++ record_bytes r) s.logged ∙ sym (log_of-snoc s.records r);
  fits = AllFit-snoc s.records r s.fits fits;
  restores =
      recover_all-snoc nothing s.records r
      ∙ ap (λ (g : Bytes → Option Bytes). recover g r) s.restores
      ∙ eq;
  represents = rep;
  running = stat ∙ s.running;
  wide = rw size s.wide;
}

-- The map after an insertion, and after an update, by what it holds under the key.
abbrev pub inserted : (Bytes → Option Bytes) → Bytes → Bytes → Option Bytes → Bytes → Option Bytes
inserted f key val none = update f key (some val)
inserted f key val (some old) = f

abbrev pub updated : (Bytes → Option Bytes) → Bytes → Bytes → Option Bytes → Bytes → Option Bytes
updated f key val none = f
updated f key val (some old) = update f key (some val)

log_bytes-running :
    (m : Hashdb) (type : ℕ) (key val : Bytes)
    → m.stat ≡ 1
    → log_bytes m type key val
      ≡ m.binlog ++ record_bytes (record { type = type; key = key; val = val })
log_bytes-running m type key val e = ground arith

-- On a running table that its log gives back, the insertion of a key and a value that are not empty
-- and whose lengths fit 16 bits, with memory at an unused address and a log that can be written,
-- leaves a running table that its log gives back: the map has the value under a new key, and is the
-- old one if the key was there.
pub hashdb_insert-Synced :
    {m : Hashdb} {f : Bytes → Option Bytes} (key val : Bytes) (env : Env)
    → Synced m f
    → key ≢ []
    → val ≢ []
    → length key < 2 ^ 16
    → length val < 2 ^ 16
    → Grants env m
    → Returns (hashdb_insert m key val env) λ r. Synced r.1 (inserted f key val (f key))
hashdb_insert-Synced {m} {f} key val env s k v kl vl g =
    let (r, run, out) = hashdb_insert-Inserted {f = f} key val env s.represents s.wide k v g in
    (r, run, by_lookup r (f key) refl out)
  where
    by_lookup :
        (r : Code × Hashdb) (o : Option Bytes)
        → f key ≡ o
        → Inserted m f key val env o r
        → Synced r.1 (inserted f key val o)
    by_lookup r none e w =
        Synced-snoc m r.1 f _ (record { type = 1; key = key; val = val }) s (k, kl, vl)
          (w.2 ∙ log_bytes-running m 1 key val s.running) (unfold recover in rw (nonempty val v, e))
          w.1 w.4 w.3
    by_lookup r (some old) e w = rw w s

-- On a running table that its log gives back, the update of a key with a value, both not empty and
-- of lengths that fit 16 bits, with memory and a log that can be written, leaves a running table
-- that its log gives back: the map has the new value under a key that was there, and is the old one
-- if it was not.
hashdb_update-Synced :
    {m : Hashdb} {f : Bytes → Option Bytes} (key val : Bytes) (env : Env)
    → Synced m f
    → key ≢ []
    → val ≢ []
    → length key < 2 ^ 16
    → length val < 2 ^ 16
    → env.val_mem ≡ true
    → env.write_ok ≡ true
    → Returns (hashdb_update m key val env) λ r. Synced r.1 (updated f key val (f key))
hashdb_update-Synced {m} {f} key val env s k v kl vl vm wr =
    let (r, run, out) = hashdb_update-Updated {f = f} key val env s.represents k v vm wr in
    (r, run, by_lookup r (f key) refl out)
  where
    by_lookup :
        (r : Code × Hashdb) (o : Option Bytes)
        → f key ≡ o
        → Updated m f key val o r
        → Synced r.1 (updated f key val o)
    by_lookup r none e w = rw w s
    by_lookup r (some old) e w =
        Synced-snoc m r.1 f _ (record { type = 2; key = key; val = val }) s (k, kl, vl)
          (w.2 ∙ log_bytes-running m 2 key val s.running) (unfold recover in rw (nonempty val v, e))
          w.1 w.4 w.3

-- With memory at new addresses for every entry, a restart from the log of a running table that its
-- log gives back ends with a running table that stands for the same map, and that has the same log.
pub restart-Represents :
    {m : Hashdb} {f : Bytes → Option Bytes} (env : Env) (envs : ℕ → Env)
    → Synced m f
    → Memory env envs
    → (m' : Hashdb) × (hashdb_init (some m.binlog) no_skip env envs ≡ ok (some m'))
      × Represents m' f
      × (m'.stat ≡ 1)
      × (m'.binlog ≡ m.binlog)
restart-Represents {m} {f} env envs s mem =
    let log : log_of s.records ++ [] ≡ m.binlog = append-nil _ ∙ sym s.logged in
    let (m', run, rep, stat, same) =
      hashdb_init-recover_all s.records [] env envs s.fits (omega arith) mem in
    (
      m',
      rw (← log) run,
      subst (λ (g : Bytes → Option Bytes). Represents m' g) s.restores rep,
      stat,
      same ∙ log,
    )

-- On a running table that its log gives back, with a log that can be written, the deletion of a key
-- that is there and fits 16 bits takes it out of the table, but a restart from the log, with memory
-- at new addresses for every entry, makes a table for the map with the key still in it:
-- `hashdb_delete` logs an addition.
pub hashdb_delete-comes_back :
    {m : Hashdb} {f : Bytes → Option Bytes} {v : Bytes} (key : Bytes) (env env₀ : Env)
    (envs : ℕ → Env)
    → Synced m f
    → key ≢ []
    → length key < 2 ^ 16
    → f key ≡ some v
    → env.write_ok ≡ true
    → Memory env₀ envs
    → Returns (hashdb_delete m key env) λ r.
      Represents r.1 (update f key none)
      × ((m' : Hashdb) × (hashdb_init (some r.1.binlog) no_skip env₀ envs ≡ ok (some m'))
          × Represents m' f)
hashdb_delete-comes_back {m} {f} {v} key env env₀ envs s k kl e wr mem =
    let (r, run, out) = hashdb_delete-Deleted {f = f} key env s.represents k wr in
    let w : Wrote m (update f key none) (log_bytes m 1 key []) null r =
      subst (λ (o : Option Bytes). Deleted m f key o r) e out in
    let gone : Record = record { type = 1; key = key; val = [] } in
    let log : log_of (s.records ++ gone ∷ []) ++ [] ≡ r.1.binlog =
      append-nil _
      ∙ log_of-snoc s.records gone
      ∙ ap (λ (l : Bytes). l ++ record_bytes gone) (sym s.logged)
      ∙ sym (w.2 ∙ log_bytes-running m 1 key [] s.running) in
    let (m', start, rep, _, _) =
      hashdb_init-recover_all (s.records ++ gone ∷ []) [] env₀ envs
        (AllFit-snoc s.records gone s.fits (k, kl, omega arith)) (omega arith) mem in
    let same : recover_all nothing (s.records ++ gone ∷ []) ≡ f =
      recover_all-snoc nothing s.records gone
      ∙ ap (λ (g : Bytes → Option Bytes). recover g gone) s.restores
      ∙ unfold recover in refl in
    (
      r,
      run,
      (w.1, (m', rw (← log) start, subst (λ (g : Bytes → Option Bytes). Represents m' g) same rep)),
    )

-- An empty table of at least 2 ^ 16 chains, in use of an empty log.
pub started_empty-Synced :
    (n idx : ℕ)
    → 2 ^ 16 ≤ n
    → Synced (record blank { idx = idx; size = n; stat = 1; buckets = replicate n null }) nothing
started_empty-Synced n idx wide = record {
  records = [];
  logged = refl;
  fits = tt;
  restores = refl;
  represents =
      started (record blank { idx = idx; size = n; buckets = replicate n null }) nothing []
        (replicate n [], empty-Holds n idx (omega arith));
  running = refl;
  wide = wide;
}
