-- ===== src/Hashdb/Replay.antt =====
-- What `hashdb_init` of lib_mrt/hashdb.c recovers from an operation log.
use tdss.Common.{
  ℕ, suc, ◌^◌, ◌<◌, ◌≤◌, ◌≡◌, refl, ◌∙◌, ◌≢◌, ◌⊎◌, inl, inr, true, false, Option, none, some, List,
  [], ◌∷◌, ◌++◌, arith, ◌==◌, Bool-cases, ==_iff, length, if◌then◌else◌, Bytes,
}
use tdss.Hashdb.{Ptr, null, Hashdb, Code, hdb_arg_inval, Env, sec_bytes}
use tdss.Hashdb.Binlog.{apply_record}
use tdss.Hashdb.Delete.{Deleted, hashdb_delete-Deleted}
use tdss.Hashdb.Enter.{update, Wrote}
use tdss.Hashdb.Holds.{Represents}
use tdss.Hashdb.Insert.{Grants, Inserted, hashdb_insert-Inserted}
use tdss.Hashdb.Ops.{hashdb_insert, hashdb_update, hashdb_delete}
use tdss.Hashdb.Update.{Updated, hashdb_update-Updated}
use tdss.Run.{Run, Returns, ok, ◌>>=◌}

pub record Record : Type 0 where
  pub type : ℕ
  pub key : Bytes
  pub val : Bytes

-- The bytes of one record, as `hashdb_append_binlog` writes them.
abbrev pub record_bytes : Record → Bytes
record_bytes r = sec_bytes r.type (length r.key) (length r.val) ++ (r.key ++ r.val)

abbrev pub log_of : List Record → Bytes
log_of [] = []
log_of (r ∷ rs) = record_bytes r ++ log_of rs

-- The lengths fit their fields, and the key is not empty.
abbrev pub Fits : Record → Type 0
Fits r = (r.key ≢ []) × (length r.key < 2 ^ 16) × (length r.val < 2 ^ 16)

abbrev pub AllFit : List Record → Type 0
AllFit [] = Unit
AllFit (r ∷ rs) = Fits r × AllFit rs

-- What a record does to the map when it is read back.
unfoldable pub recover : (Bytes → Option Bytes) → Record → Bytes → Option Bytes
recover f r =
    if r.type == 1
    then (if length r.val == 0
        then f
        else elim (f r.key) [ none ↦ update f r.key (some r.val) | some _ ↦ f ])
    else if r.type == 2
    then (if length r.val == 0
        then f
        else elim (f r.key) [ none ↦ f | some _ ↦ update f r.key (some r.val) ])
    else if r.type == 3
    then (elim (f r.key) [ none ↦ f | some _ ↦ update f r.key none ])
    else f

abbrev pub recover_all : (Bytes → Option Bytes) → List Record → Bytes → Option Bytes
recover_all f [] = f
recover_all f (r ∷ rs) = recover_all (recover f r) rs

-- From the `n`th on, the environment has memory for everything, at new addresses.
abbrev pub Supplies : (ℕ → Env) → ℕ → Hashdb → Type 0
Supplies envs n m =
    (j : ℕ)
    → n ≤ j
    → ((envs j).entry ≢ null)
      × (m.heap.cell (envs j).entry ≡ none)
      × ((envs j).key_mem ≡ true)
      × ((envs j).val_mem ≡ true)
      × ((envs j).write_ok ≡ true)
      × ((k : ℕ) → j < k → (envs k).entry ≢ (envs j).entry)

-- A table of a running server, and the one that a step leaves.
abbrev pub Ready : (ℕ → Env) → ℕ → (Bytes → Option Bytes) → Hashdb → Type 0
Ready envs n f m = Represents m f × (2 ^ 16 ≤ m.size) × Supplies envs n m

length_ne : (v : ℕ) (val : Bytes) → (length (v ∷ val) == 0) ≡ false
length_ne v val = ground arith

keep_state :
    {P : Hashdb → Type 0} (x : Run (Code × Hashdb)) (r : Code × Hashdb)
    → x ≡ ok r
    → P r.1
    → Returns (x >>= λ q. ok q.1) P
keep_state x r run p = (r.1, rw run refl, p)

module _ (envs : ℕ → Env) (n : ℕ) (m : Hashdb) (f : Bytes → Option Bytes)
    (ready : Ready envs n f m) where
  Supplies-suc : Supplies envs (suc n) m
  Supplies-suc j le = ready.2 j (omega arith)

  Wrote-Ready :
      {f' : Bytes → Option Bytes} {log : Bytes} {r : Code × Hashdb} (new : Ptr)
      → Wrote m f' log new r
      → (new ≡ null) ⊎ (new ≡ (envs n).entry)
      → Ready envs (suc n) f' r.1
  Wrote-Ready new w which = (
    w.1,
    rw w.3 ready.1,
    λ j le.
        let (nn, fresh, km, vm, wr, later) = ready.2 j (omega arith) in
        (nn, w.5 (envs j).entry fresh (other j le nn which), km, vm, wr, later),
  )
    where
      other :
          (j : ℕ)
          → suc n ≤ j
          → (envs j).entry ≢ null
          → (new ≡ null) ⊎ (new ≡ (envs n).entry)
          → (envs j).entry ≢ new
      other j le nn (inl e) same = nn (same ∙ e)
      other j le nn (inr e) same = (ready.2 n (omega arith)).5 j le (same ∙ e)

  idle : Ready envs (suc n) f m
  idle = (ready.0, ready.1, Supplies-suc)

  grants : Grants (envs n) m
  grants = let (nn, fresh, km, vm, wr, _) = ready.2 n (omega arith) in (nn, fresh, km, vm, wr)

  insert_step :
      (key val : Bytes)
      → key ≢ []
      → Returns
          (hashdb_insert m key val (envs n) >>= λ q. ok q.1)
          (Ready envs (suc n) (recover f (record { type = 1; key = key; val = val })))
  unfolding recover
  insert_step key [] k = keep_state _ (hdb_arg_inval, m) (unfold hashdb_insert in ground arith) idle
  insert_step key (v ∷ val) k =
      let (r, run, out) =
        hashdb_insert-Inserted {f = f} key (v ∷ val) (envs n) ready.0 ready.1 k (λ e. cc) grants in
      keep_state _ r run (by_lookup r (f key) refl out)
    where
      by_lookup :
          (r : Code × Hashdb) (o : Option Bytes)
          → f key ≡ o
          → Inserted m f key (v ∷ val) (envs n) o r
          → Ready envs (suc n) (recover f (record { type = 1; key = key; val = v ∷ val })) r.1
      by_lookup r none e w = rw (e, length_ne v val) (Wrote-Ready _ w (inr refl))
      by_lookup r (some old) e w = rw (e, length_ne v val, w) idle

  update_step :
      (key val : Bytes)
      → key ≢ []
      → Returns
          (hashdb_update m key val (envs n) >>= λ q. ok q.1)
          (Ready envs (suc n) (recover f (record { type = 2; key = key; val = val })))
  unfolding recover
  update_step key [] k = keep_state _ (hdb_arg_inval, m) (unfold hashdb_update in ground arith) idle
  update_step key (v ∷ val) k =
      let (r, run, out) =
        hashdb_update-Updated {f = f} key (v ∷ val) (envs n) ready.0 k (λ e. cc) grants.3
          grants.4 in
      keep_state _ r run (by_lookup r (f key) refl out)
    where
      by_lookup :
          (r : Code × Hashdb) (o : Option Bytes)
          → f key ≡ o
          → Updated m f key (v ∷ val) o r
          → Ready envs (suc n) (recover f (record { type = 2; key = key; val = v ∷ val })) r.1
      by_lookup r none e w = rw (e, length_ne v val, w) idle
      by_lookup r (some old) e w = rw (e, length_ne v val) (Wrote-Ready _ w (inl refl))

  delete_step :
      (key val : Bytes)
      → key ≢ []
      → Returns
          (hashdb_delete m key (envs n) >>= λ q. ok q.1)
          (Ready envs (suc n) (recover f (record { type = 3; key = key; val = val })))
  unfolding recover
  delete_step key val k =
      let (r, run, out) = hashdb_delete-Deleted {f = f} key (envs n) ready.0 k grants.4 in
      keep_state _ r run (by_lookup r (f key) refl out)
    where
      by_lookup :
          (r : Code × Hashdb) (o : Option Bytes)
          → f key ≡ o
          → Deleted m f key o r
          → Ready envs (suc n) (recover f (record { type = 3; key = key; val = val })) r.1
      by_lookup r none e w = rw (e, w) idle
      by_lookup r (some old) e w = rw e (Wrote-Ready _ w (inl refl))

  -- Reading one record back ends without a fault, with the map that `recover` says.
  pub apply_record-recover :
      (type : ℕ) (key val : Bytes)
      → key ≢ []
      → Returns
          (apply_record m type key val (envs n))
          (Ready envs (suc n) (recover f (record { type = type; key = key; val = val })))
  unfolding apply_record
  apply_record-recover type key val k = elim (Bool-cases (type == 1)) [
    | inl e₁ ↦ rw ((==_iff type 1).0 e₁) (insert_step key val k)
    | inr e₁ ↦ elim (Bool-cases (type == 2)) [
      | inl e₂ ↦ rw ((==_iff type 2).0 e₂) (update_step key val k)
      | inr e₂ ↦ elim (Bool-cases (type == 3)) [
        | inl e₃ ↦ rw ((==_iff type 3).0 e₃) (delete_step key val k)
        | inr e₃ ↦ rw (e₁, e₂, e₃) (m, refl, unfold recover in rw (e₁, e₂, e₃) idle)
      ]
    ]
  ]
