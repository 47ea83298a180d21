-- ===== src/Hashdb/Find.antt =====
-- `hashdb_find` and `hashdb_locate` of lib_mrt/hashdb.c.
use tdss.Common.{
  ◌≡◌, refl, ◌∙◌, ap, ◌≢◌, inl, inr, false, Option, none, some, [], ◌∷◌, arith, ◌==◌, Option-cases,
  length, Bytes,
}
use tdss.Hashdb.{
  Ptr, null, Entry, Hashdb, Code, hdb_ok, hdb_key_nofound, hdb_arg_inval, hashdb_find,
  hashdb_locate,
}
use tdss.Hashdb.Chain.{find_addr, find_addr-some, find_addr-none}
use tdss.Hashdb.Holds.{Represents, hashdb_locate-find_addr, row}
use tdss.Run.{Returns, ok}

-- The entry at `p` holds `v` under the key `k`.
abbrev pub At : Hashdb → Ptr → Bytes → Bytes → Type 0
At m p k v = (p ≢ null) × (e : Entry) × (m.heap.cell p ≡ some e) × (e.val ≡ v) × (e.key ≡ k)

-- What a search hands out, given what the map holds under the key.
abbrev pub Found : Hashdb → Bytes → Option Bytes → Code × Ptr → Type 0
Found m k none r = r ≡ (hdb_key_nofound, null)
Found m k (some v) r = (r.0 ≡ hdb_ok) × At m r.1 k v

pub not_null : {p : Ptr} → p ≢ null → (p == null) ≡ false
not_null h = ground arith

pub nonempty : (k : Bytes) → k ≢ [] → (length k == 0) ≡ false
nonempty [] h = absurd (h refl)
nonempty (c ∷ k) h = ground arith

module _ {m : Hashdb} {f : Bytes → Option Bytes} (k : Bytes) (r : Represents m f) where
  pub locate_none : f k ≡ none → hashdb_locate m k ≡ ok null
  locate_none e =
      let t = r.1 in
      hashdb_locate-find_addr t k ∙ ap ok (find_addr-none k (row t k) (t.reads k ∙ e))

  pub locate_some : {v : Bytes} → f k ≡ some v → (p : Ptr) × (hashdb_locate m k ≡ ok p) × At m p k v
  locate_some {v} e =
      let t = r.1 in
      (
        find_addr k (row t k),
        hashdb_locate-find_addr t k,
        find_addr-some m.heap.cell m.size _ k v null (row t k) (t.chains _) (t.reads k ∙ e),
      )

-- In a table that stands for a map, `hashdb_find` refuses a key of length 0; for any other it ends
-- without a fault, and finds an entry that holds the value of the map, or says that there is none.
pub hashdb_find-Found :
    {m : Hashdb} {f : Bytes → Option Bytes} (k : Bytes)
    → Represents m f
    → (hashdb_find m [] ≡ ok (hdb_arg_inval, null))
      × (k ≢ [] → Returns (hashdb_find m k) (Found m k (f k)))
unfolding hashdb_find
hashdb_find-Found {m} {f} k r = (
  refl,
  λ h. elim (Option-cases (f k)) [
    | inl e ↦ rw (e, nonempty k h, locate_none {f = f} k r e) ((hdb_key_nofound, null), refl, refl)
    | inr (v, e) ↦
        let (p, run, at) = locate_some {f = f} k r e in
        rw (e, nonempty k h, run, not_null at.0) ((hdb_ok, p), refl, (refl, at))
  ],
)
