-- ===== src/NameServer/InPlace.antt =====
-- What name_server/fblock_mem.c does to an entry of the hash table through the pointer that
-- `hashdb_find` hands out.
use tdss.Common.{◌≡◌, refl, ◌∙◌, ◌≢◌, Option, some, [], Bytes}
use tdss.Hashdb.{Ptr, null, Entry, Hashdb, hdb_ok, load, hashdb_find}
use tdss.Hashdb.Enter.{update}
use tdss.Hashdb.Chain.{find_addr, find_addr-some}
use tdss.Hashdb.Find.{not_null, nonempty}
use tdss.Hashdb.Holds.{Represents, row, hashdb_locate-find_addr}
use tdss.Hashdb.Ops.{set_val}
use tdss.Hashdb.Update.{set_val-Holds}
use tdss.Run.{Returns, ok}

-- `hashdb_find` gives a pointer to an entry with the map's value, and a write of a value through it
-- changes the map at that key and no log.
pub hashdb_find-set_val :
    {m : Hashdb} {f : Bytes → Option Bytes} {old : Bytes} (key : Bytes)
    → Represents m f
    → key ≢ []
    → f key ≡ some old
    → (p : Ptr) × (hashdb_find m key ≡ ok (hdb_ok, p))
      × ((e : Entry) × (load m.heap.cell p ≡ ok e) × (e.val ≡ old))
      × ((val : Bytes)
          → Returns (set_val m p val) λ m'.
            Represents m' (update f key (some val)) × (m'.binlog ≡ m.binlog) × (m'.size ≡ m.size))
unfolding hashdb_find load
hashdb_find-set_val {m} {f} {old} key (rows, t) k found =
    let (nn, e, at, val, _) =
      find_addr-some m.heap.cell m.size _ key old null (row t key) (t.chains _)
        (t.reads key ∙ found) in
    (
      find_addr key (row t key),
      rw (nonempty key k, hashdb_locate-find_addr t key) (rw (not_null nn) refl),
      (e, rw (not_null nn, at) refl, val),
      λ new.
          let (p, _, same, g, run, holds, _) = set_val-Holds t key new {old = old} found in
          (_, rw same run, (holds m.binlog, refl, refl)),
    )
