-- ===== src/Tests/NameServer.antt =====
-- Instances for the index of the name server.
use tdss.Common.{
  ℕ, ◌-◌, ◌<◌, ◌≤◌, ◌^◌, ◌≡◌, refl, ◌≢◌, Option, none, some, [], ◌∷◌, arith, Bytes, bytes,
}
use tdss.Hashdb.{Hashdb}
use tdss.Hashdb.Binlog.{hashdb_init}
use tdss.Hashdb.Enter.{update}
use tdss.Hashdb.Holds.{Represents}
use tdss.Hashdb.Recovery.{no_skip}
use tdss.Hashdb.Restart.{nothing}
use tdss.Hashdb.Synced.{Synced, hashdb_insert-Synced}
use tdss.Hashdb.Ops.{hashdb_insert}
use tdss.NameServer.FblockMem.{
  FblockMem, Fblock, fbm_bytes, fbm_of, no_file, done, fblock_ref_inc, fblock_ref_dec,
}
use tdss.NameServer.Index.{fblock_ref_inc-forgotten}
use tdss.NameServer.Layout.{Fits, fbm_of-fbm_bytes}
use tdss.NameServer.RefCount.{fblock_ref_dec-counts, update_self}
use tdss.Run.{Returns, ok}
use tdss.Tests.Tables.{grants, grants-Grants, grants-Memory, large, large-Synced, red, red-ne}

abbrev photo : FblockMem
photo = record { server = 1; ref = 1; size = 500; prefix = 77; suffix = 3; offset = 20 }

photo-Fits : Fits photo
photo-Fits = (omega arith, omega arith, omega arith, omega arith, omega arith, omega arith)

abbrev red_file : Fblock
red_file = record { server = 1; size = 500; offset = 20; ref = 0; name = red; file = bytes "4d.3" }

abbrev scan : Bytes → Option (ℕ × ℕ)
scan file = some (77, 3)

abbrev print : ℕ → ℕ → Bytes
print prefix suffix = prefix ∷ suffix ∷ []

photo_bytes-ne : fbm_bytes photo ≢ []
unfolding fbm_bytes
photo_bytes-ne e = cc

photo_insert :
    Returns
      (hashdb_insert large red (fbm_bytes photo) (grants 0))
      λ r. Synced r.1 (update nothing red (some (fbm_bytes photo)))
unfolding fbm_bytes
photo_insert =
    hashdb_insert-Synced red (fbm_bytes photo) (grants 0) large-Synced red-ne photo_bytes-ne
      (omega arith) (omega arith) (grants-Grants 0)

-- The large table with the photo under the name `red`.
abbrev index : Hashdb
index = photo_insert.0.1

abbrev index_map : Bytes → Option Bytes
index_map = update nothing red (some (fbm_bytes photo))

index-Synced : Synced index index_map
index-Synced = photo_insert.2

abbrev with_ref : ℕ → Bytes → Option Bytes
with_ref n = update index_map red (some (fbm_bytes (record photo { ref = n })))

index-red : index_map red ≡ some (fbm_bytes photo)
index-red = update_self nothing red (some (fbm_bytes photo))

fblock_ref_dec-counts_example :
    ((old : Bytes) (b : FblockMem)
      → index_map red ≡ some old
      → fbm_of old ≡ some b
      → 2 ≤ b.ref
      → b.ref < 2 ^ 32
      → Returns (fblock_ref_dec index red (grants 1)) λ r.
        (r.0 ≡ done)
        × Represents r.1 (update index_map red (some (fbm_bytes (record b { ref = b.ref - 1 })))))
    × ((old : Bytes) (b : FblockMem)
        → index_map red ≡ some old
        → fbm_of old ≡ some b
        → b.ref ≡ 1
        → Returns
            (fblock_ref_dec index red (grants 1))
            λ r. (r.0 ≡ done) × Represents r.1 (update index_map red none))
    × (index_map red ≡ none → fblock_ref_dec index red (grants 1) ≡ ok (no_file, index))
fblock_ref_dec-counts_example =
    fblock_ref_dec-counts red (grants 1) index-Synced.represents red-ne refl

fblock_ref_inc-forgotten_example : Returns (fblock_ref_inc index red) λ r.
    Represents r.1 (with_ref 2)
    × ((m' : Hashdb) × (hashdb_init (some r.1.binlog) no_skip (grants 0) grants ≡ ok (some m'))
        × Represents m' index_map)
fblock_ref_inc-forgotten_example =
    fblock_ref_inc-forgotten red (fbm_bytes photo) photo (grants 0) grants index-Synced red-ne
      index-red (fbm_of-fbm_bytes photo photo-Fits) grants-Memory
