-- ===== src/Tests/Config.antt =====
-- An instance for lib_tdss/config.c.
use tdss.Common.{◌<◌, ◌≡◌, none, some, [], ◌∷◌, arith, bytes}
use tdss.Config.{Addr, ds_get_addr_by_id, ds_get_addr_by_id-range}
use tdss.Run.{ok, fault}

abbrev first : Addr
first = record { ip = bytes "10.0.0.1"; port = 8010 }

abbrev second : Addr
second = record { ip = bytes "10.0.0.2"; port = 8010 }

ds_get_addr_by_id-range_example :
    (1 < 2 → ds_get_addr_by_id (first ∷ second ∷ []) 1 ≡ ok (some second))
    × (2 < 1 → ds_get_addr_by_id (first ∷ second ∷ []) 1 ≡ ok none)
    × (ds_get_addr_by_id (first ∷ second ∷ []) 2 ≡ fault)
ds_get_addr_by_id-range_example =
    ds_get_addr_by_id-range (first ∷ second ∷ []) 1 first (omega arith)
