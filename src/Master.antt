-- ===== src/Master.antt =====
-- The master server: master_server/command.c, which picks a data server for a new file, and the
-- turns of master_server/server_check.c, which asks the servers for their state.
pub mod Pick
pub mod Turns
pub mod Session
use Prim.Native.Nat.{bit_and}
use tdss.Common.{
  ℕ, zero, suc, ◌+◌, ◌-◌, ◌/◌, ◌%◌, ◌^◌, Bool, true, false, ◌&&◌, ◌||◌, not, Option, none, some,
  List, [], ◌∷◌, ltb, ◌==◌, if◌then◌else◌, length, get_or, Bytes,
}

-- `data_server_info_t`, without the address
pub record DataServerInfo : Type 0 where
  pub state : ℕ
  pub disk_free : ℕ
  pub inode_free : ℕ

-- The states of the data servers and of the name servers, and `work_id`.
pub record Master : Type 0 where
  pub data_server : List DataServerInfo
  pub name_server : List ℕ
  pub work_id : ℕ

abbrev pub offline : ℕ
offline = 1

abbrev pub no_server : DataServerInfo
no_server = record { state = offline; disk_free = 0; inode_free = 0 }

-- What the loop passes over.
unfoldable pub skips : ℕ → DataServerInfo → Bool
skips nsize dsi = (dsi.state == offline) || ltb dsi.disk_free nsize || ltb dsi.inode_free 1024

-- The loop of `server_find`, with the rounds that are left, and the new `work_id`.
unfoldable pub find_loop : ℕ → List DataServerInfo → ℕ → ℕ → Option ℕ × ℕ
find_loop zero info nsize work_id = (none, work_id)
find_loop (suc rounds) info nsize work_id =
    let id = (work_id + 1) % length info in
    elim (skips nsize (get_or info id no_server)) [
      | true ↦ find_loop rounds info nsize id
      | false ↦ (some id, id)
    ]

-- The answers of `server_find`: ERR_NS_FNAME, ERR_NS_OFFLINE, ERR_DS_FULL and the chosen server.
pub data Reply : Type 0 where
  err_ns_fname err_ns_offline err_ds_full : Reply
  server : ℕ → Reply

-- `ns_get_server_id`, where `scan` stands for `sscanf` with "%jx".
unfoldable pub ns_get_server_id : (Bytes → Option ℕ) → ℕ → Bytes → Option ℕ
ns_get_server_id scan server_count mid = elim (scan mid) [
  | none ↦ none
  | some idx ↦ some (bit_and idx (server_count - 1))
]

-- `server_find` behind the parsing of its arguments. Sizes are 32-bit words; the space that is
-- asked for is in megabytes.
unfoldable pub server_find : (Bytes → Option ℕ) → Master → Bytes → ℕ → Reply × Master
server_find scan ms fname size = elim (ns_get_server_id scan (length ms.name_server) fname) [
  | none ↦ (err_ns_fname, ms)
  | some ns_id ↦ elim (get_or ms.name_server ns_id 0 == offline) [
    | true ↦ (err_ns_offline, ms)
    | false ↦
        let (found, id) =
          find_loop (length ms.data_server) ms.data_server (1024 + size / 2 ^ 20) ms.work_id in
        (elim found [ none ↦ err_ds_full | some i ↦ server i ], record ms { work_id = id })
  ]
]
