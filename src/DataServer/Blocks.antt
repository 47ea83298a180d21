-- ===== src/DataServer/Blocks.antt =====
-- data_server/data_file.c: the block files that files are appended to, and when they are closed.
pub mod Places
use tdss.Common.{
  ℕ, zero, suc, ◌+◌, ◌-◌, ◌%◌, ◌^◌, Bool, true, false, ◌&&◌, Option, none, some, List, [], ◌∷◌,
  ◌++◌, leb, ◌==◌, if◌then◌else◌, length, get_or, set,
}

-- `block_file_t`. `num` is a 32-bit word; `length` is the length of the file on the disk, and
-- `is_open` says that the descriptor is open and the structure not freed.
pub record Block : Type 0 where
  pub state : ℕ
  pub num : ℕ
  pub size : ℕ
  pub file_length : ℕ
  pub is_open : Bool

-- All blocks so far, by number, and the current one, `cbf`.
pub record Store : Type 0 where
  pub blocks : List Block
  pub cbf : Option ℕ

-- Whether a new file can be made, and whether `ftruncate` succeeds.
pub record Disk : Type 0 where
  pub create_ok : Bool
  pub truncate_ok : Bool

abbrev pub no_block : Block
no_block = record { state = 0; num = 0; size = 0; file_length = 0; is_open = false }

-- The memory of the new block is zero, so `size` is 0.
unfoldable pub block_file_create : Store → ℕ → Disk → Option Store
block_file_create st size disk =
    if disk.create_ok && disk.truncate_ok
    then some (record {
      blocks =
          st.blocks
          ++ (record { state = 1; num = 1; size = 0; file_length = size; is_open = true } ∷ []);
      cbf = some (length st.blocks);
    })
    else none

-- What `block_file_append` gives back: the block, and the position where it sets one.
pub record Place : Type 0 where
  pub block : ℕ
  pub pos : Option ℕ

-- The two branches that make a new block leave `*pos` as it was.
unfoldable pub append_new : Store → ℕ → Disk → Option Place × Store
append_new st size disk = elim (block_file_create st size disk) [
  | none ↦ (none, st)
  | some st' ↦ (some (record { block = length st.blocks; pos = none }), st')
]

-- The branch that extends the current block.
unfoldable pub append_current : Store → ℕ → ℕ → Disk → Option Place × Store
append_current st i size disk =
    let b = get_or st.blocks i no_block in
    if disk.truncate_ok
    then (
      some (record { block = i; pos = some b.size }),
      record st {
        blocks = set st.blocks i (record b {
          size = b.size + size;
          num = (b.num + 1) % 2 ^ 32;
          file_length = b.size + size;
        });
      },
    )
    else (none, st)

-- `cbf->state = 2`
abbrev pub retire : Store → ℕ → Store
retire st i = record st {
  blocks = set st.blocks i (record (get_or st.blocks i no_block) { state = 2 });
}

-- No place is MRT_ERR.
unfoldable pub block_file_append : ℕ → Store → ℕ → Disk → Option Place × Store
block_file_append max_block_size st size disk = elim st.cbf [
  | none ↦ append_new st size disk
  | some i ↦
      if leb max_block_size ((get_or st.blocks i no_block).size + size)
      then append_new (retire st i) size disk
      else append_current st i size disk
]

-- The block is released only if `num` is 0 before the count.
unfoldable pub block_file_close : Store → ℕ → Store
block_file_close st i =
    let b = get_or st.blocks i no_block in
    record st {
      blocks = set st.blocks i (
          if (b.num == 0) && (b.state == 2)
          then record b { is_open = false }
          else record b { num = (b.num + 2 ^ 32 - 1) % 2 ^ 32 });
    }

-- One session after another.
abbrev pub append_all : ℕ → Store → List ℕ → Disk → List (Option Place) × Store
append_all max_block_size st [] disk = ([], st)
append_all max_block_size st (size ∷ sizes) disk =
    let (p, st') = block_file_append max_block_size st size disk in
    let (ps, st'') = append_all max_block_size st' sizes disk in (p ∷ ps, st'')

abbrev pub close_times : ℕ → Store → ℕ → Store
close_times zero st i = st
close_times (suc n) st i = close_times n (block_file_close st i) i
