-- ===== src/MemPool.antt =====
-- lib_mrt/mem_pool.c: the pool behind M_alloc, M_realloc and M_free.
pub mod Sound
pub mod Reused
pub mod Allocated
pub mod Served
pub mod Freed
pub mod Copied
pub mod Moved
pub mod Reached
pub mod Limits
use tdss.Common.{
  ℕ, suc, ◌+◌, ◌-◌, ◌*◌, ◌/◌, ◌^◌, Bool, true, false, Option, none, some, List, [], ◌∷◌, ◌++◌, ltb,
  ◌==◌, if◌then◌else◌, length, take, drop, set, replicate, Bytes,
}
use tdss.Run.{Run, ok, fault, ◌>>=◌}

-- `block_t`: whether MEM_ONCE is set, the list that it belongs to, the memory of 16 MB that it was cut
-- from and its place there, and the bytes at `data`.
pub record MemBlock : Type 0 where
  pub once : Bool
  pub blst_id : ℕ
  pub mem_size : ℕ
  pub memory : ℕ
  pub at : ℕ
  pub bytes : Bytes

-- `memory_pool`. Blocks and memories are numbered as they are made; a block that was given back to
-- the system is none. `used` is that of the master; its `free` is what is missing to 16 MB. The
-- slave has not been used.
pub record MemPool : Type 0 where
  pub blocks : ℕ → Option MemBlock
  pub next : ℕ
  pub free_blst : ℕ → List ℕ
  pub master : ℕ
  pub used : ℕ
  pub slave : Option ℕ
  pub memories : ℕ

-- `sizeof(block_t)`, and whether `malloc` has memory of a size
pub record MemSystem : Type 0 where
  pub header : ℕ
  pub malloc_ok : ℕ → Bool

unfoldable pub memory_pool_init : MemPool
memory_pool_init = record {
  blocks = λ n. none;
  next = 0;
  free_blst = λ i. [];
  master = 0;
  used = 0;
  slave = none;
  memories = 1;
}

abbrev pub with_block : MemPool → ℕ → Option MemBlock → MemPool
with_block p n b = record p { blocks = λ m. if m == n then b else p.blocks m }

abbrev pub with_list : MemPool → ℕ → List ℕ → MemPool
with_list p i ns = record p { free_blst = λ j. if j == i then ns else p.free_blst j }

-- The slave's turn comes when less than 32 KB are free.
unfoldable pub activate : ℕ → MemPool → MemPool
activate m p =
    if ltb (2 ^ 24) (p.used + 32768)
    then record p { master = m; used = 0; slave = none }
    else record p { slave = some m }

-- The slave is made when there is none.
unfoldable pub use_slave : MemSystem → MemPool → Option ℕ → Option MemPool
use_slave sys p (some m) = some (activate m p)
use_slave sys p none =
    if sys.malloc_ok (2 ^ 24)
    then some (activate p.memories (record p { memories = p.memories + 1 }))
    else none

-- The first part of `block_alloc`
unfoldable pub refill : MemSystem → MemPool → Option MemPool
refill sys p = if ltb (2 ^ 24) (p.used + 131072) then use_slave sys p p.slave else some p

-- The rest of `block_alloc`; what is cleared behind the end of the memory is not the pool's.
unfoldable pub cut : MemSystem → MemPool → ℕ → ℕ → Run (Option ℕ × MemPool)
cut sys p id size =
    if ltb (2 ^ 24) (p.used + (size + sys.header))
    then fault
    else ok (
      some p.next,
      record p {
        blocks =
            (with_block p p.next (
              some (record {
                once = false;
                blst_id = id;
                mem_size = size;
                memory = p.master;
                at = p.used;
                bytes = replicate size 0;
              }))).blocks;
        next = p.next + 1;
        used = p.used + (size + sys.header);
      },
    )

-- No number is MRT_ERR.
unfoldable pub block_alloc : MemSystem → MemPool → ℕ → ℕ → Run (Option ℕ × MemPool)
block_alloc sys p id size = elim (refill sys p) [
  | none ↦ ok (none, p)
  | some p' ↦ cut sys p' id size
]

abbrev pub width : ℕ → ℕ
width id = (id + 1) * 32

-- `memset` over a block that is used again
abbrev pub cleared : MemPool → ℕ → ℕ → MemPool
cleared p n size = elim (p.blocks n) [
  | none ↦ p
  | some b ↦ with_block p n (some (record b { bytes = replicate size 0 }))
]

unfoldable pub memory_alloc : MemSystem → MemPool → ℕ → Run (Option ℕ × MemPool)
memory_alloc sys p size =
    if ltb 32768 size
    then (if sys.malloc_ok (sys.header + size)
        then ok (
          some p.next,
          record (with_block p p.next (
              some (record {
                once = true;
                blst_id = 0;
                mem_size = 1;
                memory = 0;
                at = 0;
                bytes = replicate size 0;
              }))) { next = p.next + 1 },
        )
        else ok (none, p))
    else if size == 0
    then fault
    else (let id = (size - 1) / 32 in
        elim (p.free_blst id) [
          | [] ↦ block_alloc sys p id (width id)
          | n ∷ rest ↦ ok (some n, cleared (with_list p id rest) n (width id))
        ])

-- `memory_free`: the first byte is cleared.
unfoldable pub memory_free : MemPool → ℕ → Run MemPool
memory_free p n = elim (p.blocks n) [
  | none ↦ fault
  | some b ↦
      if b.once
      then ok (with_block p n none)
      else ok (
          with_list (with_block p n (some (record b { bytes = set b.bytes 0 0 }))) b.blst_id
            (n ∷ p.free_blst b.blst_id))
]

-- What is copied of the old block
abbrev pub copied : MemBlock → ℕ → ℕ
copied b size = if ltb size b.mem_size then size else b.mem_size

-- `memcpy` into the new block
unfoldable pub copy_block : MemPool → MemBlock → ℕ → ℕ → Run MemPool
copy_block p old size m = elim (p.blocks m) [
  | none ↦ fault
  | some new ↦ ok (
      with_block p m (
        some (record new {
          bytes = take (copied old size) old.bytes ++ drop (copied old size) new.bytes;
        })))
]

unfoldable pub memory_realloc : MemSystem → MemPool → Option ℕ → ℕ → Run (Option ℕ × MemPool)
memory_realloc sys p none size = memory_alloc sys p size
memory_realloc sys p (some n) size = elim (p.blocks n) [
  | none ↦ fault
  | some old ↦ memory_alloc sys p size >>= λ r. elim r.0 [
    | none ↦ ok (none, r.1)
    | some m ↦ copy_block r.1 old size m >>= λ p'. memory_free p' n >>= λ p''. ok (some m, p'')
  ]
]
