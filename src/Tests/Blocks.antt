-- ===== src/Tests/Blocks.antt =====
-- Instances for lib_mrt/mem_pool.c.
use tdss.Common.{
  ℕ, ◌≡◌, inr, refl, Bool, true, false, none, some, [], ◌∷◌, arith, replicate, take, ◌++◌, ◌-◌,
  if◌then◌else◌, ◌==◌, set, ◌⊎◌,
}
use tdss.MemPool.{
  MemBlock, MemPool, MemSystem, memory_pool_init, memory_alloc, memory_free, memory_realloc,
  block_alloc, cut, refill, with_block, with_list,
}
use tdss.MemPool.Allocated.{Given}
use tdss.MemPool.Limits.{PastEnd, memory_alloc-past_end, memory_realloc-first_byte}
use tdss.MemPool.Moved.{Kept, memory_realloc-Kept}
use tdss.MemPool.Reached.{Reached, start, allocs, frees, reached-Sound}
use tdss.MemPool.Served.{memory_alloc-Given}
use tdss.MemPool.Sound.{Sound, marked}
use tdss.Run.{Returns, ok, fault}

-- `sizeof(block_t)` of 48 bytes, as on a machine with addresses of 64 bits
abbrev memory_system : MemSystem
memory_system = record { header = 48; malloc_ok = λ n. true }

abbrev nobody : ℕ → Bool
nobody = λ n. false

-- Forty bytes are allocated, given back, and allocated again.
abbrev one_block : MemPool
one_block = record {
  blocks = λ m.
      if m == 0
      then some (record {
        once = false;
        blst_id = 1;
        mem_size = 64;
        memory = 0;
        at = 0;
        bytes = replicate 64 0;
      })
      else none;
  next = 1;
  free_blst = λ i. [];
  master = 0;
  used = 112;
  slave = none;
  memories = 1;
}

one_block_run : memory_alloc memory_system memory_pool_init 40 ≡ ok (some 0, one_block)
unfolding memory_alloc memory_pool_init block_alloc cut refill
one_block_run = refl

abbrev held_block : MemBlock
held_block = record {
  once = false;
  blst_id = 1;
  mem_size = 64;
  memory = 0;
  at = 0;
  bytes = replicate 64 0;
}

abbrev given_back : MemPool
given_back =
    with_list
      (with_block one_block 0 (some (record held_block { bytes = set (replicate 64 0) 0 0 }))) 1
      (0 ∷ [])

given_back_run : memory_free one_block 0 ≡ ok given_back
unfolding memory_free
given_back_run = refl

abbrev one_used : ℕ → Bool
one_used = marked nobody 0 true

one_Reached : Reached memory_system one_block one_used
one_Reached = allocs 40 0 one_block start (inr (omega arith, omega arith)) one_block_run

reached-Sound_example : Sound given_back (marked one_used 0 false)
reached-Sound_example =
    reached-Sound memory_system (λ n. refl) (frees 0 given_back one_Reached refl given_back_run)

-- The block is used again, for a size of the same list.
memory_alloc-Given_example :
    Returns
      (memory_alloc memory_system given_back 50)
      (Given given_back (marked one_used 0 false) 50)
memory_alloc-Given_example =
    memory_alloc-Given memory_system given_back (marked one_used 0 false) 50 (λ n. refl)
      (inr (omega arith, omega arith))
      (reached-Sound memory_system (λ n. refl) (frees 0 given_back one_Reached refl given_back_run))

memory_realloc-Kept_example :
    Returns
      (memory_realloc memory_system one_block (some 0) 100)
      (Kept one_block one_used 0 held_block 100)
memory_realloc-Kept_example =
    memory_realloc-Kept memory_system one_block one_used 0 100 held_block (λ n. refl)
      (inr (omega arith, omega arith)) (reached-Sound memory_system (λ n. refl) one_Reached) refl
      refl refl

abbrev nearly_full : MemPool
nearly_full = record {
  blocks = λ m. none;
  next = 0;
  free_blst = λ i. [];
  master = 0;
  used = 16744448;
  slave = some 1;
  memories = 2;
}

nearly_full-Sound : Sound nearly_full nobody
nearly_full-Sound = record {
  made = λ n h. refl;
  made_free = λ n i h. refl;
  once_each = λ n i. omega arith;
  apart = λ n i h. refl;
  fits = λ n i h. absurd (omega (arith, h));
  held = λ n h. absurd (false_true h);
  room = omega arith;
}
  where
    false_true : false ≡ true → ⊥
    false_true e = cc

-- 32 KB are left, and the block takes 32 KB and its header.
memory_alloc-past_end_example :
    (PastEnd memory_system nearly_full 32768
      × (memory_alloc memory_system nearly_full 32768 ≡ fault))
    ⊎ ((¬ PastEnd memory_system nearly_full 32768)
        × Returns (memory_alloc memory_system nearly_full 32768) (Given nearly_full nobody 32768))
memory_alloc-past_end_example =
    memory_alloc-past_end memory_system nearly_full nobody 32768 (omega arith) (omega arith)
      (omega arith) (λ n. refl) nearly_full-Sound

abbrev large_block : MemBlock
large_block = record {
  once = true;
  blst_id = 0;
  mem_size = 1;
  memory = 0;
  at = 0;
  bytes = 7 ∷ replicate 39999 8;
}

abbrev large_pool : MemPool
large_pool = record one_block { blocks = λ m. if m == 0 then some large_block else none }

memory_realloc-first_byte_example :
    Returns (memory_realloc memory_system large_pool (some 0) 50000) (λ r.
      (r.0 ≡ some 1)
      × ((new : MemBlock) × (r.1.blocks 1 ≡ some new)
          × (new.bytes ≡ take 1 (7 ∷ replicate 39999 8) ++ replicate (50000 - 1) 0)))
memory_realloc-first_byte_example =
    memory_realloc-first_byte memory_system large_pool 0 50000 large_block refl (omega arith)
      (omega arith) refl refl refl
