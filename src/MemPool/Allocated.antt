-- ===== src/MemPool/Allocated.antt =====
-- The three ways in which `memory_alloc` of lib_mrt/mem_pool.c has a block.
use mathlib.Core.Path.{subst}
use tdss.Common.{
  ℕ, ◌+◌, ◌-◌, ◌/◌, ◌^◌, ◌<◌, ◌≤◌, ◌≡◌, ◌⊎◌, inl, inr, refl, sym, ◌∙◌, ap, Bool, true, false,
  Bool-cases, Option, some, List, [], ◌∷◌, ltb, ◌==◌, arith, length, replicate, length-replicate,
}
use tdss.MemPool.{
  MemBlock, MemPool, MemSystem, with_list, cut, block_alloc, width, cleared, memory_alloc, refill,
}
use tdss.MemPool.Reused.{popped, popped-Sound}
use tdss.MemPool.Sound.{
  Ready, times, Sound, marked, eq-cases, times_self, block_other, block_self, refill-Ready, added,
  made-Sound,
}
use tdss.Run.{Returns, ok}

-- A block that nobody has is handed out: it has room for the size, all of it is zero, and the blocks
-- that are in use are as they were.
abbrev pub Given : MemPool → (ℕ → Bool) → ℕ → Option ℕ × MemPool → Type 0
Given p live size r =
    (n : ℕ) × (r.0 ≡ some n)
    × (live n ≡ false)
    × Sound r.1 (marked live n true)
    × ((b : MemBlock) × (r.1.blocks n ≡ some b)
        × (size ≤ length b.bytes)
        × (b.bytes ≡ replicate (length b.bytes) 0))
    × ((m : ℕ) → live m ≡ true → r.1.blocks m ≡ p.blocks m)

-- More than 32 KB, or a size whose block fits into 32 KB with its header.
abbrev pub Served : MemSystem → ℕ → Type 0
Served sys size = (32768 < size) ⊎ ((0 < size) × (width ((size - 1) / 32) + sys.header ≤ 32768))

pub other_than : (live : ℕ → Bool) (m n : ℕ) → live m ≡ true → live n ≡ false → (m == n) ≡ false
other_than live m n here not_here = elim (eq-cases m n) [
  | inl (e, t) ↦ absurd (true_false (sym here ∙ ap live e ∙ not_here))
  | inr (_, t) ↦ t
]
  where
    true_false : true ≡ false → ⊥
    true_false e = cc

added-Given :
    (p : MemPool) (live : ℕ → Bool) (size used : ℕ) (b : MemBlock)
    → Sound p live
    → used ≤ 2 ^ 24
    → (b.once ≡ false → (b.mem_size ≡ width b.blst_id) × (length b.bytes ≡ width b.blst_id))
    → size ≤ length b.bytes
    → b.bytes ≡ replicate (length b.bytes) 0
    → Given p live size (some p.next, added p b used)
added-Given p live size used b s fine shape long zero_bytes =
    let unused = s.made p.next (omega arith) in
    (
      p.next,
      refl,
      unused,
      made-Sound p b used s fine shape,
      (b, block_self p p.next (some b), long, zero_bytes),
      λ m h. block_other p p.next m (some b) (other_than live m p.next h unused),
    )

Given-eq :
    (p p' : MemPool) (live : ℕ → Bool) (size : ℕ) (r : Option ℕ × MemPool)
    → p'.blocks ≡ p.blocks
    → Given p' live size r
    → Given p live size r
Given-eq p p' live size r same (n, is, unused, sound, block, others) =
    (n, is, unused, sound, block, λ m h. others m h ∙ ap (λ (f : ℕ → Option MemBlock). f m) same)

zeros_zero : (n : ℕ) → replicate {A = ℕ} n 0 ≡ replicate (length (replicate {A = ℕ} n 0)) 0
zeros_zero n = ap (λ (k : ℕ). replicate {A = ℕ} k 0) (sym (length-replicate {A = ℕ} n 0))

inside : (used k : ℕ) → used + 32768 ≤ 2 ^ 24 → k ≤ 32768 → ltb (2 ^ 24) (used + k) ≡ false
inside used k h l = ground arith

pub block_alloc-cut :
    (sys : MemSystem) (p p' : MemPool) (id size : ℕ)
    → refill sys p ≡ some p'
    → block_alloc sys p id size ≡ cut sys p' id size
unfolding block_alloc
block_alloc-cut sys p p' id size run = rw (run, block_alloc) refl

abbrev fresh_block : MemPool → ℕ → ℕ → MemBlock
fresh_block p id size = record {
  once = false;
  blst_id = id;
  mem_size = size;
  memory = p.master;
  at = p.used;
  bytes = replicate size 0;
}

cut-added :
    (sys : MemSystem) (p : MemPool) (id size : ℕ)
    → ltb (2 ^ 24) (p.used + (size + sys.header)) ≡ false
    → cut sys p id size
      ≡ ok (some p.next, added p (fresh_block p id size) (p.used + (size + sys.header)))
unfolding cut
cut-added sys p id size fits = rw fits refl

abbrev pub once_block : ℕ → MemBlock
once_block size = record {
  once = true;
  blst_id = 0;
  mem_size = 1;
  memory = 0;
  at = 0;
  bytes = replicate size 0;
}

pub memory_alloc-large :
    (sys : MemSystem) (p : MemPool) (size : ℕ)
    → ltb 32768 size ≡ true
    → sys.malloc_ok (sys.header + size) ≡ true
    → memory_alloc sys p size ≡ ok (some p.next, added p (once_block size) p.used)
unfolding memory_alloc
memory_alloc-large sys p size over memory = rw over (rw memory refl)

pub memory_alloc-new :
    (sys : MemSystem) (p : MemPool) (size : ℕ)
    → ltb 32768 size ≡ false
    → (size == 0) ≡ false
    → p.free_blst ((size - 1) / 32) ≡ []
    → memory_alloc sys p size ≡ block_alloc sys p ((size - 1) / 32) (width ((size - 1) / 32))
unfolding memory_alloc
memory_alloc-new sys p size small some_size nothing = rw small (rw some_size (rw nothing refl))

cleared-popped :
    (p : MemPool) (i n : ℕ) (rest : List ℕ) (b : MemBlock)
    → p.blocks n ≡ some b
    → cleared (with_list p i rest) n (width i) ≡ popped p i n rest b
cleared-popped p i n rest b there = rw (there, cleared) refl

pub memory_alloc-again :
    (sys : MemSystem) (p : MemPool) (size n : ℕ) (rest : List ℕ)
    → ltb 32768 size ≡ false
    → (size == 0) ≡ false
    → p.free_blst ((size - 1) / 32) ≡ n ∷ rest
    → memory_alloc sys p size
      ≡ ok (some n, cleared (with_list p ((size - 1) / 32) rest) n (width ((size - 1) / 32)))
unfolding memory_alloc
memory_alloc-again sys p size n rest small some_size here = rw small (rw some_size (rw here refl))

pub once_only : {A : Type 0} → true ≡ false → A
once_only e = absurd (true_ne e)
  where
    true_ne : true ≡ false → ⊥
    true_ne q = cc

module _ (sys : MemSystem) (p : MemPool) (live : ℕ → Bool) (size : ℕ)
    (memory : (n : ℕ) → sys.malloc_ok n ≡ true) (s : Sound p live) where
  pub large-Given : 32768 < size → Returns (memory_alloc sys p size) (Given p live size)
  large-Given large = (
    (some p.next, added p (once_block size) p.used),
    memory_alloc-large sys p size (ground arith) (memory (sys.header + size)),
    added-Given p live size p.used (once_block size) s s.room (λ o. once_only o)
        (omega (arith, length-replicate {A = ℕ} size 0)) (zeros_zero size),
  )

  -- A block is cut from a memory that has the room.
  pub cut-Given :
      (id : ℕ) (p' : MemPool)
      → refill sys p ≡ some p'
      → Ready p live p'
      → ltb (2 ^ 24) (p'.used + (width id + sys.header)) ≡ false
      → size ≤ width id
      → Returns (block_alloc sys p id (width id)) (Given p live size)
  cut-Given id p' run (sound, _, blocks, next) fits long =
      let b = fresh_block p' id (width id) in
      let used = p'.used + (width id + sys.header) in
      (
        (some p'.next, added p' b used),
        block_alloc-cut sys p p' id (width id) run ∙ cut-added sys p' id (width id) fits,
        Given-eq p p' live size (some p'.next, added p' b used) blocks
            (added-Given p' live size used b sound (ground (arith, fits))
              (λ o. (refl, length-replicate {A = ℕ} (width id) 0))
              (omega (arith, long, length-replicate {A = ℕ} (width id) 0)) (zeros_zero (width id))),
      )

  pub new-Given :
      (id : ℕ)
      → size ≤ width id
      → width id + sys.header ≤ 32768
      → Returns (block_alloc sys p id (width id)) (Given p live size)
  new-Given id long fits =
      let (p', run, ready) = refill-Ready sys p memory s in
      cut-Given id p' run ready (inside p'.used (width id + sys.header) ready.1 fits) long

  -- A block in a list is in nobody's use.
  listed_unused : (n i : ℕ) → 0 < times n (p.free_blst i) → live n ≡ false
  listed_unused n i h = elim (Bool-cases (live n)) [
    | inl used ↦ absurd (omega (arith, h, s.apart n i used))
    | inr unused ↦ unused
  ]

  pub again-Given :
      (i n : ℕ) (rest : List ℕ)
      → p.free_blst i ≡ n ∷ rest
      → size ≤ width i
      → Given p live size (some n, cleared (with_list p i rest) n (width i))
  again-Given i n rest here long =
      let listed : 0 < times n (p.free_blst i) =
        omega (arith, ap (times n) here, times_self n rest) in
      let (b, there, once, id, shape, bytes) = s.fits n i listed in
      let unused = listed_unused n i listed in
      let now : MemBlock = record b { bytes = replicate (width i) 0 } in
      subst (λ (q : MemPool). Given p live size (some n, q))
        (sym (cleared-popped p i n rest b there))
        (
          n,
          refl,
          unused,
          popped-Sound i n rest b s here there id shape,
          (
            now,
            block_self (with_list p i rest) n (some now),
            omega (arith, long, length-replicate {A = ℕ} (width i) 0),
            zeros_zero (width i),
          ),
          λ m h. block_other (with_list p i rest) n m (some now) (other_than live m n h unused),
        )
