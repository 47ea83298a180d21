-- ===== src/MemPool/Limits.antt =====
-- Where lib_mrt/mem_pool.c goes past a block or a memory.
use mathlib.Core.Path.{subst}
use tdss.Common.{
  ℕ, suc, ◌+◌, ◌-◌, ◌/◌, ◌^◌, ◌<◌, ◌≤◌, ◌≡◌, inl, inr, refl, ◌∙◌, ap, true, false, Bool-cases, none,
  some, [], ◌++◌, ltb, ◌==◌, arith, take, drop, replicate, replicate-suc, Bytes, ◌∷◌, ◌⊎◌, sym,
  Option, Bool, List,
}
use tdss.MemPool.{
  cleared, with_list, MemBlock, MemPool, MemSystem, with_block, refill, cut, width, memory_alloc,
  memory_realloc, use_slave, activate,
}
use tdss.MemPool.Allocated.{
  Given, once_block, memory_alloc-large, memory_alloc-new, memory_alloc-again, block_alloc-cut,
  cut-Given, again-Given,
}
use tdss.MemPool.Copied.{moved, copy_block-moved}
use tdss.MemPool.Freed.{free-once}
use tdss.MemPool.Moved.{realloc_step}
use tdss.MemPool.Sound.{Sound, refill-Ready, added, block_other, block_self}
use tdss.MemPool.Served.{list-cases, long_enough}
use tdss.Run.{Returns, fault}

cut-fault :
    (sys : MemSystem) (p : MemPool) (id size : ℕ)
    → ltb (2 ^ 24) (p.used + (size + sys.header)) ≡ true
    → cut sys p id size ≡ fault
unfolding cut
cut-fault sys p id size past = rw past refl

-- How much the master has given out when it has been looked to: a new one nothing, and the old one,
-- with 32 KB left, what it had.
abbrev Turned : MemPool → MemPool → Type 0
Turned p p' =
    ((p.used + 32768 ≤ 2 ^ 24) × (p'.used ≡ p.used)) ⊎ ((2 ^ 24 < p.used + 32768) × (p'.used ≡ 0))

activate-Turned : (m : ℕ) (p : MemPool) → Turned p (activate m p)
unfolding activate
activate-Turned m p = elim (Bool-cases (ltb (2 ^ 24) (p.used + 32768))) [
  | inl low ↦ rw low (inr (ground arith, refl))
  | inr enough ↦ rw enough (inl (ground arith, refl))
]

use_slave-Turned :
    (sys : MemSystem) (p : MemPool) (slave : Option ℕ)
    → ((n : ℕ) → sys.malloc_ok n ≡ true)
    → (p' : MemPool) × (use_slave sys p slave ≡ some p') × Turned p p'
unfolding use_slave
use_slave-Turned sys p (some m) memory = (activate m p, refl, activate-Turned m p)
use_slave-Turned sys p none memory =
    let q : MemPool = record p { memories = p.memories + 1 } in
    (activate p.memories q, rw (memory (2 ^ 24)) refl, activate-Turned p.memories q)

refill-Turned :
    (sys : MemSystem) (p : MemPool)
    → ((n : ℕ) → sys.malloc_ok n ≡ true)
    → (p' : MemPool) × (refill sys p ≡ some p') × Turned p p'
unfolding refill
refill-Turned sys p memory = elim (Bool-cases (ltb (2 ^ 24) (p.used + 131072))) [
  | inr enough ↦ (p, rw enough refl, inl (ground arith, refl))
  | inl low ↦
      let (p', run, turned) = use_slave-Turned sys p p.slave memory in (p', rw low run, turned)
]

-- The memory's end lies within the block that has to be cut, and the master is not replaced.
abbrev pub PastEnd : MemSystem → MemPool → ℕ → Type 0
PastEnd sys p size =
    (p.free_blst ((size - 1) / 32) ≡ [])
    × (p.used + 32768 ≤ 2 ^ 24)
    × (2 ^ 24 < p.used + (width ((size - 1) / 32) + sys.header))

width-small : (size : ℕ) → 0 < size → size ≤ 32768 → width ((size - 1) / 32) ≤ 32768
width-small size h small = omega arith

nil_cons : {n : ℕ} {ns : List ℕ} → [] ≡ n ∷ ns → ⊥
nil_cons e = cc

turned-same : {p' q : MemPool} → some p' ≡ some q → p'.used ≡ q.used
turned-same e = cc

module _ (sys : MemSystem) (p : MemPool) (live : ℕ → Bool) (size : ℕ) (some_size : 0 < size)
    (small : size ≤ 32768) (header : sys.header ≤ 2 ^ 23)
    (memory : (n : ℕ) → sys.malloc_ok n ≡ true) (s : Sound p live) where
  abbrev Outcome : Type 0
  Outcome =
      (PastEnd sys p size × (memory_alloc sys p size ≡ fault))
      ⊎ ((¬ PastEnd sys p size) × Returns (memory_alloc sys p size) (Given p live size))

  past_it :
      (q : MemPool)
      → p.free_blst ((size - 1) / 32) ≡ []
      → Turned p q
      → 2 ^ 24 < q.used + (width ((size - 1) / 32) + sys.header)
      → width ((size - 1) / 32) ≤ 32768
      → PastEnd sys p size
  past_it q nothing (inl (left, e)) over narrow = (nothing, left, omega (arith, over, e))
  past_it q nothing (inr (_, e)) over narrow = absurd (omega (arith, over, e, narrow, header))

  not_past :
      (q : MemPool)
      → Turned p q
      → p.used + 32768 ≤ 2 ^ 24
      → 2 ^ 24 < p.used + (width ((size - 1) / 32) + sys.header)
      → q.used + (width ((size - 1) / 32) + sys.header) ≤ 2 ^ 24
      → ⊥
  not_past q (inl (_, e)) left past fits = omega (arith, past, fits, e)
  not_past q (inr (gone, _)) left past fits = omega (arith, gone, left)

  new_outcome : p.free_blst ((size - 1) / 32) ≡ [] → Outcome
  new_outcome nothing =
      let id = (size - 1) / 32 in
      let (p', run, ready) = refill-Ready sys p memory s in
      let (q, run', turned) = refill-Turned sys p memory in
      let same : p'.used ≡ q.used = turned-same (sym run ∙ run') in
      let step =
        memory_alloc-new sys p size (ground (arith, small)) (ground (arith, some_size)) nothing in
      let narrow = width-small size some_size small in
      elim (Bool-cases (ltb (2 ^ 24) (p'.used + (width id + sys.header)))) [
        | inl past ↦ inl (
          past_it q nothing turned (ground (arith, past, same)) narrow,
          step ∙ block_alloc-cut sys p p' id (width id) run ∙ cut-fault sys p' id (width id) past,
        )
        | inr fits ↦ inr (
          λ (_, left, past). not_past q turned left past (ground (arith, fits, same)),
          subst (λ r. Returns r (Given p live size)) (sym step)
              (cut-Given sys p live size memory s id p' run ready fits
                (long_enough size some_size)),
        )
      ]

  -- In a sound pool, with memory from the system and a header of at most 8 MB, a size of at most 32 KB,
  -- but not 0, either gets a block, as `Given` says, or is written behind the end of the memory: the
  -- second exactly when no such block has been given back, the master has 32 KB left, and the block
  -- with its header takes more than what is left.
  pub memory_alloc-past_end : Outcome
  memory_alloc-past_end = elim (list-cases (p.free_blst ((size - 1) / 32))) [
    | inl nothing ↦ new_outcome nothing
    | inr (n, rest, here) ↦ inr (
      λ (nothing, _, _). nil_cons (sym nothing ∙ here),
      (
        (some n, cleared (with_list p ((size - 1) / 32) rest) n (width ((size - 1) / 32))),
        memory_alloc-again sys p size n rest (ground (arith, small)) (ground (arith, some_size))
            here,
        again-Given sys p live size memory s ((size - 1) / 32) n rest here
            (long_enough size some_size),
      ),
    )
  ]

zeros_left : (n m : ℕ) → n ≡ suc m → drop 1 (replicate {A = ℕ} n 0) ≡ replicate m 0
zeros_left n m e =
    ap (λ (k : ℕ). drop 1 (replicate {A = ℕ} k 0)) e
    ∙ ap (λ (bs : Bytes). drop 1 bs) (replicate-suc m 0)

-- A block of more than 32 KB, as `memory_alloc` makes it, is reallocated to more than 32 KB, with
-- memory from the system: the new block has the first byte of the old one, and zeros behind it.
pub memory_realloc-first_byte :
    (sys : MemSystem) (p : MemPool) (n size : ℕ) (old : MemBlock)
    → sys.malloc_ok (sys.header + size) ≡ true
    → 32768 < size
    → n < p.next
    → p.blocks n ≡ some old
    → old.once ≡ true
    → old.mem_size ≡ 1
    → Returns (memory_realloc sys p (some n) size) (λ r.
      (r.0 ≡ some p.next)
      × ((new : MemBlock) × (r.1.blocks p.next ≡ some new)
          × (new.bytes ≡ take 1 old.bytes ++ replicate (size - 1) 0)))
memory_realloc-first_byte sys p n size old memory large before there once one =
    let m = p.next in
    let now = moved old size (once_block size) in
    let p₁ = added p (once_block size) p.used in
    let p₂ = with_block p₁ m (some now) in
    let less : ltb size old.mem_size ≡ false = ground arith in
    let n_m : (n == m) ≡ false = ground arith in
    let m_n : (m == n) ≡ false = ground arith in
    let old_there : p₂.blocks n ≡ some old =
      block_other p₁ m n (some now) n_m ∙ block_other p m n (some (once_block size)) n_m ∙ there in
    (
      (some m, with_block p₂ n none),
      realloc_step sys p n size m old p₁ p₂ (with_block p₂ n none) there
          (memory_alloc-large sys p size (ground arith) memory)
          (copy_block-moved p₁ old (once_block size) size m
            (block_self p m (some (once_block size))))
          (free-once p₂ n old old_there once),
      (
        refl,
        (
          now,
          block_other p₂ n m none m_n ∙ block_self p₁ m (some now),
          rw (less, one)
              (ap (λ bs. take 1 old.bytes ++ bs)
                (zeros_left size (size - 1) (omega (arith, large)))),
        ),
      ),
    )
