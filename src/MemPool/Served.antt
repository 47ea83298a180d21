-- ===== src/MemPool/Served.antt =====
-- `memory_alloc` of lib_mrt/mem_pool.c, whichever way it has a block.
use mathlib.Core.Path.{subst}
use tdss.Common.{
  ℕ, ◌-◌, ◌/◌, ◌<◌, ◌≤◌, ◌≡◌, ◌⊎◌, inl, inr, refl, sym, Bool, true, Bool-cases, some, List, [], ◌∷◌,
  ltb, arith,
}
use tdss.MemPool.{MemPool, MemSystem, width, cleared, with_list, memory_alloc}
use tdss.MemPool.Allocated.{
  Given, Served, large-Given, new-Given, again-Given, memory_alloc-new, memory_alloc-again,
}
use tdss.MemPool.Sound.{Sound}
use tdss.Run.{Returns}

pub list-cases : (ns : List ℕ) → (ns ≡ []) ⊎ ((n : ℕ) × (rest : List ℕ) × (ns ≡ n ∷ rest))
list-cases [] = inl refl
list-cases (n ∷ ns) = inr (n, ns, refl)

pub long_enough : (size : ℕ) → 0 < size → size ≤ width ((size - 1) / 32)
long_enough size h = omega arith

-- With memory from the system, a size over 32 KB, and a smaller one whose block takes at most 32 KB
-- with its header, gets a block that is in nobody's use, is at least as long as asked and all zero;
-- no block in use is changed by it, and the pool is sound with the new block in use.
pub memory_alloc-Given :
    (sys : MemSystem) (p : MemPool) (live : ℕ → Bool) (size : ℕ)
    → ((n : ℕ) → sys.malloc_ok n ≡ true)
    → Served sys size
    → Sound p live
    → Returns (memory_alloc sys p size) (Given p live size)
memory_alloc-Given sys p live size memory (inl large) s = large-Given sys p live size memory s large
memory_alloc-Given sys p live size memory (inr (some_size, fits)) s =
    elim (Bool-cases (ltb 32768 size)) [
      | inl over ↦ large-Given sys p live size memory s (ground arith)
      | inr small ↦ elim (list-cases (p.free_blst ((size - 1) / 32))) [
        | inl nothing ↦
            subst (λ r. Returns r (Given p live size))
              (sym (memory_alloc-new sys p size small (ground arith) nothing))
              (new-Given sys p live size memory s ((size - 1) / 32) (long_enough size some_size)
                fits)
        | inr (n, rest, here) ↦ (
          (some n, cleared (with_list p ((size - 1) / 32) rest) n (width ((size - 1) / 32))),
          memory_alloc-again sys p size n rest small (ground arith) here,
          again-Given sys p live size memory s ((size - 1) / 32) n rest here
              (long_enough size some_size),
        )
      ]
    ]
