-- ===== src/MemPool/Reached.antt =====
-- What the calls of lib_mrt/mem_pool.c lead to.
use mathlib.Core.Path.{subst}
use tdss.Common.{ℕ, ◌≡◌, refl, sym, ◌∙◌, Bool, true, false, some, arith, length, Bytes}
use tdss.MemPool.{
  MemBlock, MemPool, MemSystem, with_block, memory_pool_init, memory_alloc, memory_free,
  memory_realloc,
}
use tdss.MemPool.Allocated.{Served}
use tdss.MemPool.Copied.{rewritten-Sound}
use tdss.MemPool.Freed.{memory_free-Released}
use tdss.MemPool.Moved.{memory_realloc-Kept}
use tdss.MemPool.Served.{memory_alloc-Given}
use tdss.MemPool.Sound.{Sound, marked}
use tdss.Run.{Run, Returns, ok}

-- The pools, and the blocks in use, that a program comes to which gives back and writes to blocks
-- that it has.
pub data Reached (sys : MemSystem) : MemPool → (ℕ → Bool) → Type 0 where
  start : Reached sys memory_pool_init (λ n. false)
  allocs :
      {p : MemPool} {live : ℕ → Bool} (size n : ℕ) (p' : MemPool)
      → Reached sys p live
      → Served sys size
      → memory_alloc sys p size ≡ ok (some n, p')
      → Reached sys p' (marked live n true)
  frees :
      {p : MemPool} {live : ℕ → Bool} (n : ℕ) (p' : MemPool)
      → Reached sys p live
      → live n ≡ true
      → memory_free p n ≡ ok p'
      → Reached sys p' (marked live n false)
  reallocs :
      {p : MemPool} {live : ℕ → Bool} (n size m : ℕ) (old : MemBlock) (p' : MemPool)
      → Reached sys p live
      → Served sys size
      → live n ≡ true
      → p.blocks n ≡ some old
      → old.once ≡ false
      → memory_realloc sys p (some n) size ≡ ok (some m, p')
      → Reached sys p' (marked (marked live m true) n false)
  writes :
      {p : MemPool} {live : ℕ → Bool} (n : ℕ) (b : MemBlock) (bytes : Bytes)
      → Reached sys p live
      → live n ≡ true
      → p.blocks n ≡ some b
      → length bytes ≡ length b.bytes
      → Reached sys (with_block p n (some (record b { bytes = bytes }))) live

ok_same : {A : Type 0} {x y : A} → ok x ≡ ok y → x ≡ y
ok_same e = cc

some_same : {A : Type 0} {x y : A} → some x ≡ some y → x ≡ y
some_same e = cc

-- What is known of a call's result holds of the result that it had.
result-Good :
    {A : Type 0} {Good : A → Type 0} {run : Run A} (y : A) → Returns run Good → run ≡ ok y → Good y
result-Good {Good} y (x, ran, good) e = subst Good (ok_same (sym ran ∙ e)) good

init-Sound : Sound memory_pool_init (λ n. false)
unfolding memory_pool_init
init-Sound = record {
  made = λ n h. refl;
  made_free = λ n i h. refl;
  once_each = λ n i. omega arith;
  apart = λ n i h. refl;
  fits = λ n i h. absurd (omega (arith, h));
  held = λ n h. absurd (false_true h);
  room = omega arith;
}
  where
    false_true : false ≡ true → ⊥
    false_true e = cc

-- With memory from the system, a program that starts with `memory_pool_init`, asks for sizes over 32
-- KB, or of which the block takes at most 32 KB with its header,
-- and gives back, reallocates (up to 32 KB) and writes to blocks that it
-- has, never comes to a pool in which a block is in use and in a list, or twice in a list, or in a
-- list of another size.
pub reached-Sound :
    (sys : MemSystem) {p : MemPool} {live : ℕ → Bool}
    → ((n : ℕ) → sys.malloc_ok n ≡ true)
    → Reached sys p live
    → Sound p live
reached-Sound sys memory start = init-Sound
reached-Sound sys memory (allocs {p} {live} size n p' r served e) =
    let (n', is, _, sound, _, _) =
      result-Good (some n, p')
        (memory_alloc-Given sys p live size memory served (reached-Sound sys memory r)) e in
    subst (λ (k : ℕ). Sound p' (marked live k true)) (some_same (sym is)) sound
reached-Sound sys memory (frees {p} {live} n p' r used e) =
    (result-Good p' (memory_free-Released p live n (reached-Sound sys memory r) used) e).0
reached-Sound sys memory (reallocs {p} {live} n size m old p' r served used there pooled e) =
    let (m', is, _, sound, _, _) =
      result-Good (some m, p')
        (memory_realloc-Kept sys p live n size old memory served (reached-Sound sys memory r) used
          there pooled)
        e in
    subst (λ (k : ℕ). Sound p' (marked (marked live k true) n false)) (some_same (sym is)) sound
reached-Sound sys memory (writes {p} {live} n b bytes r used there same) =
    rewritten-Sound n b bytes (reached-Sound sys memory r) used there same
