-- ===== src/MemPool/Moved.antt =====
-- `memory_realloc` of lib_mrt/mem_pool.c.
use tdss.Common.{
  ℕ, ◌≤◌, ◌≡◌, refl, sym, ◌∙◌, ap, Bool, true, false, Option, some, ◌==◌, arith, length, take,
}
use tdss.MemPool.{
  MemBlock, MemPool, MemSystem, copy_block, memory_alloc, memory_free, memory_realloc,
}
use tdss.MemPool.Allocated.{Served, other_than}
use tdss.MemPool.Freed.{mark_self, memory_free-Released}
use tdss.MemPool.Reused.{mark_other, some_eq}
use tdss.MemPool.Served.{memory_alloc-Given}
use tdss.MemPool.Sound.{Held, Sound, marked}
use tdss.Run.{Returns, ok}
use tdss.MemPool.Copied.{copy_block-Copied}

pub realloc_step :
    (sys : MemSystem) (p : MemPool) (n size m : ℕ) (old : MemBlock) (p₁ p₂ p₃ : MemPool)
    → p.blocks n ≡ some old
    → memory_alloc sys p size ≡ ok (some m, p₁)
    → copy_block p₁ old size m ≡ ok p₂
    → memory_free p₂ n ≡ ok p₃
    → memory_realloc sys p (some n) size ≡ ok (some m, p₃)
unfolding memory_realloc
realloc_step sys p n size m old p₁ p₂ p₃ there alloc copy free =
    rw (there, memory_realloc) (rw alloc (rw copy (rw free refl)))

-- Another block has the bytes of the old one, as many as both sizes allow.
abbrev pub Kept : MemPool → (ℕ → Bool) → ℕ → MemBlock → ℕ → Option ℕ × MemPool → Type 0
Kept p live n old size r =
    (m : ℕ) × (r.0 ≡ some m)
    × (live m ≡ false)
    × Sound r.1 (marked (marked live m true) n false)
    × ((new : MemBlock) × (r.1.blocks m ≡ some new)
        × (size ≤ length new.bytes)
        × ((i : ℕ) → i ≤ size → i ≤ length old.bytes → take i new.bytes ≡ take i old.bytes))
    × ((k : ℕ) → live k ≡ true → (k == n) ≡ false → r.1.blocks k ≡ p.blocks k)

both_marked :
    (live : ℕ → Bool) (m n k : ℕ)
    → live k ≡ true
    → (k == n) ≡ false
    → (k == m) ≡ false
    → marked (marked live m true) n false k ≡ true
both_marked live m n k used t u = rw (t, u) used

old_size :
    (p : MemPool) (n : ℕ) (old : MemBlock)
    → Held p n
    → p.blocks n ≡ some old
    → old.once ≡ false
    → length old.bytes ≡ old.mem_size
old_size p n old (c, c_there, shape) there pooled =
    let same : old ≡ c = some_eq (sym there ∙ c_there) in
    let (size, bytes) = shape (ap (λ (d : MemBlock). d.once) (sym same) ∙ pooled) in
    ap (λ (d : MemBlock). length d.bytes) same
    ∙ bytes
    ∙ sym size
    ∙ ap (λ (d : MemBlock). d.mem_size) (sym same)

-- A block of at most 32 KB in use that is reallocated, with memory from the system: the new block was
-- in nobody's use, is as long as asked and begins with what the old one held; the old block is given
-- back, the pool is sound, and no other block in use is changed.
pub memory_realloc-Kept :
    (sys : MemSystem) (p : MemPool) (live : ℕ → Bool) (n size : ℕ) (old : MemBlock)
    → ((k : ℕ) → sys.malloc_ok k ≡ true)
    → Served sys size
    → Sound p live
    → live n ≡ true
    → p.blocks n ≡ some old
    → old.once ≡ false
    → Returns (memory_realloc sys p (some n) size) (Kept p live n old size)
memory_realloc-Kept sys p live n size old memory served s used there pooled =
    let ((_, p₁), alloc, (m, is, unused, sound₁, (new, new_there, long, _), others₁)) =
      memory_alloc-Given sys p live size memory served s in
    let now = marked live m true in
    let apart_nm = other_than live n m used unused in
    let apart_mn : (m == n) ≡ false = ground arith in
    let (p₂, copy, (sound₂, (new₂, there₂, long₂, same₂), others₂)) =
      copy_block-Copied p₁ now m size old new sound₁ (mark_self live m true) new_there
        (old_size p n old (s.held n used) there pooled) long in
    let (p₃, free, (sound₃, others₃)) =
      memory_free-Released p₂ now n sound₂ (mark_other live m n true apart_nm ∙ used) in
    let new_used : marked now n false m ≡ true =
      mark_other now n m false apart_mn ∙ mark_self live m true in
    (
      (some m, p₃),
      realloc_step sys p n size m old p₁ p₂ p₃ there (alloc ∙ ap (λ (o : Option ℕ). ok (o, p₁)) is)
          copy free,
      (
        m,
        refl,
        unused,
        sound₃,
        (new₂, others₃ m new_used ∙ there₂, long₂, same₂),
        λ k h t.
            let t_m = other_than live k m h unused in
            others₃ k (both_marked live m n k h t t_m) ∙ others₂ k t_m ∙ others₁ k h,
      ),
    )
