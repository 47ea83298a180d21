-- ===== src/MemPool/Freed.antt =====
-- `memory_free` of lib_mrt/mem_pool.c.
use tdss.Common.{
  ℕ, suc, ◌<◌, ◌≤◌, ◌≡◌, inl, inr, refl, sym, ◌∙◌, ap, Bool, true, false, Bool-cases, none, some,
  ◌∷◌, ltb, ◌==◌, arith, length, set, length-set,
}
use tdss.MemPool.{MemBlock, MemPool, with_block, with_list, width, memory_free}
use tdss.MemPool.Allocated.{once_only}
use tdss.MemPool.Reused.{mark_other}
use tdss.MemPool.Sound.{
  times, Sound, marked, eq-cases, times_self, times_other, block_other, Fits-eq, Held-eq,
}
use tdss.Run.{Returns, ok}

abbrev freed : MemPool → ℕ → MemBlock → MemPool
freed p n b =
    with_list (with_block p n (some (record b { bytes = set b.bytes 0 0 }))) b.blst_id
      (n ∷ p.free_blst b.blst_id)

pub free-once :
    (p : MemPool) (n : ℕ) (b : MemBlock)
    → p.blocks n ≡ some b
    → b.once ≡ true
    → memory_free p n ≡ ok (with_block p n none)
unfolding memory_free
free-once p n b there once = rw (there, memory_free) (rw once refl)

free-listed :
    (p : MemPool) (n : ℕ) (b : MemBlock)
    → p.blocks n ≡ some b
    → b.once ≡ false
    → memory_free p n ≡ ok (freed p n b)
unfolding memory_free
free-listed p n b there once = rw (there, memory_free) (rw once refl)

pub mark_self : (live : ℕ → Bool) (n : ℕ) (v : Bool) → marked live n v n ≡ v
mark_self live n v = let e : (n == n) ≡ true = ground arith in rw e refl

module _ {p : MemPool} {live : ℕ → Bool} (n : ℕ) (b : MemBlock) (s : Sound p live)
    (used : live n ≡ true) where
  -- Only a block that was in use before is in use.
  still : (m : ℕ) → marked live n false m ≡ true → (live m ≡ true) × ((m == n) ≡ false)
  still m h = elim (eq-cases m n) [
    | inl (e, t) ↦ once_only (sym h ∙ ap (marked live n false) e ∙ mark_self live n false)
    | inr (_, t) ↦ (sym (mark_other live n m false t) ∙ h, t)
  ]

  unused : (m : ℕ) → live m ≡ false → marked live n false m ≡ false
  unused m h = elim (eq-cases m n) [
    | inl (e, t) ↦ ap (marked live n false) e ∙ mark_self live n false
    | inr (_, t) ↦ mark_other live n m false t ∙ h
  ]

  gone-Sound : Sound (with_block p n none) (marked live n false)
  gone-Sound = record {
    made = λ m h. unused m (s.made m h);
    made_free = s.made_free;
    once_each = s.once_each;
    apart = λ m i h. s.apart m i (still m h).0;
    fits = λ m i h. elim (eq-cases m n) [
      | inl (e, t) ↦
          absurd (omega (arith, h, s.apart n i used, ap (λ (k : ℕ). times k (p.free_blst i)) e))
      | inr (_, t) ↦ Fits-eq p (with_block p n none) i m (block_other p n m none t) (s.fits m i h)
    ];
    held = λ m h.
        let (before, t) = still m h in
        Held-eq p (with_block p n none) m (block_other p n m none t) (s.held m before);
    room = s.room;
  }

  abbrev now : MemBlock
  now = record b { bytes = set b.bytes 0 0 }

  -- How often a block is in a list after the call
  other_times :
      (m j : ℕ) → (m == n) ≡ false → times m ((freed p n b).free_blst j) ≡ times m (p.free_blst j)
  other_times m j t = elim (eq-cases j b.blst_id) [
    | inl (e, u) ↦ rw u (
        times_other m n (p.free_blst b.blst_id) t ∙ ap (λ (k : ℕ). times m (p.free_blst k)) (sym e))
    | inr (_, u) ↦ rw u refl
  ]

  own_times : times n ((freed p n b).free_blst b.blst_id) ≡ 1
  own_times =
      let e : (b.blst_id == b.blst_id) ≡ true = ground arith in
      rw e (times_self n (p.free_blst b.blst_id) ∙ ap suc (s.apart n b.blst_id used))

  else_times : (j : ℕ) → (j == b.blst_id) ≡ false → times n ((freed p n b).free_blst j) ≡ 0
  else_times j u = rw u (s.apart n j used)

  listed_now : (j : ℕ) → times n ((freed p n b).free_blst j) ≤ 1
  listed_now j = elim (eq-cases j b.blst_id) [
    | inl (e, u) ↦ omega (arith, own_times, ap (λ (k : ℕ). times n ((freed p n b).free_blst k)) e)
    | inr (_, u) ↦ omega (arith, else_times j u)
  ]

  known : n < p.next
  known = elim (Bool-cases (ltb n p.next)) [
    | inl less ↦ ground arith
    | inr more ↦ once_only (sym used ∙ s.made n (ground arith))
  ]

  listed-Sound :
      p.blocks n ≡ some b
      → b.once ≡ false
      → (b.mem_size ≡ width b.blst_id) × (length b.bytes ≡ width b.blst_id)
      → Sound (freed p n b) (marked live n false)
  listed-Sound there once (size, bytes) = record {
    made = λ m h. unused m (s.made m h);
    made_free = λ m i h. elim (eq-cases m n) [
      | inl (e, t) ↦ absurd (omega (arith, h, e, known))
      | inr (_, t) ↦ other_times m i t ∙ s.made_free m i h
    ];
    once_each = λ m i. elim (eq-cases m n) [
      | inl (e, t) ↦
          omega (arith, listed_now i, ap (λ (k : ℕ). times k ((freed p n b).free_blst i)) e)
      | inr (_, t) ↦ omega (arith, other_times m i t, s.once_each m i)
    ];
    apart = λ m i h. let (before, t) = still m h in other_times m i t ∙ s.apart m i before;
    fits = λ m i h. elim (eq-cases m n) [
      | inl (e, t) ↦ elim (eq-cases i b.blst_id) [
        | inl (same, u) ↦ (
          now,
          rw t refl,
          once,
          sym same,
          size ∙ ap width (sym same),
          length-set {A = ℕ} b.bytes 0 0 ∙ bytes ∙ ap width (sym same),
        )
        | inr (_, u) ↦ absurd (
            omega (arith, h, else_times i u, ap (λ (k : ℕ). times k ((freed p n b).free_blst i)) e))
      ]
      | inr (_, t) ↦
          Fits-eq p (freed p n b) i m (block_other p n m (some now) t)
            (s.fits m i (omega (arith, h, other_times m i t)))
    ];
    held = λ m h.
        let (before, t) = still m h in
        Held-eq p (freed p n b) m (block_other p n m (some now) t) (s.held m before);
    room = s.room;
  }

-- What is in use besides a block keeps its bytes when the block is given back.
abbrev pub Released : MemPool → (ℕ → Bool) → ℕ → MemPool → Type 0
Released p live n p' =
    Sound p' (marked live n false)
    × ((m : ℕ) → marked live n false m ≡ true → p'.blocks m ≡ p.blocks m)

-- A block in use that is given back is no longer in use; the pool is sound without it, and the other
-- blocks in use are not changed.
pub memory_free-Released :
    (p : MemPool) (live : ℕ → Bool) (n : ℕ)
    → Sound p live
    → live n ≡ true
    → Returns (memory_free p n) (Released p live n)
memory_free-Released p live n s used =
    let (b, there, shape) = s.held n used in
    elim (Bool-cases b.once) [
      | inl once ↦ (
        with_block p n none,
        free-once p n b there once,
        (gone-Sound n b s used, λ m h. block_other p n m none (still n b s used m h).1),
      )
      | inr listed ↦ (
        freed p n b,
        free-listed p n b there listed,
        (
          listed-Sound n b s used there listed (shape listed),
          λ m h.
              block_other p n m (some (record b { bytes = set b.bytes 0 0 }))
                (still n b s used m h).1,
        ),
      )
    ]
