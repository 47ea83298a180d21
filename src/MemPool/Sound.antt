-- ===== src/MemPool/Sound.antt =====
-- No block of lib_mrt/mem_pool.c is in use twice.
use tdss.Common.{
  ℕ, suc, ◌+◌, ◌^◌, ◌<◌, ◌≤◌, ◌≡◌, ◌≢◌, ◌⊎◌, inl, inr, refl, sym, ◌∙◌, Bool, true, false,
  Bool-cases, Option, none, some, List, [], ◌∷◌, ltb, ◌==◌, if◌then◌else◌, arith, length,
}
use tdss.MemPool.{MemBlock, MemPool, MemSystem, with_block, activate, use_slave, refill, width}

-- How often a block stands in a list.
abbrev pub times : ℕ → List ℕ → ℕ
times n [] = 0
times n (m ∷ ms) = (if n == m then 1 else 0) + times n ms

-- A block that can be given out again by the list of a number.
abbrev pub Fits : MemPool → ℕ → ℕ → Type 0
Fits p i n =
    (b : MemBlock) × (p.blocks n ≡ some b)
    × (b.once ≡ false)
    × (b.blst_id ≡ i)
    × (b.mem_size ≡ width i)
    × (length b.bytes ≡ width i)

-- What a holder of a block relies on.
abbrev pub Held : MemPool → ℕ → Type 0
Held p n =
    (b : MemBlock) × (p.blocks n ≡ some b)
    × (b.once ≡ false → (b.mem_size ≡ width b.blst_id) × (length b.bytes ≡ width b.blst_id))

-- The blocks in use are there and in no list; a list has no block twice, and blocks of its size; and
-- there are no blocks but those that have been made.
pub record Sound (p : MemPool) (live : ℕ → Bool) : Type 0 where
  pub made : (n : ℕ) → p.next ≤ n → live n ≡ false
  pub made_free : (n i : ℕ) → p.next ≤ n → times n (p.free_blst i) ≡ 0
  pub once_each : (n i : ℕ) → times n (p.free_blst i) ≤ 1
  pub apart : (n i : ℕ) → live n ≡ true → times n (p.free_blst i) ≡ 0
  pub fits : (n i : ℕ) → 0 < times n (p.free_blst i) → Fits p i n
  pub held : (n : ℕ) → live n ≡ true → Held p n
  pub room : p.used ≤ 2 ^ 24

abbrev pub marked : (ℕ → Bool) → ℕ → Bool → ℕ → Bool
marked live n v m = if m == n then v else live m

pub eq-cases : (m n : ℕ) → ((m ≡ n) × ((m == n) ≡ true)) ⊎ ((m ≢ n) × ((m == n) ≡ false))
eq-cases m n = elim (Bool-cases (m == n)) [
  | inl e ↦ inl (ground arith, e)
  | inr e ↦ inr (λ q. ground arith, e)
]

pub times_self : (n : ℕ) (ns : List ℕ) → times n (n ∷ ns) ≡ suc (times n ns)
times_self n ns = let e : (n == n) ≡ true = ground arith in rw e (omega arith)

pub times_other : (m n : ℕ) (ns : List ℕ) → (m == n) ≡ false → times m (n ∷ ns) ≡ times m ns
times_other m n ns e = rw e (omega arith)

pub block_other :
    (p : MemPool) (n m : ℕ) (b : Option MemBlock)
    → (m == n) ≡ false
    → (with_block p n b).blocks m ≡ p.blocks m
block_other p n m b e = rw e refl

pub block_self : (p : MemPool) (n : ℕ) (b : Option MemBlock) → (with_block p n b).blocks n ≡ b
block_self p n b = let e : (n == n) ≡ true = ground arith in rw e refl

pub Fits-eq : (p p' : MemPool) (i n : ℕ) → p'.blocks n ≡ p.blocks n → Fits p i n → Fits p' i n
Fits-eq p p' i n e (b, there, once, id, size, bytes) = (b, e ∙ there, once, id, size, bytes)

pub Held-eq : (p p' : MemPool) (n : ℕ) → p'.blocks n ≡ p.blocks n → Held p n → Held p' n
Held-eq p p' n e (b, there, rest) = (b, e ∙ there, rest)

-- What the master and the slave are is not looked at.
resized :
    {live : ℕ → Bool} (p : MemPool) (master used memories : ℕ) (slave : Option ℕ)
    → used ≤ 2 ^ 24
    → Sound p live
    → Sound (record p { master = master; used = used; slave = slave; memories = memories }) live
resized p master used memories slave fine s = record {
  made = s.made;
  made_free = s.made_free;
  once_each = s.once_each;
  apart = s.apart;
  fits = λ n i h. s.fits n i h;
  held = λ n h. s.held n h;
  room = fine;
}

-- The pool is sound, has the same blocks, and its master has room for the largest block.
abbrev pub Ready : MemPool → (ℕ → Bool) → MemPool → Type 0
Ready p live p' =
    Sound p' live × (p'.used + 32768 ≤ 2 ^ 24) × (p'.blocks ≡ p.blocks) × (p'.next ≡ p.next)

activate-Ready :
    {live : ℕ → Bool} (m : ℕ) (p : MemPool) → Sound p live → Ready p live (activate m p)
unfolding activate
activate-Ready m p s = elim (Bool-cases (ltb (2 ^ 24) (p.used + 32768))) [
  | inl low ↦ rw low (resized p m 0 p.memories none (omega arith) s, omega arith, refl, refl)
  | inr enough ↦
      rw enough (resized p p.master p.used p.memories (some m) s.room s, ground arith, refl, refl)
]

use_slave-Ready :
    {live : ℕ → Bool} (sys : MemSystem) (p : MemPool) (slave : Option ℕ)
    → ((n : ℕ) → sys.malloc_ok n ≡ true)
    → Sound p live
    → (p' : MemPool) × (use_slave sys p slave ≡ some p') × Ready p live p'
unfolding use_slave
use_slave-Ready sys p (some m) memory s = (activate m p, refl, activate-Ready m p s)
use_slave-Ready sys p none memory s =
    let q : MemPool = record p { memories = p.memories + 1 } in
    (
      activate p.memories q,
      rw (memory (2 ^ 24)) refl,
      activate-Ready p.memories q (resized p p.master p.used (p.memories + 1) p.slave s.room s),
    )

pub refill-Ready :
    {live : ℕ → Bool} (sys : MemSystem) (p : MemPool)
    → ((n : ℕ) → sys.malloc_ok n ≡ true)
    → Sound p live
    → (p' : MemPool) × (refill sys p ≡ some p') × Ready p live p'
unfolding refill
refill-Ready sys p memory s = elim (Bool-cases (ltb (2 ^ 24) (p.used + 131072))) [
  | inr enough ↦ (p, rw enough refl, (s, ground arith, refl, refl))
  | inl low ↦
      let (p', run, ready) = use_slave-Ready sys p p.slave memory s in (p', rw low run, ready)
]

abbrev pub added : MemPool → MemBlock → ℕ → MemPool
added p b used = record (with_block p p.next (some b)) { next = p.next + 1; used = used }

-- A block is made and handed out.
pub made-Sound :
    {live : ℕ → Bool} (p : MemPool) (b : MemBlock) (used : ℕ)
    → Sound p live
    → used ≤ 2 ^ 24
    → (b.once ≡ false → (b.mem_size ≡ width b.blst_id) × (length b.bytes ≡ width b.blst_id))
    → Sound (added p b used) (marked live p.next true)
made-Sound {live} p b used s fine shape = record {
  made = λ n h. rw (above n h) (s.made n (omega (arith, h)));
  made_free = λ n i h. s.made_free n i (omega (arith, h));
  once_each = s.once_each;
  apart = λ n i h. elim (eq-cases n p.next) [
    | inl (e, t) ↦ s.made_free n i (omega (arith, e))
    | inr (_, t) ↦ s.apart n i (sym (rw t refl) ∙ h)
  ];
  fits = λ n i h. elim (eq-cases n p.next) [
    | inl (e, t) ↦ absurd (omega (arith, h, s.made_free n i (omega (arith, e))))
    | inr (_, t) ↦ Fits-eq p (added p b used) i n (block_other p p.next n (some b) t) (s.fits n i h)
  ];
  held = λ n h. elim (eq-cases n p.next) [
    | inl (e, t) ↦ (b, rw t refl, shape)
    | inr (_, t) ↦
        Held-eq p (added p b used) n (block_other p p.next n (some b) t)
          (s.held n (sym (rw t refl) ∙ h))
  ];
  room = fine;
}
  where
    above : (n : ℕ) → p.next + 1 ≤ n → (n == p.next) ≡ false
    above n h = ground arith
