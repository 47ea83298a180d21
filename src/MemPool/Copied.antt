-- ===== src/MemPool/Copied.antt =====
-- What `memory_realloc` of lib_mrt/mem_pool.c copies into the new block.
use mathlib.Core.Path.{subst}
use tdss.Common.{
  ℕ, zero, suc, ◌-◌, ◌≤◌, ◌≡◌, inl, inr, refl, sym, ◌∙◌, ap, Bool, true, false, Bool-cases, some,
  List, [], ◌∷◌, ◌++◌, ltb, ◌==◌, arith, length, take, drop, length-take, length-append, Bytes,
}
use tdss.MemPool.{MemBlock, MemPool, with_block, width, copied, copy_block}
use tdss.MemPool.Sound.{times, Held, Sound, eq-cases, block_other, block_self, Fits-eq, Held-eq}
use tdss.Run.{Returns, ok}

abbrev pub moved : MemBlock → ℕ → MemBlock → MemBlock
moved old size new = record new {
  bytes = take (copied old size) old.bytes ++ drop (copied old size) new.bytes;
}

pub copy_block-moved :
    (p : MemPool) (old new : MemBlock) (size m : ℕ)
    → p.blocks m ≡ some new
    → copy_block p old size m ≡ ok (with_block p m (some (moved old size new)))
unfolding copy_block
copy_block-moved p old new size m there = rw (there, copy_block) refl

-- The bytes of a block in use are replaced by as many.
module _ {p : MemPool} {live : ℕ → Bool} (m : ℕ) (b : MemBlock) (bytes : Bytes) (s : Sound p live)
    (used : live m ≡ true) (there : p.blocks m ≡ some b)
    (same : length bytes ≡ length b.bytes) where
  abbrev pub rewritten : MemPool
  rewritten = with_block p m (some (record b { bytes = bytes }))

  same_block : (c : MemBlock) → p.blocks m ≡ some c → c ≡ b
  same_block c e = some_injective (sym e ∙ there)
    where
      some_injective : some c ≡ some b → c ≡ b
      some_injective q = cc

  rewritten-Held : Held p m → Held rewritten m
  rewritten-Held (c, here, shape) = (
    record b { bytes = bytes },
    block_self p m (some (record b { bytes = bytes })),
    λ o.
        let q = same_block c here in
        let (size, long) = shape (ap (λ (d : MemBlock). d.once) q ∙ o) in
        (
          sym (ap (λ (d : MemBlock). d.mem_size) q)
              ∙ size
              ∙ ap (λ (d : MemBlock). width d.blst_id) q,
          same
              ∙ sym (ap (λ (d : MemBlock). length d.bytes) q)
              ∙ long
              ∙ ap (λ (d : MemBlock). width d.blst_id) q,
        ),
  )

  pub rewritten-Sound : Sound rewritten live
  rewritten-Sound = record {
    made = s.made;
    made_free = s.made_free;
    once_each = s.once_each;
    apart = s.apart;
    fits = λ n i h. elim (eq-cases n m) [
      | inl (e, t) ↦
          absurd (omega (arith, h, s.apart m i used, ap (λ (k : ℕ). times k (p.free_blst i)) e))
      | inr (_, t) ↦ Fits-eq p rewritten i n (block_other p m n _ t) (s.fits n i h)
    ];
    held = λ n h. elim (eq-cases n m) [
      | inl (e, t) ↦ subst (Held rewritten) (sym e) (rewritten-Held (s.held m used))
      | inr (_, t) ↦ Held-eq p rewritten n (block_other p m n _ t) (s.held n h)
    ];
    room = s.room;
  }

length-drop_lem : {A : Type 0} (n : ℕ) (xs : List A) → length (drop n xs) ≡ length xs - n
length-drop_lem zero xs = omega arith
length-drop_lem (suc n) [] = omega arith
length-drop_lem (suc n) (x ∷ xs) = omega (arith, length-drop_lem n xs)

overlay-length :
    {A : Type 0} (c : ℕ) (xs ys : List A)
    → c ≤ length xs
    → c ≤ length ys
    → length (take c xs ++ drop c ys) ≡ length ys
overlay-length c xs ys h k =
    omega
      (arith, h, k, length-append (take c xs) (drop c ys), length-take c xs h, length-drop_lem c ys)

overlay-take :
    {A : Type 0} (i c : ℕ) (xs ys : List A)
    → i ≤ c
    → c ≤ length xs
    → take i (take c xs ++ ys) ≡ take i xs
overlay-take zero c xs ys h k = refl
overlay-take (suc i) zero xs ys h k = absurd (omega (arith, h))
overlay-take (suc i) (suc c) [] ys h k = absurd (omega (arith, k))
overlay-take (suc i) (suc c) (x ∷ xs) ys h k =
    ap (λ zs. x ∷ zs) (overlay-take i c xs ys (omega (arith, h)) (omega (arith, k)))

copied-bounds :
    (b : MemBlock) (size : ℕ)
    → (copied b size ≤ size)
      × (copied b size ≤ b.mem_size)
      × ((i : ℕ) → i ≤ size → i ≤ b.mem_size → i ≤ copied b size)
copied-bounds b size = elim (Bool-cases (ltb size b.mem_size)) [
  | inl less ↦ rw less (omega arith, ground arith, λ i h k. h)
  | inr more ↦ rw more (ground arith, omega arith, λ i h k. k)
]

-- The bytes of an old block are in another one, as many as both sizes allow; the rest is as before.
abbrev pub Copied : MemPool → (ℕ → Bool) → ℕ → MemBlock → ℕ → MemPool → Type 0
Copied p live m old size p' =
    Sound p' live
    × ((new : MemBlock) × (p'.blocks m ≡ some new)
        × (size ≤ length new.bytes)
        × ((i : ℕ) → i ≤ size → i ≤ length old.bytes → take i new.bytes ≡ take i old.bytes))
    × ((k : ℕ) → (k == m) ≡ false → p'.blocks k ≡ p.blocks k)

pub copy_block-Copied :
    (p : MemPool) (live : ℕ → Bool) (m size : ℕ) (old new : MemBlock)
    → Sound p live
    → live m ≡ true
    → p.blocks m ≡ some new
    → length old.bytes ≡ old.mem_size
    → size ≤ length new.bytes
    → Returns (copy_block p old size m) (Copied p live m old size)
copy_block-Copied p live m size old new s used there shape long =
    let (c_size, c_old, c_all) = copied-bounds old size in
    let all_there : copied old size ≤ length old.bytes = omega (arith, c_old, shape) in
    let bytes = take (copied old size) old.bytes ++ drop (copied old size) new.bytes in
    let same : length bytes ≡ length new.bytes =
      overlay-length (copied old size) old.bytes new.bytes all_there
        (omega (arith, c_size, long)) in
    let now = some (moved old size new) in
    (
      with_block p m now,
      copy_block-moved p old new size m there,
      (
        rewritten-Sound m new bytes s used there same,
        (
          moved old size new,
          block_self p m now,
          omega (arith, same, long),
          λ i h k.
              overlay-take i (copied old size) old.bytes (drop (copied old size) new.bytes)
                (c_all i h (omega (arith, k, shape))) all_there,
        ),
        λ k t. block_other p m k now t,
      ),
    )
