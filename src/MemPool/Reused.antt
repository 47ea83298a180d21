-- ===== src/MemPool/Reused.antt =====
-- A block of lib_mrt/mem_pool.c that is used again.
use tdss.Common.{
  ℕ, zero, suc, ◌<◌, ◌≤◌, ◌≡◌, ◌≢◌, ◌⊎◌, inl, inr, refl, sym, ◌∙◌, ap, Bool, true, false, some,
  List, ◌∷◌, ◌==◌, arith, replicate, length-replicate,
}
use tdss.MemPool.{MemBlock, MemPool, with_block, with_list, width}
use tdss.MemPool.Sound.{times, Sound, marked, eq-cases, times_self, block_other, Fits-eq, Held-eq}

pub list_self :
    (p : MemPool) (i : ℕ) (ns : List ℕ) (j : ℕ)
    → (j == i) ≡ true
    → (with_list p i ns).free_blst j ≡ ns
list_self p i ns j e = rw e refl

pub list_other :
    (p : MemPool) (i : ℕ) (ns : List ℕ) (j : ℕ)
    → (j == i) ≡ false
    → (with_list p i ns).free_blst j ≡ p.free_blst j
list_other p i ns j e = rw e refl

pub mark_other :
    (live : ℕ → Bool) (n m : ℕ) (v : Bool) → (m == n) ≡ false → marked live n v m ≡ live m
mark_other live n m v e = rw e refl

pub zero-cases : (n : ℕ) → (n ≡ 0) ⊎ (0 < n)
zero-cases zero = inl refl
zero-cases (suc n) = inr (omega arith)

pub some_eq : {b c : MemBlock} → some b ≡ some c → b ≡ c
some_eq e = cc

-- A block of the list of a number is in no other list.
pub only_list :
    {p : MemPool} {live : ℕ → Bool} (n i j : ℕ)
    → Sound p live
    → 0 < times n (p.free_blst i)
    → j ≢ i
    → times n (p.free_blst j) ≡ 0
only_list {p} n i j s h ne =
    let (b, there, _, id, _, _) = s.fits n i h in
    elim (zero-cases (times n (p.free_blst j))) [
      | inl none_there ↦ none_there
      | inr k ↦
          let (b', there', _, id', _, _) = s.fits n j k in
          absurd
            (ne (sym id' ∙ ap (λ (c : MemBlock). c.blst_id) (some_eq (sym there' ∙ there)) ∙ id))
    ]

-- A block is taken from the front of a list.
abbrev pub popped : MemPool → ℕ → ℕ → List ℕ → MemBlock → MemPool
popped p i n rest b =
    with_block (with_list p i rest) n (some (record b { bytes = replicate (width i) 0 }))

times-le : (m n : ℕ) (rest : List ℕ) → times m rest ≤ times m (n ∷ rest)
times-le m n rest = omega arith

module _ {p : MemPool} {live : ℕ → Bool} (i n : ℕ) (rest : List ℕ) (b : MemBlock) (s : Sound p live)
    (here : p.free_blst i ≡ n ∷ rest) (there : p.blocks n ≡ some b) where
  abbrev pub after_pop : MemPool
  after_pop = popped p i n rest b

  pub front : times n (p.free_blst i) ≡ suc (times n rest)
  front = ap (times n) here ∙ times_self n rest

  fewer : (m : ℕ) → times m rest ≤ times m (p.free_blst i)
  fewer m = omega (arith, ap (times m) here, times-le m n rest)

  -- No list has more of a block than before.
  lists_fewer : (m j : ℕ) → times m (after_pop.free_blst j) ≤ times m (p.free_blst j)
  lists_fewer m j = elim (eq-cases j i) [
    | inl (e, t) ↦ rw t (omega (arith, fewer m, ap (λ (k : ℕ). times m (p.free_blst k)) e))
    | inr (_, t) ↦ rw t (omega arith)
  ]

  gone : (j : ℕ) → times n (after_pop.free_blst j) ≡ 0
  gone j = elim (eq-cases j i) [
    | inl (e, t) ↦ rw t (omega (arith, front, s.once_each n i))
    | inr (ne, t) ↦ rw t (only_list n i j s (omega (arith, front)) ne)
  ]

  pub popped-Sound : b.blst_id ≡ i → b.mem_size ≡ width i → Sound after_pop (marked live n true)
  popped-Sound id size = record {
    made = λ m h. elim (eq-cases m n) [
      | inl (e, t) ↦ absurd (omega (arith, front, s.made_free n i (omega (arith, h, e))))
      | inr (_, t) ↦ mark_other live n m true t ∙ s.made m h
    ];
    made_free = λ m j h. omega (arith, lists_fewer m j, s.made_free m j h);
    once_each = λ m j. omega (arith, lists_fewer m j, s.once_each m j);
    apart = λ m j h. elim (eq-cases m n) [
      | inl (e, t) ↦ ap (λ (k : ℕ). times k (after_pop.free_blst j)) e ∙ gone j
      | inr (_, t) ↦
          omega (arith, lists_fewer m j, s.apart m j (sym (mark_other live n m true t) ∙ h))
    ];
    fits = λ m j h. elim (eq-cases m n) [
      | inl (e, t) ↦
          absurd (omega (arith, h, ap (λ (k : ℕ). times k (after_pop.free_blst j)) e ∙ gone j))
      | inr (_, t) ↦
          Fits-eq p after_pop j m (block_other (with_list p i rest) n m _ t)
            (s.fits m j (omega (arith, h, lists_fewer m j)))
    ];
    held = λ m h. elim (eq-cases m n) [
      | inl (e, t) ↦ (
        record b { bytes = replicate (width i) 0 },
        rw t refl,
        λ o. (size ∙ ap width (sym id), length-replicate (width i) 0 ∙ ap width (sym id)),
      )
      | inr (_, t) ↦
          Held-eq p after_pop m (block_other (with_list p i rest) n m _ t)
            (s.held m (sym (mark_other live n m true t) ∙ h))
    ];
    room = s.room;
  }
