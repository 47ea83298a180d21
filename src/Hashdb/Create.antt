-- ===== src/Hashdb/Create.antt =====
-- `hashdb_create` of lib_mrt/hashdb.c.
use native.Mathlib.Numerals.{add-one}
use tdss.Common.{
  ℕ, zero, suc, ◌<◌, ◌≡◌, refl, inl, inr, true, false, none, some, List, [], ◌∷◌, arith, ltb, leb,
  ◌≤◌, lt→ltb, ltb→lt, Bool-cases, length, get_or, replicate, length-replicate, get_or-replicate,
  flatten-replicate,
}
use tdss.Hash.{hashcode_index}
use tdss.Hashdb.{null, Hashdb, Env, primes, blank, prime_index, hashdb_size, hashdb_create}
use tdss.Hashdb.Chain.{Cells, lookup}
use tdss.Hashdb.Holds.{Holds, Represents}

-- With a larger prime at place `i` the index is `i` at most, and what stands there is larger too.
prime_index-le :
    (ps : List ℕ) (size i : ℕ)
    → i < length ps
    → size < get_or ps i 0
    → (prime_index ps size ≤ i) × (size < get_or ps (prime_index ps size) 0)
unfolding prime_index
prime_index-le [] size i h g = absurd (omega arith)
prime_index-le (p ∷ ps) size zero h g = rw (lt→ltb size p g) (omega arith, g)
prime_index-le (p ∷ ps) size (suc i) h g = elim (Bool-cases (ltb size p)) [
  | inl e ↦ rw e (omega arith, ltb→lt size p e)
  | inr e ↦
      let (le, lt) = prime_index-le ps size i (omega arith) g in
      rw (e, add-one (prime_index ps size)) (omega arith, lt)
]

no_cells : (n i : ℕ) → get_or {A = Cells} (replicate n []) i [] ≡ []
no_cells n i = get_or-replicate n i []

-- A table of `n` empty chains stands for the empty map.
pub empty-Holds :
    (n idx : ℕ)
    → 0 < n
    → Holds
        (record blank { idx = idx; buckets = replicate n null; size = n })
        (replicate n [])
        (λ _. none)
unfolding lookup
empty-Holds n idx pos = record {
  pos = pos;
  width = length-replicate n null;
  height = length-replicate n [];
  heads = λ i. rw (get_or-replicate n i null, no_cells n i);
  chains = λ i. rw (no_cells n i) tt;
  live = rw (flatten-replicate n);
  used = refl;
  reads = λ k. rw (no_cells n (hashcode_index k n));
}

-- For a size below the largest prime, and if there is memory, `hashdb_create` returns an empty table
-- of more than that many chains, in no use of a log; without memory it returns none.
pub hashdb_create-Represents :
    (size : ℕ) (env : Env)
    → size < 101198593
    → (env.table_mem ≡ true
        → (m : Hashdb) × (hashdb_create size env ≡ some m)
          × Represents m (λ _. none)
          × (size < m.size)
          × (m.stat ≡ 0)
          × (m.heap ≡ blank.heap)
          × (m.binlog ≡ []))
      × (env.table_mem ≡ false → hashdb_create size env ≡ none)
unfolding hashdb_create hashdb_size
hashdb_create-Represents size env small =
    let (le, lt) = prime_index-le primes size 163 (omega arith) small in
    let idx = prime_index primes size in
    let n = get_or primes idx 0 in
    let in_range : leb (length primes) idx ≡ false = ground arith in
    (
      λ mem. (
        record blank { idx = idx; buckets = replicate n null; size = n },
        rw (mem, in_range) refl,
        (replicate n [], empty-Holds n idx (omega arith)),
        lt,
        refl,
        refl,
        refl,
      ),
      λ no_mem. rw (no_mem, in_range) refl,
    )
