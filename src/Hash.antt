-- ===== src/Hash.antt =====
-- The two string hashes of lib_mrt/hashdb.c, over unsigned 32-bit words.
use tdss.Common.{ℕ, ◌+◌, ◌-◌, ◌*◌, ◌%◌, ◌^◌, ◌<◌, [], ◌∷◌, arith, ltb, if◌then◌else◌, Bytes}

-- `char` is signed here: a byte of 128 or more is a negative number, taken modulo 2 ^ 32.
abbrev pub char_word : ℕ → ℕ
char_word c = if ltb c 128 then c else c + 2 ^ 32 - 256

-- RShash: the multiplier `a` changes on each round.
index_loop : ℕ → ℕ → Bytes → ℕ
index_loop a hash [] = hash
index_loop a hash (c ∷ str) =
    index_loop (a * 378551 % 2 ^ 32) ((hash * a + char_word c) % 2 ^ 32) str

unfoldable pub hashcode_index : Bytes → ℕ → ℕ
unfolding index_loop
hashcode_index key size = index_loop 63689 0 key % 2 ^ 31 % size

-- BKDRhash
create_loop : ℕ → Bytes → ℕ
create_loop hash [] = hash
create_loop hash (c ∷ str) = create_loop ((hash * 131 + char_word c) % 2 ^ 32) str

unfoldable pub hashcode_create : Bytes → ℕ
unfolding create_loop
hashcode_create key = create_loop 0 key % 2 ^ 31

pub hashcode_index-lt : (key : Bytes) (size : ℕ) → 0 < size → hashcode_index key size < size
unfolding hashcode_index
hashcode_index-lt key size h = omega arith
