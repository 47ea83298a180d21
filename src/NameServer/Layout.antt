-- ===== src/NameServer/Layout.antt =====
-- The bytes of a `fblock_mem_t` of name_server/fblock_mem.h, written and read back.
use tdss.Common.{ℕ, ◌+◌, ◌*◌, ◌/◌, ◌%◌, ◌^◌, ◌<◌, ◌≡◌, refl, arith, some}
use tdss.NameServer.FblockMem.{FblockMem, fbm_bytes, fbm_of, of_word}

-- Every field fits its width.
abbrev pub Fits : FblockMem → Type 0
Fits b =
    (b.server < 2 ^ 16)
    × (b.ref < 2 ^ 32)
    × (b.size < 2 ^ 32)
    × (b.prefix < 2 ^ 32)
    × (b.suffix < 2 ^ 32)
    × (b.offset < 2 ^ 32)

half_word : (n : ℕ) → n < 2 ^ 16 → n % 256 + n / 256 % 256 * 256 ≡ n
half_word n h = omega arith

whole_word :
    (n : ℕ)
    → n < 2 ^ 32
    → of_word (n % 256) (n / 256 % 256) (n / 65536 % 256) (n / 16777216 % 256) ≡ n
whole_word n h = omega arith

-- The bytes of a structure whose fields fit their widths give the structure back.
pub fbm_of-fbm_bytes : (b : FblockMem) → Fits b → fbm_of (fbm_bytes b) ≡ some b
unfolding fbm_bytes fbm_of
fbm_of-fbm_bytes b (server, ref, size, prefix, suffix, offset) =
    rw
      (
        half_word b.server server,
        whole_word b.ref ref,
        whole_word b.size size,
        whole_word b.prefix prefix,
        whole_word b.suffix suffix,
        whole_word b.offset offset,
      )
      refl
