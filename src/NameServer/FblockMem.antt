-- ===== src/NameServer/FblockMem.antt =====
-- name_server/fblock_mem.c: what is kept of a file in the hash table, as the bytes of a
-- `fblock_mem_t`, and the operations on it. The hash table `fbdb` is passed along.
use tdss.Common.{
  ℕ, ◌+◌, ◌-◌, ◌*◌, ◌/◌, ◌%◌, ◌^◌, Bool, true, false, Option, none, some, [], ◌∷◌, ◌++◌, ltb,
  if◌then◌else◌, Bytes,
}
use tdss.Hashdb.{
  Ptr, Hashdb, Code, hdb_ok, hdb_err_nomem, hdb_key_exist, hdb_key_nofound, hdb_arg_inval, Env,
  load, hashdb_find,
}
use tdss.Hashdb.Ops.{hashdb_insert, hashdb_delete, set_val}
use tdss.Run.{Run, ok, fault, ◌>>=◌}

-- `fblock_mem_t`. `suffix` is a word: the field and the two bytes of padding behind it, to which
-- `sscanf` writes as well.
pub record FblockMem : Type 0 where
  pub server : ℕ
  pub ref : ℕ
  pub size : ℕ
  pub prefix : ℕ
  pub suffix : ℕ
  pub offset : ℕ

-- `fblock_t`. The `int`s are 32-bit words.
pub record Fblock : Type 0 where
  pub server : ℕ
  pub size : ℕ
  pub offset : ℕ
  pub ref : ℕ
  pub name : Bytes
  pub file : Bytes

abbrev pub word : ℕ → Bytes
word n = (n % 256) ∷ (n / 256 % 256) ∷ (n / 65536 % 256) ∷ (n / 16777216 % 256) ∷ []

-- The structure in memory, little-endian, with two bytes of padding behind each 16-bit field.
unfoldable pub fbm_bytes : FblockMem → Bytes
fbm_bytes b =
    (b.server % 256)
    ∷ (b.server / 256 % 256)
    ∷ 0
    ∷ 0
    ∷ (word b.ref ++ (word b.size ++ (word b.prefix ++ (word b.suffix ++ word b.offset))))

abbrev pub of_word : ℕ → ℕ → ℕ → ℕ → ℕ
of_word a b c d = a + b * 256 + c * 65536 + d * 16777216

-- The structure that a `fblock_mem_t *` to the bytes gives; with fewer bytes it reads outside them.
unfoldable pub fbm_of : Bytes → Option FblockMem
fbm_of
      (a₀ ∷ a₁ ∷ _ ∷ _ ∷ b₀ ∷ b₁ ∷ b₂ ∷ b₃ ∷ c₀ ∷ c₁ ∷ c₂ ∷ c₃ ∷ d₀ ∷ d₁ ∷ d₂ ∷ d₃ ∷ e₀ ∷ e₁ ∷ e₂
        ∷ e₃ ∷ g₀ ∷ g₁ ∷ g₂ ∷ g₃ ∷ []) =
    some (record {
      server = a₀ + a₁ * 256;
      ref = of_word b₀ b₁ b₂ b₃;
      size = of_word c₀ c₁ c₂ c₃;
      prefix = of_word d₀ d₁ d₂ d₃;
      suffix = of_word e₀ e₁ e₂ e₃;
      offset = of_word g₀ g₁ g₂ g₃;
    })
fbm_of _ = none

-- `*fbm` for the value of the entry at `p`.
unfoldable pub load_fbm : Hashdb → Ptr → Run FblockMem
load_fbm m p = load m.heap.cell p >>= λ e. elim (fbm_of e.val) [ none ↦ fault | some b ↦ ok b ]

-- -1, 0 and 1
pub data Result : Type 0 where
  sys_err no_file done : Result

-- `fbm->ref++` on an unsigned 32-bit field, in the table's memory.
unfoldable pub fblock_ref_inc : Hashdb → Bytes → Run (Result × Hashdb)
fblock_ref_inc m name = hashdb_find m name >>= λ r. elim r.0 [
  | hdb_key_nofound ↦ ok (no_file, m)
  | hdb_ok ↦ load_fbm m r.1 >>= λ b.
      set_val m r.1 (fbm_bytes (record b { ref = (b.ref + 1) % 2 ^ 32 })) >>= λ m'. ok (done, m')
  | hdb_err_nomem ↦ ok (sys_err, m)
  | hdb_key_exist ↦ ok (sys_err, m)
  | hdb_arg_inval ↦ ok (sys_err, m)
]

-- `fbm->ref--`, and the deletion at 0; what the deletion returns is ignored. Any error but a missing
-- key goes on with the null pointer.
unfoldable pub ref_dec_at : Hashdb → Bytes → Ptr → Env → Run (Result × Hashdb)
ref_dec_at m name p env = load_fbm m p >>= λ b.
    set_val m p (fbm_bytes (record b { ref = (b.ref + 2 ^ 32 - 1) % 2 ^ 32 })) >>= λ m'.
    if ltb ((b.ref + 2 ^ 32 - 1) % 2 ^ 32) 1
    then (hashdb_delete m' name env >>= λ r. ok (done, r.1))
    else ok (done, m')

unfoldable pub fblock_ref_dec : Hashdb → Bytes → Env → Run (Result × Hashdb)
fblock_ref_dec m name env = hashdb_find m name >>= λ r. elim r.0 [
  | hdb_key_nofound ↦ ok (no_file, m)
  | hdb_ok ↦ ref_dec_at m name r.1 env
  | hdb_err_nomem ↦ ref_dec_at m name r.1 env
  | hdb_key_exist ↦ ref_dec_at m name r.1 env
  | hdb_arg_inval ↦ ref_dec_at m name r.1 env
]

-- `scan` stands for `sscanf(file, "%x.%x")`, which gives two numbers or fails, and writes four bytes
-- for each.
unfoldable pub fblock_to_mem : (Bytes → Option (ℕ × ℕ)) → Fblock → Option FblockMem
fblock_to_mem scan fb = elim (scan fb.file) [
  | none ↦ none
  | some (prefix, suffix) ↦ some (record {
    server = fb.server % 2 ^ 16;
    ref = 1;
    size = fb.size % 2 ^ 32;
    prefix = prefix % 2 ^ 32;
    suffix = suffix % 2 ^ 32;
    offset = fb.offset % 2 ^ 32;
  })
]

-- The flag is false for MRT_ERR.
unfoldable pub fblock_mem_add :
    (Bytes → Option (ℕ × ℕ)) → Hashdb → Fblock → Env → Run (Bool × Hashdb)
fblock_mem_add scan m fb env = elim (fblock_to_mem scan fb) [
  | none ↦ ok (false, m)
  | some b ↦ hashdb_insert m fb.name (fbm_bytes b) env >>= λ r. elim r.0 [
    | hdb_key_exist ↦ fblock_ref_inc r.1 fb.name >>= λ s.
        ok (elim s.0 [ done ↦ (true, s.1) | no_file ↦ (false, s.1) | sys_err ↦ (false, s.1) ])
    | hdb_ok ↦ ok (true, r.1)
    | hdb_key_nofound ↦ ok (false, r.1)
    | hdb_err_nomem ↦ ok (false, r.1)
    | hdb_arg_inval ↦ ok (false, r.1)
  ]
]

-- `print` stands for `snprintf` with "%x.%x". No value is MRT_ERR.
unfoldable pub fblock_mem_get : (ℕ → ℕ → Bytes) → Hashdb → Fblock → Run (Option Fblock)
fblock_mem_get print m fb = hashdb_find m fb.name >>= λ r. elim r.0 [
  | hdb_ok ↦ load_fbm m r.1 >>= λ b. ok (
      some (record fb {
        file = print b.prefix (b.suffix % 2 ^ 16);
        server = b.server;
        offset = b.offset;
        size = b.size;
        ref = b.ref;
      }))
  | hdb_key_nofound ↦ ok none
  | hdb_err_nomem ↦ ok none
  | hdb_key_exist ↦ ok none
  | hdb_arg_inval ↦ ok none
]

-- The size and the number of entries in the answer to `status`.
unfoldable pub fblock_mem_status : Hashdb → ℕ × ℕ
fblock_mem_status m = (m.size, m.used)

abbrev is_ok : Code → Bool
is_ok hdb_ok = true
is_ok hdb_err_nomem = false
is_ok hdb_key_exist = false
is_ok hdb_key_nofound = false
is_ok hdb_arg_inval = false

-- Sets nothing when the file is there, and goes on with the null pointer when it is not. The
-- `memcpy` of eight bytes copies the server and the count, and the count is put back.
unfoldable pub fblock_mem_set : (Bytes → Option (ℕ × ℕ)) → Hashdb → Fblock → Run (Bool × Hashdb)
fblock_mem_set scan m fb = elim (fblock_to_mem scan fb) [
  | none ↦ ok (false, m)
  | some b ↦ hashdb_find m fb.name >>= λ r. elim (is_ok r.0) [
    | true ↦ ok (true, m)
    | false ↦ load_fbm m r.1 >>= λ old.
        set_val m r.1 (fbm_bytes (record old { server = b.server })) >>= λ m'. ok (true, m')
  ]
]
