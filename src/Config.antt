-- ===== src/Config.antt =====
-- lib_tdss/config.c: which server a name or a number stands for. The loading of the configuration
-- files is not modelled.
use Prim.Native.Nat.{bit_and}
use tdss.Common.{
  ℕ, zero, suc, ◌-◌, ◌^◌, ◌<◌, ◌≤◌, ◌≡◌, refl, true, false, ◌||◌, Option, none, some, List, [], ◌∷◌,
  arith, ltb, leb, if◌then◌else◌, length, get_or, Bytes,
}
use tdss.Run.{Run, ok, fault, ◌>>=◌}

-- `ip4_addr_t`
pub record Addr : Type 0 where
  pub ip : Bytes
  pub port : ℕ

-- `name_server_t`
pub record NameServer : Type 0 where
  pub master : Addr
  pub slave : Addr

-- An element of an array
unfoldable pub element {ℓ} : {A : Type ℓ} → List A → ℕ → Run A
element [] i = fault
element (x ∷ xs) zero = ok x
element (x ∷ xs) (suc i) = element xs i

-- `crc` stands for the two calls of `crc32`.
unfoldable pub ns_index : (Bytes → ℕ) → List NameServer → Bytes → ℕ
ns_index crc servers key = bit_and (crc key) (length servers - 1)

unfoldable pub ns_get_master_addr : (Bytes → ℕ) → List NameServer → Bytes → Run Addr
ns_get_master_addr crc servers key = element servers (ns_index crc servers key) >>= λ s. ok s.master

unfoldable pub ns_get_slave_addr : (Bytes → ℕ) → List NameServer → Bytes → Run Addr
ns_get_slave_addr crc servers key = element servers (ns_index crc servers key) >>= λ s. ok s.slave

-- `server_id` is a 32-bit word, negative from 2 ^ 31 on. No address is MRT_ERR.
unfoldable pub ds_get_addr_by_id : List Addr → ℕ → Run (Option Addr)
ds_get_addr_by_id servers server_id =
    if ltb (length servers) server_id || leb (2 ^ 31) server_id
    then ok none
    else (element servers server_id >>= λ a. ok (some a))

element-get_or :
    {A : Type 0} (xs : List A) (i : ℕ) (d : A) → i < length xs → element xs i ≡ ok (get_or xs i d)
unfolding element
element-get_or [] i d h = absurd (omega arith)
element-get_or (x ∷ xs) zero d h = refl
element-get_or (x ∷ xs) (suc i) d h = element-get_or xs i d (omega arith)

element-past : {A : Type 0} (xs : List A) → element xs (length xs) ≡ fault
unfolding element
element-past [] = refl
element-past (x ∷ xs) = element-past xs

in_range : (n id : ℕ) → id ≤ n → n < 2 ^ 31 → (ltb n id || leb (2 ^ 31) id) ≡ false
in_range n id le small = ground arith

out_of_range : (n id : ℕ) → n < id → (ltb n id || leb (2 ^ 31) id) ≡ true
out_of_range n id more = ground arith

-- With fewer than 2 ^ 31 data servers: the number of a server gives its address, and a larger number
-- than there are servers is refused, but the first number behind the last server reads outside the
-- array.
pub ds_get_addr_by_id-range :
    (servers : List Addr) (server_id : ℕ) (d : Addr)
    → length servers < 2 ^ 31
    → (server_id < length servers
        → ds_get_addr_by_id servers server_id ≡ ok (some (get_or servers server_id d)))
      × (length servers < server_id → ds_get_addr_by_id servers server_id ≡ ok none)
      × (ds_get_addr_by_id servers (length servers) ≡ fault)
unfolding ds_get_addr_by_id
ds_get_addr_by_id-range servers server_id d small = (
  λ inside.
      rw (in_range (length servers) server_id (omega arith) small)
        (rw (element-get_or servers server_id d inside) refl),
  λ more. rw (out_of_range (length servers) server_id more) refl,
  rw (in_range (length servers) (length servers) (omega arith) small)
      (rw (element-past servers) refl),
)
