-- ===== src/Hashdb/Chain.antt =====
-- What a chain of lib_mrt/hashdb.c stands for: the cells from a bucket's head along `next`.
use tdss.Common.{
  ℕ, zero, suc, ◌<◌, ◌≡◌, refl, ◌∙◌, ◌≢◌, inl, inr, Bool, true, false, ◌||◌, Option, none, some,
  List, [], ◌∷◌, arith, ◌==◌, Bool-cases, if◌then◌else◌, length, Bytes, bytes_eq, eq_of_bytes_eq,
}
use tdss.Common.{sym}
use tdss.Hash.{hashcode_index, hashcode_create}
use tdss.Hashdb.{Ptr, null, Entry, load, matches, locate_loop, write}
use tdss.Run.{ok}

pub record Cell : Type 0 where
  pub addr : Ptr
  pub key : Bytes
  pub val : Bytes
  pub val_type : ℕ

abbrev pub Cells : Type 0
Cells = List Cell

abbrev pub head : Cells → Ptr
head [] = null
head (c ∷ xs) = c.addr

-- The entry that holds a cell between two others.
abbrev pub entry_of : Cell → Ptr → Ptr → Entry
entry_of c prev next = record {
  key = c.key;
  val = c.val;
  val_type = c.val_type;
  hash_code = hashcode_create c.key;
  next = next;
  prev = prev;
}

abbrev pub has : Ptr → Cells → Bool
has a [] = false
has a (c ∷ xs) = (a == c.addr) || has a xs

unfoldable pub find_addr : Bytes → Cells → Ptr
find_addr key [] = null
find_addr key (c ∷ xs) = if bytes_eq key c.key then c.addr else find_addr key xs

unfoldable pub lookup : Bytes → Cells → Option Bytes
lookup key [] = none
lookup key (c ∷ xs) = if bytes_eq key c.key then some c.val else lookup key xs

-- Distinct non-null addresses and distinct keys of bucket `i`, linked both ways.
abbrev pub Chain : (Ptr → Option Entry) → ℕ → ℕ → Ptr → Cells → Type 0
Chain h size i prev [] = Unit
Chain h size i prev (c ∷ xs) =
    (c.addr ≢ null)
    × (h c.addr ≡ some (entry_of c prev (head xs)))
    × (hashcode_index c.key size ≡ i)
    × (has c.addr xs ≡ false)
    × (lookup c.key xs ≡ none)
    × Chain h size i c.addr xs

pub matches-entry_of :
    (key : Bytes) (c : Cell) (prev next : Ptr)
    → matches key (hashcode_create key) (entry_of c prev next) ≡ bytes_eq key c.key
unfolding matches
matches-entry_of key c prev next = ground (arith, eq_of_bytes_eq key c.key)

module _ (h : Ptr → Option Entry) (size i : ℕ) where
  -- The loop over a chain ends, at the first cell with the key.
  pub locate_loop-find_addr :
      (fuel : ℕ) (key : Bytes) (prev : Ptr) (xs : Cells)
      → Chain h size i prev xs
      → length xs < fuel
      → locate_loop fuel h key (hashcode_create key) (head xs) ≡ ok (find_addr key xs)
  unfolding locate_loop find_addr load
  locate_loop-find_addr zero key prev xs t f = absurd (omega arith)
  locate_loop-find_addr (suc fuel) key prev [] t f = refl
  locate_loop-find_addr (suc fuel) key prev (c ∷ xs) t f =
      ground
        (arith, matches-entry_of key c prev (head xs), locate_loop-find_addr fuel key c.addr xs t.5)

  -- A chain survives any change that spares its own addresses.
  pub frame :
      (g : Ptr → Option Entry) (prev : Ptr) (xs : Cells)
      → Chain h size i prev xs
      → ((a : Ptr) → has a xs ≡ true → g a ≡ h a)
      → Chain g size i prev xs
  frame g prev [] t same = tt
  frame g prev (c ∷ xs) t same = (
    t.0,
    same c.addr (ground arith) ∙ t.1,
    t.2,
    t.3,
    t.4,
    frame g c.addr xs t.5 (λ a m. same a (ground arith)),
  )

  pub frame-write :
      (a : Ptr) (o : Option Entry) (prev : Ptr) (xs : Cells)
      → Chain h size i prev xs
      → has a xs ≡ false
      → Chain (write h a o) size i prev xs
  unfolding write
  frame-write a o prev xs t out = frame _ prev xs t (λ b m. ground arith)

  pub not-has_of_none :
      (a prev : Ptr) (xs : Cells) → Chain h size i prev xs → h a ≡ none → has a xs ≡ false
  not-has_of_none a prev [] t unused = refl
  not-has_of_none a prev (c ∷ xs) t unused = ground (arith, not-has_of_none a c.addr xs t.5)

  -- Addresses stand in one bucket only, since the key of an entry decides its bucket.
  pub home_of_has :
      (a prev : Ptr) (xs : Cells)
      → Chain h size i prev xs
      → has a xs ≡ true
      → (e : Entry) × (h a ≡ some e) × (hashcode_index e.key size ≡ i)
  home_of_has a prev [] t m = cc
  home_of_has a prev (c ∷ xs) t m = elim (Bool-cases (a == c.addr)) [
    | inl e ↦ (entry_of c prev (head xs), ground arith, t.2)
    | inr e ↦ home_of_has a c.addr xs t.5 (ground arith)
  ]

pub find_addr-none : (key : Bytes) (xs : Cells) → lookup key xs ≡ none → find_addr key xs ≡ null
unfolding find_addr lookup
find_addr-none key [] e = refl
find_addr-none key (c ∷ xs) e = ground (arith, find_addr-none key xs)

pub lookup-other :
    (k key : Bytes) (xs : Cells) → bytes_eq k key ≡ true → lookup k xs ≡ lookup key xs
lookup-other k key xs e = rw (eq_of_bytes_eq k key e)

-- The entry that the search stops at holds the value that is looked up.
pub find_addr-some :
    (h : Ptr → Option Entry) (size i : ℕ) (key v : Bytes) (prev : Ptr) (xs : Cells)
    → Chain h size i prev xs
    → lookup key xs ≡ some v
    → (find_addr key xs ≢ null)
      × (e : Entry) × (h (find_addr key xs) ≡ some e)
      × (e.val ≡ v)
      × (e.key ≡ key)
unfolding find_addr lookup
find_addr-some h size i key v prev [] t e = cc
find_addr-some h size i key v prev (c ∷ xs) t e = elim (Bool-cases (bytes_eq key c.key)) [
  | inl same ↦
      rw same
        (t.0, entry_of c prev (head xs), t.1, ground arith, sym (eq_of_bytes_eq key c.key same))
  | inr other ↦ rw other (find_addr-some h size i key v c.addr xs t.5 (ground arith))
]
