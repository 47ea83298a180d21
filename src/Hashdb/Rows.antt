-- ===== src/Hashdb/Rows.antt =====
-- All the cells of a table of lib_mrt/hashdb.c, one chain behind the other.
use mathlib.Core.List.{flatten}
use mathlib.Core.Path.{subst, ap₂}
use tdss.Common.{
  ℕ, zero, suc, ◌+◌, ◌<◌, ◌≡◌, refl, ◌∙◌, ap, ◌≢◌, inl, inr, Bool-cases, Option, none, some, List,
  [], ◌∷◌, ◌++◌, arith, get_or, Bytes, bytes_eq, eq_of_bytes_eq,
}
use tdss.Hash.{hashcode_index}
use tdss.Hashdb.{Ptr, null, Entry}
use tdss.Hashdb.Chain.{Cells, Chain, lookup}

-- No key stands twice.
abbrev pub Distinct : Cells → Type 0
Distinct [] = Unit
Distinct (c ∷ xs) = (lookup c.key xs ≡ none) × Distinct xs

abbrev pub or_else : Option Bytes → Option Bytes → Option Bytes
or_else none other = other
or_else (some v) other = some v

-- The rows of a table, from the chain `b` on.
abbrev pub Rows : (Ptr → Option Entry) → ℕ → ℕ → List Cells → Type 0
Rows h size b rows = (i : ℕ) → Chain h size (b + i) null (get_or rows i [])

Rows-tail :
    (h : Ptr → Option Entry) (size b : ℕ) (xs : Cells) (rows : List Cells)
    → Rows h size b (xs ∷ rows)
    → Rows h size (suc b) rows
Rows-tail h size b xs rows t i =
    subst (λ n. Chain h size n null (get_or rows i [])) (omega arith) (t (suc i))

-- A chain has no key that belongs to another one.
lookup_away :
    (h : Ptr → Option Entry) (size i : ℕ) (prev : Ptr) (k : Bytes) (xs : Cells)
    → Chain h size i prev xs
    → hashcode_index k size ≢ i
    → lookup k xs ≡ none
unfolding lookup
lookup_away h size i prev k [] t away = refl
lookup_away h size i prev k (c ∷ xs) t away = elim (Bool-cases (bytes_eq k c.key)) [
  | inl same ↦
      absurd (away (ap (λ (q : Bytes). hashcode_index q size) (eq_of_bytes_eq k c.key same) ∙ t.2))
  | inr other ↦ rw other (lookup_away h size i c.addr k xs t.5 away)
]

lookup_append :
    (k : Bytes) (xs ys : Cells) → lookup k (xs ++ ys) ≡ or_else (lookup k xs) (lookup k ys)
unfolding lookup
lookup_append k [] ys = refl
lookup_append k (c ∷ xs) ys = elim (Bool-cases (bytes_eq k c.key)) [
  | inl same ↦ rw same refl
  | inr other ↦ rw other (lookup_append k xs ys)
]

or_none : (o : Option Bytes) → or_else o none ≡ o
or_none none = refl
or_none (some v) = refl

lookup_before :
    (h : Ptr → Option Entry) (size b : ℕ) (k : Bytes) (rows : List Cells)
    → Rows h size b rows
    → hashcode_index k size < b
    → lookup k (flatten rows) ≡ none
unfolding lookup flatten
lookup_before h size b k [] t less = refl
lookup_before h size b k (xs ∷ rows) t less =
    lookup_append k xs (flatten rows)
    ∙ ap (λ (o : Option Bytes). or_else o (lookup k (flatten rows)))
        (lookup_away h size (b + 0) null k xs (t 0) (λ e. omega (arith, e, less)))
    ∙ lookup_before h size (suc b) k rows (Rows-tail h size b xs rows t) (omega (arith, less))

-- A key is found among all cells as in its own chain.
pub lookup-flatten :
    (h : Ptr → Option Entry) (size b i : ℕ) (k : Bytes) (rows : List Cells)
    → Rows h size b rows
    → hashcode_index k size ≡ b + i
    → lookup k (flatten rows) ≡ lookup k (get_or rows i [])
unfolding lookup flatten
lookup-flatten h size b i k [] t home = refl
lookup-flatten h size b zero k (xs ∷ rows) t home =
    lookup_append k xs (flatten rows)
    ∙ ap (or_else (lookup k xs))
        (lookup_before h size (suc b) k rows (Rows-tail h size b xs rows t) (omega (arith, home)))
    ∙ or_none (lookup k xs)
lookup-flatten h size b (suc i) k (xs ∷ rows) t home =
    lookup_append k xs (flatten rows)
    ∙ ap (λ (o : Option Bytes). or_else o (lookup k (flatten rows)))
        (lookup_away h size (b + 0) null k xs (t 0) (λ e. omega (arith, e, home)))
    ∙ lookup-flatten h size (suc b) i k rows (Rows-tail h size b xs rows t) (omega (arith, home))

-- A chain in front of cells that have none of its keys.
Chain-Distinct :
    (h : Ptr → Option Entry) (size i : ℕ) (prev : Ptr) (xs ys : Cells)
    → Chain h size i prev xs
    → ((k : Bytes) → hashcode_index k size ≡ i → lookup k ys ≡ none)
    → Distinct ys
    → Distinct (xs ++ ys)
Chain-Distinct h size i prev [] ys t apart distinct = distinct
Chain-Distinct h size i prev (c ∷ xs) ys t apart distinct = (
  lookup_append c.key xs ys ∙ ap₂ or_else t.4 (apart c.key t.2),
  Chain-Distinct h size i c.addr xs ys t.5 apart distinct,
)

pub flatten-Distinct :
    (h : Ptr → Option Entry) (size b : ℕ) (rows : List Cells)
    → Rows h size b rows
    → Distinct (flatten rows)
unfolding flatten
flatten-Distinct h size b [] t = tt
flatten-Distinct h size b (xs ∷ rows) t =
    Chain-Distinct h size (b + 0) null xs (flatten rows) (t 0)
      (λ k home.
        lookup_before h size (suc b) k rows (Rows-tail h size b xs rows t) (omega (arith, home)))
      (flatten-Distinct h size (suc b) rows (Rows-tail h size b xs rows t))
