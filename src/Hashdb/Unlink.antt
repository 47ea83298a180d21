-- ===== src/Hashdb/Unlink.antt =====
-- The pointer work of `hashdb_delete` in lib_mrt/hashdb.c: an entry is taken out of its chain.
use tdss.Common.{
  ℕ, ◌≡◌, refl, sym, ◌∙◌, ◌≢◌, ◌⊎◌, ◌+◌, length, inl, inr, false, Option, none, some, [], ◌∷◌,
  arith, Bool-cases, if◌then◌else◌, Bytes, bytes_eq, eq_of_bytes_eq,
}
use tdss.Hashdb.{Ptr, null, Entry, load, set_next, write}
use tdss.Hashdb.Chain.{Cell, Cells, head, entry_of, has, lookup, find_addr, Chain, frame-write}
use tdss.Hashdb.Find.{not_null}
use tdss.Hashdb.Ops.{unlink_entry}
use tdss.Hashdb.Relink.{relink, set_prev-relink, relink-Chain, relink-outside}
use tdss.Run.{ok}

-- Without the first cell that has the key.
unfoldable pub erase : Bytes → Cells → Cells
erase key [] = []
erase key (c ∷ xs) = if bytes_eq key c.key then xs else c ∷ erase key xs

pub has-erase :
    (a : Ptr) (key : Bytes) (xs : Cells) → has a xs ≡ false → has a (erase key xs) ≡ false
unfolding erase
has-erase a key [] out = refl
has-erase a key (c ∷ xs) out = ground (arith, has-erase a key xs)

pub lookup-erase-none :
    (k key : Bytes) (xs : Cells) → lookup k xs ≡ none → lookup k (erase key xs) ≡ none
unfolding lookup erase
lookup-erase-none k key [] e = refl
lookup-erase-none k key (c ∷ xs) e = ground (arith, lookup-erase-none k key xs)

pub load_at :
    (h : Ptr → Option Entry) (p : Ptr) (e : Entry) → p ≢ null → h p ≡ some e → load h p ≡ ok e
unfolding load
load_at h p e nn at = ground arith

has-cons_false :
    (a : Ptr) (c : Cell) (xs : Cells) → has a (c ∷ xs) ≡ false → (a ≢ c.addr) × (has a xs ≡ false)
has-cons_false a c xs o = ground arith

lookup-cons_other :
    (key : Bytes) (c : Cell) (xs : Cells)
    → bytes_eq key c.key ≡ false
    → lookup key (c ∷ xs) ≡ lookup key xs
unfolding lookup
lookup-cons_other key c xs e = rw e

module _ (h : Ptr → Option Entry) (size i : ℕ) (key : Bytes) where
  pub lookup-erase :
      (k : Bytes) (prev : Ptr) (xs : Cells)
      → Chain h size i prev xs
      → lookup k (erase key xs) ≡ (if bytes_eq k key then none else lookup k xs)
  unfolding lookup erase
  lookup-erase k prev [] t = ground arith
  lookup-erase k prev (c ∷ xs) t = ground (
    arith,
    lookup-erase k c.addr xs t.5,
    eq_of_bytes_eq k key,
    eq_of_bytes_eq key c.key,
    eq_of_bytes_eq k c.key,
  )

  -- The heap `g` after the entry with the key, somewhere behind `prev`, is taken out.
  abbrev pub Unlinked : Ptr → Entry → Cells → (Ptr → Option Entry) → Type 0
  Unlinked prev ep xs g =
      Chain g size i prev (erase key xs)
      × (g prev ≡ some (record ep { next = head (erase key xs) }))
      × ((a : Ptr) → has a xs ≡ false → a ≢ prev → g a ≡ h a)

  cut_heap : Ptr → Entry → Cell → Cells → Ptr → Option Entry
  cut_heap prev ep c xs =
      write (write (relink h prev xs) prev (some (record ep { next = head xs }))) c.addr none

  cut_run :
      (prev : Ptr) (ep : Entry) (c : Cell) (xs : Cells)
      → Chain h size i prev (c ∷ xs)
      → prev ≢ null
      → h prev ≡ some ep
      → has prev (c ∷ xs) ≡ false
      → unlink_entry h c.addr (entry_of c prev (head xs)) ≡ ok (cut_heap prev ep c xs)
  unfolding unlink_entry cut_heap set_next
  cut_run prev ep c xs t nn at out = rw (set_prev-relink h size i c.addr prev xs t.5) (
      rw
        (load_at (relink h prev xs) prev ep nn
          (relink-outside h size i prev xs prev (ground arith) ∙ at))
        (simp (not_null nn)))

  cut_Chain :
      (prev : Ptr) (ep : Entry) (c : Cell) (xs : Cells)
      → Chain h size i prev (c ∷ xs)
      → has prev (c ∷ xs) ≡ false
      → Chain (cut_heap prev ep c xs) size i prev xs
  unfolding cut_heap
  cut_Chain prev ep c xs t out =
      frame-write _ size i c.addr none prev xs
        (frame-write _ size i prev _ prev xs (relink-Chain h size i c.addr prev xs t.5)
          (ground arith))
        t.3

  cut-outside :
      (prev : Ptr) (ep : Entry) (c : Cell) (xs : Cells) (a : Ptr)
      → has a (c ∷ xs) ≡ false
      → a ≢ prev
      → cut_heap prev ep c xs a ≡ h a
  unfolding cut_heap write
  cut-outside prev ep c xs a o ne = ground (arith, relink-outside h size i prev xs a)

  pub unlink_entry-Unlinked :
      (prev : Ptr) (ep : Entry) (xs : Cells) {v : Bytes}
      → Chain h size i prev xs
      → prev ≢ null
      → h prev ≡ some ep
      → ep.next ≡ head xs
      → has prev xs ≡ false
      → lookup key xs ≡ some v
      → (e : Entry) × (g : Ptr → Option Entry) × (load h (find_addr key xs) ≡ ok e)
        × (e.prev ≢ null)
        × (unlink_entry h (find_addr key xs) e ≡ ok g)
        × Unlinked prev ep xs g
  unfolding lookup erase find_addr
  unlink_entry-Unlinked prev ep [] {v} t nn at link out found = cc
  unlink_entry-Unlinked prev ep (c ∷ xs) {v} t nn at link out found =
      elim (Bool-cases (bytes_eq key c.key)) [
        | inl same ↦ rw same (
          entry_of c prev (head xs),
          cut_heap prev ep c xs,
          unfold load in ground arith,
          nn,
          cut_run prev ep c xs t nn at out,
          (
            cut_Chain prev ep c xs t out,
            unfold cut_heap write in ground arith,
            λ a o ne. cut-outside prev ep c xs a o ne,
          ),
        )
        | inr other ↦
            let (e, g, run, inner, cut, (chain, before, outside)) =
              unlink_entry-Unlinked c.addr (entry_of c prev (head xs)) xs {v = v} t.5 t.0 t.1 refl
                t.3 (sym (lookup-cons_other key c xs other) ∙ found) in
            let (apart, out') = has-cons_false prev c xs out in
            rw other (
              e,
              g,
              run,
              inner,
              cut,
              (
                (
                  t.0,
                  before,
                  t.2,
                  has-erase c.addr key xs t.3,
                  lookup-erase-none c.key key xs t.4,
                  chain,
                ),
                outside prev out' apart ∙ at ∙ (λ j. some (record ep { next = link j })),
                λ a o ne. outside a (has-cons_false a c xs o).1 (has-cons_false a c xs o).0,
              ),
            )
      ]

  -- The new head of the bucket, by whether the entry had a predecessor.
  abbrev pub HeadAfter : Entry → Cells → Type 0
  HeadAfter e xs =
      ((e.prev ≡ null) × (e.next ≡ head (erase key xs)))
      ⊎ ((e.prev ≢ null) × (head xs ≡ head (erase key xs)))

  -- The entry with the key comes out of the chain of its bucket, and no other address changes.
  pub unlink_entry-erase :
      (xs : Cells) {v : Bytes}
      → Chain h size i null xs
      → lookup key xs ≡ some v
      → (e : Entry) × (g : Ptr → Option Entry) × (load h (find_addr key xs) ≡ ok e)
        × (unlink_entry h (find_addr key xs) e ≡ ok g)
        × Chain g size i null (erase key xs)
        × ((a : Ptr) → has a xs ≡ false → g a ≡ h a)
        × HeadAfter e xs
  unfolding lookup erase find_addr
  unlink_entry-erase [] {v} t found = cc
  unlink_entry-erase (c ∷ xs) {v} t found = elim (Bool-cases (bytes_eq key c.key)) [
    | inl same ↦ rw same (
      entry_of c null (head xs),
      write (relink h null xs) c.addr none,
      unfold load in ground arith,
      unfold unlink_entry in rw (set_prev-relink h size i c.addr null xs t.5) refl,
      frame-write _ size i c.addr none null xs (relink-Chain h size i c.addr null xs t.5) t.3,
      λ a o. unfold write in ground (arith, relink-outside h size i null xs a),
      inl (refl, refl),
    )
    | inr other ↦
        let (e, g, run, inner, cut, (chain, before, outside)) =
          unlink_entry-Unlinked c.addr (entry_of c null (head xs)) xs {v = v} t.5 t.0 t.1 refl t.3
            (sym (lookup-cons_other key c xs other) ∙ found) in
        rw other (
          e,
          g,
          run,
          cut,
          (
            t.0,
            before,
            t.2,
            has-erase c.addr key xs t.3,
            lookup-erase-none c.key key xs t.4,
            chain,
          ),
          λ a o. outside a (has-cons_false a c xs o).1 (has-cons_false a c xs o).0,
          inr (inner, refl),
        )
  ]

pub length-erase :
    (key : Bytes) (xs : Cells) {v : Bytes}
    → lookup key xs ≡ some v
    → length (erase key xs) + 1 ≡ length xs
unfolding lookup erase
length-erase key [] {v} e = cc
length-erase key (c ∷ xs) {v} e = ground (arith, length-erase key xs {v = v})
