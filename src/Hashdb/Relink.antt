-- ===== src/Hashdb/Relink.antt =====
-- Chains whose first entry gets another `prev`.
use tdss.Common.{ℕ, ◌≡◌, refl, false, Option, some, [], ◌∷◌, arith, ◌==◌, if◌then◌else◌}
use tdss.Hashdb.{Ptr, null, Entry, load, set_prev, write}
use tdss.Hashdb.Chain.{Cells, head, entry_of, has, Chain, frame-write}
use tdss.Run.{ok}

-- The heap after `head->prev = prev`, if there is a head.
unfoldable pub relink : (Ptr → Option Entry) → Ptr → Cells → Ptr → Option Entry
relink h prev [] = h
relink h prev (c ∷ xs) = write h c.addr (some (entry_of c prev (head xs)))

module _ (h : Ptr → Option Entry) (size i : ℕ) where
  -- `if (head) head->prev = prev`, as the code of `hashdb_link` and `hashdb_delete` has it.
  pub set_prev-relink :
      (old prev : Ptr) (xs : Cells)
      → Chain h size i old xs
      → (if head xs == null then ok h else set_prev h (head xs) prev) ≡ ok (relink h prev xs)
  unfolding set_prev load relink
  set_prev-relink old prev [] t = refl
  set_prev-relink old prev (c ∷ xs) t = ground arith

  pub relink-Chain :
      (old prev : Ptr) (xs : Cells)
      → Chain h size i old xs
      → Chain (relink h prev xs) size i prev xs
  unfolding relink write
  relink-Chain old prev [] t = tt
  relink-Chain old prev (c ∷ xs) t = (
    t.0,
    ground arith,
    t.2,
    t.3,
    t.4,
    unfold write in frame-write h size i c.addr _ c.addr xs t.5 t.3,
  )

  pub relink-outside :
      (prev : Ptr) (xs : Cells) (a : Ptr) → has a xs ≡ false → relink h prev xs a ≡ h a
  unfolding relink write
  relink-outside prev [] a out = refl
  relink-outside prev (c ∷ xs) a out = ground arith
