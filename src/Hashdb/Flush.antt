-- ===== src/Hashdb/Flush.antt =====
-- The log that `hashdb_flush_binlog` of lib_mrt/hashdb.c writes: a record for each entry.
use mathlib.Core.List.{flatten, append_assoc, append-nil}
use tdss.Common.{
  ℕ, zero, suc, ◌+◌, ◌<◌, ◌≡◌, refl, sym, ◌∙◌, ap, ◌≢◌, some, List, [], ◌∷◌, ◌++◌, arith, length,
  get_or, Bytes, Option, none,
}
use tdss.Hashdb.{Ptr, null, Entry, Hashdb, load, sec_bytes}
use tdss.Hashdb.Binlog.{put, flush_entry, flush_chain, flush_all}
use tdss.Hashdb.Chain.{Cells, head, Chain, entry_of}
use tdss.Hashdb.Find.{not_null}
use tdss.Hashdb.Replay.{Record, log_of, record_bytes}
use tdss.Run.{ok}

-- The record of a cell is one that adds it.
abbrev pub records_of : Cells → List Record
records_of [] = []
records_of (c ∷ xs) = record { type = 1; key = c.key; val = c.val } ∷ records_of xs

pub log_of-append :
    (xs ys : Cells)
    → log_of (records_of (xs ++ ys)) ≡ log_of (records_of xs) ++ log_of (records_of ys)
log_of-append [] ys = refl
log_of-append (c ∷ xs) ys =
    ap (λ (l : Bytes). record_bytes (record { type = 1; key = c.key; val = c.val }) ++ l)
      (log_of-append xs ys)
    ∙ sym (append_assoc (record_bytes (record { type = 1; key = c.key; val = c.val })) _ _)

one_entry :
    (failed : Ptr → ℕ → Option ℕ) (fuel : ℕ) (m : Hashdb) (p : Ptr) (e : Entry) (out : Bytes)
    → p ≢ null
    → m.heap.cell p ≡ some e
    → flush_chain failed (suc fuel) m p out
      ≡ flush_chain failed fuel m e.next (flush_entry (failed p) e out)
unfolding flush_chain load
one_entry failed fuel m p e out nn at =
    rw (not_null nn, flush_chain) (rw (at, load) (rw (not_null nn) refl))

-- No write fails.
abbrev pub Unfailing : (Ptr → ℕ → Option ℕ) → Type 0
Unfailing failed = (p : Ptr) (i : ℕ) → failed p i ≡ none

flush_entry-append :
    (failed : ℕ → Option ℕ) (e : Entry) (out : Bytes)
    → ((i : ℕ) → failed i ≡ none)
    → flush_entry failed e out
      ≡ out ++ (sec_bytes 1 (length e.key) (length e.val) ++ (e.key ++ e.val))
unfolding flush_entry put
flush_entry-append failed e out fine =
    let sec = sec_bytes 1 (length e.key) (length e.val) in
    rw (fine 0, fine 1, fine 2)
      (append_assoc (out ++ sec) e.key e.val ∙ append_assoc out sec (e.key ++ e.val))

pub flush_chain-log_of :
    (failed : Ptr → ℕ → Option ℕ) (m : Hashdb) (size i : ℕ) (fuel : ℕ) (prev : Ptr) (xs : Cells)
    (out : Bytes)
    → Chain m.heap.cell size i prev xs
    → length xs < fuel
    → Unfailing failed
    → flush_chain failed fuel m (head xs) out ≡ ok (out ++ log_of (records_of xs))
unfolding flush_chain
flush_chain-log_of failed m size i zero prev xs out t less fine = absurd (omega arith)
flush_chain-log_of failed m size i (suc fuel) prev [] out t less fine =
    ap (λ (l : Bytes). ok l) (sym (append-nil out))
flush_chain-log_of failed m size i (suc fuel) prev (c ∷ xs) out t less fine =
    let e = entry_of c prev (head xs) in
    let entry = sec_bytes 1 (length e.key) (length e.val) ++ (e.key ++ e.val) in
    one_entry failed fuel m c.addr e out t.0 t.1
    ∙ ap (flush_chain failed fuel m e.next) (flush_entry-append (failed c.addr) e out (fine c.addr))
    ∙ flush_chain-log_of failed m size i fuel c.addr xs (out ++ entry) t.5 (omega (arith, less))
        fine
    ∙ ap (λ (l : Bytes). ok l) (append_assoc out entry (log_of (records_of xs)))

pub flush_all-log_of :
    (failed : Ptr → ℕ → Option ℕ) (m : Hashdb) (ps : List Ptr) (rows : List Cells) (out : Bytes)
    → length ps ≡ length rows
    → ((i : ℕ) → get_or ps i null ≡ head (get_or rows i []))
    → ((i : ℕ) → (j : ℕ) × Chain m.heap.cell m.size j null (get_or rows i []))
    → ((i : ℕ) → length (get_or rows i []) < m.heap.live + 1)
    → Unfailing failed
    → flush_all failed ps m out ≡ ok (out ++ log_of (records_of (flatten rows)))
unfolding flush_all flatten
flush_all-log_of failed m [] [] out same heads chains short fine =
    ap (λ (l : Bytes). ok l) (sym (append-nil out))
flush_all-log_of failed m [] (xs ∷ rows) out same heads chains short fine =
    absurd (omega (arith, same))
flush_all-log_of failed m (p ∷ ps) [] out same heads chains short fine =
    absurd (omega (arith, same))
flush_all-log_of failed m (p ∷ ps) (xs ∷ rows) out same heads chains short fine =
    let (j, chain) = chains 0 in
    let first : flush_chain failed (m.heap.live + 1) m p out ≡ ok (out ++ log_of (records_of xs)) =
      ap (λ (q : Ptr). flush_chain failed (m.heap.live + 1) m q out) (heads 0)
      ∙ flush_chain-log_of failed m m.size j (m.heap.live + 1) null xs out chain (short 0) fine in
    rw first (
      flush_all-log_of failed m ps rows (out ++ log_of (records_of xs)) (omega (arith, same))
        (λ i. heads (suc i)) (λ i. chains (suc i)) (λ i. short (suc i)) fine
      ∙ ap (λ (l : Bytes). ok l)
          (append_assoc out (log_of (records_of xs)) (log_of (records_of (flatten rows)))
            ∙ ap (λ (l : Bytes). out ++ l) (sym (log_of-append xs (flatten rows)))))

-- Whatever writes fail, the walks come to their ends.
flush_chain-ends :
    (failed : Ptr → ℕ → Option ℕ) (m : Hashdb) (size i : ℕ) (fuel : ℕ) (prev : Ptr) (xs : Cells)
    (out : Bytes)
    → Chain m.heap.cell size i prev xs
    → length xs < fuel
    → (log : Bytes) × (flush_chain failed fuel m (head xs) out ≡ ok log)
unfolding flush_chain
flush_chain-ends failed m size i zero prev xs out t less = absurd (omega (arith, less))
flush_chain-ends failed m size i (suc fuel) prev [] out t less = (out, refl)
flush_chain-ends failed m size i (suc fuel) prev (c ∷ xs) out t less =
    let e = entry_of c prev (head xs) in
    let (log, run) =
      flush_chain-ends failed m size i fuel c.addr xs (flush_entry (failed c.addr) e out) t.5
        (omega (arith, less)) in
    (log, one_entry failed fuel m c.addr e out t.0 t.1 ∙ run)

pub flush_all-ends :
    (failed : Ptr → ℕ → Option ℕ) (m : Hashdb) (ps : List Ptr) (rows : List Cells) (out : Bytes)
    → length ps ≡ length rows
    → ((i : ℕ) → get_or ps i null ≡ head (get_or rows i []))
    → ((i : ℕ) → (j : ℕ) × Chain m.heap.cell m.size j null (get_or rows i []))
    → ((i : ℕ) → length (get_or rows i []) < m.heap.live + 1)
    → (log : Bytes) × (flush_all failed ps m out ≡ ok log)
unfolding flush_all
flush_all-ends failed m [] rows out same heads chains short = (out, refl)
flush_all-ends failed m (p ∷ ps) [] out same heads chains short = absurd (omega (arith, same))
flush_all-ends failed m (p ∷ ps) (xs ∷ rows) out same heads chains short =
    let (j, chain) = chains 0 in
    let (first, run) =
      flush_chain-ends failed m m.size j (m.heap.live + 1) null xs out chain (short 0) in
    let (log, rest) =
      flush_all-ends failed m ps rows first (omega (arith, same)) (λ i. heads (suc i))
        (λ i. chains (suc i)) (λ i. short (suc i)) in
    (log, rw (ap (λ (q : Ptr). flush_chain failed (m.heap.live + 1) m q out) (heads 0) ∙ run) rest)
