-- ===== src/Strings/Trim.antt =====
-- The trimming of strings of lib_mrt/string.c.
use mathlib.Core.List.{append_assoc}
use mathlib.Core.Path.{ap₂}
use tdss.Common.{
  ℕ, suc, ◌+◌, ◌-◌, ◌≤◌, ◌≡◌, refl, sym, ◌∙◌, ap, true, false, [], ◌∷◌, ◌++◌, ltb, ◌==◌, arith,
  length, take, drop, set, set-append, length-append, take-append, drop-append, Bytes,
}
use tdss.Strings.{Str, is_blank, leading, cut_last, string_ltrim, poke}
use tdss.Strings.Contents.{poke_in_range}
use tdss.Run.{Returns, ok}

-- All bytes are blanks.
abbrev pub Blanks : Bytes → Type 0
Blanks [] = Unit
Blanks (c ∷ cs) = (is_blank c ≡ true) × Blanks cs

leading-append :
    (front : Bytes) (c : ℕ) (rest : Bytes)
    → Blanks front
    → is_blank c ≡ false
    → leading (front ++ c ∷ rest) ≡ ok (length front)
unfolding leading
leading-append [] c rest h e = rw (leading, e) refl
leading-append (b ∷ front) c rest (h, hs) e = rw (leading, h, leading-append front c rest hs e) refl

not_zero : (n : ℕ) → (suc n == 0) ≡ false
not_zero n = ground arith

ltrim_moves :
    (s : Str) (n : ℕ) (area : Bytes)
    → leading s.str ≡ ok (suc n)
    → ltb 65535 (suc n) ≡ false
    → poke s.str 0 (take (s.len - suc n) (drop (suc n) s.str)) ≡ ok area
    → string_ltrim s ≡ cut_last (record s { str = area; len = s.len - suc n })
unfolding string_ltrim
ltrim_moves s n area lead short run = rw (lead, short, run, not_zero n) refl

poke_front :
    (area src : Bytes)
    → length src ≤ length area
    → poke area 0 src ≡ ok (src ++ drop (length src) area)
poke_front area src le =
    poke_in_range area 0 src (omega (arith, le)) ∙ ap (λ k. ok (src ++ drop k area)) (omega arith)

last_cut : (s : Str) (n : ℕ) → s.len ≡ suc n → cut_last s ≡ ok (record s { str = set s.str n 0 })
unfolding cut_last
last_cut s n e = rw e refl

-- A string that starts with blanks: after string_ltrim its length is that of the text behind them,
-- but the last byte of that text has been replaced by a zero.
string_ltrim-cuts :
    (s : Str) (b : ℕ) (front init : Bytes) (z c : ℕ) (cs rest : Bytes)
    → Blanks (b ∷ front)
    → length (b ∷ front) ≤ 65535
    → is_blank c ≡ false
    → init ++ z ∷ [] ≡ c ∷ cs
    → s.str ≡ (b ∷ front) ++ ((c ∷ cs) ++ 0 ∷ rest)
    → s.len ≡ length (b ∷ front) + length (c ∷ cs)
    → Returns
        (string_ltrim s)
        (λ s'. (s'.len ≡ length (c ∷ cs)) × ((tail : Bytes) × (s'.str ≡ init ++ 0 ∷ tail)))
string_ltrim-cuts s b front init z c cs rest blanks short other split str len =
    let n = length front in
    let back = (c ∷ cs) ++ 0 ∷ rest in
    let area = (c ∷ cs) ++ drop (length (c ∷ cs)) s.str in
    let behind : drop (suc n) s.str ≡ back = rw str (drop-append (b ∷ front) back) in
    let moved : s.len - suc n ≡ length (c ∷ cs) = omega (arith, len) in
    let text : take (s.len - suc n) (drop (suc n) s.str) ≡ c ∷ cs =
      ap₂ (λ k (l : Bytes). take k l) moved behind ∙ take-append (c ∷ cs) (0 ∷ rest) in
    let lead : leading s.str ≡ ok (suc n) =
      ap leading str ∙ leading-append (b ∷ front) c (cs ++ 0 ∷ rest) blanks other in
    let fits : length (c ∷ cs) ≤ length s.str = omega (
      arith,
      ap (λ (l : Bytes). length l) str,
      length-append (b ∷ front) back,
      length-append (c ∷ cs) (0 ∷ rest),
    ) in
    let run : poke s.str 0 (take (s.len - suc n) (drop (suc n) s.str)) ≡ ok area =
      ap (poke s.str 0) text ∙ poke_front s.str (c ∷ cs) fits in
    let last : length (c ∷ cs) ≡ suc (length init) =
      omega (arith, ap (λ (l : Bytes). length l) split, length-append init (z ∷ [])) in
    let tail = drop (length (c ∷ cs)) s.str in
    let shape : area ≡ init ++ z ∷ tail =
      ap (λ (l : Bytes). l ++ tail) (sym split) ∙ append_assoc init (z ∷ []) tail in
    (
      record s { str = set area (length init) 0; len = s.len - suc n },
      ltrim_moves s n area lead (ground (arith, short)) run
          ∙ last_cut (record s { str = area; len = s.len - suc n }) (length init) (moved ∙ last),
      (moved, (tail, ap (λ (l : Bytes). set l (length init) 0) shape ∙ set-append init z 0 tail)),
    )
