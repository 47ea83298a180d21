-- ===== src/Strings/Contents.antt =====
-- The text in a string of lib_mrt/string.c.
use mathlib.Core.List.{append_assoc}
use tdss.Common.{
  replicate, replicate-suc, length-replicate, ◌==◌, ℕ, zero, suc, ◌+◌, ◌≤◌, ◌<◌, ◌≡◌, refl, sym,
  ◌∙◌, ap, ◌⊎◌, inl, inr, Bool, true, false, Bool-cases, some, [], ◌∷◌, ◌++◌, ltb, arith, length,
  take, drop, length-append, take-append, length-take, append-take-drop, Bytes,
}
use tdss.Strings.{
  Str, Memory, kept_area, realloc, string_realloc, poke, write_text, then_write, string_catb,
  string_printf, string_zero,
}
use tdss.Run.{ok, Returns}

-- The string holds the text and a zero behind it, in an area of its size, or it is unused and the
-- text is empty.
abbrev pub IsText : Str → Bytes → Type 0
IsText s text =
    (length s.str ≡ s.size)
    × (s.len ≡ length text)
    × (((s.size ≡ 0) × (text ≡ [])) ⊎ ((rest : Bytes) × (s.str ≡ text ++ 0 ∷ rest)))

-- There is memory of every size.
abbrev pub Gives : Memory → Type 0
Gives mem = (n : ℕ) → (new : Bytes) × (mem n ≡ some new) × (length new ≡ n)

take-all : (n : ℕ) (xs : Bytes) → length xs ≤ n → take n xs ≡ xs
take-all zero [] h = refl
take-all zero (x ∷ xs) h = absurd (omega arith)
take-all (suc n) [] h = refl
take-all (suc n) (x ∷ xs) h = ap (λ zs. x ∷ zs) (take-all n xs (omega arith))

length-drop : (n : ℕ) (xs : Bytes) → n ≤ length xs → n + length (drop n xs) ≡ length xs
length-drop zero xs h = omega arith
length-drop (suc n) [] h = absurd (omega arith)
length-drop (suc n) (x ∷ xs) h = omega (arith, length-drop n xs (omega arith))

pub poke_in_range :
    (area : Bytes) (at : ℕ) (src : Bytes)
    → at + length src ≤ length area
    → poke area at src ≡ ok (take at area ++ (src ++ drop (at + length src) area))
unfolding poke
poke_in_range area at src h = ground arith

length-poked :
    (area : Bytes) (at : ℕ) (src : Bytes)
    → at + length src ≤ length area
    → length (take at area ++ (src ++ drop (at + length src) area)) ≡ length area
length-poked area at src h = omega (
  arith,
  length-append (take at area) (src ++ drop (at + length src) area),
  length-append src (drop (at + length src) area),
  length-take at area (omega arith),
  length-drop (at + length src) area h,
)

-- The string after the operation holds the text.
abbrev pub Holds : Bytes → Bool × Str → Type 0
Holds text r = (r.0 ≡ true) × IsText r.1 text

pub write_text-Holds :
    (s : Str) (at : ℕ) (before src : Bytes)
    → at ≡ length before
    → length s.str ≡ s.size
    → take at s.str ≡ before
    → at + length src < s.size
    → Returns (write_text s at src) (Holds (before ++ src))
unfolding write_text
write_text-Holds s at before src behind sized start room =
    let e = length-append src (0 ∷ []) in
    let fits : at + length (src ++ 0 ∷ []) ≤ length s.str = omega (arith, e, sized) in
    let tail = drop (at + length (src ++ 0 ∷ [])) s.str in
    let area = take at s.str ++ ((src ++ 0 ∷ []) ++ tail) in
    let content : area ≡ (before ++ src) ++ 0 ∷ tail =
      ap (λ (l : Bytes). l ++ ((src ++ 0 ∷ []) ++ tail)) start
      ∙ ap (λ (l : Bytes). before ++ l) (append_assoc src (0 ∷ []) tail)
      ∙ sym (append_assoc before src (0 ∷ tail)) in
    (
      (true, record s { str = area; len = at + length src }),
      rw (poke_in_range s.str at (src ++ 0 ∷ []) fits) refl,
      (
        refl,
        (
          length-poked s.str at (src ++ 0 ∷ []) fits ∙ sized,
          omega (arith, length-append before src, behind),
          inr (tail, content),
        ),
      ),
    )

kept_area-short : (old : Bytes) → length old ≤ 32768 → kept_area old ≡ old
unfolding kept_area
kept_area-short old short = let e : ltb 32768 (length old) ≡ false = ground arith in rw e refl

take_one-le : (old : Bytes) → length (take 1 old) ≤ length old
take_one-le [] = omega arith
take_one-le (c ∷ cs) = omega arith

kept_area-le : (old : Bytes) → length (kept_area old) ≤ length old
unfolding kept_area
kept_area-le old = elim (Bool-cases (ltb 32768 (length old))) [
  | inl large ↦ rw large (take_one-le old)
  | inr small ↦ rw small (omega arith)
]

-- What is kept stands at the front of the new area.
realloc-kept_area :
    (mem : Memory) (old : Bytes) (n : ℕ)
    → Gives mem
    → length old ≤ n
    → (more : Bytes) × (realloc mem old n ≡ some (kept_area old ++ more))
      × (length (kept_area old ++ more) ≡ n)
unfolding realloc
realloc-kept_area mem old n gives le =
    let (new, has, long) = gives n in
    let fits : length (kept_area old) ≤ n = omega (arith, le, kept_area-le old) in
    (
      drop (length (kept_area old)) new,
      rw (has, take-all n (kept_area old) fits, realloc) refl,
      omega (
        arith,
        length-append (kept_area old) (drop (length (kept_area old)) new),
        length-drop (length (kept_area old)) new (omega (arith, long, fits)),
        long,
      ),
    )

-- An area of at most 32 KB is kept whole.
pub realloc_grows :
    (mem : Memory) (old : Bytes) (n : ℕ)
    → Gives mem
    → length old ≤ n
    → length old ≤ 32768
    → (more : Bytes) × (realloc mem old n ≡ some (old ++ more)) × (length (old ++ more) ≡ n)
realloc_grows mem old n gives le short =
    let (more, run, long) = realloc-kept_area mem old n gives le in
    let same = kept_area-short old short in
    (
      more,
      run ∙ ap (λ (l : Bytes). some (l ++ more)) same,
      ap (λ (l : Bytes). length (l ++ more)) (sym same) ∙ long,
    )

starts : (s : Str) (text : Bytes) → IsText s text → take (length text) s.str ≡ text
starts s text (sized, len, inl (zero', empty)) = rw empty refl
starts s text (sized, len, inr (rest, str)) = rw str (take-append text (0 ∷ rest))

pub take-IsText : (s : Str) (text : Bytes) → IsText s text → take s.len s.str ≡ text
take-IsText s text (sized, len, content) =
    ap (λ n. take n s.str) len ∙ starts s text (sized, len, content)

take-front :
    (n : ℕ) (text area more : Bytes)
    → n ≡ length text
    → take (length text) area ≡ text
    → take n (area ++ more) ≡ text
take-front n text area more e h =
    let rest = drop (length text) area in
    ap (λ k. take k (area ++ more)) e
    ∙ ap (λ (l : Bytes). take (length text) (l ++ more))
        (sym (append-take-drop (length text) area) ∙ ap (λ (l : Bytes). l ++ rest) h)
    ∙ ap (λ (l : Bytes). take (length text) l) (append_assoc text rest more)
    ∙ take-append text (rest ++ more)

len-le-size : (s : Str) (text : Bytes) → IsText s text → s.len ≤ s.size
len-le-size s text (sized, len, inl (none', empty)) =
    omega (arith, len, ap (λ (l : Bytes). length l) empty)
len-le-size s text (sized, len, inr (rest, str)) =
    omega (arith, len, sized, ap (λ (l : Bytes). length l) str, length-append text (0 ∷ rest))

-- With memory, and unless an area of more than 32 KB has to grow, the bytes are put behind the text
-- that the string holds, in a larger area when they do not fit; the string holds the two together.
pub string_catb-Holds :
    (mem : Memory) (s : Str) (text src : Bytes)
    → Gives mem
    → IsText s text
    → (s.size ≤ 32768) ⊎ (s.len + length src < s.size)
    → Returns (string_catb mem s src) (Holds (text ++ src))
unfolding string_catb string_realloc then_write
string_catb-Holds mem s text src gives (sized, len, content) room =
    let front = take-IsText s text (sized, len, content) in
    let le = len-le-size s text (sized, len, content) in
    elim (Bool-cases (ltb s.size (s.len + length src + 1))) [
      | inl full ↦
          let (more, run, long) =
            realloc_grows mem s.str (s.size + length src + 1) gives (omega (arith, sized))
              (omega (arith, sized, small room full)) in
          let grown : Str = record {
            str = s.str ++ more;
            idx = 0;
            len = s.len;
            size = s.size + length src + 1;
          } in
          let (r, write, holds) =
            write_text-Holds grown s.len text src len long
              (take-front s.len text s.str more len (starts s text (sized, len, content)))
              (omega (arith, le)) in
          (r, rw (full, run, string_realloc, then_write) write, holds)
      | inr fits ↦
          let (r, write, holds) =
            write_text-Holds s s.len text src len sized front (ground (arith, fits)) in
          (r, rw fits write, holds)
    ]
  where
    small :
        (s.size ≤ 32768) ⊎ (s.len + length src < s.size)
        → ltb s.size (s.len + length src + 1) ≡ true
        → s.size ≤ 32768
    small (inl le) full = le
    small (inr less) full = ground arith

-- An area has to grow only for a text that is longer than itself.
pub string_catb-short :
    (mem : Memory) (s : Str) (text src : Bytes)
    → Gives mem
    → IsText s text
    → length text + length src ≤ 32768
    → Returns (string_catb mem s src) (Holds (text ++ src))
string_catb-short mem s text src gives (sized, len, content) short =
    string_catb-Holds mem s text src gives (sized, len, content)
      (elim (Bool-cases (ltb 32768 s.size)) [
        | inl large ↦ inr (ground (arith, len, short))
        | inr small ↦ inl (ground arith)
      ])

zeroed-Holds :
    (s : Str) (n : ℕ) → n ≡ s.size → IsText (record s { str = replicate n 0; len = 0 }) []
zeroed-Holds s zero e = ((length-replicate 0 0) ∙ e, refl, inl (sym e, refl))
zeroed-Holds s (suc n) e =
    (length-replicate (suc n) 0 ∙ e, refl, inr (replicate n 0, replicate-suc n 0))

-- The string is empty, in the area that it has.
pub string_zero-Holds :
    (s : Str)
    → length s.str ≡ s.size
    → Returns (string_zero s) (λ s'. IsText s' [] × (s'.size ≡ s.size))
unfolding string_zero
string_zero-Holds s sized =
    let same : (length s.str == s.size) ≡ true = ground (arith, sized) in
    (
      record s { str = replicate s.size 0; len = 0 },
      rw same refl,
      (zeroed-Holds s s.size refl, refl),
    )

-- The string holds what the format gives, in a larger area when it does not fit, and `idx` is back
-- at its start.
pub string_printf-Holds :
    (mem : Memory) (s : Str) (text : Bytes)
    → Gives mem
    → length s.str ≡ s.size
    → Returns (string_printf mem s text) (λ r. Holds text r × (r.1.idx ≡ 0))
unfolding string_printf
string_printf-Holds mem s text gives sized = elim (Bool-cases (ltb (length text) s.size)) [
  | inl fits ↦
      let (r, write, holds) = write_text-Holds s 0 [] text refl sized refl (ground (arith, fits)) in
      (_, rw (fits, write) refl, (holds, refl))
  | inr full ↦
      let (more, run, long) =
        realloc-kept_area mem s.str (length text + 1) gives (ground (arith, full, sized)) in
      let grown : Str = record s { str = kept_area s.str ++ more; size = length text + 1 } in
      let (r, write, holds) = write_text-Holds grown 0 [] text refl long refl (omega arith) in
      (_, rw (full, run, write) refl, (holds, refl))
]
