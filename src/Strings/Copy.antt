-- ===== src/Strings/Copy.antt =====
-- The copy of a string of lib_mrt/string.c into an unused one.
use tdss.Common.{
  ℕ, ◌+◌, ◌≤◌, ◌≡◌, refl, sym, ◌∙◌, ap, ◌≢◌, inl, inr, Bool, true, false, some, [], ◌∷◌, ◌++◌, ltb,
  ◌==◌, arith, length, take, length-append, Bytes,
}
use tdss.Strings.{
  Str, unused, Memory, realloc, string_realloc, then_write, string_copyb, string_copy,
}
use tdss.Strings.Contents.{IsText, Gives, Holds, take-IsText, write_text-Holds, realloc_grows}
use tdss.Run.{Returns}

plain : (c : ℕ) → c ≢ 0 → (c == 0) ≡ false
plain c ne = ground arith

enough : (n len : ℕ) → len ≤ n → ltb n len ≡ false
enough n len le = ground (arith, le)

copy_step :
    (mem : Memory) (c : ℕ) (src : Bytes) (slen : ℕ)
    → c ≢ 0
    → slen ≤ length (c ∷ src)
    → string_copyb mem unused (c ∷ src) slen
      ≡ then_write (string_realloc mem unused (slen + 1)) 0 (take slen (c ∷ src))
unfolding string_copyb
copy_step mem c src slen ne le =
    let new : ltb 0 (slen + 1) ≡ true = ground arith in
    rw (plain c ne, enough (length (c ∷ src)) slen le, new) refl

realloc_step :
    (mem : Memory) (n : ℕ) (more : Bytes)
    → realloc mem [] n ≡ some more
    → string_realloc mem unused n ≡ (true, record { str = more; idx = 0; len = 0; size = n })
unfolding string_realloc
realloc_step mem n more run = rw (run, string_realloc) refl

-- The copy of a text that does not start with a zero holds the text.
pub string_copy-Holds :
    (mem : Memory) (src : Str) (c : ℕ) (cs : Bytes)
    → Gives mem
    → IsText src (c ∷ cs)
    → c ≢ 0
    → Returns (string_copy mem unused src) (Holds (c ∷ cs))
unfolding string_copy then_write
string_copy-Holds mem src c cs gives (sized, len, inl (none', empty)) ne =
    absurd (omega (arith, ap (λ (l : Bytes). length l) empty))
string_copy-Holds mem src c cs gives (sized, len, inr (rest, str)) ne =
    let text = take-IsText src (c ∷ cs) (sized, len, inr (rest, str)) in
    let (more, run, long) = realloc_grows mem [] (src.len + 1) gives (omega arith) (omega arith) in
    let grown : Str = record { str = more; idx = 0; len = 0; size = src.len + 1 } in
    let (r, write, holds) =
      write_text-Holds grown 0 [] (c ∷ cs) refl long refl (omega (arith, len)) in
    (
      r,
      ap (λ (b : Bytes). string_copyb mem unused b src.len) str
          ∙ copy_step mem c (cs ++ 0 ∷ rest) src.len ne
              (omega (arith, len, length-append cs (0 ∷ rest)))
          ∙ ap (then_write (string_realloc mem unused (src.len + 1)) 0)
              (ap (take src.len) (sym str) ∙ text)
          ∙ ap (λ (q : Bool × Str). then_write q 0 (c ∷ cs))
              (realloc_step mem (src.len + 1) more run)
          ∙ write,
      holds,
    )
