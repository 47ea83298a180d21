-- ===== src/Request/Fields.antt =====
-- What the parser of lib_tdss/request.c reads from a command that is written as the servers write it.
use mathlib.Core.List.{append_assoc, append-nil}
use mathlib.Core.Path.{ap₂}
use tdss.Common.{
  Bool, not, ◌&&◌, set-append, ℕ, zero, suc, ◌+◌, ◌<◌, ◌≡◌, refl, sym, ◌∙◌, ap, ◌≢◌, true, false,
  Option, some, List, [], ◌∷◌, ◌++◌, arith, lt→ltb, ◌==◌, if◌then◌else◌, length, length-append, set,
  replicate, replicate-suc, Bytes,
}
use tdss.Request.{
  Libc, Arg, Value, convert, Parser, cstr, find_arg, success, more, store, end_field, put, ends,
  parse_char, parse_loop, clean,
}
use tdss.Run.{ok}

-- A character that neither ends a word nor a string.
abbrev pub Plain : ℕ → Type 0
Plain c = (c ≢ 0) × ((c == 61) ≡ false) × (ends c ≡ false)

abbrev pub Word : Bytes → Type 0
Word [] = Unit
Word (c ∷ w) = Plain c × Word w

abbrev pub is_plain : ℕ → Bool
is_plain c = not (c == 0) && (not (c == 61) && not (ends c))

abbrev pub is_word : Bytes → Bool
is_word [] = true
is_word (c ∷ w) = is_plain c && is_word w

and_left : (a b : Bool) → (a && b) ≡ true → (a ≡ true) × (b ≡ true)
and_left true b e = (refl, e)
and_left false b e = cc

not-true : (a : Bool) → not a ≡ true → a ≡ false
not-true true e = cc
not-true false e = refl

-- A way to check that a given text is a word.
pub is_word-Word : (w : Bytes) → is_word w ≡ true → Word w
is_word-Word [] e = tt
is_word-Word (c ∷ w) e =
    let (plain, rest) = and_left (is_plain c) (is_word w) e in
    let (nonzero, others) = and_left (not (c == 0)) _ plain in
    let (equals, inside) = and_left (not (c == 61)) _ others in
    (
      (λ z. ground (arith, not-true (c == 0) nonzero), not-true _ equals, not-true _ inside),
      is_word-Word w rest,
    )

abbrev pub reading : Bytes → Bytes → ℕ → ℕ → ℕ → List (Option Value) → Parser
reading k v i state num out = record {
  key = k;
  val = v;
  idx = i;
  state = state;
  num = num;
  out = out;
}

pub cstr-Word : (w : Bytes) (n : ℕ) → Word w → cstr (w ++ replicate (suc n) 0) ≡ ok w
unfolding cstr
cstr-Word [] n word = rw (replicate-suc {A = ℕ} n 0) refl
cstr-Word (c ∷ w) n (plain, word) =
    let other : (c == 0) ≡ false = ground (arith, plain) in
    rw (other, cstr) (rw (cstr-Word w n word) refl)

module _ (libc : Libc) (args : List Arg) (asize : ℕ) where
  char-Plain : (p : Parser) (c : ℕ) → Plain c → parse_char libc args asize p c ≡ ok (more (put p c))
  unfolding parse_char
  char-Plain p c (_, equals, inside) = rw (equals, inside) refl

  pub char_equals :
      (p : Parser) → parse_char libc args asize p 61 ≡ ok (more (record p { state = 1; idx = 0 }))
  unfolding parse_char
  char_equals p = refl

  pub loop_more :
      (p p' : Parser) (c : ℕ) (rest : Bytes)
      → parse_char libc args asize p c ≡ ok (more p')
      → parse_loop libc args asize p (c ∷ rest) ≡ parse_loop libc args asize p' rest
  unfolding parse_loop
  loop_more p p' c rest step = rw (step, parse_loop) refl

  put_key :
      (before : Bytes) (n : ℕ) (v : Bytes) (num : ℕ) (out : List (Option Value)) (c : ℕ)
      → length before < 128
      → put (reading (before ++ 0 ∷ replicate n 0) v (length before) 0 num out) c
        ≡ reading ((before ++ c ∷ []) ++ replicate n 0) v (length (before ++ c ∷ [])) 0 num out
  unfolding put
  put_key before n v num out c room = rw (lt→ltb (length before) 128 room) (
      ap₂ (λ (k : Bytes) (i : ℕ). reading k v i 0 num out)
        (set-append before 0 c (replicate n 0) ∙ sym (append_assoc before (c ∷ []) (replicate n 0)))
        (sym (length-append before (c ∷ []))))

  put_val :
      (before : Bytes) (n : ℕ) (k : Bytes) (num : ℕ) (out : List (Option Value)) (c : ℕ)
      → length before < 1024
      → put (reading k (before ++ 0 ∷ replicate n 0) (length before) 1 num out) c
        ≡ reading k ((before ++ c ∷ []) ++ replicate n 0) (length (before ++ c ∷ [])) 1 num out
  unfolding put
  put_val before n k num out c room = rw (lt→ltb (length before) 1024 room) (
      ap₂ (λ (v : Bytes) (i : ℕ). reading k v i 1 num out)
        (set-append before 0 c (replicate n 0) ∙ sym (append_assoc before (c ∷ []) (replicate n 0)))
        (sym (length-append before (c ∷ []))))

  -- A word of plain characters goes into the key before `=`.
  pub key-Word :
      (w before : Bytes) (n : ℕ) (whole : Bytes) (m : ℕ) (v : Bytes) (num : ℕ)
      (out : List (Option Value)) (rest : Bytes)
      → Word w
      → before ++ w ≡ whole
      → length w + m ≡ n
      → length before + n ≡ 128
      → parse_loop libc args asize
          (reading (before ++ replicate n 0) v (length before) 0 num out)
          (w ++ rest)
        ≡ parse_loop libc args asize
            (reading (whole ++ replicate m 0) v (length whole) 0 num out)
            rest
  key-Word [] before n whole m v num out rest word all count size =
      let same : before ≡ whole = sym (append-nil before) ∙ all in
      let left : m ≡ n = omega (arith, count) in rw (same, left) refl
  key-Word (c ∷ w) before zero whole m v num out rest word all count size = absurd (omega arith)
  key-Word (c ∷ w) before (suc n) whole m v num out rest (plain, word) all count size =
      loop_more _ _ c (w ++ rest) (
        char-Plain _ c plain
        ∙ ap (λ (p : Parser). ok (more p))
            (rw (replicate-suc {A = ℕ} n 0) (put_key before n v num out c (omega (arith, size)))))
      ∙ key-Word w (before ++ c ∷ []) n whole m v num out rest word
          (append_assoc before (c ∷ []) w ∙ all) (omega (arith, count))
          (omega (arith, size, length-append before (c ∷ [])))

  -- Behind `=` it goes into the value.
  pub val-Word :
      (w before : Bytes) (n : ℕ) (whole : Bytes) (m : ℕ) (k : Bytes) (num : ℕ)
      (out : List (Option Value)) (rest : Bytes)
      → Word w
      → before ++ w ≡ whole
      → length w + m ≡ n
      → length before + n ≡ 1024
      → parse_loop libc args asize
          (reading k (before ++ replicate n 0) (length before) 1 num out)
          (w ++ rest)
        ≡ parse_loop libc args asize
            (reading k (whole ++ replicate m 0) (length whole) 1 num out)
            rest
  val-Word [] before n whole m k num out rest word all count size =
      let same : before ≡ whole = sym (append-nil before) ∙ all in
      let left : m ≡ n = omega (arith, count) in rw (same, left) refl
  val-Word (c ∷ w) before zero whole m k num out rest word all count size = absurd (omega arith)
  val-Word (c ∷ w) before (suc n) whole m k num out rest (plain, word) all count size =
      loop_more _ _ c (w ++ rest) (
        char-Plain _ c plain
        ∙ ap (λ (p : Parser). ok (more p))
            (rw (replicate-suc {A = ℕ} n 0) (put_val before n k num out c (omega (arith, size)))))
      ∙ val-Word w (before ++ c ∷ []) n whole m k num out rest word
          (append_assoc before (c ∷ []) w ∙ all) (omega (arith, count))
          (omega (arith, size, length-append before (c ∷ [])))

  pub char_ends :
      (p : Parser) (c : ℕ)
      → (c == 61) ≡ false
      → ends c ≡ true
      → parse_char libc args asize p c ≡ end_field libc args asize (record p { state = 2; idx = 0 })
  unfolding parse_char
  char_ends p c equals inside = rw (equals, inside) refl

  -- A word without a value is passed over.
  pub end_command :
      (key : Bytes) (m num : ℕ) (out : List (Option Value))
      → Word key
      → end_field libc args asize
          (reading (key ++ replicate (suc m) 0) (replicate 1024 0) 0 2 num out)
        ≡ ok (more (clean num out))
  unfolding end_field
  end_command [] m num out word = rw (cstr-Word [] m tt, end_field) refl
  end_command (c ∷ cs) m num out word =
      rw (cstr-Word (c ∷ cs) m word, end_field) (rw (cstr-Word [] 1023 tt) refl)

  -- A word with a value is looked up among the arguments.
  pub end_value :
      (key val : Bytes) (m n i num : ℕ) (a : Arg) (out : List (Option Value))
      → Word key
      → Word val
      → key ≢ []
      → val ≢ []
      → find_arg libc args asize key 0 ≡ ok (some (i, a))
      → end_field libc args asize
          (reading (key ++ replicate (suc m) 0) (val ++ replicate (suc n) 0) 0 2 num out)
        ≡ ok (
            if num + 1 == asize
            then success (set out i (some (convert libc a val)))
            else more (clean (num + 1) (set out i (some (convert libc a val)))))
  unfolding end_field store
  end_value [] val m n i num a out word word' ne ne' found = absurd (ne refl)
  end_value (c ∷ cs) [] m n i num a out word word' ne ne' found = absurd (ne' refl)
  end_value (c ∷ cs) (d ∷ ds) m n i num a out word word' ne ne' found =
      rw (cstr-Word (c ∷ cs) m word, end_field)
        (rw (cstr-Word (d ∷ ds) n word') (rw (found, store) refl))
