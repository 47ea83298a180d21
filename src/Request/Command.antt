-- ===== src/Request/Command.antt =====
-- `request_parse` of lib_tdss/request.c on a whole command.
use mathlib.Core.List.{append_assoc, append-nil}
use mathlib.Core.Path.{ap₂}
use tdss.Common.{
  set-append, ℕ, zero, suc, ◌+◌, ◌-◌, ◌<◌, ◌≡◌, refl, sym, ◌∙◌, ap, ◌≢◌, Bool, true, false, Option,
  none, some, List, [], ◌∷◌, ◌++◌, arith, ◌==◌, if◌then◌else◌, length, length-append, set,
  replicate, replicate-suc, replicate-zero, Bytes, ◌*◌, ◌≤◌,
}
use tdss.Request.{
  Libc, Arg, Value, convert, Parser, find_arg, success, more, ends, parse_char, parse_loop, clean,
  request_parse,
}
use tdss.Request.Fields.{
  Word, char_equals, loop_more, key-Word, val-Word, char_ends, end_command, end_value,
}
use tdss.Run.{ok}

-- One `key=value` and the character behind it, and the argument that it is for.
pub record Field : Type 0 where
  pub arg : Arg
  pub key : Bytes
  pub val : Bytes
  pub stop : ℕ

-- The words are not empty, hold no character with a meaning, and fit the arrays.
abbrev pub Good : Field → Type 0
Good f =
    Word f.key
    × Word f.val
    × (f.key ≢ [])
    × (f.val ≢ [])
    × (length f.key < 128)
    × (length f.val < 1024)
    × (ends f.stop ≡ true)

abbrev pub message : List Field → Bytes → Bytes
message [] rest = rest
message (f ∷ fs) rest = f.key ++ 61 ∷ (f.val ++ f.stop ∷ message fs rest)

-- What is to be stored for the fields.
abbrev pub values : Libc → List Field → List (Option Value)
values libc [] = []
values libc (f ∷ fs) = some (convert libc f.arg f.val) ∷ values libc fs

-- The fields are good, and stand in the order of the arguments, from the `i`th on.
abbrev pub InOrder : Libc → List Arg → ℕ → ℕ → List Field → Type 0
InOrder libc args asize i [] = Unit
InOrder libc args asize i (f ∷ fs) =
    Good f
    × (find_arg libc args asize f.key 0 ≡ ok (some (i, f.arg)))
    × InOrder libc args asize (suc i) fs

message-le :
    (libc : Libc) (args : List Arg) (asize i : ℕ) (fs : List Field) (rest : Bytes)
    → InOrder libc args asize i fs
    → length (message fs rest) ≤ length fs * 1200 + length rest
message-le libc args asize i [] rest order = omega arith
message-le libc args asize i (f ∷ fs) rest ((_, _, _, _, key, val, _), _, order) = omega (
  arith,
  key,
  val,
  length-append f.key (61 ∷ (f.val ++ f.stop ∷ message fs rest)),
  length-append f.val (f.stop ∷ message fs rest),
  message-le libc args asize (suc i) fs rest order,
)

-- A command with at most twenty good fields is shorter than 32 KB.
pub command-le :
    (libc : Libc) (args : List Arg) (asize : ℕ) (cmd : Bytes) (stop : ℕ) (fs : List Field)
    → InOrder libc args asize 0 fs
    → length cmd < 64
    → length fs ≤ 20
    → length (cmd ++ stop ∷ message fs (10 ∷ [])) ≤ 32768
command-le libc args asize cmd stop fs order short few = omega (
  arith,
  short,
  few,
  length-append cmd (stop ∷ message fs (10 ∷ [])),
  message-le libc args asize 0 fs (10 ∷ []) order,
)

ends-not_equals : (c : ℕ) → ends c ≡ true → (c == 61) ≡ false
unfolding ends
ends-not_equals c e = ground arith

module _ (libc : Libc) (args : List Arg) (asize : ℕ) where
  loop_if :
      (p p' : Parser) (c : ℕ) (rest : Bytes) (b : Bool) (out : List (Option Value))
      → parse_char libc args asize p c ≡ ok (if b then success out else more p')
      → parse_loop libc args asize p (c ∷ rest)
        ≡ (if b then ok (true, out) else parse_loop libc args asize p' rest)
  unfolding parse_loop
  loop_if p p' c rest true out step = rw (step, parse_loop) refl
  loop_if p p' c rest false out step = rw (step, parse_loop) refl

  -- One field: the end of the parsing if it is the last argument, and a fresh start if not.
  field_run :
      (f : Field) (i num : ℕ) (out : List (Option Value)) (rest : Bytes)
      → Good f
      → find_arg libc args asize f.key 0 ≡ ok (some (i, f.arg))
      → parse_loop libc args asize (clean num out) (f.key ++ 61 ∷ (f.val ++ f.stop ∷ rest)) ≡ (
          if num + 1 == asize
          then ok (true, set out i (some (convert libc f.arg f.val)))
          else parse_loop libc args asize
              (clean (num + 1) (set out i (some (convert libc f.arg f.val))))
              rest)
  field_run f i num out rest (word, word', ne, ne', short, short', stop) found =
      let m = 127 - length f.key in
      let n = 1023 - length f.val in
      key-Word libc args asize f.key [] 128 f.key (suc m) (replicate 1024 0) num out _ word refl
        (omega arith) (omega arith)
      ∙ loop_more libc args asize _ _ 61 (f.val ++ f.stop ∷ rest) (char_equals libc args asize _)
      ∙ val-Word libc args asize f.val [] 1024 f.val (suc n) (f.key ++ replicate (suc m) 0) num out
          _ word' refl (omega arith) (omega arith)
      ∙ loop_if _ (clean (num + 1) (set out i (some (convert libc f.arg f.val)))) f.stop rest
          (num + 1 == asize) _
          (char_ends libc args asize _ f.stop (ends-not_equals f.stop stop) stop
            ∙ end_value libc args asize f.key f.val m n i num f.arg out word word' ne ne' found)

  skip_command :
      (cmd : Bytes) (stop num : ℕ) (out : List (Option Value)) (rest : Bytes)
      → Word cmd
      → length cmd < 128
      → ends stop ≡ true
      → parse_loop libc args asize (clean num out) (cmd ++ stop ∷ rest)
        ≡ parse_loop libc args asize (clean num out) rest
  skip_command cmd stop num out rest word short stops =
      let m = 127 - length cmd in
      key-Word libc args asize cmd [] 128 cmd (suc m) (replicate 1024 0) num out _ word refl
        (omega arith) (omega arith)
      ∙ loop_more libc args asize _ _ stop rest (
          char_ends libc args asize _ stop (ends-not_equals stop stops) stops
          ∙ end_command libc args asize cmd m num out word)

  stored :
      (before : List (Option Value)) (n : ℕ) (v : Option Value)
      → set (before ++ replicate (suc n) none) (length before) v
        ≡ (before ++ v ∷ []) ++ replicate n none
  stored before n v =
      ap (λ (l : List (Option Value)). set (before ++ l) (length before) v) (replicate-suc n none)
      ∙ set-append before none v (replicate n none)
      ∙ sym (append_assoc before (v ∷ []) (replicate n none))

  append_none :
      (before : List (Option Value)) (v : Option Value)
      → (before ++ v ∷ []) ++ replicate 0 none ≡ before ++ v ∷ []
  append_none before v =
      ap (λ (l : List (Option Value)). (before ++ v ∷ []) ++ l) (replicate-zero none)
      ∙ append-nil (before ++ v ∷ [])

  last_num : (n m k : ℕ) → n + suc zero ≡ m → (n + 1 == m) ≡ true
  last_num n m k e = ground (arith, e)

  not_last : (n m k : ℕ) → n + suc (suc k) ≡ m → (n + 1 == m) ≡ false
  not_last n m k e = ground (arith, e)

  fields_run :
      (f : Field) (fs : List Field) (before : List (Option Value)) (rest : Bytes)
      → InOrder libc args asize (length before) (f ∷ fs)
      → length before + length (f ∷ fs) ≡ asize
      → parse_loop libc args asize
          (clean (length before) (before ++ replicate (length (f ∷ fs)) none))
          (message (f ∷ fs) rest)
        ≡ ok (true, before ++ values libc (f ∷ fs))
  fields_run f [] before rest (good, found, _) all =
      let v = some (convert libc f.arg f.val) in
      field_run f (length before) (length before) _ rest good found
      ∙ rw (last_num (length before) asize 0 all) (
          ap (λ (l : List (Option Value)). ok (true, l)) (stored before 0 v ∙ append_none before v))
  fields_run f (g ∷ fs) before rest (good, found, order) all =
      let v = some (convert libc f.arg f.val) in
      let count : length (before ++ v ∷ []) ≡ length before + 1 = length-append before (v ∷ []) in
      let count' : length (before ++ v ∷ []) ≡ suc (length before) = omega (arith, count) in
      field_run f (length before) (length before) _ (message (g ∷ fs) rest) good found
      ∙ rw
          (
            not_last (length before) asize (length fs) all,
            stored before (suc (length fs)) v,
            ← count,
          )
          (fields_run g fs (before ++ v ∷ []) rest (rw count' order) (omega (arith, count, all)))
      ∙ ap (λ (l : List (Option Value)). ok (true, l))
          (append_assoc before (v ∷ []) (values libc (g ∷ fs)))

  few : (n m k : ℕ) → n + suc k < m → (n + 1 == m) ≡ false
  few n m k e = ground (arith, e)

  -- Fewer fields than `asize`: the parser reads on.
  fields_read :
      (fs : List Field) (before : List (Option Value)) (rest : Bytes)
      → InOrder libc args asize (length before) fs
      → length before + length fs < asize
      → parse_loop libc args asize
          (clean (length before) (before ++ replicate (length fs) none))
          (message fs rest)
        ≡ parse_loop libc args asize
            (clean (length before + length fs) (before ++ values libc fs))
            rest
  fields_read [] before rest order lack =
      ap₂
        (λ (n : ℕ) (l : List (Option Value)).
          parse_loop libc args asize (clean n (before ++ l)) rest)
        (omega arith) (replicate-zero none)
  fields_read (f ∷ fs) before rest (good, found, order) lack =
      let v = some (convert libc f.arg f.val) in
      let count : length (before ++ v ∷ []) ≡ length before + 1 = length-append before (v ∷ []) in
      let count' : length (before ++ v ∷ []) ≡ suc (length before) = omega (arith, count) in
      let tail : parse_loop libc args asize
            (clean (length (before ++ v ∷ []) + length fs) ((before ++ v ∷ []) ++ values libc fs))
            rest
          ≡ parse_loop libc args asize
              (clean (length before + length (f ∷ fs)) (before ++ values libc (f ∷ fs))) rest =
        ap₂ (λ (n : ℕ) (l : List (Option Value)). parse_loop libc args asize (clean n l) rest)
          (omega (arith, count)) (append_assoc before (v ∷ []) (values libc fs)) in
      field_run f (length before) (length before) _ (message fs rest) good found
      ∙ rw (few (length before) asize (length fs) lack, stored before (length fs) v, ← count)
          (fields_read fs (before ++ v ∷ []) rest (rw count' order) (omega (arith, count, lack))
            ∙ tail)

-- A command whose first word fits the array, followed by good fields for the arguments in their
-- order, one for each, is parsed: the result is 0, and each argument has the value converted from
-- its field, whatever stands behind them.
pub request_parse-message :
    (libc : Libc) (args : List Arg) (cmd : Bytes) (stop : ℕ) (f : Field) (fs : List Field)
    (rest : Bytes)
    → Word cmd
    → length cmd < 128
    → ends stop ≡ true
    → InOrder libc args (length (f ∷ fs)) 0 (f ∷ fs)
    → request_parse libc
        (cmd ++ stop ∷ message (f ∷ fs) rest)
        args
        (length (f ∷ fs))
        (replicate (length (f ∷ fs)) none)
      ≡ ok (true, values libc (f ∷ fs))
unfolding request_parse
request_parse-message libc args cmd stop f fs rest word short stops order =
    skip_command libc args (length (f ∷ fs)) cmd stop 0 _ (message (f ∷ fs) rest) word short stops
    ∙ fields_run libc args (length (f ∷ fs)) f fs [] rest order (omega arith)

-- Only characters that end a word.
abbrev pub Ends : Bytes → Type 0
Ends [] = Unit
Ends (c ∷ cs) = (ends c ≡ true) × Ends cs

read_to_end :
    (libc : Libc) (args : List Arg) (asize num : ℕ) (out : List (Option Value)) (tail : Bytes)
    → Ends tail
    → parse_loop libc args asize (clean num out) tail ≡ ok (false, out)
unfolding parse_loop
read_to_end libc args asize num out [] e = refl
read_to_end libc args asize num out (c ∷ tail) (e, es) =
    skip_command libc args asize [] c num out tail tt (omega arith) e
    ∙ read_to_end libc args asize num out tail es

-- When more arguments are asked for than the command has good fields, the result is -1, though each
-- field has been stored. `file_ref_dec` and `file_ref_inc` ask for seven, and pass one argument.
pub request_parse-missing :
    (libc : Libc) (args : List Arg) (asize : ℕ) (cmd : Bytes) (stop : ℕ) (fs : List Field)
    (tail : Bytes)
    → Word cmd
    → length cmd < 128
    → ends stop ≡ true
    → InOrder libc args asize 0 fs
    → length fs < asize
    → Ends tail
    → request_parse libc (cmd ++ stop ∷ message fs tail) args asize (replicate (length fs) none)
      ≡ ok (false, values libc fs)
unfolding request_parse
request_parse-missing libc args asize cmd stop fs tail word short stops order lack last =
    skip_command libc args asize cmd stop 0 _ (message fs tail) word short stops
    ∙ fields_read libc args asize fs [] tail order (omega (arith, lack))
    ∙ read_to_end libc args asize (0 + length fs) (values libc fs) tail last
