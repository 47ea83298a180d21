-- ===== src/Strings.antt =====
-- lib_mrt/string.c: the string that grows, `string_t`.
pub mod Contents
pub mod Copy
pub mod Trim
use tdss.Common.{
  ℕ, zero, suc, ◌+◌, ◌-◌, Bool, true, false, ◌||◌, Option, none, some, List, [], ◌∷◌, ◌++◌, ltb,
  ◌==◌, if◌then◌else◌, length, take, drop, get_or, set, replicate, Bytes,
}
use tdss.Run.{Run, ok, fault, hang, ◌>>=◌}

-- `string_t`: the memory at `str`, none for the null pointer, and `idx` counted from `str`
pub record Str : Type 0 where
  pub str : Bytes
  pub idx : ℕ
  pub len : ℕ
  pub size : ℕ

-- A `string_t` of zeros.
abbrev pub unused : Str
unused = record { str = []; idx = 0; len = 0; size = 0 }

-- What stands in a new memory area of a size, when there is one.
abbrev pub Memory : Type 0
Memory = ℕ → Option Bytes

-- What `memory_realloc` copies: an area of more than 32 KB has `mem_size` 1.
unfoldable pub kept_area : Bytes → Bytes
kept_area old = if ltb 32768 (length old) then take 1 old else old

-- `M_realloc`
unfoldable pub realloc : Memory → Bytes → ℕ → Option Bytes
realloc mem old n = elim (mem n) [
  | none ↦ none
  | some new ↦ some (take n (kept_area old) ++ drop (length (kept_area old)) new)
]

-- The flag is false for MRT_ERR; then `str` is null, and the old memory is lost.
unfoldable pub string_realloc : Memory → Str → ℕ → Bool × Str
string_realloc mem s n = elim (realloc mem s.str n) [
  | none ↦ (false, record s { str = [] })
  | some area ↦ (true, record s { str = area; idx = 0; size = n })
]

-- `memcpy` into an area
unfoldable pub poke : Bytes → ℕ → Bytes → Run Bytes
poke area at src =
    if ltb (length area) (at + length src)
    then fault
    else ok (take at area ++ (src ++ drop (at + length src) area))

-- The text and the zero behind it, at a place in the area.
unfoldable pub write_text : Str → ℕ → Bytes → Run (Bool × Str)
write_text s at src = poke s.str at (src ++ 0 ∷ []) >>= λ area.
    ok (true, record s { str = area; len = at + length src })

unfoldable pub then_write : Bool × Str → ℕ → Bytes → Run (Bool × Str)
then_write (true, s) at src = write_text s at src
then_write (false, s) at src = ok (false, s)

-- `slen` bytes from a place where `src` stands; a null pointer and a zero there are refused.
unfoldable pub string_copyb : Memory → Str → Bytes → ℕ → Run (Bool × Str)
string_copyb mem s [] slen = ok (false, s)
string_copyb mem s (c ∷ src) slen =
    if c == 0
    then ok (false, s)
    else if ltb (length (c ∷ src)) slen
    then fault
    else if ltb s.size (slen + 1)
    then then_write (string_realloc mem s (slen + 1)) 0 (take slen (c ∷ src))
    else write_text s 0 (take slen (c ∷ src))

unfoldable pub string_copy : Memory → Str → Str → Run (Bool × Str)
string_copy mem s src = string_copyb mem s src.str src.len

-- `slen > dat->size - dat->len - 1`, without the subtraction
unfoldable pub string_catb : Memory → Str → Bytes → Run (Bool × Str)
string_catb mem s src =
    if ltb s.size (s.len + length src + 1)
    then then_write (string_realloc mem s (s.size + length src + 1)) s.len src
    else write_text s s.len src

-- `memset` through a null pointer goes wrong unless the size is 0.
unfoldable pub string_zero : Str → Run Str
string_zero s =
    if length s.str == s.size then ok (record s { str = replicate s.size 0; len = 0 }) else fault

-- `text` is what `vsnprintf` makes of the format and its arguments.
unfoldable pub string_printf : Memory → Str → Bytes → Run (Bool × Str)
string_printf mem s text =
    if ltb (length text) s.size
    then (write_text s 0 text >>= λ r. ok (r.0, record r.1 { idx = 0 }))
    else elim (realloc mem s.str (length text + 1)) [
      | none ↦ ok (false, record s { str = [] })
      | some area ↦ write_text (record s { str = area; size = length text + 1 }) 0 text >>= λ r.
          ok (r.0, record r.1 { idx = 0 })
    ]

-- The tabulator, the ends of a line and the space
abbrev pub is_blank : ℕ → Bool
is_blank c = (c == 9) || ((c == 10) || ((c == 13) || (c == 32)))

-- How many blanks the string starts with; with nothing else behind them it reads outside.
unfoldable pub leading : Bytes → Run ℕ
leading [] = fault
leading (c ∷ area) = elim (is_blank c) [ true ↦ leading area >>= λ n. ok (suc n) | false ↦ ok 0 ]

-- `str[len - 1] = 0` behind the move; at `len` 0 it writes in front of the area.
unfoldable pub cut_last : Str → Run Str
cut_last s = elim (s.len) [ zero ↦ fault | suc n ↦ ok (record s { str = set s.str n 0 }) ]

-- `lp` has 16 bits: with more blanks the loop does not end.
unfoldable pub string_ltrim : Str → Run Str
string_ltrim s = leading s.str >>= λ lp.
    if ltb 65535 lp
    then hang
    else if lp == 0
    then ok s
    else (poke s.str 0 (take (s.len - lp) (drop lp s.str)) >>= λ area.
        cut_last (record s { str = area; len = s.len - lp }))

-- The `while` loop, where `n` is `len`. The flag is false for MRT_ERR.
unfoldable pub rtrim_loop : ℕ → Bytes → Bool × (Bytes × ℕ)
rtrim_loop zero area = (false, (area, 0))
rtrim_loop (suc zero) area = (false, (area, 1))
rtrim_loop (suc (suc n)) area = elim (is_blank (get_or area (suc n) 0)) [
  | true ↦ rtrim_loop (suc n) (set area (suc n) 0)
  | false ↦ (true, (area, suc (suc n)))
]

unfoldable pub string_rtrim : Str → Bool × Str
string_rtrim s = let r = rtrim_loop s.len s.str in (r.0, record s { str = r.1.0; len = r.1.1 })
