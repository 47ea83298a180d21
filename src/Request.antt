-- ===== src/Request.antt =====
-- lib_tdss/request.c: the parser of the commands that the servers send each other,
-- `command key=value key=value` and the end of the line.
pub mod Fields
pub mod Command
use tdss.Common.{
  ℕ, zero, suc, ◌+◌, ◌-◌, ◌%◌, ◌^◌, Bool, true, false, ◌||◌, Option, none, some, List, [], ◌∷◌, ltb,
  ◌==◌, if◌then◌else◌, length, take, set, replicate, Bytes,
}
use tdss.Run.{Run, ok, fault, ◌>>=◌}

-- What the C library is asked: whether `strcasecmp` gives 0, `atoi` as a 32-bit word and `atoll` as
-- a 64-bit word.
pub record Libc : Type 0 where
  pub same_case : Bytes → Bytes → Bool
  pub atoi : Bytes → ℕ
  pub atoll : Bytes → ℕ

pub data ArgType : Type 0 where
  rq_type_u8 rq_type_u16 rq_type_u32 rq_type_u64 rq_type_str : ArgType

-- `rq_arg_t`, without the place that `val` points to
pub record Arg : Type 0 where
  pub type : ArgType
  pub key : Bytes
  pub vsize : ℕ

-- What is stored in the place of an argument.
pub data Value : Type 0 where
  number : ℕ → Value
  text : Bytes → Value

unfoldable pub convert : Libc → Arg → Bytes → Value
convert libc a val = elim a.type [
  | rq_type_u8 ↦ number (libc.atoi val % 2 ^ 8)
  | rq_type_u16 ↦ number (libc.atoi val % 2 ^ 16)
  | rq_type_u32 ↦ number (libc.atoi val % 2 ^ 32)
  | rq_type_u64 ↦ number (libc.atoll val % 2 ^ 64)
  | rq_type_str ↦ text (take (a.vsize - 1) val)
]

-- The arrays `key` and `val`, and the places of the arguments in `out`.
pub record Parser : Type 0 where
  pub key : Bytes
  pub val : Bytes
  pub idx : ℕ
  pub state : ℕ
  pub num : ℕ
  pub out : List (Option Value)

-- The string in an array; without a zero it goes on outside.
unfoldable pub cstr : Bytes → Run Bytes
cstr [] = fault
cstr (c ∷ cs) = elim (c == 0) [ true ↦ ok [] | false ↦ cstr cs >>= λ s. ok (c ∷ s) ]

-- The loop over the arguments, which reads outside the array if `asize` is larger than it.
unfoldable pub find_arg : Libc → List Arg → ℕ → Bytes → ℕ → Run (Option (ℕ × Arg))
find_arg libc args zero key i = ok none
find_arg libc [] (suc asize) key i = fault
find_arg libc (a ∷ args) (suc asize) key i = elim (libc.same_case a.key key) [
  | true ↦ ok (some (i, a))
  | false ↦ find_arg libc args asize key (suc i)
]

-- What a character leads to: `return 0`, or the next one.
pub data Next : Type 0 where
  success : List (Option Value) → Next
  more : Parser → Next

-- The two `memset`s and `state = 0`
abbrev pub clear : Parser → Parser
clear p = record p { key = replicate 128 0; val = replicate 1024 0; state = 0 }

-- The part under `state == 2` for a key and a value that are not empty.
unfoldable pub store : Libc → List Arg → ℕ → Parser → Bytes → Bytes → Run Next
store libc args asize p key val = find_arg libc args asize key 0 >>= λ found.
    let p' : Parser = elim found [
      | none ↦ p
      | some (i, a) ↦ record p { num = p.num + 1; out = set p.out i (some (convert libc a val)) }
    ] in
    ok (if p'.num == asize then success p'.out else more (clear p'))

unfoldable pub end_field : Libc → List Arg → ℕ → Parser → Run Next
end_field libc args asize p = cstr p.key >>= λ key. elim key [
  | [] ↦ ok (more (clear p))
  | c ∷ cs ↦ cstr p.val >>= λ val. elim val [
    | [] ↦ ok (more (clear p))
    | d ∷ ds ↦ store libc args asize p (c ∷ cs) (d ∷ ds)
  ]
]

unfoldable pub put : Parser → ℕ → Parser
put p c =
    if p.state == 0
    then (if ltb p.idx 128 then record p { key = set p.key p.idx c; idx = p.idx + 1 } else p)
    else (if ltb p.idx 1024 then record p { val = set p.val p.idx c; idx = p.idx + 1 } else p)

-- `\r`, `\n` and the space
unfoldable pub ends : ℕ → Bool
ends c = (c == 13) || (c == 10) || (c == 32)

unfoldable pub parse_char : Libc → List Arg → ℕ → Parser → ℕ → Run Next
parse_char libc args asize p c =
    if c == 61
    then ok (more (record p { state = 1; idx = 0 }))
    else if ends c
    then end_field libc args asize (record p { state = 2; idx = 0 })
    else ok (more (put p c))

unfoldable pub parse_loop : Libc → List Arg → ℕ → Parser → Bytes → Run (Bool × List (Option Value))
parse_loop libc args asize p [] = ok (false, p.out)
parse_loop libc args asize p (c ∷ src) = parse_char libc args asize p c >>= λ r. elim r [
  | success out ↦ ok (true, out)
  | more p' ↦ parse_loop libc args asize p' src
]

-- The parser before the first character, with the places as they are.
abbrev pub clean : ℕ → List (Option Value) → Parser
clean num out = record {
  key = replicate 128 0;
  val = replicate 1024 0;
  idx = 0;
  state = 0;
  num = num;
  out = out;
}

-- The flag is false for -1.
unfoldable pub request_parse :
    Libc → Bytes → List Arg → ℕ → List (Option Value) → Run (Bool × List (Option Value))
request_parse libc src args asize out = parse_loop libc args asize (clean 0 out) src
