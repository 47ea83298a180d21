-- ===== src/Tests/Request.antt =====
-- A run and an instance for lib_tdss/request.c.
use tdss.Common.{
  ℕ, ◌+◌, ◌-◌, ◌*◌, ◌≡◌, refl, true, false, none, some, List, [], ◌∷◌, ◌++◌, arith, replicate,
  Bytes, bytes, bytes_eq,
}
use tdss.Request.{
  Libc, Arg, number, text, rq_type_u32, rq_type_str, convert, find_arg, ends, request_parse,
}
use tdss.Request.Command.{
  Field, Good, message, values, InOrder, request_parse-message, request_parse-missing,
}
use tdss.Request.Fields.{is_word-Word}
use tdss.Run.{ok}

unfoldable pub digits : ℕ → Bytes → ℕ
digits n [] = n
digits n (c ∷ cs) = digits (n * 10 + (c - 48)) cs

-- A C library that compares without regard to no letter, and reads digits.
abbrev pub libc : Libc
libc = record { same_case = bytes_eq; atoi = digits 0; atoll = digits 0 }

abbrev name_arg : Arg
name_arg = record { type = rq_type_str; key = bytes "name"; vsize = 33 }

abbrev size_arg : Arg
size_arg = record { type = rq_type_u32; key = bytes "size"; vsize = 0 }

abbrev field_of_name : Field
field_of_name = record { arg = name_arg; key = bytes "name"; val = bytes "ab"; stop = 32 }

abbrev size_field : Field
size_field = record { arg = size_arg; key = bytes "size"; val = bytes "12"; stop = 13 }

abbrev both_args : List Arg
both_args = name_arg ∷ size_arg ∷ []

field_of_name-Good : Good field_of_name
unfolding ends
field_of_name-Good = (
  is_word-Word (bytes "name") refl,
  is_word-Word (bytes "ab") refl,
  λ e. cc,
  λ e. cc,
  omega arith,
  omega arith,
  refl,
)

size_field-Good : Good size_field
unfolding ends
size_field-Good = (
  is_word-Word (bytes "size") refl,
  is_word-Word (bytes "12") refl,
  λ e. cc,
  λ e. cc,
  omega arith,
  omega arith,
  refl,
)

in_order : InOrder libc both_args 2 0 (field_of_name ∷ size_field ∷ [])
unfolding find_arg bytes_eq
in_order = (field_of_name-Good, refl, (size_field-Good, refl, tt))

request_parse-message_example :
    request_parse libc
      (bytes "get" ++ 32 ∷ message (field_of_name ∷ size_field ∷ []) (10 ∷ []))
      both_args
      2
      (replicate 2 none)
    ≡ ok (true, values libc (field_of_name ∷ size_field ∷ []))
unfolding ends
request_parse-message_example =
    request_parse-message libc both_args (bytes "get") 32 field_of_name (size_field ∷ []) (10 ∷ [])
      (is_word-Word (bytes "get") refl) (omega arith) refl in_order

values_example :
    values libc (field_of_name ∷ size_field ∷ []) ≡ some (text (bytes "ab")) ∷ some (number 12) ∷ []
unfolding convert digits
values_example = refl

-- As `file_ref_dec` calls it.
one_of_seven : InOrder libc (name_arg ∷ []) 7 0 (field_of_name ∷ [])
unfolding find_arg bytes_eq
one_of_seven = (field_of_name-Good, refl, tt)

request_parse-missing_example :
    request_parse libc
      (bytes "dec" ++ 32 ∷ message (field_of_name ∷ []) (10 ∷ []))
      (name_arg ∷ [])
      7
      (replicate 1 none)
    ≡ ok (false, values libc (field_of_name ∷ []))
unfolding ends
request_parse-missing_example =
    request_parse-missing libc (name_arg ∷ []) 7 (bytes "dec") 32 (field_of_name ∷ []) (10 ∷ [])
      (is_word-Word (bytes "dec") refl) (omega arith) refl one_of_seven (omega arith) (refl, tt)
