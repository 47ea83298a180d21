-- ===== src/Tests/Strings.antt =====
-- Runs and instances for lib_mrt/string.c.
use tdss.Common.{
  ◌≡◌, refl, true, some, inl, inr, [], ◌∷◌, ◌++◌, replicate, length-replicate, bytes, arith,
}
use tdss.Run.{Returns, fault}
use tdss.Strings.{
  Str, unused, Memory, leading, cut_last, poke, string_catb, string_ltrim, string_rtrim, rtrim_loop,
}
use tdss.Strings.Contents.{IsText, Gives, Holds, string_catb-Holds}

-- Memory with sevens in it.
abbrev pub sevens : Memory
sevens n = some (replicate n 7)

pub sevens-Gives : Gives sevens
sevens-Gives n = (replicate n 7, refl, length-replicate n 7)

pub unused-IsText : IsText unused []
unused-IsText = (refl, refl, inl (refl, refl))

abbrev spaced : Str
spaced = record { str = 32 ∷ 32 ∷ (bytes "abc" ++ 0 ∷ []); idx = 0; len = 5; size = 6 }

string_catb-Holds_example :
    Returns (string_catb sevens spaced (bytes "de")) (Holds (bytes "  abc" ++ bytes "de"))
string_catb-Holds_example =
    string_catb-Holds sevens spaced (bytes "  abc") (bytes "de") sevens-Gives
      (refl, refl, inr ([], refl)) (inl (omega arith))

-- Only blanks: a zero is written in front of the area.
ltrim_blanks_example :
    string_ltrim (record { str = 32 ∷ 0 ∷ []; idx = 0; len = 1; size = 2 }) ≡ fault
unfolding string_ltrim leading cut_last poke
ltrim_blanks_example = refl

rtrim_example :
    string_rtrim (record { str = bytes "ab" ++ 32 ∷ 10 ∷ 0 ∷ []; idx = 0; len = 4; size = 5 })
    ≡ (true, record { str = bytes "ab" ++ 0 ∷ 0 ∷ 0 ∷ []; idx = 0; len = 2; size = 5 })
unfolding string_rtrim rtrim_loop
rtrim_example = refl
