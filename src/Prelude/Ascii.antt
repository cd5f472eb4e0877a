-- ===== src/Prelude/Ascii.antt =====
-- Python's text methods on code points: `strip`, `isdigit`, `lower` and `casefold`, and `==`.
use Prim.Native.Nat.{ℕ, ◌+◌}
use Prim.Native.Char.{Char, code}
use Prim.Native.String.{String}
use mathlib.Core.Bool.{Bool, true, false, ◌&&◌, ◌||◌}
use mathlib.Core.List.{List, [], ◌∷◌, ◌++◌}
use deepinsight.Prelude.Tests.{leb, ◌==◌, if◌then◌else◌}
use deepinsight.Prelude.Texts.{is_space}

abbrev pub same_codes : List ℕ → List ℕ → Bool
same_codes [] [] = true
same_codes [] (d ∷ ds) = false
same_codes (c ∷ cs) [] = false
same_codes (c ∷ cs) (d ∷ ds) = c == d && same_codes cs ds

-- `chr(c) in text`
abbrev pub has_code : ℕ → List ℕ → Bool
has_code c [] = false
has_code c (d ∷ ds) = c == d || has_code c ds

unfoldable pub drop_spaces : List ℕ → List ℕ
drop_spaces [] = []
drop_spaces (c ∷ cs) = let rest = drop_spaces cs in if is_space c then rest else c ∷ cs

-- A character is kept when it is no space, or when a character after it is kept.
abbrev pub kept_before : ℕ → List ℕ → List ℕ
kept_before c [] = if is_space c then [] else c ∷ []
kept_before c (d ∷ ds) = c ∷ d ∷ ds

unfoldable pub drop_last_spaces : List ℕ → List ℕ
drop_last_spaces [] = []
drop_last_spaces (c ∷ cs) = kept_before c (drop_last_spaces cs)

unfoldable pub strip : List ℕ → List ℕ
unfolding drop_spaces drop_last_spaces
strip cs = drop_last_spaces (drop_spaces cs)

unfoldable pub drop_spaces_of : String → String
drop_spaces_of String.[] = String.[]
drop_spaces_of (String.◌∷◌ c s) =
    let rest = drop_spaces_of s in if is_space (code c) then rest else String.◌∷◌ c s

abbrev pub kept_before_text : Char → String → String
kept_before_text c String.[] = if is_space (code c) then String.[] else String.◌∷◌ c String.[]
kept_before_text c (String.◌∷◌ d s) = String.◌∷◌ c (String.◌∷◌ d s)

unfoldable pub drop_last_spaces_of : String → String
drop_last_spaces_of String.[] = String.[]
drop_last_spaces_of (String.◌∷◌ c s) = kept_before_text c (drop_last_spaces_of s)

unfoldable pub strip_text : String → String
unfolding drop_spaces_of drop_last_spaces_of
strip_text s = drop_last_spaces_of (drop_spaces_of s)

abbrev pub is_decimal : ℕ → Bool
is_decimal c = leb 48 c && leb c 57

-- `str.isdigit` of a Latin-1 character: the superscripts ², ³ and ¹ are digits too.
abbrev pub is_digit : ℕ → Bool
is_digit c = is_decimal c || (c == 178) || (c == 179) || (c == 185)

abbrev pub all_codes : (ℕ → Bool) → List ℕ → Bool
all_codes test [] = true
all_codes test (c ∷ cs) = test c && all_codes test cs

-- `text.isdigit()` is false of the empty text.
unfoldable pub isdigit : List ℕ → Bool
isdigit [] = false
isdigit (c ∷ cs) = all_codes is_digit (c ∷ cs)

-- `lower` and `casefold`, exact in every character whose image has an ASCII letter.
abbrev pub lower_code : ℕ → ℕ
lower_code c = if leb 65 c && leb c 90 then c + 32 else if c == 8490 then 107 else c

unfoldable pub lower : List ℕ → List ℕ
lower [] = []
lower (c ∷ cs) = lower_code c ∷ lower cs

-- ſ, the sharp s and the Latin ligatures.
abbrev pub fold_code : ℕ → List ℕ
fold_code c =
    if c == 383
    then 115 ∷ []
    else if c == 223 || c == 7838
    then 115 ∷ 115 ∷ []
    else if c == 64256
    then 102 ∷ 102 ∷ []
    else if c == 64257
    then 102 ∷ 105 ∷ []
    else if c == 64258
    then 102 ∷ 108 ∷ []
    else if c == 64259
    then 102 ∷ 102 ∷ 105 ∷ []
    else if c == 64260
    then 102 ∷ 102 ∷ 108 ∷ []
    else if c == 64261 || c == 64262
    then 115 ∷ 116 ∷ []
    else lower_code c ∷ []

unfoldable pub casefold : List ℕ → List ℕ
casefold [] = []
casefold (c ∷ cs) = fold_code c ++ casefold cs
