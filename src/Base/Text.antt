-- ===== src/Base/Text.antt =====
-- The string functions of JavaScript that the modelled code calls, on lists of UTF-16 code units.
pub mod Trimmed
use Prim.Native.Char.{code}
use Prim.Native.String.{String}
use Prim.Native.Nat.{ℕ, zero, suc, ◌+◌, ◌-◌}
use mathlib.Core.Bool.{Bool, true, false, ◌&&◌, ◌||◌}
use mathlib.Core.List.{List, ◌++◌, map}
use mathlib.Core.Option.{Option, none, some}
use hostrepository.Base.Tests.{leb, ◌==◌, if◌then◌else◌}

-- A string of JavaScript, as its code units.
abbrev pub Text : Type 0
Text = List ℕ

-- A literal of the source; all are ASCII.
abbrev pub codes : String → Text
codes String.[] = List.[]
codes (String.◌∷◌ c s) = List.◌∷◌ (code c) (codes s)

-- White space and line terminators, as `trim` knows them.
unfoldable pub is_space : ℕ → Bool
is_space c =
    (leb 9 c && leb c 13)
    || c == 32
    || c == 160
    || c == 5760
    || (leb 8192 c && leb c 8202)
    || c == 8232
    || c == 8233
    || c == 8239
    || c == 8287
    || c == 12288
    || c == 65279

abbrev pub is_empty : List ℕ → Bool
is_empty List.[] = true
is_empty (List.◌∷◌ c s) = false

abbrev pub trim_start : List ℕ → List ℕ
trim_start List.[] = List.[]
trim_start (List.◌∷◌ c s) = if is_space c then trim_start s else List.◌∷◌ c s

abbrev pub trim_end : List ℕ → List ℕ
trim_end List.[] = List.[]
trim_end (List.◌∷◌ c s) =
    let rest = trim_end s in if is_space c && is_empty rest then List.[] else List.◌∷◌ c rest

abbrev pub trim : List ℕ → List ℕ
trim s = trim_start (trim_end s)

-- `toLowerCase` on the ASCII letters. No other character's lower case form is an ASCII text but that
-- of the Kelvin sign, so a comparison with an ASCII text that has no `k` comes out as it does in
-- JavaScript.
abbrev pub to_lower_case : List ℕ → List ℕ
to_lower_case s = map (λ c. if leb 65 c && leb c 90 then c + 32 else c) s

abbrev pub same_text : List ℕ → List ℕ → Bool
same_text List.[] List.[] = true
same_text (List.◌∷◌ c s) (List.◌∷◌ d t) = c == d && same_text s t
same_text _ _ = false

abbrev pub ends_with : List ℕ → List ℕ → Bool
ends_with List.[] suffix = same_text List.[] suffix
ends_with (List.◌∷◌ c s) suffix = same_text (List.◌∷◌ c s) suffix || ends_with s suffix

abbrev pub starts_with : Text → Text → Bool
starts_with s List.[] = true
starts_with List.[] (List.◌∷◌ d t) = false
starts_with (List.◌∷◌ c s) (List.◌∷◌ d t) = c == d && starts_with s t

-- `s.slice(n)`
abbrev pub drop : ℕ → Text → Text
drop zero s = s
drop (suc n) List.[] = List.[]
drop (suc n) (List.◌∷◌ c s) = drop n s

-- `toUpperCase`, exact where the result is compared with an ASCII text: these characters are the ones
-- whose upper case form is ASCII, and any other's is not.
abbrev pub upper : ℕ → Text
upper c =
    if leb 97 c && leb c 122
    then List.◌∷◌ (c - 32) List.[]
    else if c == 305
    then codes "I"
    else if c == 383
    then codes "S"
    else if c == 223
    then codes "SS"
    else if c == 64256
    then codes "FF"
    else if c == 64257
    then codes "FI"
    else if c == 64258
    then codes "FL"
    else if c == 64259
    then codes "FFI"
    else if c == 64260
    then codes "FFL"
    else if c == 64261 || c == 64262
    then codes "ST"
    else List.◌∷◌ c List.[]

abbrev pub to_upper_case : Text → Text
to_upper_case List.[] = List.[]
to_upper_case (List.◌∷◌ c s) = upper c ++ to_upper_case s

abbrev pub with_first : ℕ → Option (Text × Text) → Option (Text × Text)
with_first d none = none
with_first d (some (a, b)) = some (List.◌∷◌ d a, b)

-- What stands before and after the first `c`; `indexOf` and two slices.
unfoldable pub split_at_first : ℕ → Text → Option (Text × Text)
split_at_first c List.[] = none
split_at_first c (List.◌∷◌ d s) =
    let found = split_at_first c s in if d == c then some (List.[], s) else with_first d found

-- `Buffer.byteLength(s, "utf8")`: a pair of surrogates takes four bytes, and one alone is written as
-- U+FFFD, which takes three.
abbrev pub is_high_surrogate : ℕ → Bool
is_high_surrogate c = leb 55296 c && leb c 56319

abbrev pub is_low_surrogate : ℕ → Bool
is_low_surrogate c = leb 56320 c && leb c 57343

-- `paired`: the code unit before was a high surrogate that no pair has taken.
unfoldable pub byte_length_from : Bool → Text → ℕ
byte_length_from paired List.[] = 0
byte_length_from paired (List.◌∷◌ c s) =
    (if leb c 127
      then 1
      else if leb c 2047
      then 2
      else if paired && is_low_surrogate c
      then 1
      else 3)
    + byte_length_from (is_high_surrogate c) s

unfoldable pub byte_length : Text → ℕ
byte_length = byte_length_from false
