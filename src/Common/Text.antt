-- ===== src/Common/Text.antt =====
-- What the program uses of JavaScript strings: code points, `toLowerCase` and `includes`.
use Prim.Native.Nat.{ℕ, ◌+◌}
use Prim.Native.Char.{code}
use Prim.Native.String.{String, [], ◌∷◌}
use mathlib.Core.Bool.{Bool, true, false, ◌&&◌, ◌||◌}
use mathlib.Core.List.{List, map}
use image_app.Common.Tests.{leb, ◌==◌, if◌then◌else◌}

abbrev pub codes : String → List ℕ
codes [] = List.[]
codes (c ∷ s) = List.◌∷◌ (code c) (codes s)

-- `toLowerCase` as far as a text in ASCII can show in the result: the capital letters, the Kelvin
-- sign (U+212A, to "k") and the dotted capital I (U+0130, to "i" and U+0307).
abbrev pub lower_code : ℕ → ℕ
lower_code c =
    if leb b'A' c && leb c b'Z'
    then c + 32
    else if c == 0x212a
    then b'k'
    else if c == 0x130
    then b'i'
    else c

abbrev pub lower : List ℕ → List ℕ
lower = map lower_code

abbrev pub begins : List ℕ → List ℕ → Bool
begins (List.[]) s = true
begins (List.◌∷◌ n needle) (List.[]) = false
begins (List.◌∷◌ n needle) (List.◌∷◌ c s) = n == c && begins needle s

-- `s.includes(needle)`
abbrev pub includes : List ℕ → List ℕ → Bool
includes (List.[]) needle = begins needle List.[]
includes (List.◌∷◌ c s) needle = begins needle (List.◌∷◌ c s) || includes s needle

-- White space and line ends of JavaScript, and `trim`.
abbrev pub is_space : ℕ → Bool
is_space c =
    (leb 9 c && leb c 13)
    || c == 32
    || c == 0xa0
    || c == 0x1680
    || (leb 0x2000 c && leb c 0x200a)
    || c == 0x2028
    || c == 0x2029
    || c == 0x202f
    || c == 0x205f
    || c == 0x3000
    || c == 0xfeff

abbrev pub trim_start : List ℕ → List ℕ
trim_start List.[] = List.[]
trim_start (List.◌∷◌ c cs) = if is_space c then trim_start cs else List.◌∷◌ c cs

abbrev pub all_space : List ℕ → Bool
all_space List.[] = true
all_space (List.◌∷◌ c cs) = is_space c && all_space cs

abbrev pub trim_end : List ℕ → List ℕ
trim_end List.[] = List.[]
trim_end (List.◌∷◌ c cs) = if all_space (List.◌∷◌ c cs) then List.[] else List.◌∷◌ c (trim_end cs)

abbrev pub trim : List ℕ → List ℕ
trim s = trim_end (trim_start s)
