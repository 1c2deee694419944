-- ===== src/Prelude/Text.antt =====
-- Text as the program walks it: lists of code points, and the `str` methods that it uses.
use Prim.Native.Char.{code}
use Prim.Native.String.{String, ◌++◌ as append}
use mathlib.Core.Bool.{Bool, true, false, ◌&&◌, ◌||◌}
use mathlib.Core.List.{List, [], ◌∷◌, ◌++◌, reverse}
use mathlib.Core.Option.{Option, none, some}
use Prim.Native.Nat.{ℕ, zero, suc, ◌+◌}
use ada_claw.Prelude.Tests.{leb, ltb, ◌==◌, if◌then◌else◌}

abbrev pub Codes : Type 0
Codes = List ℕ

-- The code points of a text. `String` has its own `[]` and `∷`.
abbrev pub codes : String → Codes
codes String.[] = []
codes (String.◌∷◌ c s) = code c ∷ codes s

-- `chars().take(n)`.
unfoldable pub take_chars : ℕ → String → String
take_chars zero s = ""
take_chars (suc n) String.[] = ""
take_chars (suc n) (String.◌∷◌ c s) = String.◌∷◌ c (take_chars n s)

-- `format!` of the given parts.
unfoldable pub concat : List String → String
concat [] = ""
concat (s ∷ rest) = append s (concat rest)

abbrev pub codes_eq : Codes → Codes → Bool
codes_eq [] [] = true
codes_eq (a ∷ s) (b ∷ t) = a == b && codes_eq s t
codes_eq _ _ = false

-- `strip_prefix`.
unfoldable pub strip_prefix : Codes → Codes → Option Codes
strip_prefix [] s = some s
strip_prefix (p ∷ ps) [] = none
strip_prefix (p ∷ ps) (c ∷ s) = if p == c then strip_prefix ps s else none

unfoldable pub starts_with : Codes → Codes → Bool
starts_with [] s = true
starts_with (p ∷ ps) [] = false
starts_with (p ∷ ps) (c ∷ s) = p == c && starts_with ps s

-- `char::is_whitespace`: the code points with the property White_Space.
unfoldable pub is_whitespace : ℕ → Bool
is_whitespace c =
    leb 9 c && leb c 13
    || c == 32
    || c == 0x85
    || c == 0xA0
    || c == 0x1680
    || leb 0x2000 c && leb c 0x200A
    || c == 0x2028
    || c == 0x2029
    || c == 0x202F
    || c == 0x205F
    || c == 0x3000

unfoldable pub trim_start : Codes → Codes
unfolding is_whitespace
trim_start [] = []
trim_start (c ∷ s) = if is_whitespace c then trim_start s else c ∷ s

unfoldable pub trim : Codes → Codes
unfolding trim_start
trim s = reverse (trim_start (reverse (trim_start s)))

-- `to_lowercase`, as far as a comparison with an ASCII text can see it: the ASCII letters, and the
-- two other letters that Unicode folds into ASCII (the Kelvin sign, and the dotted capital I, which
-- becomes `i` and a combining dot). Every other code point is left as it is.
abbrev pub to_lower_char : ℕ → Codes
to_lower_char c =
    if leb b'A' c && leb c b'Z'
    then (c + 32) ∷ []
    else if c == 0x212A
    then b'k' ∷ []
    else if c == 0x130
    then b'i' ∷ 0x307 ∷ []
    else c ∷ []

unfoldable pub to_lower : Codes → Codes
to_lower [] = []
to_lower (c ∷ s) = to_lower_char c ++ to_lower s

-- `contains` of a text in a text.
unfoldable pub contains_text : Codes → Codes → Bool
unfolding starts_with
contains_text needle [] = starts_with needle []
contains_text needle (c ∷ s) = starts_with needle (c ∷ s) || contains_text needle s

-- `ends_with`.
unfoldable pub ends_with : Codes → Codes → Bool
unfolding starts_with
ends_with suffix s = starts_with (reverse suffix) (reverse s)

abbrev pub add_to_first : ℕ → List Codes → List Codes
add_to_first c [] = (c ∷ []) ∷ []
add_to_first c (line ∷ rest) = (c ∷ line) ∷ rest

-- `lines`: each ends with a line feed, or a carriage return and a line feed; the last one may lack
-- it.
unfoldable pub lines : Codes → List Codes
unfolding starts_with
lines [] = []
lines (c ∷ s) =
    let rest = lines s in
    if c == 10
    then [] ∷ rest
    else if c == 13 && starts_with (10 ∷ []) s
    then rest
    else add_to_first c rest

-- `split(sep).next()`: the part before the first separator, or the whole text.
unfoldable pub before : ℕ → Codes → Codes
before sep [] = []
before sep (c ∷ s) = let rest = before sep s in if c == sep then [] else c ∷ rest

-- The number of bytes of a text.
abbrev pub byte_length : Codes → ℕ
byte_length [] = 0
byte_length (c ∷ s) =
    (if ltb c 0x80 then 1 else if ltb c 0x800 then 2 else if ltb c 0x10000 then 3 else 4)
    + byte_length s
