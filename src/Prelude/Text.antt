-- ===== src/Prelude/Text.antt =====
-- What the source uses of Rust's `str`, over lists of code points.
--
-- `trim` removes the 25 code points of Unicode's White_Space. `to_lowercase` and `to_uppercase`
-- are used only to compare with ASCII words. They map ASCII letters, and each other code point
-- with an ASCII image (the Kelvin sign; long s, dotless i, sharp s and the Latin ligatures) to it.
-- Every other code point is left as it is: neither it nor its true image is ASCII throughout, so
-- no comparison with an ASCII word depends on it.
use Prim.Native.Nat.{ℕ, ◌+◌, ◌-◌}
use Prim.Native.Char.{code}
use Prim.Native.String.{String}
use mathlib.Core.Path.{◌≡◌, refl}
use mathlib.Core.Bool.{Bool, true, false, ◌&&◌, ◌||◌}
use mathlib.Core.List.{List, [], ◌∷◌, ◌++◌, reverse}
use native.Mathlib.Omega.{arith}
use teri_chat.Prelude.Tests.{leb, ◌==◌, if◌then◌else◌}

-- A text, by its code points.
abbrev pub Text : Type 0
Text = List ℕ

abbrev pub codes : String → Text
codes String.[] = []
codes (String.◌∷◌ c s) = code c ∷ codes s

-- Equality of texts.
unfoldable pub text_eq : Text → Text → Bool
text_eq [] [] = true
text_eq [] (d ∷ t) = false
text_eq (c ∷ s) [] = false
text_eq (c ∷ s) (d ∷ t) = c == d && text_eq s t

pub text_eq_refl : (s : Text) → text_eq s s ≡ true
unfolding text_eq
text_eq_refl [] = refl
text_eq_refl (c ∷ s) = ground (arith, text_eq_refl s)

pub eq_of_text_eq : (s t : Text) → text_eq s t ≡ true → s ≡ t
unfolding text_eq
eq_of_text_eq [] [] h = refl
eq_of_text_eq (c ∷ s) (d ∷ t) h = ground (arith, eq_of_text_eq s t)
eq_of_text_eq s t h = ground arith

is_whitespace : ℕ → Bool
is_whitespace c =
    leb 9 c && leb c 13
    || c == 32
    || c == 0x85
    || c == 0xA0
    || c == 0x1680
    || leb 0x2000 c && leb c 0x200A
    || c == 0x2028
    || c == 0x2029
    || c == 0x202F
    || c == 0x205F
    || c == 0x3000

trim_start : Text → Text
trim_start [] = []
trim_start (c ∷ s) = let rest = trim_start s in if is_whitespace c then rest else c ∷ s

unfoldable pub trim : Text → Text
unfolding trim_start is_whitespace
trim s = reverse (trim_start (reverse (trim_start s)))

lower_char : ℕ → ℕ
lower_char c = if leb 65 c && leb c 90 then c + 32 else if c == 0x212A then 107 else c

unfoldable pub to_lowercase : Text → Text
unfolding lower_char
to_lowercase [] = []
to_lowercase (c ∷ s) = lower_char c ∷ to_lowercase s

upper_char : ℕ → Text
upper_char c =
    if leb 97 c && leb c 122
    then (c - 32) ∷ []
    else if c == 0x17F
    then codes "S"
    else if c == 0x131
    then codes "I"
    else if c == 0xDF
    then codes "SS"
    else if c == 0xFB00
    then codes "FF"
    else if c == 0xFB01
    then codes "FI"
    else if c == 0xFB02
    then codes "FL"
    else if c == 0xFB03
    then codes "FFI"
    else if c == 0xFB04
    then codes "FFL"
    else if c == 0xFB05 || c == 0xFB06
    then codes "ST"
    else c ∷ []

unfoldable pub to_uppercase : Text → Text
unfolding upper_char
to_uppercase [] = []
to_uppercase (c ∷ s) = upper_char c ++ to_uppercase s
