-- ===== src/Common/Text.antt =====
-- The functions of package strings that rewrite text: Split, Join, ToUpper of one byte, ToLower and
-- TrimSpace, over the bytes of a string.
pub mod Laws
use toyotaview.Common.Tests.{leb, ltb, ◌==◌, if◌then◌else◌}
use toyotaview.Common.Bytes.{Str}
use Prim.Native.Nat.{ℕ, zero, suc, ◌+◌, ◌-◌}
use mathlib.Core.Bool.{Bool, true, ◌&&◌, ◌||◌}
use mathlib.Core.List.{List, [], ◌∷◌, ◌++◌, map, reverse}

unfoldable pub push_front : ℕ → List Str → List Str
push_front c [] = (c ∷ []) ∷ []
push_front c (p ∷ ps) = (c ∷ p) ∷ ps

-- strings.Split at a separator of one byte: the parts, at least one.
unfoldable pub split : ℕ → Str → List Str
unfolding push_front
split sep [] = [] ∷ []
split sep (c ∷ s) = let parts = split sep s in if c == sep then [] ∷ parts else push_front c parts

-- The first part of strings.SplitN(s, sep, 2).
unfoldable pub first_part : ℕ → Str → Str
first_part sep [] = []
first_part sep (c ∷ s) = let rest = first_part sep s in if c == sep then [] else c ∷ rest

-- strings.Join with a separator of one byte.
unfoldable pub join : ℕ → List Str → Str
join sep [] = []
join sep (p ∷ []) = p
join sep (p ∷ q ∷ ps) = p ++ sep ∷ join sep (q ∷ ps)

unfoldable pub upper_byte : ℕ → ℕ
upper_byte c = if leb b'a' c && leb c b'z' then c - 32 else c

unfoldable pub lower_byte : ℕ → ℕ
lower_byte c = if leb b'A' c && leb c b'Z' then c + 32 else c

-- strings.ToUpper of a string of one byte. A byte above 127 alone is no valid UTF-8, and is
-- replaced by the three bytes of U+FFFD.
unfoldable pub to_upper_one : ℕ → Str
unfolding upper_byte
to_upper_one c = if ltb c 128 then upper_byte c ∷ [] else 0xEF ∷ 0xBF ∷ 0xBD ∷ []

unfoldable pub is_ascii : Str → Bool
is_ascii [] = true
is_ascii (c ∷ s) = ltb c 128 && is_ascii s

-- strings.ToLower. What it does to text outside ASCII depends on the Unicode tables, and is the
-- argument `lower_unicode`.
unfoldable pub to_lower : (Str → Str) → Str → Str
unfolding is_ascii lower_byte
to_lower lower_unicode s = if is_ascii s then map lower_byte s else lower_unicode s

-- The white space of unicode.IsSpace, by the bytes of its UTF-8 encodings.
is_space_one : ℕ → Bool
is_space_one a = (leb 9 a && leb a 13) || a == 32

is_space_two : ℕ → ℕ → Bool
is_space_two a b = a == 0xC2 && (b == 0x85 || b == 0xA0)

is_space_three : ℕ → ℕ → ℕ → Bool
is_space_three a b c =
    (a == 0xE1 && b == 0x9A && c == 0x80)
    || (a == 0xE2 && b == 0x80 && (leb 0x80 c && leb c 0x8A || c == 0xA8 || c == 0xA9 || c == 0xAF))
    || (a == 0xE2 && b == 0x81 && c == 0x9F)
    || (a == 0xE3 && b == 0x80 && c == 0x80)

-- A byte by its position, 0 past the end; no white space has a byte 0.
byte_at : ℕ → Str → ℕ
byte_at i [] = 0
byte_at zero (a ∷ s) = a
byte_at (suc i) (a ∷ s) = byte_at i s

-- The number of bytes of the white space that a string starts with.
unfoldable pub start_width : Str → ℕ
unfolding is_space_one is_space_two is_space_three byte_at
start_width s =
    if is_space_one (byte_at 0 s)
    then 1
    else if is_space_two (byte_at 0 s) (byte_at 1 s)
    then 2
    else if is_space_three (byte_at 0 s) (byte_at 1 s) (byte_at 2 s)
    then 3
    else 0

-- The same of the white space that a string ends with, the string given last byte first.
unfoldable pub end_width : Str → ℕ
unfolding is_space_one is_space_two is_space_three byte_at
end_width s =
    if is_space_one (byte_at 0 s)
    then 1
    else if is_space_two (byte_at 1 s) (byte_at 0 s)
    then 2
    else if is_space_three (byte_at 2 s) (byte_at 1 s) (byte_at 0 s)
    then 3
    else 0

-- Skips `k` bytes, and then white space as long as `width` finds some.
unfoldable pub skip_space : (Str → ℕ) → ℕ → Str → Str
skip_space width k [] = []
skip_space width (suc k) (a ∷ s) = skip_space width k s
skip_space width zero (a ∷ s) =
    let rest = skip_space width (width (a ∷ s) - 1) s in if width (a ∷ s) == 0 then a ∷ s else rest

-- strings.TrimSpace.
unfoldable pub trim_space : Str → Str
trim_space s = reverse (skip_space end_width 0 (reverse (skip_space start_width 0 s)))
