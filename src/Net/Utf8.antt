-- ===== src/Net/Utf8.antt =====
-- `str::from_utf8` of the standard library: whether bytes are well-formed UTF-8, by the table of
-- the Unicode standard (section 3.9, well-formed byte sequences).
use creo_bench.Prelude.{ℕ, Bool, true, ◌&&◌, List, [], ◌∷◌, ltb, leb, ◌==◌, if◌then◌else◌}

abbrev within : ℕ → ℕ → ℕ → Bool
within lo hi b = leb lo b && leb b hi

abbrev continues : ℕ → Bool
continues = within 0x80 0xBF

-- The bounds of the second byte behind a leading byte of three or four.
abbrev second_low : ℕ → ℕ
second_low b = if b == 0xE0 then 0xA0 else if b == 0xF0 then 0x90 else 0x80

abbrev second_high : ℕ → ℕ
second_high b = if b == 0xED then 0x9F else if b == 0xF4 then 0x8F else 0xBF

two_bytes : ℕ → ℕ → Bool
two_bytes a b = within 0xC2 0xDF a && continues b

three_bytes : ℕ → ℕ → ℕ → Bool
three_bytes a b c = within 0xE0 0xEF a && within (second_low a) (second_high a) b && continues c

four_bytes : ℕ → ℕ → ℕ → ℕ → Bool
four_bytes a b c d =
    within 0xF0 0xF4 a && within (second_low a) (second_high a) b && continues c && continues d

unfoldable pub from_utf8 : List ℕ → Bool
unfolding two_bytes three_bytes four_bytes
from_utf8 [] = true
from_utf8 (a ∷ []) = ltb a 0x80
from_utf8 (a ∷ b ∷ []) = let one = from_utf8 (b ∷ []) in if ltb a 0x80 then one else two_bytes a b
from_utf8 (a ∷ b ∷ c ∷ []) =
    let one = from_utf8 (b ∷ c ∷ []) in
    let two = two_bytes a b && from_utf8 (c ∷ []) in
    if ltb a 0x80 then one else if ltb a 0xE0 then two else three_bytes a b c
from_utf8 (a ∷ b ∷ c ∷ d ∷ xs) =
    let one = from_utf8 (b ∷ c ∷ d ∷ xs) in
    let two = two_bytes a b && from_utf8 (c ∷ d ∷ xs) in
    let three = three_bytes a b c && from_utf8 (d ∷ xs) in
    let four = four_bytes a b c d && from_utf8 xs in
    if ltb a 0x80 then one else if ltb a 0xE0 then two else if ltb a 0xF0 then three else four
