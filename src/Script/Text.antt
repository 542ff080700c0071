-- ===== src/Script/Text.antt =====
-- The comparisons of texts that ignore the case of ASCII letters.
use Prim.Native.Char.{code}
use creo_bench.Prelude.{ℕ, ◌+◌, String, Bool, true, false, ◌&&◌, List, [], ◌∷◌, leb, if◌then◌else◌}

-- The code points of a text.
abbrev pub codes : String → List ℕ
codes String.[] = []
codes (String.◌∷◌ c s) = code c ∷ codes s

-- `to_ascii_lowercase`.
unfoldable pub ascii_lower : ℕ → ℕ
ascii_lower c = if leb b'A' c && leb c b'Z' then c + 32 else c

abbrev pub lower : List ℕ → List ℕ
lower [] = []
lower (c ∷ cs) = ascii_lower c ∷ lower cs

unfoldable pub same_codes : List ℕ → List ℕ → Bool
same_codes [] [] = true
same_codes (c ∷ cs) (d ∷ ds) = leb c d && leb d c && same_codes cs ds
same_codes _ _ = false

-- `str::eq_ignore_ascii_case`.
unfoldable pub eq_ignore_ascii_case : String → String → Bool
unfolding same_codes ascii_lower
eq_ignore_ascii_case s t = same_codes (lower (codes s)) (lower (codes t))
