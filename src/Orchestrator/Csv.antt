-- ===== src/Orchestrator/Csv.antt =====
-- orchestrator/persist/csv.rs: the fields of a row, and the rows of a file. Texts are their code
-- points.
pub mod Reading
use creo_bench.Prelude.{ℕ, Bool, true, false, ◌||◌, List, [], ◌∷◌, ◌++◌, ◌==◌, if◌then◌else◌}

abbrev pub comma : ℕ
comma = b','

abbrev pub quote : ℕ
quote = b'"'

abbrev pub newline : ℕ
newline = 10

abbrev pub carriage_return : ℕ
carriage_return = 13

unfoldable pub is_special : ℕ → Bool
is_special c = (c == quote) || (c == comma) || (c == newline) || (c == carriage_return)

unfoldable pub has_special : List ℕ → Bool
has_special [] = false
has_special (c ∷ cs) = is_special c || has_special cs

unfoldable pub double_quotes : List ℕ → List ℕ
double_quotes [] = []
double_quotes (c ∷ cs) =
    let rest = double_quotes cs in if c == quote then quote ∷ quote ∷ rest else c ∷ rest

unfoldable pub escape_field : List ℕ → List ℕ
escape_field value =
    if has_special value then quote ∷ (double_quotes value ++ quote ∷ []) else value

-- The escaped fields with commas between them.
unfoldable pub format_fields : List (List ℕ) → List ℕ
format_fields [] = []
format_fields (field ∷ []) = escape_field field
format_fields (field ∷ next ∷ fields) =
    escape_field field ++ (comma ∷ format_fields (next ∷ fields))

-- What `writeln!` writes.
unfoldable pub line : List (List ℕ) → List ℕ
line fields = format_fields fields ++ newline ∷ []
