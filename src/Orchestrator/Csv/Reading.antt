-- ===== src/Orchestrator/Csv/Reading.antt =====
-- A reader of CSV files with the grammar of RFC 4180, and orchestrator/persist/csv.rs in its light.
use creo_bench.Prelude.{
  ℕ, ◌≡◌, refl, ◌≢◌, ap, sym, subst, ◌∙◌, ==_iff, All, Bool, true, false, Bool-cases, inl, inr,
  Option, none, some, List, [], ◌∷◌, ◌++◌, append_assoc, append-nil, ◌==◌, if◌then◌else◌, arith,
}
use creo_bench.Orchestrator.Csv.{
  comma, quote, newline, carriage_return, is_special, has_special, double_quotes, escape_field,
  format_fields, line,
}

-- At the start of a field, in a field without quotes, between quotes, behind a quote that ends
-- the field or is the first of two, and behind a carriage return that ends the row with the newline.
pub data Place : Type 0 where
  start plain inside behind returned : Place

-- The rows of a text, with the code points of the field and the fields of the row that have been
-- read. Every row ends with a newline, or with a carriage return and a newline; a carriage return
-- elsewhere, a newline in a field and a comma or a quote in it stand between quotes only.
abbrev pub Row : Type 0
Row = List (List ℕ)

with_row : Row → Option (List Row) → Option (List Row)
with_row row none = none
with_row row (some rows) = some (row ∷ rows)

unfoldable pub read : Place → List ℕ → Row → List ℕ → Option (List Row)
unfolding with_row
read start [] [] [] = some []
read _ field row [] = none
read start field row (c ∷ cs) =
    let quoted = read inside field row cs in
    let next = read start [] (row ++ field ∷ []) cs in
    let last = with_row (row ++ field ∷ []) (read start [] [] cs) in
    let further = read plain (field ++ c ∷ []) row cs in
    let returns = read returned field row cs in
    if c == quote
    then quoted
    else if c == comma
    then next
    else if c == newline
    then last
    else if c == carriage_return
    then returns
    else further
read plain field row (c ∷ cs) =
    let next = read start [] (row ++ field ∷ []) cs in
    let last = with_row (row ++ field ∷ []) (read start [] [] cs) in
    let further = read plain (field ++ c ∷ []) row cs in
    let returns = read returned field row cs in
    if c == quote
    then none
    else if c == comma
    then next
    else if c == newline
    then last
    else if c == carriage_return
    then returns
    else further
read inside field row (c ∷ cs) =
    let ended = read behind field row cs in
    let further = read inside (field ++ c ∷ []) row cs in if c == quote then ended else further
read behind field row (c ∷ cs) =
    let again = read inside (field ++ c ∷ []) row cs in
    let next = read start [] (row ++ field ∷ []) cs in
    let last = with_row (row ++ field ∷ []) (read start [] [] cs) in
    let returns = read returned field row cs in
    if c == quote
    then again
    else if c == comma
    then next
    else if c == newline
    then last
    else if c == carriage_return
    then returns
    else none
read returned field row (c ∷ cs) =
    let last = with_row (row ++ field ∷ []) (read start [] [] cs) in
    if c == newline then last else none

unfoldable pub read_rows : List ℕ → Option (List Row)
read_rows text = read start [] [] text

-- The steps of the reader.
read-plain :
    (field cs : List ℕ) (row : Row) (c : ℕ)
    → is_special c ≡ false
    → read plain field row (c ∷ cs) ≡ read plain (field ++ c ∷ []) row cs
unfolding read is_special
read-plain field cs row c h = ground arith

read-start :
    (cs : List ℕ) (row : Row) (c : ℕ)
    → is_special c ≡ false
    → read start [] row (c ∷ cs) ≡ read plain (c ∷ []) row cs
unfolding read is_special
read-start cs row c h = ground arith

read-inside :
    (field cs : List ℕ) (row : Row) (c : ℕ)
    → (c == quote) ≡ false
    → read inside field row (c ∷ cs) ≡ read inside (field ++ c ∷ []) row cs
unfolding read
read-inside field cs row c h = rw (read, h) refl

read_doubled :
    (field cs : List ℕ) (row : Row)
    → read inside field row (quote ∷ quote ∷ cs) ≡ read inside (field ++ quote ∷ []) row cs
unfolding read
read_doubled field cs row = refl

-- A field ends before a comma, or with its row before a newline.
abbrev separator : Bool → ℕ
separator true = comma
separator false = newline

ended : Bool → Row → List ℕ → Option (List Row)
unfolding read
ended true row cs = read start [] row cs
ended false row cs = with_row row (read start [] [] cs)

read-ended :
    (ends : Bool) (field cs : List ℕ) (row : Row)
    → (read plain field row (separator ends ∷ cs) ≡ ended ends (row ++ field ∷ []) cs)
      × (read behind field row (separator ends ∷ cs) ≡ ended ends (row ++ field ∷ []) cs)
      × (read start [] row (separator ends ∷ cs) ≡ ended ends (row ++ [] ∷ []) cs)
unfolding read ended
read-ended true field cs row = (refl, refl, refl)
read-ended false field cs row = (refl, refl, refl)

read-quote : (cs : List ℕ) (row : Row) → read start [] row (quote ∷ cs) ≡ read inside [] row cs
unfolding read
read-quote cs row = refl

read_end_quote :
    (field cs : List ℕ) (row : Row) → read inside field row (quote ∷ cs) ≡ read behind field row cs
unfolding read
read_end_quote field cs row = refl

has_special_parts :
    (c : ℕ) (cs : List ℕ)
    → has_special (c ∷ cs) ≡ false
    → (is_special c ≡ false) × (has_special cs ≡ false)
unfolding has_special
has_special_parts c cs h = ground arith

read-plain_field :
    (ends : Bool) (value field cs : List ℕ) (row : Row)
    → has_special value ≡ false
    → read plain field row (value ++ separator ends ∷ cs)
      ≡ ended ends (row ++ (field ++ value) ∷ []) cs
read-plain_field ends [] field cs row h =
    (read-ended ends field cs row).0
    ∙ ap (λ f. ended ends (row ++ f ∷ []) cs) (sym (append-nil field))
read-plain_field ends (c ∷ value) field cs row h =
    let (ordinary, rest) = has_special_parts c value h in
    read-plain field (value ++ separator ends ∷ cs) row c ordinary
    ∙ read-plain_field ends value (field ++ c ∷ []) cs row rest
    ∙ ap (λ f. ended ends (row ++ f ∷ []) cs) (append_assoc field (c ∷ []) value)

read-start_field :
    (ends : Bool) (value cs : List ℕ) (row : Row)
    → has_special value ≡ false
    → read start [] row (value ++ separator ends ∷ cs) ≡ ended ends (row ++ value ∷ []) cs
read-start_field ends [] cs row h = (read-ended ends [] cs row).2
read-start_field ends (c ∷ value) cs row h =
    let (ordinary, rest) = has_special_parts c value h in
    read-start (value ++ separator ends ∷ cs) row c ordinary
    ∙ read-plain_field ends value (c ∷ []) cs row rest

double_quotes-quote :
    (value : List ℕ) → double_quotes (quote ∷ value) ≡ quote ∷ quote ∷ double_quotes value
unfolding double_quotes
double_quotes-quote value = refl

double_quotes_other :
    (c : ℕ) (value : List ℕ)
    → (c == quote) ≡ false
    → double_quotes (c ∷ value) ≡ c ∷ double_quotes value
unfolding double_quotes
double_quotes_other c value h = rw (double_quotes, h) refl

double_quotes_empty : double_quotes [] ≡ []
unfolding double_quotes
double_quotes_empty = refl

read-double_quotes :
    (value field cs : List ℕ) (row : Row)
    → read inside field row (double_quotes value ++ cs) ≡ read inside (field ++ value) row cs
read-double_quotes [] field cs row = rw (double_quotes_empty, append-nil field) refl
read-double_quotes (c ∷ value) field cs row =
    let rest =
      read-double_quotes value (field ++ c ∷ []) cs row
      ∙ ap (λ f. read inside f row cs) (append_assoc field (c ∷ []) value) in
    elim (Bool-cases (c == quote)) [
      | inl is_quote ↦
          (let same = (==_iff c quote).0 is_quote in
            subst
              (λ d.
                read inside field row (double_quotes (d ∷ value) ++ cs)
                ≡ read inside (field ++ c ∷ value) row cs)
              (sym same)
              (ap (λ q. read inside field row (q ++ cs)) (double_quotes-quote value)
                ∙ read_doubled field (double_quotes value ++ cs) row
                ∙ subst
                    (λ d.
                      read inside (field ++ d ∷ []) row (double_quotes value ++ cs)
                      ≡ read inside (field ++ c ∷ value) row cs)
                    same rest))
      | inr other ↦
          ap (λ q. read inside field row (q ++ cs)) (double_quotes_other c value other)
          ∙ read-inside field (double_quotes value ++ cs) row c other
          ∙ rest
    ]

read-escape_field :
    (ends : Bool) (value cs : List ℕ) (row : Row)
    → read start [] row (escape_field value ++ separator ends ∷ cs)
      ≡ ended ends (row ++ value ∷ []) cs
unfolding escape_field
read-escape_field ends value cs row = elim (Bool-cases (has_special value)) [
  | inl special ↦
      rw (escape_field, special)
        (read-quote ((double_quotes value ++ quote ∷ []) ++ separator ends ∷ cs) row
          ∙ ap (read inside [] row)
              (append_assoc (double_quotes value) (quote ∷ []) (separator ends ∷ cs))
          ∙ read-double_quotes value [] (quote ∷ separator ends ∷ cs) row
          ∙ read_end_quote value (separator ends ∷ cs) row
          ∙ (read-ended ends value cs row).1)
  | inr ordinary ↦ rw (escape_field, ordinary) (read-start_field ends value cs row ordinary)
]

read-format_fields :
    (field : List ℕ) (fields row : Row) (cs : List ℕ)
    → read start [] row (format_fields (field ∷ fields) ++ newline ∷ cs)
      ≡ with_row (row ++ field ∷ fields) (read start [] [] cs)
unfolding format_fields ended
read-format_fields field [] row cs = read-escape_field false field cs row
read-format_fields field (next ∷ fields) row cs =
    ap (read start [] row)
      (append_assoc (escape_field field) (comma ∷ format_fields (next ∷ fields)) (newline ∷ cs))
    ∙ read-escape_field true field (format_fields (next ∷ fields) ++ newline ∷ cs) row
    ∙ read-format_fields next fields (row ++ field ∷ []) cs
    ∙ ap (λ r. with_row r (read start [] [] cs)) (append_assoc row (field ∷ []) (next ∷ fields))

-- The text of rows.
abbrev pub lines : List Row → List ℕ
lines [] = []
lines (row ∷ rows) = line row ++ lines rows

abbrev pub HasFields : Row → Type 0
HasFields row = row ≢ []

-- For rows of at least one field each, whatever the texts in the fields: a reader with the grammar
-- of RFC 4180, in which a row may also end with a newline alone, reads from the formatted lines of
-- the rows exactly these rows. It takes a carriage return outside of quotes only before a newline,
-- and then as the end of the row.
pub read_rows-lines : (rows : List Row) → All HasFields rows → read_rows (lines rows) ≡ some rows
unfolding read_rows read line with_row
read_rows-lines [] h = refl
read_rows-lines ([] ∷ rows) h = absurd (h.0 refl)
read_rows-lines ((field ∷ fields) ∷ rows) h =
    ap (read start [] [])
      (append_assoc (format_fields (field ∷ fields)) (newline ∷ []) (lines rows))
    ∙ read-format_fields field fields [] (lines rows)
    ∙ ap (with_row (field ∷ fields)) (read_rows-lines rows h.1)
