-- ===== src/Tests/Csv.antt =====
-- A file of commas and quotes.
use essa_db.Prelude.{◌≡◌, refl, Str, codes, some, List, [], ◌∷◌, ◌++◌}
use essa_db.Value.Number.{skip_space}
use essa_db.Csv.Read.{
  read_line, read_values, read_value, take_value, after_value, drop_quote, drop_separator, lines_of,
}
use essa_db.Csv.Import.{export_cells}
use essa_db.Csv.Ends.{read_line-ends}
use essa_db.Csv.ReadBack.{export-read_line}

quoted_line : read_line (codes " 1, 'a, b' ;c") ≡ some (codes "1" ∷ codes "a, b" ∷ codes "c" ∷ [])
unfolding read_line read_values skip_space read_value take_value after_value drop_quote
    drop_separator
quoted_line = refl

read_line-ends_example : (values : List Str) × (read_line (codes " 1, 'a, b' ;c") ≡ some values)
read_line-ends_example = read_line-ends (codes " 1, 'a, b' ;c")

export-read_line_example :
    (line : Str) × (lines_of (export_cells 0 2 (codes "Rome" ∷ codes "3 m" ∷ []) ++ codes "x")
      ≡ line ∷ lines_of (codes "x"))
    × (read_line line ≡ some (codes "Rome" ∷ codes "3 m" ∷ []))
export-read_line_example =
    export-read_line (codes "Rome") (codes "3 m" ∷ []) (codes "x")
      ((refl, (refl, (refl, (refl, (refl, tt))))), ((refl, (refl, (refl, (refl, tt)))), tt))
