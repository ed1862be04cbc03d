-- ===== src/Csv/Import.antt =====
-- db/storage/CSVFile.cpp: `do_import`, on the bytes of the file; db/core/Table.cpp: export and import;
-- db/core/Database.cpp: `import_to_table`.
use essa_db.Prelude.{
  ℕ, suc, ◌+◌, Str, str_eq, codes, Bool, true, false, not, ◌==◌, ltb, Option, none, some, List, [],
  ◌∷◌, ◌++◌, length, get_elem?, if◌then◌else◌, Result, ok, err, undefined, DbError,
}
use essa_db.Prelude
use essa_db.Value.Types.{Platform, Value, ValueType, null, find_type}
use essa_db.Value.Convert.{from_string, to_string}
use essa_db.Value.Number.{skip_space}
use essa_db.Row.{Tuple, Column}
use essa_db.Expression.{Context}
use essa_db.Table.State.{Table}
use essa_db.Database.Action.{Engine, Action, pure, lift, gets, ◌>>=◌, ◌>>◌, find_table}
use essa_db.Database.Tables.{create_table, insert_into}
use essa_db.Csv.Read.{read_line, lines_of}

-- `CSVFile`
pub record CsvFile (F : Type 0) : Type 0 where
  pub columns : List (Column F)
  pub rows : List (Tuple F)

abbrev or_endless : Option (List Str) → Result (List Str)
or_endless none = undefined
or_endless (some values) = ok values

-- The lines behind the first, up to one without values.
unfoldable pub read_rows : ℕ → List Str → Result (List (List Str))
unfolding read_line
read_rows n [] = ok []
read_rows n (line ∷ lines) = Prelude.◌>>=◌ (or_endless (read_line line)) λ values. elim values [
  | [] ↦ ok []
  | v ∷ vs ↦
      if length (v ∷ vs) == n
      then (Prelude.◌>>=◌ (read_rows n lines) λ rows. ok ((v ∷ vs) ∷ rows))
      else err DbError.value_count
]

-- The type of a column after one more of its cells.
unfoldable pub next_type : ValueType → Str → ValueType
unfolding find_type
next_type ValueType.null cell = find_type cell
next_type ValueType.int cell = elim (find_type cell) [
  | ValueType.varchar ↦ ValueType.varchar
  | _ ↦ ValueType.int
]
next_type other cell = other

unfoldable pub column_type : ℕ → ValueType → List (List Str) → Result ValueType
unfolding next_type
column_type i kind [] = ok kind
column_type i kind (row ∷ rows) = elim (get_elem? row i) [
  | none ↦ undefined
  | some cell ↦ column_type i (next_type kind cell) rows
]

module _ {F : Type 0} where
  -- The columns of a file without a hint: their types are guessed from the cells.
  unfoldable pub guess_columns : ℕ → List Str → List (List Str) → Result (List (Column F))
  unfolding column_type
  guess_columns i [] rows = ok []
  guess_columns i (name ∷ names) rows = Prelude.◌>>=◌ (column_type i ValueType.null rows) λ kind.
      Prelude.◌>>=◌ (guess_columns (suc i) names rows) λ columns. ok (
        record {
          name = name;
          type = kind;
          auto_increment = false;
          unique = false;
          not_null = false;
          default = none;
        }
        ∷ columns)

module _ (p : Platform) where
  open p use {Float}

  -- A cell; a row that is shorter than the hint is read past its end.
  unfoldable pub read_cell : ValueType → Str → Result (Value Float)
  unfolding from_string
  read_cell kind cell = if str_eq cell (codes "null") then ok null else from_string p kind cell

  unfoldable pub read_tuple : List (Column Float) → List Str → Result (Tuple Float)
  unfolding read_cell
  read_tuple [] cells = ok []
  read_tuple (c ∷ cs) [] = undefined
  read_tuple (c ∷ cs) (cell ∷ cells) =
      Prelude.◌>>=◌ (read_cell c.type cell)
        λ v. Prelude.◌>>=◌ (read_tuple cs cells) λ row. ok (v ∷ row)

  unfoldable pub read_tuples : List (Column Float) → List (List Str) → Result (List (Tuple Float))
  unfolding read_tuple
  read_tuples columns [] = ok []
  read_tuples columns (cells ∷ rows) =
      Prelude.◌>>=◌ (read_tuple columns cells)
        λ row. Prelude.◌>>=◌ (read_tuples columns rows) λ tuples. ok (row ∷ tuples)

  hinted : List (Column Float) → List Str → List (List Str) → Result (List (Column Float))
  unfolding guess_columns
  hinted [] names rows = guess_columns 0 names rows
  hinted (c ∷ cs) names rows = ok (c ∷ cs)

  import_lines : List (Column Float) → List Str → Result (CsvFile Float)
  unfolding read_line read_rows hinted read_tuples
  import_lines hint [] = err DbError.no_columns
  import_lines hint (line ∷ lines) = Prelude.◌>>=◌ (or_endless (read_line line)) λ names.
      elim names [
        | [] ↦ err DbError.no_columns
        | n ∷ ns ↦ Prelude.◌>>=◌ (read_rows (length (n ∷ ns)) lines) λ rows.
            Prelude.◌>>=◌ (hinted hint (n ∷ ns) rows) λ columns.
              Prelude.◌>>=◌ (read_tuples columns rows)
                λ tuples. ok (record { columns = columns; rows = tuples })
      ]

  -- `CSVFile::do_import`; a file of white space alone counts as one that does not open.
  unfoldable pub do_import : List (Column Float) → Str → Result (CsvFile Float)
  unfolding import_lines skip_space lines_of
  do_import hint text = elim (skip_space text) [
    | [] ↦ err DbError.os_error
    | c ∷ rest ↦ import_lines hint (lines_of (c ∷ rest))
  ]

  module _ (built_in : Context Float) where
    -- `Table::import_from_csv`: the rows before an error stay in the table.
    unfoldable pub import_from_csv : Str → List (Tuple Float) → Action Float (Unit {0})
    unfolding insert_into
    import_from_csv name [] = pure tt
    import_from_csv name (row ∷ rows) = do
      insert_into p built_in name row
      import_from_csv name rows

    unfoldable pub import_into : Str → Str → Engine → Option (Table Float) → Action Float (Unit {0})
    unfolding do_import create_table import_from_csv
    import_into text name engine (some t) = do
      file ← lift (do_import t.columns text)
      import_from_csv name file.rows
    import_into text name engine none = do
      file ← lift (do_import [] text)
      create_table (record { name = name; columns = file.columns }) none engine
      import_from_csv name file.rows

    -- `Database::import_to_table`, on the bytes of the file.
    unfoldable pub import_to_table : Str → Str → Engine → Action Float (Unit {0})
    unfolding import_into find_table
    import_to_table text name engine = do
      there ← gets (λ db. find_table name db.tables)
      import_into text name engine there

    -- `Import::execute`, on the bytes of the file.
    unfoldable pub import_statement : Str → Str → Option Engine → Action Float (Unit {0})
    unfolding import_to_table
    import_statement text name engine = do
      default_one ← gets (λ db. db.default_engine)
      import_to_table text name (elim engine [ none ↦ default_one | some e ↦ e ])

-- `Table::export_to_csv`: what is written behind the cell at `i`, where there are `n` columns.
unfoldable pub cell_end : ℕ → ℕ → ℕ
cell_end i n = if n == 0 then b',' else if ltb (i + 1) n then b',' else 10

unfoldable pub export_cells : ℕ → ℕ → List Str → Str
export_cells i n [] = []
export_cells i n (cell ∷ cells) = cell ++ (cell_end i n ∷ export_cells (i + 1) n cells)

module _ (p : Platform) where
  cell_texts : Tuple p.Float → Result (List Str)
  unfolding to_string
  cell_texts [] = ok []
  cell_texts (v ∷ row) =
      Prelude.◌>>=◌ (to_string p v) λ s. Prelude.◌>>=◌ (cell_texts row) λ texts. ok (s ∷ texts)

  export_rows : ℕ → List (Tuple p.Float) → Result Str
  unfolding cell_texts export_cells
  export_rows n [] = ok []
  export_rows n (row ∷ rows) =
      Prelude.◌>>=◌ (cell_texts row)
        λ cells. Prelude.◌>>=◌ (export_rows n rows) λ rest. ok (export_cells 0 n cells ++ rest)

  column_texts : List (Column p.Float) → List Str
  column_texts [] = []
  column_texts (c ∷ cs) = c.name ∷ column_texts cs

  -- The text of the file.
  unfoldable pub export_to_csv : Table p.Float → Result Str
  unfolding export_rows export_cells column_texts
  export_to_csv t =
      let n = length t.columns in
      Prelude.◌>>=◌ (export_rows n t.rows)
        λ rows. ok (export_cells 0 n (column_texts t.columns) ++ rows)
