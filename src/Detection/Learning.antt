-- ===== src/Detection/Learning.antt =====
-- The learning of server/server.py, from the trace file to the database: `create_lookup_table` of
-- server/analyse_trace.py, and `load_lookup_table` and `create_learning_db` of server/BoSC.py with
-- the reading of their files. The calls of pandas are the fields of a record.
pub mod Rows
pub mod Stored
pub mod Tables
pub mod Trace
use xen_syscall_analysis.Base.{
  ◌≢◌, ℕ, zero, suc, ◌≤◌, ◌≡◌, Bool, true, false, ◌&&◌, ◌||◌, not, Option, some, none, List, [],
  ◌∷◌, ◌++◌, map, length, All, ◌==◌, if◌then◌else◌,
}
use xen_syscall_analysis.Text.{Text, codes, decimal}
use xen_syscall_analysis.Text.Scan.{is_space, skip_spaces}
use xen_syscall_analysis.Detection.{Table, BoscCreator, create_learning_db}
use xen_syscall_analysis.Detection.Names.{is_known, IsDistinct, index_of}

-- The names of the columns, and the values of each column.
pub record Frame : Type 0 where
  pub columns : List Text
  pub values : (column : ℕ) → List Text

-- `count` is the count of each value in its group, `sort_values` and `drop_duplicates` work on rows
-- of a name and its count, `to_csv` writes a header and rows. `is_text` says which values `read_csv`
-- takes for text and leaves as they are.
pub record Pandas : Type 0 where
  pub is_text : Text → Bool
  pub read_csv : (file : Text) → Frame
  pub count : List Text → List ℕ
  pub sort_values : List (Text × ℕ) → List (Text × ℕ)
  pub drop_duplicates : List (Text × ℕ) → List (Text × ℕ)
  pub to_csv : List (List Text) → Text

-- A value that needs no quotes in a file of comma-separated values.
abbrev pub is_plain : ℕ → Bool
is_plain c = not ((c == b',') || (c == b'"') || (c == 10) || (c == 13))

abbrev pub IsPlain : Text → Type 0
IsPlain x = All (λ c. is_plain c ≡ true) x

-- A line of a file of comma-separated values.
abbrev pub print_row : List Text → Text
print_row [] = codes "\n"
print_row (x ∷ []) = x ++ codes "\n"
print_row (x ∷ y ∷ xs) = x ++ b',' ∷ print_row (y ∷ xs)

abbrev pub print_rows : List (List Text) → Text
print_rows [] = []
print_rows (r ∷ rs) = print_row r ++ print_rows rs

abbrev pub value_at : (column : ℕ) → List Text → Text
value_at i [] = []
value_at zero (x ∷ xs) = x
value_at (suc i) (x ∷ xs) = value_at i xs

-- A file of comma-separated values that is read as it looks: lines of one width, of at least two.
pub record IsCsv (header : List Text) (rows : List (List Text)) : Type 0 where
  pub wide : 2 ≤ length header
  pub plain_header : All IsPlain header
  pub header-IsDistinct : IsDistinct header
  pub header_named : All (λ name. name ≢ []) header
  pub same_width : All (λ r. length r ≡ length header) rows
  pub plain_rows : All (λ r. All IsPlain r) rows

-- A value that pandas reads as it is written.
abbrev pub IsRead : Pandas → Text → Type 0
IsRead p x = IsPlain x × (p.is_text x ≡ true)

-- The names that rows of a name and its count have.
abbrev pub firsts : List (Text × ℕ) → List Text
firsts rows = map (λ r. r.0) rows

-- What pandas documents of these calls.
pub record PandasLaws (p : Pandas) : Type 0 where
  pub read_columns :
      (header : List Text) (rows : List (List Text))
      → IsCsv header rows
      → (p.read_csv (print_rows (header ∷ rows))).columns ≡ header
  pub read_values :
      (header : List Text) (rows : List (List Text)) (column : ℕ)
      → IsCsv header rows
      → All (λ x. p.is_text x ≡ true) (map (value_at column) rows)
      → (p.read_csv (print_rows (header ∷ rows))).values column ≡ map (value_at column) rows
  pub length-count : (names : List Text) → length (p.count names) ≡ length names
  pub sort_values-known :
      (s : Text) (rows : List (Text × ℕ))
      → is_known s (firsts (p.sort_values rows)) ≡ is_known s (firsts rows)
  pub drop_duplicates-known :
      (s : Text) (rows : List (Text × ℕ))
      → is_known s (firsts (p.drop_duplicates rows)) ≡ is_known s (firsts rows)
  pub drop_duplicates-IsDistinct :
      (rows : List (Text × ℕ)) → IsDistinct (firsts (p.drop_duplicates rows))
  pub to_csv_lem :
      (header : List Text) (rows : List (List Text))
      → IsCsv header rows
      → p.to_csv (header ∷ rows) ≡ print_rows (header ∷ rows)

-- A byte in front of a text whose end is stripped.
abbrev pub cons_stripped : ℕ → Text → Text
cons_stripped c [] = if is_space c then [] else c ∷ []
cons_stripped c (d ∷ t) = c ∷ d ∷ t

abbrev pub strip_right : Text → Text
strip_right [] = []
strip_right (c ∷ t) = cons_stripped c (strip_right t)

-- `strip` takes the white space off both ends.
unfoldable pub strip : Text → Text
strip t = strip_right (skip_spaces t)

abbrev pub nth_column : Frame → Option ℕ → Option (List Text)
nth_column f none = none
nth_column f (some i) = some (f.values i)

-- `df['Syscall']`; a name that no column has raises.
unfoldable pub syscall_column : Frame → Option (List Text)
syscall_column f = nth_column f (index_of (codes "Syscall") f.columns)

-- `data.columns.map(lambda x: x.strip())`.
abbrev pub strip_columns : Frame → Frame
strip_columns f = record f { columns = map strip f.columns }

abbrev pub zip : List Text → List ℕ → List (Text × ℕ)
zip [] ns = []
zip (x ∷ xs) [] = []
zip (x ∷ xs) (n ∷ ns) = (x, n) ∷ zip xs ns

abbrev pub then_value {ℓ κ} : {A : Type ℓ} {B : Type κ} → Option A → (A → Option B) → Option B
then_value none f = none
then_value (some a) f = f a

abbrev pub lut_header : List Text
lut_header = codes "Syscall" ∷ codes "Occur" ∷ []

abbrev pub lut_row : Text × ℕ → List Text
lut_row (name, occur) = name ∷ decimal occur ∷ []

-- `CREATE TABLE IF NOT EXISTS`, taken to succeed.
abbrev pub validate_bosc_table : Option Table → Table
validate_bosc_table none = []
validate_bosc_table (some t) = t

module _ (p : Pandas) where
  abbrev pub unique_rows : List Text → List (Text × ℕ)
  unique_rows names = p.drop_duplicates (p.sort_values (zip names (p.count names)))

  -- The file lut.csv that is made of the trace file.
  unfoldable pub create_lookup_table : (trace : Text) → Option Text
  create_lookup_table trace =
      then_value (syscall_column (strip_columns (p.read_csv trace)))
        (λ names. some (p.to_csv (lut_header ∷ map lut_row (unique_rows names))))

  -- `create_learning_db` with the files that it reads.
  unfoldable pub learn_files :
      (raises : ℕ → Bool) (trace lut : Text) → Option Table → Option (BoscCreator × Table)
  learn_files raises trace lut t = then_value (syscall_column (p.read_csv lut)) (λ names.
      then_value (syscall_column (strip_columns (p.read_csv trace)))
        (λ rows. create_learning_db raises names rows (validate_bosc_table t)))

  -- `server.py --learn`.
  unfoldable pub learn :
      (raises : ℕ → Bool) (trace : Text) → Option Table → Option (BoscCreator × Table)
  learn raises trace t =
      then_value (create_lookup_table trace) (λ lut. learn_files raises trace lut t)
