-- ===== src/Detection/Learning/Trace.antt =====
-- From the guest to the database: the learning on the trace file that a run in learning mode leaves.
use xen_syscall_analysis.Base.{
  Option, ℕ, zero, suc, ◌≡◌, refl, sym, ap, ◌∙◌, Bool, true, ◌||◌, some, List, [], ◌∷◌, map, length,
  All, All-implies, get_elem?, arith,
}
use xen_syscall_analysis.Text.{Text, text_eq}
use xen_syscall_analysis.Text.Scan.{skip_spaces}
use xen_syscall_analysis.LibVmi.{LibVmi}
use xen_syscall_analysis.SyscallTable.{Tables, learn_mode}
use xen_syscall_analysis.Process.{create_csv_file}
use xen_syscall_analysis.Process.Frames.{Visit}
use xen_syscall_analysis.Tracing.{start_tracer}
use xen_syscall_analysis.Detection.{Table, create_learning_db, str, is_stored}
use xen_syscall_analysis.Detection.Names.{is_known, IsDistinct}
use xen_syscall_analysis.Detection.Windows.{windows, table_of, create_learning_db-windows}
use xen_syscall_analysis.Detection.Learning.{
  Pandas, PandasLaws, IsPlain, IsRead, IsCsv, value_at, print_rows, firsts, syscall_column, strip,
  strip_columns, create_lookup_table, learn_files, learn, unique_rows, validate_bosc_table,
}
use xen_syscall_analysis.Detection.Learning.Rows.{
  spaced, trace_header, named, row_of, name_of, calls_seen, trace_file, process_all-rows,
  column_of_names, are_plain_sound, trace_row-IsPlain,
}
use xen_syscall_analysis.Detection.Learning.Stored.{
  never, known_bag, IsKnown, All-windows, store_windows-known_bag,
}
use xen_syscall_analysis.Detection.Learning.Tables.{
  All-IsKnown, All-among, unique_rows-known, syscall_column-lut,
}

-- What the learning leaves of a run that traced these visits.
pub record Learns (v : LibVmi) (p : Pandas) (tables : Tables) (cs : List (Visit v)) (trace : Text)
    (t : Option Table) : Type 0 where
  pub names : List Text
  pub table : Table
  pub names-IsDistinct : IsDistinct names
  pub names_known : (s : Text) → is_known s names ≡ is_known s (calls_seen v tables cs)
  pub learned : table_of (learn p never trace t) ≡ some table
  pub stored :
      (key : Text)
      → is_stored key table ≡ (
          is_stored key (validate_bosc_table t)
          || is_known key
              (map (λ w. str (known_bag names w)) (windows 10 (calls_seen v tables cs))))

named-All :
    (P : Text → Type 0) (xs : List Text) (i : ℕ)
    → P (spaced [])
    → All (λ x. P (spaced x)) xs
    → P (named (get_elem? xs i))
named-All P [] i blank h = blank
named-All P (x ∷ xs) zero blank h = h.0
named-All P (x ∷ xs) (suc i) blank h = named-All P xs i blank h.1

trace_header-IsDistinct : IsDistinct trace_header
unfolding text_eq
trace_header-IsDistinct = (refl, (refl, (refl, (refl, (refl, (refl, (refl, (refl, (refl, tt)))))))))

module _ (v : LibVmi) (p : Pandas) (laws : PandasLaws p) (tables : Tables)
    (blank : IsRead p (spaced []))
    (names_read : All (λ x. IsRead p (spaced x)) tables.sys_index) where
  calls_seen-IsRead : (cs : List (Visit v)) → All (IsRead p) (calls_seen v tables cs)
  calls_seen-IsRead [] = tt
  calls_seen-IsRead (c ∷ cs) =
      (named-All (IsRead p) tables.sys_index _ blank names_read, calls_seen-IsRead cs)

  rows-width :
      (cs : List (Visit v)) → All (λ r. length r ≡ length trace_header) (map (row_of v tables) cs)
  rows-width [] = tt
  rows-width (c ∷ cs) = (refl, rows-width cs)

  rows-IsPlain : (cs : List (Visit v)) → All (λ r. All IsPlain r) (map (row_of v tables) cs)
  rows-IsPlain [] = tt
  rows-IsPlain (c ∷ cs) = (
    trace_row-IsPlain _ _ (name_of v tables c) _
        (named-All (IsRead p) tables.sys_index _ blank names_read).0,
    rows-IsPlain cs,
  )

  trace-IsCsv : (cs : List (Visit v)) → IsCsv trace_header (map (row_of v tables) cs)
  trace-IsCsv cs = record {
    wide = omega arith;
    plain_header = are_plain_sound trace_header refl;
    header-IsDistinct = trace_header-IsDistinct;
    header_named = (
      (λ e. cc),
      (
        (λ e. cc),
        (
          (λ e. cc),
          ((λ e. cc), ((λ e. cc), ((λ e. cc), ((λ e. cc), ((λ e. cc), ((λ e. cc), tt)))))),
        ),
      ),
    );
    same_width = rows-width cs;
    plain_rows = rows-IsPlain cs;
  }

  trace_file-print_rows :
      (old_csv : Text) (cs : List (Visit v))
      → trace_file v tables old_csv cs ≡ print_rows (trace_header ∷ map (row_of v tables) cs)
  unfolding start_tracer create_csv_file
  trace_file-print_rows old_csv cs =
      process_all-rows v cs (start_tracer learn_mode old_csv tables) refl

  -- The column of names is read back, each with the space in front of it.
  syscall_column-trace :
      (old_csv : Text) (cs : List (Visit v))
      → syscall_column (strip_columns (p.read_csv (trace_file v tables old_csv cs)))
        ≡ some (calls_seen v tables cs)
  unfolding syscall_column text_eq strip skip_spaces
  syscall_column-trace old_csv cs =
      let csv = trace-IsCsv cs in
      let texts : All (λ x. p.is_text x ≡ true) (map (value_at 2) (map (row_of v tables) cs)) =
        rw (column_of_names v tables cs) (
          All-implies (IsRead p) (λ x. p.is_text x ≡ true) (λ x k. k.1) (calls_seen v tables cs)
            (calls_seen-IsRead cs)) in
      rw
        (
          trace_file-print_rows old_csv cs,
          laws.read_columns trace_header (map (row_of v tables) cs) csv,
        )
        (ap some (
          laws.read_values trace_header (map (row_of v tables) cs) 2 csv texts
          ∙ column_of_names v tables cs))

  learn-create_learning_db :
      (raises : ℕ → Bool) (old_csv : Text) (cs : List (Visit v)) (t : Option Table)
      → learn p raises (trace_file v tables old_csv cs) t
        ≡ create_learning_db raises
            (firsts (unique_rows p (calls_seen v tables cs)))
            (calls_seen v tables cs)
            (validate_bosc_table t)
  unfolding learn create_lookup_table learn_files
  learn-create_learning_db raises old_csv cs t =
      let seen = calls_seen v tables cs in
      let read : All (IsRead p) (firsts (unique_rows p seen)) =
        All-among (IsRead p) seen (firsts (unique_rows p seen))
          (λ s k. sym (unique_rows-known p laws s seen) ∙ k) (calls_seen-IsRead cs) in
      rw (syscall_column-trace old_csv cs, syscall_column-lut p laws (unique_rows p seen) read) refl

  -- From the guest to the database: if pandas reads the names of the table as they are written, a
  -- space in front of each, and no query raises, then the learning on the trace file of a run in
  -- learning mode ends with a table. Its names are those of the calls seen, each once, and it stores,
  -- beside what was there, the bags of the windows of ten consecutive calls with another call behind
  -- them and no others; no call of a bag is unknown.
  pub learn-process_all :
      (old_csv : Text) (cs : List (Visit v)) (t : Option Table)
      → Learns v p tables cs (trace_file v tables old_csv cs) t
  learn-process_all old_csv cs t =
      let seen = calls_seen v tables cs in
      let names = firsts (unique_rows p seen) in
      let distinct = laws.drop_duplicates-IsDistinct _ in
      let known = λ (s : Text). unique_rows-known p laws s seen in
      let (u, stored, has_u) =
        store_windows-known_bag names (windows 10 seen) (validate_bosc_table t) distinct
          (All-windows (IsKnown names) 10 seen (All-IsKnown names seen (λ s k. known s ∙ k))) in
      record {
        names = names;
        table = u;
        names-IsDistinct = distinct;
        names_known = known;
        learned =
            ap table_of (learn-create_learning_db never old_csv cs t)
            ∙ create_learning_db-windows never names seen (validate_bosc_table t)
            ∙ stored;
        stored = has_u;
      }
