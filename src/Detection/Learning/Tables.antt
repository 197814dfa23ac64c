-- ===== src/Detection/Learning/Tables.antt =====
-- What the learning reads back from lut.csv.
use xen_syscall_analysis.Base.{
  ℕ, ◌≡◌, refl, ap, ◌∙◌, inl, inr, true, Bool-cases, some, List, [], ◌∷◌, map, length, All,
  All-implies, arith,
}
use xen_syscall_analysis.Text.{Text, text_eq, text_eq_sound, text_eq_refl}
use xen_syscall_analysis.Detection.Names.{is_known}
use xen_syscall_analysis.Detection.Learning.{
  Pandas, PandasLaws, IsPlain, IsRead, value_at, IsCsv, firsts, syscall_column, zip, lut_header,
  lut_row, unique_rows,
}
use xen_syscall_analysis.Detection.Learning.Rows.{decimal-IsPlain, are_plain_sound}

-- If every one of the names is among the values, then they are known.
pub All-IsKnown :
    (values names : List Text)
    → ((s : Text) → is_known s names ≡ true → is_known s values ≡ true)
    → All (λ s. is_known s values ≡ true) names
All-IsKnown values [] among = tt
All-IsKnown values (name ∷ names) among = (
  among name (rw text_eq_refl refl),
  All-IsKnown values names (λ s k. among s (ground (arith, k))),
)

is_known-All :
    (P : Text → Type 0) (values : List Text) (name : Text)
    → All P values
    → is_known name values ≡ true
    → P name
is_known-All P [] name h k = absurd (cc)
is_known-All P (x ∷ values) name h k = elim (Bool-cases (text_eq name x)) [
  | inl same ↦ rw (text_eq_sound name x same) h.0
  | inr other ↦ is_known-All P values name h.1 (ground (arith, k, other))
]

-- What holds of every value holds of every name that is among them.
pub All-among :
    (P : Text → Type 0) (values names : List Text)
    → ((s : Text) → is_known s names ≡ true → is_known s values ≡ true)
    → All P values
    → All P names
All-among P values names among h =
    All-implies (λ s. is_known s values ≡ true) P (λ s k. is_known-All P values s h k) names
      (All-IsKnown values names among)

firsts-zip :
    (names : List Text) (ns : List ℕ) → length ns ≡ length names → firsts (zip names ns) ≡ names
firsts-zip [] ns h = refl
firsts-zip (x ∷ xs) [] h = absurd (omega (arith, h))
firsts-zip (x ∷ xs) (n ∷ ns) h = ap (λ r. x ∷ r) (firsts-zip xs ns (omega (arith, h)))

lut_row-width :
    (rows : List (Text × ℕ)) → All (λ r. length r ≡ length lut_header) (map lut_row rows)
lut_row-width [] = tt
lut_row-width (r ∷ rows) = (refl, lut_row-width rows)

lut_row-IsPlain :
    (rows : List (Text × ℕ))
    → All IsPlain (firsts rows)
    → All (λ r. All IsPlain r) (map lut_row rows)
lut_row-IsPlain [] h = tt
lut_row-IsPlain (r ∷ rows) h = ((h.0, (decimal-IsPlain r.1, tt)), lut_row-IsPlain rows h.1)

column-lut_row : (rows : List (Text × ℕ)) → map (value_at 0) (map lut_row rows) ≡ firsts rows
column-lut_row [] = refl
column-lut_row (r ∷ rows) = ap (λ xs. r.0 ∷ xs) (column-lut_row rows)

module _ (p : Pandas) (laws : PandasLaws p) where
  -- The names of the table are those of the trace.
  pub unique_rows-known :
      (s : Text) (names : List Text) → is_known s (firsts (unique_rows p names)) ≡ is_known s names
  unique_rows-known s names =
      laws.drop_duplicates-known s _
      ∙ laws.sort_values-known s _
      ∙ ap (is_known s) (firsts-zip names (p.count names) (laws.length-count names))

  -- The names of the file that `create_lookup_table` writes are read back.
  pub syscall_column-lut :
      (rows : List (Text × ℕ))
      → All (IsRead p) (firsts rows)
      → syscall_column (p.read_csv (p.to_csv (lut_header ∷ map lut_row rows))) ≡ some (firsts rows)
  unfolding syscall_column text_eq
  syscall_column-lut rows h =
      let csv : IsCsv lut_header (map lut_row rows) = record {
        wide = omega arith;
        plain_header = are_plain_sound lut_header refl;
        header-IsDistinct = (refl, (refl, tt));
        header_named = ((λ e. cc), ((λ e. cc), tt));
        same_width = lut_row-width rows;
        plain_rows =
            lut_row-IsPlain rows (All-implies (IsRead p) IsPlain (λ x k. k.0) (firsts rows) h);
      } in
      let texts : All (λ x. p.is_text x ≡ true) (map (value_at 0) (map lut_row rows)) =
        rw (column-lut_row rows)
          (All-implies (IsRead p) (λ x. p.is_text x ≡ true) (λ x k. k.1) (firsts rows) h) in
      rw
        (
          laws.to_csv_lem lut_header (map lut_row rows) csv,
          laws.read_columns lut_header (map lut_row rows) csv,
        )
        (ap some (laws.read_values lut_header (map lut_row rows) 0 csv texts ∙ column-lut_row rows))
