-- ===== src/Tests/Csv.antt =====
-- A data frame of texts, which keeps the laws of pandas that the learning relies on.
use xen_syscall_analysis.Base.{
  ℕ, suc, ◌≤◌, ◌≡◌, refl, ap, ◌∙◌, inl, inr, true, Bool-cases, List, [], ◌∷◌, ◌++◌, append_assoc,
  map, length, All, arith, ◌==◌, ltb, if◌then◌else◌,
}
use xen_syscall_analysis.Text.{Text, text_eq, text_eq_sound}
use xen_syscall_analysis.Detection.Names.{is_known, IsDistinct}
use xen_syscall_analysis.Detection.Bags.{calls_of}
use xen_syscall_analysis.Detection.Learning.{
  Frame, Pandas, PandasLaws, IsPlain, print_row, print_rows, value_at, IsCsv, firsts,
}

abbrev open_cell : List (List Text) → List (List Text)
open_cell [] = ([] ∷ []) ∷ []
open_cell (r ∷ rs) = ([] ∷ r) ∷ rs

abbrev push : ℕ → List (List Text) → List (List Text)
push c [] = ((c ∷ []) ∷ []) ∷ []
push c ([] ∷ rs) = ((c ∷ []) ∷ []) ∷ rs
push c ((x ∷ xs) ∷ rs) = ((c ∷ x) ∷ xs) ∷ rs

unfoldable pub parse_rows : Text → List (List Text)
parse_rows [] = []
parse_rows (c ∷ t) =
    let rest = parse_rows t in
    if c == 10 then ([] ∷ []) ∷ rest else if c == b',' then open_cell rest else push c rest

parse_rows-last :
    (x rest : Text) → IsPlain x → parse_rows (x ++ 10 ∷ rest) ≡ (x ∷ []) ∷ parse_rows rest
unfolding parse_rows
parse_rows-last [] rest h = refl
parse_rows-last (c ∷ x) rest h = ground (arith, h.0, parse_rows-last x rest h.1)

parse_rows-cell :
    (x t : Text) (r : List Text) (rs : List (List Text))
    → IsPlain x
    → parse_rows t ≡ r ∷ rs
    → parse_rows (x ++ b',' ∷ t) ≡ (x ∷ r) ∷ rs
unfolding parse_rows
parse_rows-cell [] t r rs h e = rw e refl
parse_rows-cell (c ∷ x) t r rs h e = ground (arith, h.0, parse_rows-cell x t r rs h.1 e)

parse_rows-print_row :
    (x : Text) (xs : List Text) (rest : Text)
    → All IsPlain (x ∷ xs)
    → parse_rows (print_row (x ∷ xs) ++ rest) ≡ (x ∷ xs) ∷ parse_rows rest
parse_rows-print_row x [] rest h = rw append_assoc (parse_rows-last x rest h.0)
parse_rows-print_row x (y ∷ ys) rest h = rw append_assoc (
    parse_rows-cell x (print_row (y ∷ ys) ++ rest) (y ∷ ys) (parse_rows rest) h.0
      (parse_rows-print_row y ys rest h.1))

parse_rows-print_rows :
    (width : ℕ) (rows : List (List Text))
    → 2 ≤ width
    → All (λ r. length r ≡ width) rows
    → All (λ r. All IsPlain r) rows
    → parse_rows (print_rows rows) ≡ rows
parse_rows-print_rows width [] wide same plain = unfold parse_rows in refl
parse_rows-print_rows width ([] ∷ rows) wide same plain = absurd (omega (arith, same.0))
parse_rows-print_rows width ((x ∷ xs) ∷ rows) wide same plain =
    parse_rows-print_row x xs (print_rows rows) plain.0
    ∙ ap (λ rs. (x ∷ xs) ∷ rs) (parse_rows-print_rows width rows wide same.1 plain.1)

abbrev to_frame : List (List Text) → Frame
to_frame [] = record { columns = []; values = λ i. [] }
to_frame (header ∷ rows) = record { columns = header; values = λ i. map (value_at i) rows }

abbrev keep_last : List (Text × ℕ) → List (Text × ℕ)
keep_last [] = []
keep_last (r ∷ rows) =
    let rest = keep_last rows in if is_known r.0 (firsts rows) then rest else r ∷ rest

abbrev insert_row : Text × ℕ → List (Text × ℕ) → List (Text × ℕ)
insert_row r [] = r ∷ []
insert_row r (q ∷ rows) =
    let rest = insert_row r rows in if ltb r.1 q.1 then q ∷ rest else r ∷ q ∷ rows

abbrev descending : List (Text × ℕ) → List (Text × ℕ)
descending [] = []
descending (r ∷ rows) = insert_row r (descending rows)

abbrev pub pandas : Pandas
pandas = record {
  is_text = λ x. true;
  read_csv = λ file. to_frame (parse_rows file);
  count = λ names. map (λ name. calls_of name names) names;
  sort_values = descending;
  drop_duplicates = keep_last;
  to_csv = print_rows;
}

parse_rows-IsCsv :
    (header : List Text) (rows : List (List Text))
    → IsCsv header rows
    → parse_rows (print_rows (header ∷ rows)) ≡ header ∷ rows
parse_rows-IsCsv header rows csv =
    parse_rows-print_rows (length header) (header ∷ rows) csv.wide (refl, csv.same_width)
      (csv.plain_header, csv.plain_rows)

length-map : (f : Text → ℕ) (names : List Text) → length (map f names) ≡ length names
length-map f [] = refl
length-map f (x ∷ xs) = ap suc (length-map f xs)

keep_last-known :
    (s : Text) (rows : List (Text × ℕ))
    → is_known s (firsts (keep_last rows)) ≡ is_known s (firsts rows)
keep_last-known s [] = refl
keep_last-known s (r ∷ rows) = elim (Bool-cases (is_known r.0 (firsts rows))) [
  | inl again ↦ rw again (keep_last-known s rows ∙ known_again again)
  | inr fresh ↦ rw fresh (ground (arith, keep_last-known s rows))
]
  where
    known_again :
        is_known r.0 (firsts rows) ≡ true
        → is_known s (firsts rows) ≡ is_known s (firsts (r ∷ rows))
    known_again again = elim (Bool-cases (text_eq s r.0)) [
      | inl same ↦ rw same (rw (text_eq_sound s r.0 same) again)
      | inr other ↦ rw other refl
    ]

keep_last-IsDistinct : (rows : List (Text × ℕ)) → IsDistinct (firsts (keep_last rows))
keep_last-IsDistinct [] = tt
keep_last-IsDistinct (r ∷ rows) = elim (Bool-cases (is_known r.0 (firsts rows))) [
  | inl again ↦ rw again (keep_last-IsDistinct rows)
  | inr fresh ↦ rw fresh (keep_last-known r.0 rows ∙ fresh, keep_last-IsDistinct rows)
]

insert_row-known :
    (s : Text) (r : Text × ℕ) (rows : List (Text × ℕ))
    → is_known s (firsts (insert_row r rows)) ≡ is_known s (r.0 ∷ firsts rows)
insert_row-known s r [] = refl
insert_row-known s r (q ∷ rows) = ground (arith, insert_row-known s r rows)

descending-known :
    (s : Text) (rows : List (Text × ℕ))
    → is_known s (firsts (descending rows)) ≡ is_known s (firsts rows)
descending-known s [] = refl
descending-known s (r ∷ rows) =
    insert_row-known s r (descending rows) ∙ ground (arith, descending-known s rows)

pub pandas_laws : PandasLaws pandas
pandas_laws = record {
  read_columns = λ header rows csv. rw (parse_rows-IsCsv header rows csv) refl;
  read_values = λ header rows column csv texts. rw (parse_rows-IsCsv header rows csv) refl;
  length-count = λ names. length-map (λ name. calls_of name names) names;
  sort_values-known = descending-known;
  drop_duplicates-known = keep_last-known;
  drop_duplicates-IsDistinct = keep_last-IsDistinct;
  to_csv_lem = λ header rows csv. refl;
}
