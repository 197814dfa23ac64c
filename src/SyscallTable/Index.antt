-- ===== src/SyscallTable/Index.antt =====
-- What `read_syscall_table` makes of a table of numbered names, as data/syscall_index.linux is.
use xen_syscall_analysis.Base.{
  ℕ, ◌+◌, ◌<◌, ◌≡◌, refl, ap, ◌∙◌, true, not, some, List, [], ◌∷◌, ◌++◌, map, arith, length,
  append_assoc, length-append, concat, All,
}
use xen_syscall_analysis.Base.Int.{pos}
use xen_syscall_analysis.Text.{Text, decimal}
use xen_syscall_analysis.Text.Scan.{
  is_space, is_digit, skip_spaces, value, scan_int, scan_word, IsAll, decimal-IsAll,
  scan_int-decimal, scan_word-append,
}
use xen_syscall_analysis.SyscallTable.{
  newline, file_lines, word_or, scan_name, scan_entry, read_entries,
}
use xen_syscall_analysis.SyscallTable.Lines.{NewlineFree, IsLine, close_line, file_lines-line}

abbrev tab : ℕ
tab = 9

-- A number and a name that is not empty, has no white space in it and fits the line buffer.
pub data Entry : Type 0 where
  entry : (index first : ℕ) (others : Text) → Entry

abbrev pub name_of : Entry → Text
name_of (entry index first others) = first ∷ others

abbrev pub entry_line : Entry → Text
entry_line (entry index first others) = decimal index ++ tab ∷ first ∷ others

abbrev pub IsEntry : Entry → Type 0
IsEntry (entry index first others) =
    IsAll (λ c. not (is_space c)) (first ∷ others)
    × (length (decimal index) + length others + 2 < 255)

-- The file that holds the entries, a line for each.
abbrev pub table_file : List Entry → Text
table_file es = concat (map (λ e. close_line (entry_line e)) es)

digits-NewlineFree : (t : Text) → IsAll is_digit t → NewlineFree t
digits-NewlineFree [] h = tt
digits-NewlineFree (c ∷ t) h = (ground (arith, h.0), digits-NewlineFree t h.1)

word-NewlineFree : (t : Text) → IsAll (λ c. not (is_space c)) t → NewlineFree t
word-NewlineFree [] h = tt
word-NewlineFree (c ∷ t) h = (ground (arith, h.0), word-NewlineFree t h.1)

NewlineFree-append : (s t : Text) → NewlineFree s → NewlineFree t → NewlineFree (s ++ t)
NewlineFree-append [] t h k = k
NewlineFree-append (c ∷ s) t h k = (h.0, NewlineFree-append s t h.1 k)

entry_line-IsLine : (e : Entry) → IsEntry e → IsLine (entry_line e)
entry_line-IsLine (entry index first others) (word, short) = record {
  one_line =
      NewlineFree-append (decimal index) (tab ∷ first ∷ others)
        (digits-NewlineFree (decimal index) (decimal-IsAll index))
        (refl, word-NewlineFree (first ∷ others) word);
  fits = rw length-append (omega arith);
}

skip_spaces-tab :
    (first : ℕ) (others : Text)
    → not (is_space first) ≡ true
    → skip_spaces (tab ∷ ((first ∷ others) ++ newline ∷ [])) ≡ (first ∷ others) ++ newline ∷ []
unfolding skip_spaces
skip_spaces-tab first others h = ground (arith, h)

-- A line of the table sets the name, whatever the number before it.
scan_entry-line :
    (name : Text) (e : Entry) → IsEntry e → scan_entry name (close_line (entry_line e)) ≡ name_of e
unfolding scan_entry
scan_entry-line name (entry index first others) (word, short) =
    let shape : close_line (decimal index ++ tab ∷ first ∷ others)
        ≡ decimal index ++ tab ∷ ((first ∷ others) ++ newline ∷ []) =
      append_assoc (decimal index) (tab ∷ first ∷ others) (newline ∷ []) in
    let number : scan_int (close_line (decimal index ++ tab ∷ first ∷ others))
        ≡ some (pos (value 0 (decimal index)), tab ∷ ((first ∷ others) ++ newline ∷ [])) =
      ap scan_int shape ∙ scan_int-decimal index tab ((first ∷ others) ++ newline ∷ []) refl in
    ap (scan_name name) number
    ∙ ap (λ t. word_or name (scan_word t)) (skip_spaces-tab first others word.0)
    ∙ ap (word_or name) (scan_word-append first others newline [] word refl)

lines_of : List Entry → List Text
lines_of es = map (λ e. close_line (entry_line e)) es

read_entries-lines :
    (name : Text) (es : List Entry)
    → All IsEntry es
    → read_entries name (lines_of es) ≡ map name_of es
unfolding read_entries lines_of
read_entries-lines name [] h = refl
read_entries-lines name (e ∷ es) h =
    rw (scan_entry-line name e h.0)
      (ap (λ r. name_of e ∷ r) (read_entries-lines (name_of e) es h.1))

file_lines-table_file :
    (es : List Entry) → All IsEntry es → file_lines (table_file es) ≡ lines_of es
unfolding lines_of file_lines
file_lines-table_file [] h = refl
file_lines-table_file (e ∷ es) h =
    ap file_lines (append_assoc (entry_line e) (newline ∷ []) (table_file es))
    ∙ file_lines-line (entry_line e) (table_file es) (entry_line-IsLine e h.0)
    ∙ ap (λ r. close_line (entry_line e) ∷ r) (file_lines-table_file es h.1)

-- The number on a line plays no part: the table holds the names in the order of the lines.
pub read_entries-table_file :
    (name : Text) (es : List Entry)
    → All IsEntry es
    → read_entries name (file_lines (table_file es)) ≡ map name_of es
read_entries-table_file name es h =
    ap (read_entries name) (file_lines-table_file es h) ∙ read_entries-lines name es h
