-- ===== src/SyscallTable/Sizes.antt =====
-- That the names of both files fit the blocks of 256 bytes that they are copied to.
use xen_syscall_analysis.Base.{
  ℕ, zero, suc, ◌≤◌, ◌≡◌, ◌⊎◌, refl, Bool-cases, inl, inr, Option, some, none, List, [], ◌∷◌, map,
  ◌==◌, length, drop_last, All, arith,
}
use xen_syscall_analysis.Base.Int.{ℤ}
use xen_syscall_analysis.Text.{Text}
use xen_syscall_analysis.Text.Scan.{skip_spaces, scan_int, scan_word}
use xen_syscall_analysis.Text.Scan.Lengths.{
  length-skip_spaces-le, length-scan_int-le, length-scan_word-le,
}
use xen_syscall_analysis.SyscallTable.{
  fgets, read_lines, file_lines, scan_entry, read_entries, sandbox_mode, Tables, read_watched,
  read_syscall_table, word_or, scan_name, watched,
}

-- What one line or name may have before its NUL.
abbrev pub Fits : Text → Type 0
Fits t = length t ≤ 255

length-fgets-le : (room : ℕ) (t : Text) → length (fgets room t).0 ≤ room
unfolding fgets
length-fgets-le zero t = omega arith
length-fgets-le (suc room) [] = omega arith
length-fgets-le (suc room) (c ∷ t) = ground (arith, length-fgets-le room t)

read_lines-Fits : (fuel : ℕ) (t : Text) → All Fits (read_lines fuel t)
unfolding read_lines
read_lines-Fits zero t = tt
read_lines-Fits (suc fuel) [] = tt
read_lines-Fits (suc fuel) (c ∷ t) =
    (length-fgets-le 255 (c ∷ t), read_lines-Fits fuel (fgets 255 (c ∷ t)).1)

file_lines-Fits : (t : Text) → All Fits (file_lines t)
unfolding file_lines
file_lines-Fits t = read_lines-Fits (length t) t

-- A text that fits, or that of the local buffer before anything was read into it.
abbrev pub FitsOr : (junk : Text) → Text → Type 0
FitsOr junk t = Fits t ⊎ (t ≡ junk)

word_or-FitsOr :
    (junk name : Text) (o : Option (Text × Text))
    → FitsOr junk name
    → ((word rest : Text) → o ≡ some (word, rest) → Fits word)
    → FitsOr junk (word_or name o)
unfolding word_or
word_or-FitsOr junk name none h k = h
word_or-FitsOr junk name (some (word, rest)) h k = inl (k word rest refl)

scan_name-FitsOr :
    (junk name line : Text) (o : Option (ℤ × Text))
    → FitsOr junk name
    → Fits line
    → ((n : ℤ) (rest : Text) → o ≡ some (n, rest) → length rest ≤ length line)
    → FitsOr junk (scan_name name o)
unfolding scan_name
scan_name-FitsOr junk name line none h l k = h
scan_name-FitsOr junk name line (some (n, rest)) h l k =
    word_or-FitsOr junk name (scan_word (skip_spaces rest)) h (λ word after e. omega (
      arith,
      length-scan_word-le (skip_spaces rest) word after e,
      length-skip_spaces-le rest,
      k n rest refl,
    ))

scan_entry-FitsOr :
    (junk name line : Text) → FitsOr junk name → Fits line → FitsOr junk (scan_entry name line)
unfolding scan_entry
scan_entry-FitsOr junk name line h l =
    scan_name-FitsOr junk name line (scan_int line) h l
      (λ n rest e. length-scan_int-le line n rest e)

read_entries-FitsOr :
    (junk name : Text) (lines : List Text)
    → FitsOr junk name
    → All Fits lines
    → All (FitsOr junk) (read_entries name lines)
unfolding read_entries
read_entries-FitsOr junk name [] h k = tt
read_entries-FitsOr junk name (line ∷ lines) h k =
    let now = scan_entry-FitsOr junk name line h k.0 in
    (now, read_entries-FitsOr junk (scan_entry name line) lines now k.1)

length-drop_last-le : (t : Text) → length (drop_last t) ≤ length t
length-drop_last-le [] = omega arith
length-drop_last-le (c ∷ []) = omega arith
length-drop_last-le (c ∷ d ∷ t) = omega (arith, length-drop_last-le (d ∷ t))

map-drop_last-Fits : (lines : List Text) → All Fits lines → All Fits (map drop_last lines)
map-drop_last-Fits [] h = tt
map-drop_last-Fits (line ∷ lines) h =
    (omega (arith, length-drop_last-le line, h.0), map-drop_last-Fits lines h.1)

watched-Fits : (file : Option Text) → All Fits (watched file)
unfolding watched read_watched
watched-Fits none = tt
watched-Fits (some file) = map-drop_last-Fits (file_lines file) (file_lines-Fits file)

-- Every name of both tables has at most 255 bytes, so that with its NUL it fits its block of 256
-- bytes, but for one case: a name of the index is the text that the local buffer held at the start,
-- of whatever length. The files hold no NUL bytes.
pub read_syscall_table-Fits :
    (name : Text) (mode : ℕ) (index_file set_file : Option Text) {t : Tables}
    → read_syscall_table name mode index_file set_file ≡ some t
    → All (λ x. Fits x ⊎ (x ≡ name)) t.sys_index × All Fits t.set_syscalls
unfolding read_syscall_table
read_syscall_table-Fits name mode none set_file e = absurd (cc)
read_syscall_table-Fits name mode (some file) set_file {t} e =
    let entries =
      read_entries-FitsOr name name (file_lines file) (inr refl) (file_lines-Fits file) in
    elim (Bool-cases (mode == sandbox_mode)) [
      | inl sandbox ↦
          let is : t ≡ record {
            sys_index = read_entries name (file_lines file);
            set_syscalls = watched set_file;
          } =
            ground (arith) in
          rw is (entries, watched-Fits set_file)
      | inr other ↦
          let is : t
              ≡ record { sys_index = read_entries name (file_lines file); set_syscalls = [] } =
            ground (arith) in
          rw is (entries, tt)
    ]
