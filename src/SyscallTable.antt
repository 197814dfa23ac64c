-- ===== src/SyscallTable.antt =====
-- `read_syscall_table` and `check_set_syscalls` of src/syscall-trace.c, over the bytes of the two
-- files that it opens. Names come from the order of the lines: the number on a line is read and
-- not used. A buffer that a failing `sscanf` leaves as it was keeps its old bytes here too.
pub mod Lines
pub mod Index
pub mod Watched
pub mod Sizes
use xen_syscall_analysis.Base.{
  ℕ, zero, suc, Bool, true, false, ◌||◌, Option, some, none, List, [], ◌∷◌, ◌++◌, map, ◌==◌,
  if◌then◌else◌, length, get_elem?, drop_last,
}
use xen_syscall_analysis.Base.Int.{ℤ}
use xen_syscall_analysis.Text.{Text, text_eq}
use xen_syscall_analysis.Text.Scan.{skip_spaces, scan_int, scan_word}

abbrev pub newline : ℕ
newline = 10

-- `fgets` into a buffer with room for `room` bytes and the NUL: the line and what is left.
unfoldable pub fgets : (room : ℕ) → Text → Text × Text
fgets zero t = ([], t)
fgets (suc room) [] = ([], [])
fgets (suc room) (c ∷ t) =
    let (line, rest) = fgets room t in if c == newline then (c ∷ [], t) else (c ∷ line, rest)

-- `while (fgets(line, 256, file) != NULL)`.
unfoldable pub read_lines : (fuel : ℕ) → Text → List Text
read_lines zero t = []
read_lines (suc fuel) [] = []
read_lines (suc fuel) (c ∷ t) = let (line, rest) = fgets 255 (c ∷ t) in line ∷ read_lines fuel rest

unfoldable pub file_lines : Text → List Text
unfolding read_lines
file_lines file = read_lines (length file) file

-- `sscanf(line, "%d\t%s", index, name)`: the new content of `name`.
word_or : (name : Text) → Option (Text × Text) → Text
word_or name none = name
word_or name (some (word, rest)) = word

scan_name : (name : Text) → Option (ℤ × Text) → Text
unfolding word_or
scan_name name none = name
scan_name name (some (index, rest)) = word_or name (scan_word (skip_spaces rest))

unfoldable pub scan_entry : (name line : Text) → Text
unfolding scan_name word_or
scan_entry name line = scan_name name (scan_int line)

-- The loop that fills `sys_index`.
unfoldable pub read_entries : (name : Text) → List Text → List Text
read_entries name [] = []
read_entries name (line ∷ lines) =
    let name' = scan_entry name line in name' ∷ read_entries name' lines

abbrev pub learn_mode : ℕ
learn_mode = 0

abbrev pub analysis_mode : ℕ
analysis_mode = 1

abbrev pub sandbox_mode : ℕ
sandbox_mode = 2

abbrev pub educational_mode : ℕ
educational_mode = 3

-- `num_sys` and `num_set` are the lengths.
pub record Tables : Type 0 where
  pub sys_index : List Text
  pub set_syscalls : List Text

-- The last byte of each line is cut off, whatever it is. A line is not empty, unless its first byte
-- is NUL, which is left out.
unfoldable pub read_watched : Text → List Text
read_watched file = map drop_last (file_lines file)

-- A missing file leaves the list empty.
watched : Option Text → List Text
unfolding read_watched
watched none = []
watched (some f) = read_watched f

-- `none` where `fgets` is called on the NULL of a failed `fopen`. `name` is what the local buffer
-- holds before anything is read into it.
unfoldable pub read_syscall_table :
    (name : Text) (running_mode : ℕ) (index_file set_file : Option Text) → Option Tables
unfolding watched
read_syscall_table name running_mode none set_file = none
read_syscall_table name running_mode (some file) set_file =
    let sys_index = read_entries name (file_lines file) in
    if running_mode == sandbox_mode
    then some (record { sys_index = sys_index; set_syscalls = watched set_file })
    else some (record { sys_index = sys_index; set_syscalls = [] })

-- `strcmp` against each watched name.
unfoldable pub is_watched : Text → List Text → Bool
is_watched name [] = false
is_watched name (s ∷ ss) = text_eq name s || is_watched name ss

-- A number that is not below `num_sys` has no name.
watched_at : Option Text → List Text → Bool
watched_at none ss = false
watched_at (some name) ss = is_watched name ss

unfoldable pub check_set_syscalls : Tables → (index : ℕ) → Bool
unfolding watched_at
check_set_syscalls t index = watched_at (get_elem? t.sys_index index) t.set_syscalls
