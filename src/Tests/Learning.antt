-- ===== src/Tests/Learning.antt =====
-- Twelve calls of open from the guest of Machine to the database.
use xen_syscall_analysis.Base.{none, ℕ, zero, suc, ◌++◌, ◌≡◌, refl, true, some, List, [], ◌∷◌, All}
use xen_syscall_analysis.Text.{Text, codes, text_eq, decimal}
use xen_syscall_analysis.SyscallTable.{Tables}
use xen_syscall_analysis.Process.Frames.{Visit}
use xen_syscall_analysis.Text.Scan.{skip_spaces}
use xen_syscall_analysis.Process.{csv_header}
use xen_syscall_analysis.Detection.{
  is_stored, create_learning_db, learn_rows, learn_row, create_bosc, count_calls, count_at,
  increment, increment_last, load_lookup_table, load_rows, set_item, zeros,
  insert_bag_if_nonexistent,
}
use xen_syscall_analysis.Detection.Windows.{table_of}
use xen_syscall_analysis.Detection.Learning.{
  IsRead, learn, create_lookup_table, syscall_column, strip, learn_files,
}
use xen_syscall_analysis.Detection.Learning.Rows.{spaced, trace_file, are_plain, are_plain_sound}
use xen_syscall_analysis.Detection.Learning.Stored.{never}
use xen_syscall_analysis.Detection.Learning.Trace.{Learns, learn-process_all}
use xen_syscall_analysis.Tests.Machine.{machine}
use xen_syscall_analysis.Tests.Csv.{parse_rows, pandas, pandas_laws}
use xen_syscall_analysis.Tests.Relay.{visit, times_ten}

abbrev tables : Tables
tables = record { sys_index = codes "read" ∷ codes "open" ∷ codes "open" ∷ []; set_syscalls = [] }

abbrev visits : List (Visit machine)
visits = visit ∷ times_ten visit

pub read : (x : Text) → are_plain (x ∷ []) ≡ true → IsRead pandas x
read x h = ((are_plain_sound (x ∷ []) h).0, refl)

names-IsRead : All (λ x. IsRead pandas (spaced x)) tables.sys_index
names-IsRead = (
  read (spaced (codes "read")) refl,
  (read (spaced (codes "open")) refl, (read (spaced (codes "open")) refl, tt)),
)

pub blank-IsRead : IsRead pandas (spaced [])
blank-IsRead = ((refl, tt), refl)

eleven_learned : Learns machine pandas tables visits (trace_file machine tables [] visits) none
eleven_learned =
    learn-process_all machine pandas pandas_laws tables blank-IsRead names-IsRead [] visits none

abbrev rows_of : (n : ℕ) → Text → Text
rows_of zero t = []
rows_of (suc n) t = t ++ rows_of n t

-- Of eleven rows with two windows only the first has a row behind it.
test_learn :
    table_of (
      learn pandas never
        (csv_header
          ++ (codes "7, 0, read, 1, 2, 3, 4, 5, 6\n"
              ++ rows_of 10 (codes "7, 2, open, 1, 2, 3, 4, 5, 6\n")))
        none)
    ≡ some (codes "[9, 1, 0]" ∷ [])
unfolding learn create_lookup_table syscall_column parse_rows text_eq strip skip_spaces learn_files
    create_learning_db learn_rows learn_row create_bosc count_calls count_at increment
    increment_last decimal load_lookup_table load_rows set_item zeros insert_bag_if_nonexistent
    is_stored
test_learn = refl
