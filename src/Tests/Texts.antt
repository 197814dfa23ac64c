-- ===== src/Tests/Texts.antt =====
-- Frames, tables, options and flags at concrete texts.
use mathlib.Core.List.{Memᴰ}
use xen_syscall_analysis.Base.{
  ◌⊎◌, ◌≡◌, ◌↔◌, refl, true, false, some, none, List, [], ◌∷◌, ◌++◌, map, arith, get_elem?, concat,
  All,
}
use xen_syscall_analysis.Base.Int.{pos}
use xen_syscall_analysis.Text.{Text, codes, decimal}
use xen_syscall_analysis.Window.{empty_window, append_syscall, append_all}
use xen_syscall_analysis.Window.Frames.{at_start, batch, append_all_batches}
use xen_syscall_analysis.SyscallTable.{
  Tables, sandbox_mode, read_syscall_table, fgets, scan_entry, file_lines, read_entries,
  read_watched, check_set_syscalls,
}
use xen_syscall_analysis.SyscallTable.Index.{Entry, entry, table_file, read_entries-table_file}
use xen_syscall_analysis.SyscallTable.Watched.{read_watched-open, check_set_syscalls_iff}
use xen_syscall_analysis.SyscallTable.Sizes.{Fits, read_syscall_table-Fits}
use xen_syscall_analysis.Text.Scan.{scan_int, span, value, scan_word}
use xen_syscall_analysis.Options.{Opt, main}
use xen_syscall_analysis.Options.Last.{decide_action, main-decide_action}
use xen_syscall_analysis.Flags.{open_flags, mprotect_flags}
use xen_syscall_analysis.Flags.Tables.{names_of, open_flags-names_of}

abbrev names : List Text
names = codes "read" ∷ codes "open" ∷ []

append_all_batches_example :
    append_all
      (pos 2)
      (concat (map batch ((names, codes "close") ∷ [])) ++ codes "stat" ∷ [])
      (at_start [])
    ≡ record { buffer = codes "stat,"; frame_index = 1; sent = codes "read,open,." ∷ [] }
append_all_batches_example =
    append_all_batches 2 ((names, codes "close") ∷ []) (codes "stat" ∷ []) [] (refl, tt)
      (omega arith)

abbrev entries : List Entry
entries = entry 0 b'r' (codes "ead") ∷ entry 7 b'o' (codes "pen") ∷ []

read_entries-table_file_example :
    read_entries [] (file_lines (table_file entries)) ≡ codes "read" ∷ codes "open" ∷ []
unfolding decimal
read_entries-table_file_example = read_entries-table_file [] entries (ground arith)

-- The file data/syscalls.txt of the repository has no newline at its end.
last_name_cut :
    read_watched (codes "execve\nsocket\nopen") ≡ codes "execve" ∷ codes "socket" ∷ codes "ope" ∷ []
last_name_cut =
    read_watched-open (codes "execve" ∷ codes "socket" ∷ []) b'o' (codes "pen") (ground arith)
      (ground arith)

abbrev tables : Tables
tables = record { sys_index = names; set_syscalls = codes "open" ∷ [] }

abbrev options : List Opt
options = Opt.vm_name (codes "debian") ∷ Opt.mode (codes "learn") ∷ Opt.mode (codes "sandbox") ∷ []

main-decide_action_example :
    main options ≡ decide_action false (some (codes "debian")) (some (codes "sandbox")) none none
main-decide_action_example = main-decide_action options

open_flags-names_of_example : open_flags 0o102 ≡ codes "O_RDWR O_CREAT "
unfolding names_of
open_flags-names_of_example = unfold xen_syscall_analysis.Flags.has_bit in open_flags-names_of 0o102

dropped_call :
    (append_all (pos 2) (codes "read" ∷ codes "open" ∷ codes "close" ∷ []) empty_window).sent
    ≡ codes "read,open,." ∷ []
unfolding append_all append_syscall
dropped_call = refl

check_set_syscalls_iff_example :
    (check_set_syscalls tables 1 ≡ true)
    ↔ ((name : Text) × (get_elem? names 1 ≡ some name) × Memᴰ name (codes "open" ∷ []))
check_set_syscalls_iff_example = check_set_syscalls_iff tables 1

-- The tables of sandbox mode.
read_syscall_table-Fits_example : All (λ x. Fits x ⊎ (x ≡ [])) names × All Fits (codes "ope" ∷ [])
unfolding read_syscall_table read_entries read_watched file_lines fgets scan_entry scan_int span
    value scan_word
read_syscall_table-Fits_example =
    read_syscall_table-Fits [] sandbox_mode (some (codes "0\tread\n1\topen\n"))
      (some (codes "open")) {t = record { sys_index = names; set_syscalls = codes "ope" ∷ [] }} refl
