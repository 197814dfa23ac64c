-- ===== src/Process/Effects.antt =====
-- What `process_syscall` leaves behind in each mode.
use xen_syscall_analysis.Base.{
  ℕ, ◌+◌, ◌≡◌, ◌≢◌, false, Option, some, none, ◌++◌, ◌==◌, if◌then◌else◌, arith, get_elem?,
  append_assoc,
}
use xen_syscall_analysis.Base.Int.{ℤ}
use xen_syscall_analysis.Text.{Text}
use xen_syscall_analysis.LibVmi.{LibVmi}
use xen_syscall_analysis.SyscallTable.{learn_mode, analysis_mode, sandbox_mode, check_set_syscalls}
use xen_syscall_analysis.Window.{Window, append_syscall}
use xen_syscall_analysis.Arguments.{print_args, read_regs, format_row}
use xen_syscall_analysis.Process.{
  Tracer, Junk, row_start, describe, syscall_number, current_pid, report_syscall, process_syscall,
  global_window_size,
}

-- The window behind a call with this name, if the number has one.
abbrev pub window_after : Option Text → Window → Window
window_after none win = win
window_after (some name) win = append_syscall global_window_size name win

describe_effects :
    (pid : ℤ) (index : ℕ) (name : Option Text) (s : Tracer)
    → let t = (describe pid index name s).1 in
      (t.running_mode ≡ s.running_mode)
      × (t.csv
          ≡ (if s.running_mode == learn_mode then s.csv ++ row_start pid index name else s.csv))
      × (t.window
          ≡ (if s.running_mode == analysis_mode then window_after name s.window else s.window))
unfolding describe
describe_effects pid index none s = ground arith
describe_effects pid index (some name) s = ground arith

module _ (v : LibVmi) (w : v.World) (vcpu : ℕ) (junk : Junk) where
  -- The name of the call that the registers show.
  abbrev pub name_at : Tracer → Option Text
  name_at s = get_elem? s.tables.sys_index (syscall_number v w vcpu junk)

  report_effects :
      (pid : ℤ) (index : ℕ) (s : Tracer)
      → let t = report_syscall v w vcpu junk pid index s in
        let name = get_elem? s.tables.sys_index index in
        (t.csv ≡ (
          if s.running_mode == learn_mode
          then s.csv ++ (row_start pid index name ++ format_row (read_regs v w vcpu junk.regs))
          else s.csv))
        × (t.window
            ≡ (if s.running_mode == analysis_mode then window_after name s.window else s.window))
  unfolding report_syscall print_args
  report_effects pid index s =
      let (mode, csv, window) = describe_effects pid index (get_elem? s.tables.sys_index index) s in
      (
        ground (
          arith,
          append_assoc s.csv (row_start pid index (get_elem? s.tables.sys_index index))
              (format_row (read_regs v w vcpu junk.regs)),
        ),
        window,
      )

  -- In learning mode a call adds one row to the trace file, and sends nothing.
  pub process_syscall_learning :
      (s : Tracer)
      → s.running_mode ≡ learn_mode
      → ((process_syscall v w vcpu junk s).csv
          ≡ s.csv
            ++ (row_start (current_pid v w vcpu junk) (syscall_number v w vcpu junk) (name_at s)
                ++ format_row (read_regs v w vcpu junk.regs)))
        × ((process_syscall v w vcpu junk s).window ≡ s.window)
  unfolding process_syscall
  process_syscall_learning s h = ground (
    arith,
    report_effects (current_pid v w vcpu junk) (syscall_number v w vcpu junk)
        (record s { live = s.live + 2 }),
  )

  -- In analysis mode a call with a name goes to the window, and the trace file stays as it is.
  pub process_syscall_analysis :
      (s : Tracer)
      → s.running_mode ≡ analysis_mode
      → ((process_syscall v w vcpu junk s).window ≡ window_after (name_at s) s.window)
        × ((process_syscall v w vcpu junk s).csv ≡ s.csv)
  unfolding process_syscall
  process_syscall_analysis s h = ground (
    arith,
    report_effects (current_pid v w vcpu junk) (syscall_number v w vcpu junk)
        (record s { live = s.live + 2 }),
  )

  -- In sandbox and in educational mode nothing is sent or written to the trace file.
  pub process_syscall_quiet :
      (s : Tracer)
      → s.running_mode ≢ learn_mode
      → s.running_mode ≢ analysis_mode
      → ((process_syscall v w vcpu junk s).window ≡ s.window)
        × ((process_syscall v w vcpu junk s).csv ≡ s.csv)
  unfolding process_syscall
  process_syscall_quiet s h k = ground (
    arith,
    report_effects (current_pid v w vcpu junk) (syscall_number v w vcpu junk)
        (record s { live = s.live + 2 }),
  )

  -- In sandbox mode a call that is not watched has no effect but that two blocks stay allocated.
  pub process_syscall_unwatched :
      (s : Tracer)
      → s.running_mode ≡ sandbox_mode
      → check_set_syscalls s.tables (syscall_number v w vcpu junk) ≡ false
      → process_syscall v w vcpu junk s ≡ record s { live = s.live + 2 }
  unfolding process_syscall
  process_syscall_unwatched s h k = ground arith
