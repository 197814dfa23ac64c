-- ===== src/MemLearn/Same.antt =====
-- The frames of mem_analyze.c are those of syscall-trace.c.
use xen_syscall_analysis.Base.{ℕ, ◌+◌, ◌≡◌, Option, some, none, arith, get_elem?}
use xen_syscall_analysis.Base.Int.{ℤ}
use xen_syscall_analysis.Text.{Text}
use xen_syscall_analysis.LibVmi.{LibVmi}
use xen_syscall_analysis.SyscallTable.{analysis_mode}
use xen_syscall_analysis.Process.{
  Tracer, Junk, describe, report_syscall, process_syscall, syscall_number, current_pid,
}
use xen_syscall_analysis.BpLearn.{GetArgs}
use xen_syscall_analysis.MemLearn.{append_known, report_analyze, process_syscall_analyze_mem}

describe_window :
    (pid : ℤ) (index : ℕ) (name : Option Text) (s : Tracer)
    → s.running_mode ≡ analysis_mode
    → (describe pid index name s).1.window ≡ (append_known name s).window
unfolding describe append_known
describe_window pid index none s h = ground arith
describe_window pid index (some name) s h = ground arith

module _ (v : LibVmi) (get_args : GetArgs v) (w : v.World) (vcpu : ℕ) (junk : Junk) where
  report_window :
      (pid : ℤ) (index : ℕ) (s : Tracer)
      → s.running_mode ≡ analysis_mode
      → (report_syscall v w vcpu junk pid index s).window
        ≡ (report_analyze v get_args w vcpu pid index
            (get_elem? s.tables.sys_index index)
            s).1.window
  unfolding report_syscall report_analyze
  report_window pid index s h = describe_window pid index (get_elem? s.tables.sys_index index) s h

  -- `get_args` does not get the window: whatever it writes, a call leaves the same frame, and has sent
  -- the same frames, as `process_syscall` of syscall-trace.c in analysis mode.
  pub process_syscall_analyze_mem-window :
      (s : Tracer)
      → s.running_mode ≡ analysis_mode
      → (process_syscall_analyze_mem v get_args w vcpu junk s).1.window
        ≡ (process_syscall v w vcpu junk s).window
  unfolding process_syscall_analyze_mem process_syscall
  process_syscall_analyze_mem-window s h = ground (
    arith,
    report_window (current_pid v w vcpu junk) (syscall_number v w vcpu junk)
        (record s { live = s.live + 2 }) h,
  )
