-- ===== src/BpLearn/Same.antt =====
-- The learning tracer traces a call as the tracer of syscall-trace.c does in learning mode.
use xen_syscall_analysis.Base.{ℕ, ◌+◌, ◌≡◌, ◌++◌, refl, Option, some, none, arith, get_elem?}
use xen_syscall_analysis.Base.Int.{ℤ}
use xen_syscall_analysis.Text.{Text}
use xen_syscall_analysis.LibVmi.{LibVmi}
use xen_syscall_analysis.SyscallTable.{learn_mode}
use xen_syscall_analysis.Arguments.{Regs, print_args}
use xen_syscall_analysis.Process.{
  Tracer, Junk, row_start, describe, report_syscall, process_syscall, syscall_number, current_pid,
}
use xen_syscall_analysis.BpLearn.{GetArgs, output_of, report_learn, process_syscall_learn}

-- `print_args` of client.h in the place of `get_args`.
abbrev pub client_args : (v : LibVmi) → Regs → GetArgs v
client_args v junk w vcpu pid index mode csv a =
    let (a, csv) = print_args v w vcpu junk pid index mode csv a in (a, csv, w)

describe_learn :
    (pid : ℤ) (index : ℕ) (name : Option Text) (s : Tracer)
    → s.running_mode ≡ learn_mode
    → describe pid index name s
      ≡ (output_of pid index name, record s { csv = s.csv ++ row_start pid index name })
unfolding describe output_of
describe_learn pid index none s h = ground arith
describe_learn pid index (some name) s h = ground arith

module _ (v : LibVmi) (w : v.World) (vcpu : ℕ) (junk : Junk) where
  report_learn_lem :
      (pid : ℤ) (index : ℕ) (s : Tracer)
      → s.running_mode ≡ learn_mode
      → report_learn v
          (client_args v junk.regs)
          w
          vcpu
          pid
          index
          (get_elem? s.tables.sys_index index)
          s
        ≡ (w, report_syscall v w vcpu junk pid index s)
  unfolding report_learn report_syscall
  report_learn_lem pid index s h =
      rw (describe_learn pid index (get_elem? s.tables.sys_index index) s h, h) refl

  -- With `print_args` for `get_args`, a call is traced as `process_syscall` of syscall-trace.c traces
  -- it in learning mode: the same row, the same text and the same heap, and the
  -- guest is left as it was.
  pub process_syscall_learn-process_syscall :
      (s : Tracer)
      → s.running_mode ≡ learn_mode
      → process_syscall_learn v (client_args v junk.regs) w vcpu junk s
        ≡ (w, process_syscall v w vcpu junk s)
  unfolding process_syscall_learn process_syscall
  process_syscall_learn-process_syscall s h = ground (
    arith,
    report_learn_lem (current_pid v w vcpu junk) (syscall_number v w vcpu junk)
        (record s { live = s.live + 2 }) h,
  )
