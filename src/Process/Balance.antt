-- ===== src/Process/Balance.antt =====
-- What `process_syscall` does with its heap blocks.
use xen_syscall_analysis.Base.{
  ℕ, ◌+◌, ◌-◌, ◌≡◌, ◌∙◌, ◌&&◌, not, Option, some, none, List, [], ◌∷◌, ◌==◌, if◌then◌else◌, arith,
  get_elem?,
}
use xen_syscall_analysis.Base.Int.{ℤ}
use xen_syscall_analysis.Text.{Text}
use xen_syscall_analysis.LibVmi.{LibVmi}
use xen_syscall_analysis.SyscallTable.{sandbox_mode, check_set_syscalls}
use xen_syscall_analysis.Arguments.{print_args, read_regs, start_args, print_call}
use xen_syscall_analysis.Arguments.Slots.{held, Owns, print_call-Owns}
use xen_syscall_analysis.Process.{
  Tracer, Junk, print_slots, describe, syscall_number, current_pid, report_syscall, process_syscall,
}

print_slots-held :
    (slots : List (Option Text)) (live : ℕ) → (print_slots slots live).1 ≡ live - held slots
unfolding print_slots
print_slots-held [] live = omega arith
print_slots-held (none ∷ slots) live = print_slots-held slots live
print_slots-held (some text ∷ slots) live = omega (arith, print_slots-held slots (live - 1))

describe_live :
    (pid : ℤ) (index : ℕ) (name : Option Text) (s : Tracer)
    → (describe pid index name s).1.live ≡ s.live
unfolding describe
describe_live pid index none s = ground arith
describe_live pid index (some name) s = ground arith

module _ (v : LibVmi) (w : v.World) (vcpu : ℕ) (junk : Junk) where
  printed_live :
      (output : Text) (pid : ℤ) (index base live : ℕ)
      → live ≡ base + 1 + 1
      → let a = print_call v w pid index (read_regs v w vcpu junk.regs) (start_args output live) in
        (print_slots a.slots a.live).1 - 1 ≡ base
  printed_live output pid index base live h =
      let owns : Owns output (base + 1) (
          print_call v w pid index (read_regs v w vcpu junk.regs)
            (start_args output (base + 1 + 1))) =
        print_call-Owns v w output (base + 1) pid (read_regs v w vcpu junk.regs) index in
      rw h (rw print_slots-held (omega (arith, owns.accounted)))

  report_syscall_live :
      (pid : ℤ) (index base : ℕ) (s : Tracer)
      → s.live ≡ base + 2
      → (report_syscall v w vcpu junk pid index s).live ≡ base
  unfolding report_syscall print_args
  report_syscall_live pid index base s h =
      printed_live _ pid index base _
        (describe_live pid index (get_elem? s.tables.sys_index index) s ∙ omega arith)

  -- Every block that a call allocates is freed again, but for the two of a call that sandbox mode
  -- does not watch.
  pub process_syscall_live :
      (s : Tracer)
      → (process_syscall v w vcpu junk s).live
        ≡ s.live
          + (if (s.running_mode == sandbox_mode)
                && not (check_set_syscalls s.tables (syscall_number v w vcpu junk))
              then 2
              else 0)
  unfolding process_syscall
  process_syscall_live s = ground (
    arith,
    report_syscall_live (current_pid v w vcpu junk) (syscall_number v w vcpu junk) s.live
        (record s { live = s.live + 2 }),
  )
