-- ===== src/Tests/Calls.antt =====
-- The decoding and the tracing of one call, on the small guest.
use xen_syscall_analysis.Base.Int.{pos}
use xen_syscall_analysis.Process.{describe, describe_known}
use xen_syscall_analysis.Process.Sizes.{describe-print_call_fits}
use xen_syscall_analysis.Arguments.Sizes.{blocks, Fit, AreSafe}
use xen_syscall_analysis.Arguments.{start_args, print_call}
use xen_syscall_analysis.Base.{
  ◌↔◌, ℕ, ◌+◌, ◌≤◌, ◌≡◌, arith, not, refl, length, All, List, [], ◌∷◌, if◌then◌else◌,
}
use xen_syscall_analysis.Text.{Text, codes, decimal, signed_decimal}
use xen_syscall_analysis.SyscallTable.{learn_mode, analysis_mode, sandbox_mode, check_set_syscalls}
use xen_syscall_analysis.Window.{max_bufsize, empty_window, append_all}
use xen_syscall_analysis.Arguments.{Regs, read_regs, format_row}
use xen_syscall_analysis.Process.{
  Tracer, Junk, global_window_size, row_start, process_syscall, syscall_number, current_pid,
}
use xen_syscall_analysis.Process.Frames.{
  Visit, process_all, process_all-append_all, process_all_bounds,
}
use xen_syscall_analysis.Process.Balance.{process_syscall_live}
use xen_syscall_analysis.Process.Effects.{process_syscall_learning}
use xen_syscall_analysis.Tests.Machine.{machine, memory}

abbrev pub regs : Regs
regs = record { rdi = 512; rsi = 0; rdx = 0o102; r10 = 0; r8 = 0; r9 = 7 }

abbrev pub junk : Junk
junk = record { rax = 0; cr3 = 0; regs = regs }

-- The table has three names, of which sandbox mode watches the one given.
abbrev pub tracer : (mode : ℕ) (watched : Text) → Tracer
tracer mode watched = record {
  running_mode = mode;
  tables = record {
    sys_index = codes "read" ∷ codes "write" ∷ codes "open" ∷ [];
    set_syscalls = watched ∷ [];
  };
  window = empty_window;
  csv = [];
  printed = [];
  live = 3;
}

process_syscall_live_example :
    (process_syscall machine memory 0 junk (tracer sandbox_mode (codes "ope"))).live
    ≡ 3
      + (if not (
            check_set_syscalls
              (tracer sandbox_mode (codes "ope")).tables
              (syscall_number machine memory 0 junk))
          then 2
          else 0)
process_syscall_live_example =
    process_syscall_live machine memory 0 junk (tracer sandbox_mode (codes "ope"))

learning_row :
    ((process_syscall machine memory 0 junk (tracer learn_mode [])).csv
      ≡ codes "813, 2, open, 512, 0, 66, 0, 0, 7\n")
    × ((process_syscall machine memory 0 junk (tracer learn_mode [])).window ≡ empty_window)
unfolding current_pid syscall_number row_start format_row read_regs decimal signed_decimal
learning_row = process_syscall_learning machine memory 0 junk (tracer learn_mode []) refl

-- Three calls of open.
abbrev visits : List (Visit machine)
visits =
    record { world = memory; vcpu = 0; junk = junk }
    ∷ record { world = memory; vcpu = 0; junk = junk }
    ∷ record { world = memory; vcpu = 0; junk = junk }
    ∷ []

three_opens :
    (process_all machine visits (tracer analysis_mode [])).window
    ≡ append_all global_window_size (codes "open" ∷ codes "open" ∷ codes "open" ∷ []) empty_window
unfolding syscall_number
three_opens = process_all-append_all machine visits (tracer analysis_mode []) refl

process_all_bounds_example :
    (length (process_all machine visits (tracer analysis_mode [])).window.buffer + 1 ≤ max_bufsize)
    × All
        (λ t. length t + 1 ≤ max_bufsize)
        (process_all machine visits (tracer analysis_mode [])).window.sent
process_all_bounds_example =
    process_all_bounds machine visits (tracer analysis_mode []) refl refl
      (omega arith, (omega arith, (omega arith, tt)))

-- A call of open with few flags fits its blocks.
describe-print_call_fits_example :
    Fit
      (blocks 2)
      (print_call machine memory
        (pos 813)
        2
        regs
        (start_args (codes "PID[813]: open with args") 5)).slots
    ↔ AreSafe 2 regs
unfolding describe describe_known signed_decimal decimal
describe-print_call_fits_example =
    describe-print_call_fits machine memory (pos 813) regs 5 2 (tracer learn_mode []) (omega arith)
      (omega arith) (omega arith, (omega arith, (omega arith, tt)))
