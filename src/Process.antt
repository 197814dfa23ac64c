-- ===== src/Process.antt =====
-- One traced system call: `process_syscall` of src/syscall-trace.c, with `create_csv_file` of
-- src/client.h. The opening of the trace file is taken to succeed.
pub mod Balance
pub mod Effects
pub mod Frames
pub mod Sizes
use xen_syscall_analysis.Base.{
  ℕ, suc, ◌+◌, ◌-◌, ◌%◌, ◌^◌, Bool, true, false, ◌&&◌, not, Option, some, none, List, [], ◌∷◌, ◌++◌,
  ◌==◌, if◌then◌else◌, get_elem?,
}
use xen_syscall_analysis.Base.Int.{ℤ, pos, negsuc}
use xen_syscall_analysis.Text.{Text, codes, decimal, signed_decimal}
use xen_syscall_analysis.LibVmi.{LibVmi, Reg, cr3, rax}
use xen_syscall_analysis.SyscallTable.{
  learn_mode, analysis_mode, sandbox_mode, Tables, check_set_syscalls,
}
use xen_syscall_analysis.Window.{Window, append_syscall}
use xen_syscall_analysis.Arguments.{Regs, value_or, start_args, print_args}

-- The globals of the tracer that a call reads or writes, what was printed, what the trace file
-- holds, and the number of live heap blocks.
pub record Tracer : Type 0 where
  pub running_mode : ℕ
  pub tables : Tables
  pub window : Window
  pub csv : Text
  pub printed : Text
  pub live : ℕ

-- `int window_size = 10;`: the global, which nothing assigns.
abbrev pub global_window_size : ℤ
global_window_size = pos 10

abbrev pub csv_header : Text
csv_header = codes "PID, SyscallID, Syscall, RDI, RSI, RDX, R10, R8, R9\n"

-- `create_csv_file`: opening for writing drops what was there.
unfoldable pub create_csv_file : Tracer → Tracer
create_csv_file s = record s { csv = csv_header }

-- What the locals hold before they are read.
pub record Junk : Type 0 where
  pub rax : ℕ
  pub cr3 : ℕ
  pub regs : Regs

unfoldable pub describe_unknown : (pid : ℤ) (index : ℕ) → Text
describe_unknown pid index =
    codes "Process["
    ++ (signed_decimal pid ++ (codes "]: unknown syscall id: " ++ (decimal index ++ codes " ")))

unfoldable pub describe_known : (pid : ℤ) (name : Text) → Text
describe_known pid name =
    codes "PID[" ++ (signed_decimal pid ++ (codes "]: " ++ (name ++ codes " with args")))

-- The start of a row, up to the registers; the name is empty for an unknown number.
unfoldable pub row_start : (pid : ℤ) (index : ℕ) → Option Text → Text
row_start pid index none = signed_decimal pid ++ (codes ", " ++ (decimal index ++ codes ", , "))
row_start pid index (some name) =
    signed_decimal pid ++ (codes ", " ++ (decimal index ++ (codes ", " ++ (name ++ codes ", "))))

-- The loop that prints and frees the slots: the text and the blocks that are left.
unfoldable pub print_slots : List (Option Text) → (live : ℕ) → Text × ℕ
print_slots [] live = ([], live)
print_slots (none ∷ slots) live = print_slots slots live
print_slots (some text ∷ slots) live =
    let (rest, left) = print_slots slots (live - 1) in (text ++ (codes " " ++ rest), left)

-- The text of `output`, and the calls made on the way to it.
unfoldable pub describe : (pid : ℤ) (index : ℕ) → Option Text → Tracer → Text × Tracer
describe pid index none s = (
  describe_unknown pid index,
  if s.running_mode == learn_mode then record s { csv = s.csv ++ row_start pid index none } else s,
)
describe pid index (some name) s =
    let s =
      if s.running_mode == learn_mode
      then record s { csv = s.csv ++ row_start pid index (some name) }
      else s in
    (
      describe_known pid name,
      if s.running_mode == analysis_mode
          then record s { window = append_syscall global_window_size name s.window }
          else s,
    )

abbrev pub pid_or : Option ℤ → ℤ
pid_or none = negsuc 0
pid_or (some pid) = pid

module _ (v : LibVmi) (w : v.World) (vcpu : ℕ) (junk : Junk) where
  -- `uint16_t _index = (uint16_t)rax;`.
  unfoldable pub syscall_number : ℕ
  syscall_number = value_or junk.rax (v.get_vcpureg w Reg.rax vcpu) % 2 ^ 16

  -- -1 when LibVMI finds no process.
  unfoldable pub current_pid : ℤ
  current_pid = pid_or (v.dtb_to_pid w (value_or junk.cr3 (v.get_vcpureg w Reg.cr3 vcpu)))

  -- The part behind the two `malloc` calls and the test of sandbox mode.
  unfoldable pub report_syscall : (pid : ℤ) (index : ℕ) → Tracer → Tracer
  report_syscall pid index s =
      let (output, s) = describe pid index (get_elem? s.tables.sys_index index) s in
      let (a, csv) =
        print_args v w vcpu junk.regs pid index s.running_mode s.csv (start_args output s.live) in
      let (text, live) = print_slots a.slots a.live in
      record s { csv = csv; printed = s.printed ++ (text ++ codes "\n"); live = live - 1 }

  -- A call that sandbox mode does not watch returns with both blocks allocated.
  unfoldable pub process_syscall : Tracer → Tracer
  process_syscall s =
      let index = syscall_number in
      let s = record s { live = s.live + 2 } in
      if (s.running_mode == sandbox_mode) && not (check_set_syscalls s.tables index)
      then s
      else report_syscall current_pid index s
