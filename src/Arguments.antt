-- ===== src/Arguments.antt =====
-- The decoding of a system call's arguments: `print_args` of src/client.h and the functions that it
-- calls. The seven `char*` of `args` are a list; a text stands for a block of the heap that holds it.
pub mod Slots
pub mod Sizes
use xen_syscall_analysis.Base.{
  ℕ, ◌+◌, ◌%◌, ◌^◌, Option, some, none, List, [], ◌∷◌, ◌++◌, ◌==◌, if◌then◌else◌, set,
}
use xen_syscall_analysis.Base.Int.{ℤ}
use xen_syscall_analysis.Text.{Text, codes, decimal, hex}
use xen_syscall_analysis.LibVmi.{LibVmi, Reg, rdi, rsi, rdx, r10, r8, r9}
use xen_syscall_analysis.Flags.{open_flags, mprotect_flags}
use xen_syscall_analysis.SyscallTable.{learn_mode}

-- `(unsigned int)`.
abbrev pub u32 : ℕ → ℕ
u32 n = n % 2 ^ 32

-- `reg_t regs[6]`.
pub record Regs : Type 0 where
  pub rdi : ℕ
  pub rsi : ℕ
  pub rdx : ℕ
  pub r10 : ℕ
  pub r8 : ℕ
  pub r9 : ℕ

-- `live` counts the blocks that were allocated and not freed.
pub record Args : Type 0 where
  pub slots : List (Option Text)
  pub live : ℕ

-- `args` when only its first slot is filled.
unfoldable pub start_args : (output : Text) (live : ℕ) → Args
start_args output live = record {
  slots = some output ∷ none ∷ none ∷ none ∷ none ∷ none ∷ none ∷ [];
  live = live;
}

-- `args[index]` gets a new block.
unfoldable pub put_slot : (index : ℕ) → Text → Args → Args
put_slot index text a = record { slots = set a.slots index (some text); live = a.live + 1 }

abbrev pub or_null : Option Text → Text
or_null none = codes "null"
or_null (some text) = text

-- The value that a local variable has after `vmi_get_vcpureg`: a failing call leaves what was there.
abbrev pub value_or : ℕ → Option ℕ → ℕ
value_or junk none = junk
value_or junk (some n) = n

unfoldable pub format_mode : ℕ → Text
format_mode n = codes "mode: " ++ decimal (u32 n)

unfoldable pub format_dfd : ℕ → Text
format_dfd n = codes "DFD: " ++ decimal (u32 n)

unfoldable pub format_fd : ℕ → Text
format_fd n = codes "fd: " ++ decimal (u32 n)

unfoldable pub format_count : ℕ → Text
format_count n = codes ", count:  " ++ decimal (u32 n)

unfoldable pub format_start : ℕ → Text
format_start n = codes "start addr: 0x" ++ hex n

unfoldable pub format_len : ℕ → Text
format_len n = codes "len: " ++ decimal (u32 n)

unfoldable pub format_reg : ℕ → Text
format_reg n = decimal (u32 n) ++ codes " "

-- The row that learning mode writes: six numbers.
unfoldable pub format_row : Regs → Text
format_row r =
    decimal (u32 r.rdi)
    ++ (codes ", "
        ++ (decimal (u32 r.rsi)
            ++ (codes ", "
                ++ (decimal (u32 r.rdx)
                    ++ (codes ", "
                        ++ (decimal (u32 r.r10)
                            ++ (codes ", "
                                ++ (decimal (u32 r.r8)
                                    ++ (codes ", " ++ (decimal (u32 r.r9) ++ codes "\n"))))))))))

-- The loop of the `default` case.
unfoldable pub print_regs : Regs → Args → Args
print_regs r a =
    let a = put_slot 1 (format_reg r.rdi) a in
    let a = put_slot 2 (format_reg r.rsi) a in
    let a = put_slot 3 (format_reg r.rdx) a in
    let a = put_slot 4 (format_reg r.r10) a in
    let a = put_slot 5 (format_reg r.r8) a in put_slot 6 (format_reg r.r9) a

unfoldable pub print_mprotect : Regs → Args → Args
print_mprotect r a =
    let a = put_slot 1 (format_start r.rdi) a in
    let a = put_slot 2 (format_len r.rsi) a in put_slot 3 (mprotect_flags (u32 r.rdx)) a

module _ (v : LibVmi) (w : v.World) where
  -- The copy of a guest text; the library's own block is freed at once.
  unfoldable pub guest_text : (addr : ℕ) (pid : ℤ) → Text
  guest_text addr pid = or_null (v.read_str_va w addr pid)

  unfoldable pub print_open : (pid : ℤ) → Regs → Args → Args
  print_open pid r a =
      let a = put_slot 1 (guest_text r.rdi pid) a in
      let a = put_slot 2 (format_mode r.rsi) a in put_slot 3 (open_flags (u32 r.rdx)) a

  unfoldable pub print_execve : (pid : ℤ) → Regs → Args → Args
  print_execve pid r a = put_slot 1 (guest_text r.rdi pid) a

  unfoldable pub print_openat : (pid : ℤ) → Regs → Args → Args
  print_openat pid r a =
      let a = put_slot 1 (format_dfd r.rdi) a in
      let a = put_slot 2 (guest_text r.rsi pid) a in
      let a = put_slot 3 (format_mode r.rdx) a in put_slot 4 (open_flags (u32 r.r10)) a

  unfoldable pub print_write : (pid : ℤ) → Regs → Args → Args
  print_write pid r a =
      let a = put_slot 1 (format_fd r.rdi) a in
      let a = put_slot 2 (guest_text r.rsi pid) a in put_slot 3 (format_count r.rdx) a

  -- `junk` is what the array holds before the registers are read.
  unfoldable pub read_regs : (vcpu : ℕ) (junk : Regs) → Regs
  read_regs vcpu junk = record {
    rdi = value_or junk.rdi (v.get_vcpureg w Reg.rdi vcpu);
    rsi = value_or junk.rsi (v.get_vcpureg w Reg.rsi vcpu);
    rdx = value_or junk.rdx (v.get_vcpureg w Reg.rdx vcpu);
    r10 = value_or junk.r10 (v.get_vcpureg w Reg.r10 vcpu);
    r8 = value_or junk.r8 (v.get_vcpureg w Reg.r8 vcpu);
    r9 = value_or junk.r9 (v.get_vcpureg w Reg.r9 vcpu);
  }

  -- The `switch` of `print_args`.
  unfoldable pub print_call : (pid : ℤ) (syscall_id : ℕ) → Regs → Args → Args
  print_call pid syscall_id r a =
      if syscall_id == 1
      then print_write pid r a
      else if syscall_id == 2
      then print_open pid r a
      else if syscall_id == 10
      then print_mprotect r a
      else if syscall_id == 59
      then print_execve pid r a
      else if syscall_id == 257
      then print_openat pid r a
      else print_regs r a

  -- `csv` is what the trace file holds.
  unfoldable pub print_args :
      (vcpu : ℕ) (junk : Regs) (pid : ℤ) (syscall_id mode : ℕ) (csv : Text) → Args → Args × Text
  print_args vcpu junk pid syscall_id mode csv a =
      let r = read_regs vcpu junk in
      (print_call pid syscall_id r a, if mode == learn_mode then csv ++ format_row r else csv)
