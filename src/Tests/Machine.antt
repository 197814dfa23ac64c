-- ===== src/Tests/Machine.antt =====
-- A small guest behind LibVMI's interface: its memory is a function, and every call succeeds. It
-- shows that the laws assumed of the library can hold.
use xen_syscall_analysis.Base.{ℕ, ◌≡◌, refl, true, false, Option, some, none, ◌==◌, if◌then◌else◌}
use xen_syscall_analysis.Base.Int.{pos}
use xen_syscall_analysis.Text.{codes}
use xen_syscall_analysis.LibVmi.{
  LibVmi, MemoryLaws, Reg, rax, rdi, rsi, rdx, r10, r8, r9, cr3, msr_lstar,
}

abbrev pub Memory : Type 0
Memory = ℕ → ℕ

-- The guest is about to open a file; its system call entry is at 4096.
abbrev pub reg_of : Reg → Option ℕ
reg_of rax = some 2
reg_of rdi = some 512
reg_of rsi = some 0
reg_of rdx = some 0o102
reg_of r10 = some 0
reg_of r8 = none
reg_of r9 = some 7
reg_of cr3 = some 77
reg_of msr_lstar = some 4096

abbrev pub machine : LibVmi
machine = record {
  World = Memory;
  get_vcpureg = λ w r c. reg_of r;
  dtb_to_pid = λ w d. some (pos 813);
  read_str_va = λ w a p. some (codes "/etc/passwd");
  read_va = λ w a. some (w a);
  write_va = λ w a b. (true, λ x. if x == a then b else w x);
  read_addr_va = λ w a. some (w a);
  read_32_va = λ w a. some (w a);
  get_offset = λ w t. some 0;
  translate_ksym2v = λ w t. some 0;
  pagetable_lookup = λ w d a. some a;
  pause_vm = λ w. (true, w);
  resume_vm = λ w. (true, w);
  register_event = λ w e. (true, w);
  clear_event = λ w e. w;
  step_event = λ w c. w;
  are_events_pending = λ w. true;
  respond = λ w c r. w;
  destroy = λ w. w;
}

pub read_back : (w : Memory) (a : ℕ) {b : ℕ} → some (w a) ≡ some b → b ≡ w a
read_back w a e = cc

pub never_fails : {A : Type 0} {x y : A} → true ≡ false → x ≡ y
never_fails e = absurd (cc)

abbrev pub machine_laws : MemoryLaws machine
machine_laws = record {
  byte_at = λ w a. w a;
  read_ok = read_back;
  write_ok = λ w a b x e. refl;
  write_failed = λ w a b x e. never_fails e;
  pause_keeps = λ w x. refl;
  resume_keeps = λ w x. refl;
  register_keeps = λ w e x. refl;
  clear_keeps = λ w e x. refl;
  step_keeps = λ w c x. refl;
  respond_keeps = λ w c r x. refl;
  destroy_keeps = λ w x. refl;
}

-- The entry's first byte is the `swapgs` prefix 0x0f.
abbrev pub memory : Memory
memory a = if a == 4096 then 0x0f else 0
