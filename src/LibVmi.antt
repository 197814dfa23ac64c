-- ===== src/LibVmi.antt =====
-- LibVMI as the tracer sees it: lib/libvmi is a library of its own, so its calls are the fields of a
-- record. `World` is everything behind the library: the guest, its memory and the registrations.
-- `true` is VMI_SUCCESS, and `none` is VMI_FAILURE of a call that reads.
use xen_syscall_analysis.Base.{ℕ, ◌≡◌, Bool, true, false, Option, some, ◌==◌, if◌then◌else◌}
use xen_syscall_analysis.Base.Int.{ℤ}
use xen_syscall_analysis.Text.{Text}

pub data Reg : Type 0 where
  rax rdi rsi rdx r10 r8 r9 cr3 msr_lstar : Reg

-- The events that the tracer registers.
pub data VmiEvent : Type 0 where
  int3 : VmiEvent
  singlestep : VmiEvent
  write_cr3 : VmiEvent
  execute_page : (gfn : ℕ) → VmiEvent

-- What a callback returns: VMI_EVENT_RESPONSE_NONE and VMI_EVENT_RESPONSE_TOGGLE_SINGLESTEP.
pub data Response : Type 0 where
  keep toggle_singlestep : Response

pub record LibVmi : Type 1 where
  pub World : Type 0
  pub get_vcpureg : World → Reg → (vcpu : ℕ) → Option ℕ
  pub dtb_to_pid : World → (dtb : ℕ) → Option ℤ
  pub read_str_va : World → (addr : ℕ) → (pid : ℤ) → Option Text
  pub read_va : World → (addr : ℕ) → Option ℕ
  pub write_va : World → (addr byte : ℕ) → Bool × World
  pub read_addr_va : World → (addr : ℕ) → Option ℕ
  pub read_32_va : World → (addr : ℕ) → Option ℕ
  pub get_offset : World → Text → Option ℕ
  pub translate_ksym2v : World → Text → Option ℕ
  pub pagetable_lookup : World → (dtb addr : ℕ) → Option ℕ
  pub pause_vm : World → Bool × World
  pub resume_vm : World → Bool × World
  pub register_event : World → VmiEvent → Bool × World
  pub clear_event : World → VmiEvent → World
  pub step_event : World → (vcpu : ℕ) → World
  pub are_events_pending : World → Bool
  pub respond : World → (vcpu : ℕ) → Response → World
  pub destroy : World → World

-- What LibVMI says of guest memory: a write that succeeds sets one byte, and nothing else of what
-- the tracer calls changes any.
pub record MemoryLaws (v : LibVmi) : Type 0 where
  pub byte_at : v.World → ℕ → ℕ
  pub read_ok : (w : v.World) (a : ℕ) {b : ℕ} → v.read_va w a ≡ some b → b ≡ byte_at w a
  pub write_ok :
      (w : v.World) (a b x : ℕ)
      → (v.write_va w a b).0 ≡ true
      → byte_at (v.write_va w a b).1 x ≡ (if x == a then b else byte_at w x)
  pub write_failed :
      (w : v.World) (a b x : ℕ)
      → (v.write_va w a b).0 ≡ false
      → byte_at (v.write_va w a b).1 x ≡ byte_at w x
  pub pause_keeps : (w : v.World) (x : ℕ) → byte_at (v.pause_vm w).1 x ≡ byte_at w x
  pub resume_keeps : (w : v.World) (x : ℕ) → byte_at (v.resume_vm w).1 x ≡ byte_at w x
  pub register_keeps :
      (w : v.World) (e : VmiEvent) (x : ℕ) → byte_at (v.register_event w e).1 x ≡ byte_at w x
  pub clear_keeps :
      (w : v.World) (e : VmiEvent) (x : ℕ) → byte_at (v.clear_event w e) x ≡ byte_at w x
  pub step_keeps : (w : v.World) (c x : ℕ) → byte_at (v.step_event w c) x ≡ byte_at w x
  pub respond_keeps :
      (w : v.World) (c : ℕ) (r : Response) (x : ℕ) → byte_at (v.respond w c r) x ≡ byte_at w x
  pub destroy_keeps : (w : v.World) (x : ℕ) → byte_at (v.destroy w) x ≡ byte_at w x
