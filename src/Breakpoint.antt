-- ===== src/Breakpoint.antt =====
-- The breakpoint on the system call entry: `set_lstar_breakpoint`, `breakpoint_cb` and
-- `single_step_cb` of src/syscall-trace.c, built without MEM_EVENT.
pub mod Callbacks
pub mod Setup
use xen_syscall_analysis.Base.{
  ℕ, ◌+◌, ◌%◌, ◌^◌, Bool, true, false, not, Option, some, none, ◌==◌, if◌then◌else◌,
}
use xen_syscall_analysis.Base.Int.{ℤ, pos}
use xen_syscall_analysis.LibVmi.{
  LibVmi, Reg, msr_lstar, int3, singlestep, Response, keep, toggle_singlestep,
}
use xen_syscall_analysis.Process.{Tracer, Junk, process_syscall}

-- The INT3 instruction.
abbrev pub breakpoint : ℕ
breakpoint = 0xcc

-- `struct bp_cb_data`.
pub record BpCbData : Type 0 where
  pub sym_vaddr : ℕ
  pub saved_opcode : ℕ
  pub hit_count : ℕ

-- The globals, and the world behind the library.
pub record Session (v : LibVmi) : Type 0 where
  pub world : v.World
  pub tracer : Tracer
  pub lstar : ℕ
  pub saved_opcode : ℕ
  pub cb_data : BpCbData
  pub interrupted : ℤ

-- The globals at the start of the program.
abbrev pub new_session : (v : LibVmi) → v.World → Tracer → Session v
new_session v w t = record {
  world = w;
  tracer = t;
  lstar = 0;
  saved_opcode = 0;
  cb_data = record { sym_vaddr = 0; saved_opcode = 0; hit_count = 0 };
  interrupted = pos 0;
}

-- What a callback is told of an INT3, and sets in turn. `has_data` says that `event->data` is no
-- null pointer; it points at the global `cb_data`.
pub record Interrupt : Type 0 where
  pub vcpu : ℕ
  pub rip : ℕ
  pub insn_length : ℕ
  pub reinject : Bool
  pub has_data : Bool

-- The value of a call, or none where control runs off the end of the function.
pub data Returned : Type 0 where
  returned : ℕ → Returned
  no_value : Returned

abbrev pub vmi_success : ℕ
vmi_success = 0

abbrev pub vmi_failure : ℕ
vmi_failure = 1

-- An event without its length counts as one byte long.
unfoldable pub prepare : Interrupt → Interrupt
prepare e = record e {
  reinject = true;
  insn_length = if e.insn_length == 0 then 1 else e.insn_length;
}

module _ (v : LibVmi) where
  -- `vmi_write_va` of one byte.
  abbrev pub write_byte : (addr byte : ℕ) → Session v → Bool × Session v
  write_byte addr byte s =
      let (done, w) = v.write_va s.world addr byte in (done, record s { world = w })

  -- The callback's part behind the test that the breakpoint is ours.
  unfoldable pub own_breakpoint : Junk → (vcpu rip : ℕ) → Session v → Response × Session v
  own_breakpoint junk vcpu rip s =
      let s = record s {
        tracer = process_syscall v s.world vcpu junk s.tracer;
        cb_data = record s.cb_data { hit_count = (s.cb_data.hit_count + 1) % 2 ^ 64 };
      } in
      let (done, s) = write_byte rip s.cb_data.saved_opcode s in
      if done then (toggle_singlestep, s) else (keep, record s { interrupted = pos 1 })

  unfoldable pub breakpoint_cb : Junk → Interrupt → Session v → Response × Interrupt × Session v
  breakpoint_cb junk e s =
      if not e.has_data
      then (keep, e, record s { interrupted = pos 1 })
      else if not (e.rip == s.cb_data.sym_vaddr)
      then (keep, prepare e, s)
      else let (response, s) = own_breakpoint junk e.vcpu e.rip s in
        (response, record (prepare e) { reinject = false }, s)

  unfoldable pub single_step_cb : (has_data : Bool) → Session v → Response × Session v
  single_step_cb has_data s =
      if not has_data
      then (keep, record s { interrupted = pos 1 })
      else let (done, s) = write_byte s.cb_data.sym_vaddr breakpoint s in
        if done then (toggle_singlestep, s) else (keep, record s { interrupted = pos 1 })

  -- From the registration of the two events on.
  unfoldable pub register_breakpoint : Session v → Returned × Session v
  register_breakpoint s =
      let s = record s {
        cb_data = record { sym_vaddr = s.lstar; saved_opcode = s.saved_opcode; hit_count = 0 };
      } in
      let (done, w) = v.register_event s.world int3 in
      let s = record s { world = w } in
      if not done
      then (returned vmi_failure, s)
      else let (done, w) = v.register_event s.world singlestep in
        let s = record s { world = w } in
        if not done
        then (returned vmi_failure, s)
        else let (done, w) = v.resume_vm s.world in
          let s = record s { world = w } in
          if not done then (returned vmi_failure, s) else (no_value, s)

  -- From the reading of the byte at `lstar` on.
  unfoldable pub insert_breakpoint : Option ℕ → Session v → Returned × Session v
  insert_breakpoint none s = (returned vmi_failure, s)
  insert_breakpoint (some opcode) s =
      let (done, s) = write_byte s.lstar breakpoint (record s { saved_opcode = opcode }) in
      if not done then (returned vmi_failure, s) else register_breakpoint s

  unfoldable pub pause_and_insert : Option ℕ → Session v → Returned × Session v
  pause_and_insert none s = (returned 1, s)
  pause_and_insert (some entry) s =
      let (done, w) = v.pause_vm s.world in
      let s = record s { world = w; lstar = entry } in
      if not done then (returned vmi_failure, s) else insert_breakpoint (v.read_va w entry) s

  unfoldable pub set_lstar_breakpoint : Session v → Returned × Session v
  set_lstar_breakpoint s = pause_and_insert (v.get_vcpureg s.world Reg.msr_lstar 0) s
