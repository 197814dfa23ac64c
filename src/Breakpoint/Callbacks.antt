-- ===== src/Breakpoint/Callbacks.antt =====
-- The two callbacks: what they answer, and the byte at the breakpoint behind them.
use xen_syscall_analysis.Base.{
  ℕ, ◌+◌, ◌%◌, ◌^◌, ◌≤◌, ◌≡◌, ◌≢◌, ◌⊎◌, inl, inr, true, false, Bool-cases, ◌==◌, if◌then◌else◌,
  arith,
}
use xen_syscall_analysis.Base.Int.{pos}
use xen_syscall_analysis.LibVmi.{LibVmi, MemoryLaws, keep, toggle_singlestep}
use xen_syscall_analysis.Process.{Junk, process_syscall}
use xen_syscall_analysis.Breakpoint.{
  breakpoint, Session, Interrupt, prepare, own_breakpoint, breakpoint_cb, single_step_cb,
}

module _ (v : LibVmi) (m : MemoryLaws v) where
  -- The guest's byte at an address.
  abbrev pub byte : Session v → ℕ → ℕ
  byte s x = m.byte_at s.world x

  -- An INT3 at another address is given back to the guest, and leaves the session as it is.
  pub breakpoint_cb_foreign :
      (junk : Junk) (e : Interrupt) (s : Session v)
      → e.has_data ≡ true
      → e.rip ≢ s.cb_data.sym_vaddr
      → (breakpoint_cb v junk e s ≡ (keep, prepare e, s))
        × ((prepare e).reinject ≡ true)
        × (1 ≤ (prepare e).insn_length)
  unfolding breakpoint_cb prepare
  breakpoint_cb_foreign junk e s h k = ground arith

  -- An INT3 at the breakpoint is traced and counted. If the write succeeds, the guest's own byte
  -- stands there again, single-stepping is switched on and the INT3 is not given back; if not, the
  -- run is to stop and no byte has changed.
  pub breakpoint_cb_own :
      (junk : Junk) (e : Interrupt) (s : Session v) (x : ℕ)
      → e.has_data ≡ true
      → e.rip ≡ s.cb_data.sym_vaddr
      → let (response, e', s') = breakpoint_cb v junk e s in
        (s'.tracer ≡ process_syscall v s.world e.vcpu junk s.tracer)
        × (s'.cb_data.hit_count ≡ (s.cb_data.hit_count + 1) % 2 ^ 64)
        × (e'.reinject ≡ false)
        × (((response ≡ toggle_singlestep)
              × (s'.interrupted ≡ s.interrupted)
              × (byte s' x ≡ (if x == e.rip then s.cb_data.saved_opcode else byte s x)))
            ⊎ ((response ≡ keep) × (s'.interrupted ≡ pos 1) × (byte s' x ≡ byte s x)))
  unfolding breakpoint_cb prepare own_breakpoint
  breakpoint_cb_own junk e s x h k =
      let test : (e.rip == s.cb_data.sym_vaddr) ≡ true = ground arith in
      elim (Bool-cases (v.write_va s.world e.rip s.cb_data.saved_opcode).0) [
        | inl done ↦ (
          ground arith,
          ground arith,
          ground arith,
          inl (
            ground arith,
            ground arith,
            ground (arith, m.write_ok s.world e.rip s.cb_data.saved_opcode x done),
          ),
        )
        | inr failed ↦ (
          ground arith,
          ground arith,
          ground arith,
          inr (
            ground arith,
            ground arith,
            ground (arith, m.write_failed s.world e.rip s.cb_data.saved_opcode x failed),
          ),
        )
      ]

  -- After the step the breakpoint stands again and single-stepping is switched off, or the write
  -- failed, the run is to stop and no byte has changed.
  single_step_cb_lem :
      (s : Session v) (x : ℕ)
      → let (response, s') = single_step_cb v true s in
        ((response ≡ toggle_singlestep)
          × (s'.interrupted ≡ s.interrupted)
          × (byte s' x ≡ (if x == s.cb_data.sym_vaddr then breakpoint else byte s x)))
        ⊎ ((response ≡ keep) × (s'.interrupted ≡ pos 1) × (byte s' x ≡ byte s x))
  unfolding single_step_cb
  single_step_cb_lem s x = elim (Bool-cases (v.write_va s.world s.cb_data.sym_vaddr breakpoint).0) [
    | inl done ↦ inl (
      ground arith,
      ground arith,
      ground (arith, m.write_ok s.world s.cb_data.sym_vaddr breakpoint x done),
    )
    | inr failed ↦ inr (
      ground arith,
      ground arith,
      ground (arith, m.write_failed s.world s.cb_data.sym_vaddr breakpoint x failed),
    )
  ]
