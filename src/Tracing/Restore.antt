-- ===== src/Tracing/Restore.antt =====
-- What a run leaves in the guest's memory.
use xen_syscall_analysis.Base.{ℕ, ◌≡◌, ◌≢◌, ap, ◌∙◌, true, List, [], ◌∷◌, arith, All}
use xen_syscall_analysis.LibVmi.{LibVmi, MemoryLaws, int3, singlestep}
use xen_syscall_analysis.Breakpoint.{breakpoint, Session, single_step_cb}
use xen_syscall_analysis.Breakpoint.Callbacks.{byte}
use xen_syscall_analysis.Breakpoint.Setup.{IsArmed}
use xen_syscall_analysis.Tracing.{
  on_step, Delivery, Round, deliver, dispatch, deliver_all, restore_opcode, drain, unregister,
  close_session,
}
use xen_syscall_analysis.Tracing.Memory.{
  GuestKeeps, IsInt3, write_other, deliver_all_other, deliver_all_same,
}

module _ (v : LibVmi) (m : MemoryLaws v) (x : ℕ) where
  unregister_keeps : (s : Session v) → byte v m (unregister v s) x ≡ byte v m s x
  unfolding unregister
  unregister_keeps s =
      m.destroy_keeps _ x
      ∙ m.resume_keeps _ x
      ∙ m.clear_keeps _ singlestep x
      ∙ m.clear_keeps s.world int3 x

  restore_opcode-IsArmed :
      {entry opcode : ℕ} (s : Session v)
      → IsArmed v entry opcode s
      → IsArmed v entry opcode (restore_opcode v s)
  unfolding restore_opcode
  restore_opcode-IsArmed s i = ground arith

  restore_opcode_other :
      (s : Session v) → x ≢ s.lstar → byte v m (restore_opcode v s) x ≡ byte v m s x
  unfolding restore_opcode
  restore_opcode_other s ne = ground (
    arith,
    m.pause_keeps s.world x,
    write_other v m x (v.pause_vm s.world).1 s.lstar s.saved_opcode,
  )

  restore_opcode_entry :
      {opcode : ℕ} (s : Session v)
      → IsArmed v x opcode s
      → opcode ≢ 0
      → ((w : v.World) → (v.write_va w x opcode).0 ≡ true)
      → byte v m (restore_opcode v s) x ≡ opcode
  unfolding restore_opcode
  restore_opcode_entry {opcode} s i ne writes = ground (
    arith,
    i.lstar,
    i.saved,
    writes (v.pause_vm s.world).1,
    m.write_ok (v.pause_vm s.world).1 x opcode x,
  )

  abbrev AllKeep : List (Round v) → Type 0
  AllKeep = All (λ r. All (GuestKeeps v m x) r.deliveries)

  -- The end of a run changes no byte but the one at the entry.
  pub close_session_other :
      {entry opcode : ℕ} (pending : List (Delivery v)) (s : Session v)
      → IsArmed v entry opcode s
      → x ≢ entry
      → All (GuestKeeps v m x) pending
      → byte v m (close_session v pending s) x ≡ byte v m s x
  unfolding close_session drain
  close_session_other pending s i ne keeps =
      unregister_keeps _
      ∙ ground (
        arith,
        restore_opcode_other s,
        i.lstar,
        deliver_all_other v m x pending (restore_opcode v s) (restore_opcode-IsArmed s i) ne keeps,
      )

  -- The saved byte stands at the entry again, if writing it succeeds, it is not 0 and no single
  -- step is pending.
  pub close_session_entry :
      {opcode : ℕ} (pending : List (Delivery v)) (s : Session v)
      → IsArmed v x opcode s
      → opcode ≢ 0
      → ((w : v.World) → (v.write_va w x opcode).0 ≡ true)
      → All (GuestKeeps v m x) pending
      → All (IsInt3 v m x) pending
      → byte v m (close_session v pending s) x ≡ opcode
  unfolding close_session drain
  close_session_entry pending s i ne writes keeps int3s =
      let stands = restore_opcode_entry s i ne writes in
      unregister_keeps _
      ∙ ground (
        arith,
        stands,
        deliver_all_same v m x pending (restore_opcode v s) (restore_opcode-IsArmed s i) stands
            keeps int3s,
      )

  single_step_entry :
      (s : Session v)
      → s.cb_data.sym_vaddr ≡ x
      → ((w : v.World) → (v.write_va w x breakpoint).0 ≡ true)
      → byte v m (single_step_cb v true s).1 x ≡ breakpoint
  unfolding single_step_cb
  single_step_entry s e writes = ground (arith, writes s.world, m.write_ok s.world x breakpoint x)

  step_lem :
      {opcode : ℕ} (d : Delivery v) (vcpu : ℕ) (s : Session v)
      → IsArmed v x opcode s
      → d.kind ≡ on_step vcpu true
      → ((w : v.World) → (v.write_va w x breakpoint).0 ≡ true)
      → byte v m (deliver v d s) x ≡ breakpoint
  unfolding deliver dispatch
  step_lem d vcpu s i e writes =
      let s' : Session v = record s { world = d.guest s.world } in
      ap (λ k. byte v m (dispatch v k s') x) e
      ∙ m.respond_keeps _ _ _ x
      ∙ single_step_entry s' i.address writes

  -- If a single step is what is pending at the end of a run, and writing the breakpoint succeeds, the
  -- breakpoint stands at the entry when the run is over.
  pub close_session_step :
      {opcode : ℕ} (d : Delivery v) (vcpu : ℕ) (s : Session v)
      → IsArmed v x opcode s
      → d.kind ≡ on_step vcpu true
      → ((w : v.World) → (v.write_va w x breakpoint).0 ≡ true)
      → v.are_events_pending (restore_opcode v s).world ≡ true
      → byte v m (close_session v (d ∷ []) s) x ≡ breakpoint
  unfolding close_session drain deliver_all
  close_session_step d vcpu s i e writes pending =
      unregister_keeps _
      ∙ rw pending (step_lem d vcpu (restore_opcode v s) (restore_opcode-IsArmed s i) e writes)
