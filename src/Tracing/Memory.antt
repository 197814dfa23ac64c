-- ===== src/Tracing/Memory.antt =====
-- The guest's bytes under deliveries and rounds, for a guest that leaves a byte alone.
use xen_syscall_analysis.Base.{
  ℕ, ◌≡◌, ◌≢◌, refl, ◌∙◌, Bool, true, false, Bool-cases, inl, inr, List, [], ◌∷◌, arith, All,
}
use xen_syscall_analysis.LibVmi.{LibVmi, MemoryLaws}
use xen_syscall_analysis.Process.{Junk}
use xen_syscall_analysis.Breakpoint.{
  breakpoint, Session, Interrupt, breakpoint_cb, own_breakpoint, single_step_cb,
}
use xen_syscall_analysis.Breakpoint.Callbacks.{byte}
use xen_syscall_analysis.Breakpoint.Setup.{IsArmed}
use xen_syscall_analysis.Tracing.{Kind, on_int3, on_step, Delivery, dispatch, deliver, deliver_all}
use xen_syscall_analysis.Tracing.Static.{deliver-IsArmed}

abbrev pub is_int3 : Kind → Bool
is_int3 (on_int3 junk e) = true
is_int3 (on_step vcpu has_data) = false

module _ (v : LibVmi) (m : MemoryLaws v) (x : ℕ) where
  -- The guest does not write the byte at `x` before this event.
  abbrev pub GuestKeeps : Delivery v → Type 0
  GuestKeeps d = (w : v.World) → m.byte_at (d.guest w) x ≡ m.byte_at w x

  pub write_other :
      (w : v.World) (addr b : ℕ) → x ≢ addr → m.byte_at (v.write_va w addr b).1 x ≡ m.byte_at w x
  write_other w addr b ne = elim (Bool-cases (v.write_va w addr b).0) [
    | inl done ↦ ground (arith, m.write_ok w addr b x done)
    | inr failed ↦ m.write_failed w addr b x failed
  ]

  write_same :
      (w : v.World) (addr b : ℕ) → m.byte_at w x ≡ b → m.byte_at (v.write_va w addr b).1 x ≡ b
  write_same w addr b e = elim (Bool-cases (v.write_va w addr b).0) [
    | inl done ↦ ground (arith, m.write_ok w addr b x done)
    | inr failed ↦ m.write_failed w addr b x failed ∙ e
  ]

  breakpoint_cb_other :
      (junk : Junk) (e : Interrupt) (s : Session v)
      → x ≢ s.cb_data.sym_vaddr
      → byte v m (breakpoint_cb v junk e s).2 x ≡ byte v m s x
  unfolding breakpoint_cb own_breakpoint
  breakpoint_cb_other junk e s ne = ground (arith, write_other s.world e.rip s.cb_data.saved_opcode)

  breakpoint_cb_same :
      (junk : Junk) (e : Interrupt) (s : Session v)
      → byte v m s x ≡ s.cb_data.saved_opcode
      → byte v m (breakpoint_cb v junk e s).2 x ≡ s.cb_data.saved_opcode
  unfolding breakpoint_cb own_breakpoint
  breakpoint_cb_same junk e s h = ground (arith, write_same s.world e.rip s.cb_data.saved_opcode)

  single_step_cb_other :
      (has_data : Bool) (s : Session v)
      → x ≢ s.cb_data.sym_vaddr
      → byte v m (single_step_cb v has_data s).1 x ≡ byte v m s x
  unfolding single_step_cb
  single_step_cb_other has_data s ne =
      ground (arith, write_other s.world s.cb_data.sym_vaddr breakpoint)

  dispatch_other :
      (k : Kind) (s : Session v)
      → x ≢ s.cb_data.sym_vaddr
      → byte v m (dispatch v k s) x ≡ byte v m s x
  unfolding dispatch
  dispatch_other (on_int3 junk e) s ne = m.respond_keeps _ _ _ x ∙ breakpoint_cb_other junk e s ne
  dispatch_other (on_step vcpu has_data) s ne =
      m.respond_keeps _ _ _ x ∙ single_step_cb_other has_data s ne

  -- Away from the breakpoint a delivery changes no byte.
  pub deliver_other :
      (d : Delivery v) (s : Session v)
      → x ≢ s.cb_data.sym_vaddr
      → GuestKeeps d
      → byte v m (deliver v d s) x ≡ byte v m s x
  unfolding deliver
  deliver_other d s ne keeps = dispatch_other d.kind _ ne ∙ keeps s.world

  pub deliver_all_other :
      {entry opcode : ℕ} (ds : List (Delivery v)) (s : Session v)
      → IsArmed v entry opcode s
      → x ≢ entry
      → All GuestKeeps ds
      → byte v m (deliver_all v ds s) x ≡ byte v m s x
  unfolding deliver_all
  deliver_all_other [] s i ne keeps = refl
  deliver_all_other (d ∷ ds) s i ne keeps =
      deliver_all_other ds (deliver v d s) (deliver-IsArmed v d i) ne keeps.1
      ∙ deliver_other d s (ground (arith, i.address)) keeps.0

  -- An INT3 is no single step.
  abbrev pub IsInt3 : Delivery v → Type 0
  IsInt3 d = is_int3 d.kind ≡ true

  dispatch_same :
      (k : Kind) (s : Session v)
      → is_int3 k ≡ true
      → byte v m s x ≡ s.cb_data.saved_opcode
      → byte v m (dispatch v k s) x ≡ s.cb_data.saved_opcode
  unfolding dispatch
  dispatch_same (on_int3 junk e) s h k = m.respond_keeps _ _ _ x ∙ breakpoint_cb_same junk e s k
  dispatch_same (on_step vcpu has_data) s h k = absurd (ground arith)

  -- Deliveries of INT3 leave a byte alone that has the saved value already.
  pub deliver_all_same :
      {entry opcode : ℕ} (ds : List (Delivery v)) (s : Session v)
      → IsArmed v entry opcode s
      → byte v m s x ≡ opcode
      → All GuestKeeps ds
      → All IsInt3 ds
      → byte v m (deliver_all v ds s) x ≡ opcode
  unfolding deliver_all
  deliver_all_same [] s i h keeps int3s = h
  deliver_all_same {entry} {opcode} (d ∷ ds) s i h keeps int3s =
      deliver_all_same ds (deliver v d s) (deliver-IsArmed v d i) (one d s i h keeps.0 int3s.0)
        keeps.1 int3s.1
    where
      one :
          (d : Delivery v) (s : Session v)
          → IsArmed v entry opcode s
          → byte v m s x ≡ opcode
          → GuestKeeps d
          → IsInt3 d
          → byte v m (deliver v d s) x ≡ opcode
      one d s i h keeps int3 =
          unfold deliver in
          (dispatch_same d.kind _ int3 (keeps s.world ∙ ground (arith, i.data_saved))
            ∙ i.data_saved)
