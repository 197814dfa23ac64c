-- ===== src/Tracing/Cycle.antt =====
-- The life of the breakpoint under the events of the guest: a hit gives the guest its own byte back
-- for one step, and the step puts the breakpoint there again. A guest with several processors may
-- hit it more than once before the step of the first hit comes.
use xen_syscall_analysis.Base.{ℕ, ◌+◌, ◌%◌, ◌^◌, ◌≡◌, ◌≢◌, ◌∙◌, true, false, ◌==◌, arith}
use xen_syscall_analysis.Base.Int.{ℤ}
use xen_syscall_analysis.LibVmi.{LibVmi, MemoryLaws}
use xen_syscall_analysis.Process.{Junk}
use xen_syscall_analysis.Breakpoint.{
  breakpoint, Session, Interrupt, breakpoint_cb, own_breakpoint, single_step_cb,
}
use xen_syscall_analysis.Breakpoint.Callbacks.{byte}
use xen_syscall_analysis.Breakpoint.Setup.{IsArmed}
use xen_syscall_analysis.Tracing.{on_int3, on_step, Delivery, dispatch, deliver}
use xen_syscall_analysis.Tracing.Static.{deliver-IsArmed}
use xen_syscall_analysis.Tracing.Memory.{GuestKeeps}

pub data Phase : Type 0 where
  armed stepping : Phase

module _ (v : LibVmi) (m : MemoryLaws v) (entry opcode : ℕ)
    (writes : (w : v.World) (b : ℕ) → (v.write_va w entry b).0 ≡ true) where
  -- The byte at the entry in a phase.
  abbrev pub shown : Phase → ℕ
  shown armed = breakpoint
  shown stepping = opcode

  -- An event that is delivered in a phase, the phase behind it, and how often it counts as a hit.
  pub data Step (s : Session v) (p : Phase) : Phase → (hits : ℕ) → Session v → Type 0 where
    hit :
        (d : Delivery v) (junk : Junk) (e : Interrupt)
        → GuestKeeps v m entry d
        → d.kind ≡ on_int3 junk e
        → e.has_data ≡ true
        → e.rip ≡ entry
        → Step s p stepping 1 (deliver v d s)
    step :
        (d : Delivery v) (vcpu : ℕ)
        → GuestKeeps v m entry d
        → d.kind ≡ on_step vcpu true
        → Step s p armed 0 (deliver v d s)
    foreign :
        (d : Delivery v) (junk : Junk) (e : Interrupt)
        → GuestKeeps v m entry d
        → d.kind ≡ on_int3 junk e
        → e.has_data ≡ true
        → e.rip ≢ entry
        → Step s p p 0 (deliver v d s)

  -- What comes of events in any order, from a session with the breakpoint set.
  pub data Reach (s : Session v) : Phase → (hits : ℕ) → Session v → Type 0 where
    here : Reach s armed 0 s
    next :
        {p q : Phase} {n k : ℕ} {t u : Session v}
        → Reach s p n t
        → Step t p q k u
        → Reach s q (k + n) u

  pub record Stands (p : Phase) (hits : ℕ) (stopped : ℤ) (s : Session v) : Type 0 where
    pub is_armed : IsArmed v entry opcode s
    pub byte_shown : byte v m s entry ≡ shown p
    pub counted : s.cb_data.hit_count ≡ hits % 2 ^ 64
    pub unstopped : s.interrupted ≡ stopped

  dispatch_hit :
      (u : Session v) (junk : Junk) (e : Interrupt)
      → e.has_data ≡ true
      → e.rip ≡ entry
      → u.cb_data.sym_vaddr ≡ entry
      → let t = dispatch v (on_int3 junk e) u in
        (byte v m t entry ≡ u.cb_data.saved_opcode)
        × (t.cb_data.hit_count ≡ (u.cb_data.hit_count + 1) % 2 ^ 64)
        × (t.interrupted ≡ u.interrupted)
  unfolding dispatch breakpoint_cb own_breakpoint
  dispatch_hit u junk e has at address =
      let opcode' = u.cb_data.saved_opcode in
      let done : (v.write_va u.world e.rip opcode').0 ≡ true = rw at (writes u.world opcode') in
      let own : (e.rip == u.cb_data.sym_vaddr) ≡ true = ground arith in
      (
        m.respond_keeps _ _ _ entry ∙ ground (arith, m.write_ok u.world e.rip opcode' entry done),
        ground arith,
        ground arith,
      )

  dispatch_step :
      (u : Session v) (vcpu : ℕ)
      → u.cb_data.sym_vaddr ≡ entry
      → let t = dispatch v (on_step vcpu true) u in
        (byte v m t entry ≡ breakpoint)
        × (t.cb_data.hit_count ≡ u.cb_data.hit_count)
        × (t.interrupted ≡ u.interrupted)
  unfolding dispatch single_step_cb
  dispatch_step u vcpu address =
      let done : (v.write_va u.world u.cb_data.sym_vaddr breakpoint).0 ≡ true =
        rw address (writes u.world breakpoint) in
      (
        m.respond_keeps _ _ _ entry
            ∙ ground (arith, m.write_ok u.world u.cb_data.sym_vaddr breakpoint entry done),
        ground arith,
        ground arith,
      )

  dispatch_foreign :
      (u : Session v) (junk : Junk) (e : Interrupt)
      → e.has_data ≡ true
      → e.rip ≢ entry
      → u.cb_data.sym_vaddr ≡ entry
      → let t = dispatch v (on_int3 junk e) u in
        (byte v m t entry ≡ byte v m u entry)
        × (t.cb_data.hit_count ≡ u.cb_data.hit_count)
        × (t.interrupted ≡ u.interrupted)
  unfolding dispatch breakpoint_cb
  dispatch_foreign u junk e has ne address =
      let other : (e.rip == u.cb_data.sym_vaddr) ≡ false = ground arith in
      (m.respond_keeps _ _ _ entry ∙ ground arith, ground arith, ground arith)

  Step-Stands :
      {p q : Phase} {k : ℕ} {s t : Session v} (n : ℕ) (stopped : ℤ)
      → Step s p q k t
      → Stands p n stopped s
      → Stands q (k + n) stopped t
  unfolding deliver
  Step-Stands {s} n stopped (hit d junk e keeps kind has at) i =
      let u : Session v = record s { world = d.guest s.world } in
      let (shows, counts, goes) = dispatch_hit u junk e has at i.is_armed.address in
      record {
        is_armed = deliver-IsArmed v d i.is_armed;
        byte_shown = rw kind (shows ∙ i.is_armed.data_saved);
        counted = rw kind (omega (arith, counts, i.counted));
        unstopped = rw kind (goes ∙ i.unstopped);
      }
  Step-Stands {s} n stopped (step d vcpu keeps kind) i =
      let u : Session v = record s { world = d.guest s.world } in
      let (shows, counts, goes) = dispatch_step u vcpu i.is_armed.address in
      record {
        is_armed = deliver-IsArmed v d i.is_armed;
        byte_shown = rw kind shows;
        counted = rw kind (omega (arith, counts, i.counted));
        unstopped = rw kind (goes ∙ i.unstopped);
      }
  Step-Stands {s} n stopped (foreign d junk e keeps kind has ne) i =
      let u : Session v = record s { world = d.guest s.world } in
      let (shows, counts, goes) = dispatch_foreign u junk e has ne i.is_armed.address in
      record {
        is_armed = deliver-IsArmed v d i.is_armed;
        byte_shown = rw kind (shows ∙ keeps s.world ∙ i.byte_shown);
        counted = rw kind (omega (arith, counts, i.counted));
        unstopped = rw kind (goes ∙ i.unstopped);
      }

  -- However the events of the guest are interleaved, from a session with the breakpoint set and
  -- nothing counted, if writing the entry succeeds and the guest does not write it: the breakpoint
  -- stands there but between a hit and the next step, when the guest's own byte does; every hit is
  -- counted, modulo 2 ^ 64; and no event stops the run.
  pub Reach-Stands :
      {stopped : ℤ} {s : Session v} {p : Phase} {hits : ℕ} {t : Session v}
      → Reach s p hits t
      → Stands armed 0 stopped s
      → Stands p hits stopped t
  Reach-Stands here i = i
  Reach-Stands {stopped} (next {n} r st) i = Step-Stands n stopped st (Reach-Stands r i)
