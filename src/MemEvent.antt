-- ===== src/MemEvent.antt =====
-- The tracer built with MEM_EVENT: `syscall_cb`, `register_lstar_mem_event`,
-- `cr3_register_task_callback` and `register_mem_events` of src/syscall-trace.c, and the loop and the
-- end of `introspect_syscall_trace` in that build. The first write of CR3 tells where the system call
-- entry is, and its page is watched for execution.
pub mod Calls
pub mod Ending
pub mod Memory
use xen_syscall_analysis.Base.{
  ℕ, ◌/◌, ◌%◌, ◌^◌, ◌*◌, Bool, true, false, not, ◌&&◌, Option, some, none, List, [], ◌∷◌, ltb, ◌==◌,
  if◌then◌else◌,
}
use xen_syscall_analysis.Base.Int.{ℤ, pos, negsuc, is_nonzero}
use xen_syscall_analysis.LibVmi.{LibVmi, write_cr3, execute_page}
use xen_syscall_analysis.Arguments.{value_or}
use xen_syscall_analysis.Process.{Tracer, Junk, process_syscall}

-- The globals, and the world behind the library. `gfn` is the page of `msr_syscall_event`.
pub record Watch (v : LibVmi) : Type 0 where
  pub world : v.World
  pub tracer : Tracer
  pub lstar : ℕ
  pub gfn : ℕ
  pub mem_events_registered : Bool
  pub interrupted : ℤ

-- The globals at the start of the program.
abbrev pub new_watch : (v : LibVmi) → v.World → Tracer → Watch v
new_watch v w t = record {
  world = w;
  tracer = t;
  lstar = 0;
  gfn = 0;
  mem_events_registered = false;
  interrupted = pos 0;
}

-- What the event of an executed instruction on the watched page says.
pub record Hit : Type 0 where
  pub junk : Junk
  pub vcpu : ℕ
  pub offset : ℕ
  pub msr_lstar : ℕ

-- What the event of a write of CR3 says.
pub record Cr3Write : Type 0 where
  pub cr3 : ℕ
  pub msr_lstar : ℕ

-- `VMI_BIT_MASK(0,11) & lstar`.
abbrev pub page_offset : ℕ → ℕ
page_offset addr = addr % 2 ^ 12

module _ (v : LibVmi) where
  -- The event is switched off for one instruction; LibVMI registers it again behind the step.
  unfoldable pub step_over : (vcpu : ℕ) → Watch v → Watch v
  step_over vcpu s =
      let w = v.clear_event s.world (execute_page s.gfn) in record s { world = v.step_event w vcpu }

  unfoldable pub syscall_cb : Hit → Watch v → Watch v
  syscall_cb h s =
      if not (h.offset == page_offset s.lstar)
      then step_over h.vcpu s
      else step_over h.vcpu (record s { tracer = process_syscall v s.world h.vcpu h.junk s.tracer })

  -- A translation that fails leaves 0 in `phys_lstar`, and nothing is registered then.
  unfoldable pub register_lstar_mem_event : Cr3Write → Watch v → Bool × Watch v
  register_lstar_mem_event e s =
      let phys_lstar = value_or 0 (v.pagetable_lookup s.world e.cr3 e.msr_lstar) in
      let s = record s { lstar = e.msr_lstar; gfn = phys_lstar / 2 ^ 12 } in
      if phys_lstar == 0
      then (false, s)
      else let (done, w) = v.register_event s.world (execute_page s.gfn) in
        (done, record s { world = w })

  -- The event of CR3 is cleared whether or not the page could be watched.
  unfoldable pub cr3_register_task_callback : Cr3Write → Watch v → Watch v
  cr3_register_task_callback e s =
      let (done, t) = register_lstar_mem_event e s in
      let s = if s.mem_events_registered then s else record t { mem_events_registered = done } in
      record s { world = v.clear_event s.world write_cr3 }

  unfoldable pub register_mem_events : Watch v → Bool × Watch v
  register_mem_events s =
      let (done, w) = v.register_event s.world write_cr3 in (done, record s { world = w })

-- An event of the guest, and the callback that it is for.
pub data Event : Type 0 where
  on_cr3 : Cr3Write → Event
  on_execute : Hit → Event

-- `guest` is what the guest does before the event.
pub record Arrival (v : LibVmi) : Type 0 where
  pub guest : v.World → v.World
  pub event : Event

-- A call of `vmi_events_listen` and what comes with it, as in Tracing.
pub record Turn (v : LibVmi) : Type 0 where
  pub signal : Option ℕ
  pub arrivals : List (Arrival v)
  pub status : Bool
  pub elapsed : ℕ

pub data Exit (v : LibVmi) : Type 0 where
  exited : Watch v → Exit v
  listening : Watch v → Exit v

unfoldable pub handle : (v : LibVmi) → Event → Watch v → Watch v
handle v (on_cr3 e) s = cr3_register_task_callback v e s
handle v (on_execute h) s = syscall_cb v h s

-- The loop, for the callbacks of a program.
module _ (v : LibVmi) (callbacks : Event → Watch v → Watch v) where
  unfoldable pub arrive : Arrival v → Watch v → Watch v
  arrive a s = callbacks a.event (record s { world = a.guest s.world })

  unfoldable pub arrive_all : List (Arrival v) → Watch v → Watch v
  arrive_all [] s = s
  arrive_all (a ∷ as') s = arrive_all as' (arrive a s)

  unfoldable pub take_signal : Option ℕ → Watch v → Watch v
  take_signal none s = s
  take_signal (some sig) s = record s { interrupted = pos sig }

  -- The body of the loop; `limit` is `f_set_time`.
  unfoldable pub turn_once : (timed : Bool) (limit : ℕ) → Turn v → Watch v → Watch v
  turn_once timed limit r s =
      let s = arrive_all r.arrivals (take_signal r.signal s) in
      let s = if r.status then s else record s { interrupted = negsuc 0 } in
      if timed && ltb limit r.elapsed then record s { interrupted = negsuc 0 } else s

  -- `while (!interrupted)` over the turns; `listening` if they end before the loop does.
  unfoldable pub turn_all : (timed : Bool) (limit : ℕ) → List (Turn v) → Watch v → Exit v
  turn_all timed limit [] s = if is_nonzero s.interrupted then exited s else listening s
  turn_all timed limit (r ∷ rs) s =
      let rest = turn_all timed limit rs (turn_once timed limit r s) in
      if is_nonzero s.interrupted then exited s else rest

  -- From `error_exit` on; `pending` is what the last call of `vmi_events_listen` delivers.
  unfoldable pub drain_pending : (pending : List (Arrival v)) → Watch v → Watch v
  drain_pending pending s = if v.are_events_pending s.world then arrive_all pending s else s

module _ (v : LibVmi) where
  -- `pending` is as above.
  unfoldable pub close_watch : (pending : List (Arrival v)) → Watch v → Watch v
  close_watch pending s =
      let s = drain_pending v (handle v) pending s in
      let w = v.clear_event s.world write_cr3 in
      let w = v.clear_event w (execute_page s.gfn) in record s { world = v.destroy w }

  unfoldable pub close_exit : (pending : List (Arrival v)) → Exit v → Exit v
  close_exit pending (exited s) = exited (close_watch pending s)
  close_exit pending (listening s) = listening s

  unfoldable pub trace_memory :
      (timed : Bool) (limit : ℕ) → List (Turn v) → (pending : List (Arrival v)) → Watch v → Exit v
  trace_memory timed limit turns pending s =
      let (done, s) = register_mem_events v s in
      close_exit pending (if done then turn_all v (handle v) timed limit turns s else exited s)
