-- ===== src/Tracing/Calls.antt =====
-- The calls of the guest that a run of src/syscall-trace.c gets to see, read off from what the library
-- delivers: each INT3 with its data at the entry `entry` of the system calls, in the order of the
-- deliveries, with the guest as it is at that moment.
use xen_syscall_analysis.Base.{ℕ, Bool, ◌&&◌, List, [], ◌∷◌, ◌++◌, ◌==◌, if◌then◌else◌}
use xen_syscall_analysis.Base.Int.{ℤ, is_nonzero}
use xen_syscall_analysis.LibVmi.{LibVmi}
use xen_syscall_analysis.SyscallTable.{Tables}
use xen_syscall_analysis.Process.Frames.{Visit}
use xen_syscall_analysis.Breakpoint.{Session, new_session, set_lstar_breakpoint, vmi_success}
use xen_syscall_analysis.Tracing.{
  Host, is_timed, seconds, start_tracer, Kind, on_int3, on_step, Delivery, Round, Outcome, ended,
  running, deliver, close_handler, listen_once, listen, restore_opcode, code_of,
}

module _ (v : LibVmi) (entry : ℕ) where
  abbrev pub call_of : v.World → Kind → List (Visit v)
  call_of w (on_int3 junk e) =
      if e.has_data && (e.rip == entry)
      then record { world = w; vcpu = e.vcpu; junk = junk } ∷ []
      else []
  call_of w (on_step vcpu has_data) = []

  unfoldable pub calls_in : List (Delivery v) → Session v → List (Visit v)
  calls_in [] s = []
  calls_in (d ∷ ds) s = call_of (d.guest s.world) d.kind ++ calls_in ds (deliver v d s)

  -- Up to the round in which the loop is left.
  unfoldable pub calls_of_rounds :
      (timed : Bool) (limit : ℕ) → List (Round v) → Session v → List (Visit v)
  calls_of_rounds timed limit [] s = []
  calls_of_rounds timed limit (r ∷ rs) s =
      let later = calls_of_rounds timed limit rs (listen_once v timed limit r s) in
      if is_nonzero s.interrupted
      then []
      else calls_in r.deliveries (close_handler v r.signal s) ++ later

  -- In the last call of `vmi_events_listen`, which is made if events are pending.
  unfoldable pub calls_of_end : (pending : List (Delivery v)) → Outcome v → List (Visit v)
  calls_of_end pending (ended s) =
      let s = restore_opcode v s in if v.are_events_pending s.world then calls_in pending s else []
  calls_of_end pending (running s) = []

-- All of a run that starts with this session; the entry is the address at which its setup put the
-- breakpoint.
unfoldable pub calls_of_run :
    (v : LibVmi) (fall_off : ℕ) (timed : Bool) (limit : ℕ) (rounds : List (Round v))
    → (pending : List (Delivery v)) → Session v
    → List (Visit v)
calls_of_run v fall_off timed limit rounds pending s =
    let (result, s) = set_lstar_breakpoint v s in
    let entry = s.cb_data.sym_vaddr in
    if code_of fall_off result == vmi_success
    then calls_of_rounds v entry timed limit rounds s
      ++ calls_of_end v entry pending (listen v timed limit rounds s)
    else calls_of_end v entry pending (ended s)

-- All of a program whose tables were read and which found the guest like this.
abbrev pub calls_of_program :
    (v : LibVmi)
    → Host v
    → (set_mode : ℕ) (set_time : ℤ) (rounds : List (Round v)) (pending : List (Delivery v)) → Tables
    → v.World
    → List (Visit v)
calls_of_program v h set_mode set_time rounds pending tables w =
    calls_of_run v h.fall_off (is_timed set_time) (h.to_float (seconds set_time)) rounds pending
      (new_session v w (start_tracer set_mode h.old_csv tables))
