-- ===== src/BpLearn.antt =====
-- The learning tracer in files of its own: src/bp_event.c, src/bp_event.h and src/bp_learn.c, which
-- the Makefile does not build. The globals of bp_event.h are `static`, so that each of the two
-- files has its own: what `set_lstar_breakpoint` of bp_event.c saves, `bp_learn` does not see.
-- `get_args` stands in no file, and is a parameter.
pub mod Same
pub mod Closing
use xen_syscall_analysis.Base.{
  ℕ, ◌+◌, ◌-◌, ◌%◌, ◌^◌, Bool, true, false, not, ◌&&◌, Option, some, none, List, [], ◌∷◌, ◌++◌, ltb,
  ◌==◌, if◌then◌else◌, get_elem?,
}
use xen_syscall_analysis.Base.Int.{ℤ, pos, negsuc, is_nonzero}
use xen_syscall_analysis.Text.{Text, codes}
use xen_syscall_analysis.LibVmi.{LibVmi, Response, keep, toggle_singlestep}
use xen_syscall_analysis.StartUp.{Opening, open_guest, Launch, launch}
use xen_syscall_analysis.SyscallTable.{learn_mode, Tables}
use xen_syscall_analysis.Arguments.{Args, start_args}
use xen_syscall_analysis.Process.{
  Tracer, Junk, describe_unknown, describe_known, row_start, print_slots, syscall_number,
  current_pid,
}
use xen_syscall_analysis.Breakpoint.{
  Session, new_session, Interrupt, prepare, Returned, vmi_success, write_byte, single_step_cb,
  set_lstar_breakpoint,
}
use xen_syscall_analysis.Tracing.{
  Kind, on_int3, on_step, Delivery, Round, code_of, is_timed, seconds, start_tracer,
}

-- `get_args` on a world, with what the trace file holds before and after; it gets the handle of
-- LibVMI, and gives the next world.
abbrev pub GetArgs : LibVmi → Type 0
GetArgs v =
    v.World → (vcpu : ℕ) (pid : ℤ) (index mode : ℕ) (csv : Text) → Args → Args × Text × v.World

unfoldable pub output_of : (pid : ℤ) (index : ℕ) → Option Text → Text
output_of pid index none = describe_unknown pid index
output_of pid index (some name) = describe_known pid name

module _ (v : LibVmi) (get_args : GetArgs v) where
  -- The part behind the two `malloc` calls.
  unfoldable pub report_learn :
      v.World → (vcpu : ℕ) (pid : ℤ) (index : ℕ) → Option Text → Tracer → v.World × Tracer
  report_learn w vcpu pid index name s =
      let csv = s.csv ++ row_start pid index name in
      let (a, csv, w) =
        get_args w vcpu pid index learn_mode csv (start_args (output_of pid index name) s.live) in
      let (text, live) = print_slots a.slots a.live in
      (w, record s { csv = csv; printed = s.printed ++ (text ++ codes "\n"); live = live - 1 })

  unfoldable pub process_syscall_learn : v.World → (vcpu : ℕ) → Junk → Tracer → v.World × Tracer
  process_syscall_learn w vcpu junk s =
      let index = syscall_number v w vcpu junk in
      report_learn w vcpu (current_pid v w vcpu junk) index (get_elem? s.tables.sys_index index)
        (record s { live = s.live + 2 })

-- `events` is the world, the tracer, and the globals of bp_event.c with its `interrupted`; the other
-- fields are the globals of bp_learn.c.
pub record Learner (v : LibVmi) : Type 0 where
  pub events : Session v
  pub lstar : ℕ
  pub saved_opcode : ℕ
  pub interrupted : ℤ

abbrev pub new_learner : (v : LibVmi) → v.World → Tracer → Learner v
new_learner v w t = record {
  events = new_session v w t;
  lstar = 0;
  saved_opcode = 0;
  interrupted = pos 0;
}

pub data LearnEnd (v : LibVmi) : Type 0 where
  learned : Learner v → LearnEnd v
  learning : Learner v → LearnEnd v

module _ (v : LibVmi) (get_args : GetArgs v) where
  unfoldable pub learn_own_breakpoint : Junk → (vcpu rip : ℕ) → Learner v → Response × Learner v
  learn_own_breakpoint junk vcpu rip s =
      let e = s.events in
      let (w, t) = process_syscall_learn v get_args e.world vcpu junk e.tracer in
      let e = record e {
        world = w;
        tracer = t;
        cb_data = record e.cb_data { hit_count = (e.cb_data.hit_count + 1) % 2 ^ 64 };
      } in
      let (done, e) = write_byte v rip e.cb_data.saved_opcode e in
      if done
      then (toggle_singlestep, record s { events = e })
      else (keep, record s { events = e; interrupted = pos 1 })

  -- `breakpoint_cb` of bp_learn.c.
  unfoldable pub learn_breakpoint_cb :
      Junk → Interrupt → Learner v → Response × Interrupt × Learner v
  learn_breakpoint_cb junk e s =
      if not e.has_data
      then (keep, e, record s { interrupted = pos 1 })
      else if not (e.rip == s.events.cb_data.sym_vaddr)
      then (keep, prepare e, s)
      else let (response, s) = learn_own_breakpoint junk e.vcpu e.rip s in
        (response, record (prepare e) { reinject = false }, s)

  -- `single_step_cb` of bp_event.c: the code of syscall-trace.c over the globals of bp_event.c.
  unfoldable pub event_single_step_cb : (has_data : Bool) → Learner v → Response × Learner v
  event_single_step_cb has_data s =
      let (response, e) = single_step_cb v has_data s.events in (response, record s { events = e })

  -- `set_lstar_breakpoint` of bp_event.c, likewise.
  unfoldable pub event_set_lstar_breakpoint : Learner v → Returned × Learner v
  event_set_lstar_breakpoint s =
      let (result, e) = set_lstar_breakpoint v s.events in (result, record s { events = e })

  learn_dispatch : Kind → Learner v → Learner v
  learn_dispatch (on_int3 junk e) s =
      let (response, e', s) = learn_breakpoint_cb junk e s in
      record s { events = record s.events { world = v.respond s.events.world e.vcpu response } }
  learn_dispatch (on_step vcpu has_data) s =
      let (response, s) = event_single_step_cb has_data s in
      record s { events = record s.events { world = v.respond s.events.world vcpu response } }

  unfoldable pub learn_deliver_all : List (Delivery v) → Learner v → Learner v
  unfolding learn_dispatch
  learn_deliver_all [] s = s
  learn_deliver_all (d ∷ ds) s = learn_deliver_all ds (
      learn_dispatch d.kind
        (record s { events = record s.events { world = d.guest s.events.world } }))

  unfoldable pub learn_signal : Option ℕ → Learner v → Learner v
  learn_signal none s = s
  learn_signal (some sig) s = record s { interrupted = pos sig }

  unfoldable pub learn_once : (timed : Bool) (limit : ℕ) → Round v → Learner v → Learner v
  learn_once timed limit r s =
      let s = learn_deliver_all r.deliveries (learn_signal r.signal s) in
      let s = if r.status then s else record s { interrupted = negsuc 0 } in
      if timed && ltb limit r.elapsed then record s { interrupted = negsuc 0 } else s

  unfoldable pub learn_listen : (timed : Bool) (limit : ℕ) → List (Round v) → Learner v → LearnEnd v
  learn_listen timed limit [] s = if is_nonzero s.interrupted then learned s else learning s
  learn_listen timed limit (r ∷ rs) s =
      let rest = learn_listen timed limit rs (learn_once timed limit r s) in
      if is_nonzero s.interrupted then learned s else rest

  module _ (clear_unregistered : v.World → v.World) where
    -- From `error_exit` on. The two events that are cleared are those of bp_learn.c, which were never
    -- registered; `clear_unregistered` is what LibVMI does then.
    unfoldable pub close_learn : (pending : List (Delivery v)) → Learner v → Learner v
    close_learn pending s =
        let e = s.events in
        let s = record s { events = record e { world = (v.pause_vm e.world).1 } } in
        let s =
          if s.saved_opcode == 0
          then s
          else record s { events = (write_byte v s.lstar s.saved_opcode s.events).1 } in
        let s = if v.are_events_pending s.events.world then learn_deliver_all pending s else s in
        let w = clear_unregistered (clear_unregistered s.events.world) in
        let w = (v.resume_vm w).1 in record s { events = record s.events { world = v.destroy w } }

    unfoldable pub close_learned : (pending : List (Delivery v)) → LearnEnd v → LearnEnd v
    close_learned pending (learned s) = learned (close_learn pending s)
    close_learned pending (learning s) = learning s

    -- `bp_learn` from the setting of the breakpoint on.
    unfoldable pub learn_trace :
        (fall_off : ℕ) (timed : Bool) (limit : ℕ)
        → List (Round v)
        → (pending : List (Delivery v)) → Learner v
        → LearnEnd v
    learn_trace fall_off timed limit rounds pending s =
        let (result, s) = event_set_lstar_breakpoint s in
        close_learned pending (
          if code_of fall_off result == vmi_success
          then learn_listen timed limit rounds s
          else learned s)

    -- `bp_learn`. `read_syscall_table`, whose declaration bp_learn.c does not see, gives the tables.
    unfoldable pub bp_learn :
        Opening v
        → Tables
        → (old_csv : Text) (fall_off : ℕ) → (to_float : ℕ → ℕ) → (set_time : ℤ) → List (Round v)
        → (pending : List (Delivery v)) → Launch v (LearnEnd v)
    bp_learn opening tables old_csv fall_off to_float set_time rounds pending =
        launch v
          (λ w.
            learn_trace fall_off (is_timed set_time) (to_float (seconds set_time)) rounds pending
              (new_learner v w (start_tracer learn_mode old_csv tables)))
          (open_guest v opening)
