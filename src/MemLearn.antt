-- ===== src/MemLearn.antt =====
-- The page-watching tracers in files of their own: src/mem_event.c, src/mem_event.h, src/mem_learn.c
-- and src/mem_analyze.c, which the Makefile does not build. The globals of mem_event.h are `static`:
-- `lstar` and `gfn` of a Watch are those of mem_event.c here, the other fields those of the file
-- with the loop, whose own `msr_syscall_event` is never registered.
pub mod Same
pub mod Memory
use xen_syscall_analysis.Base.{
  ℕ, ◌+◌, ◌-◌, Bool, true, false, not, Option, some, none, List, [], ◌∷◌, ◌++◌, ◌==◌, if◌then◌else◌,
  get_elem?,
}
use xen_syscall_analysis.Base.Int.{ℤ}
use xen_syscall_analysis.Text.{Text, codes}
use xen_syscall_analysis.LibVmi.{LibVmi, write_cr3}
use xen_syscall_analysis.Connection.{Answers, Run, ◌>>=◌, ◌>>◌, return}
use xen_syscall_analysis.StartUp.{Opening, open_guest, Launch, ran, launch, with_connection}
use xen_syscall_analysis.Tracing.{is_timed, seconds, start_tracer}
use xen_syscall_analysis.SyscallTable.{learn_mode, analysis_mode, Tables}
use xen_syscall_analysis.Window.{append_syscall}
use xen_syscall_analysis.Arguments.{Args, start_args}
use xen_syscall_analysis.Process.{
  Tracer, Junk, global_window_size, print_slots, syscall_number, current_pid,
}
use xen_syscall_analysis.MemEvent.{
  Watch, Hit, Cr3Write, Event, on_cr3, on_execute, Arrival, Turn, Exit, exited, listening,
  page_offset, step_over, register_lstar_mem_event, new_watch, drain_pending, turn_all,
}
use xen_syscall_analysis.BpLearn.{GetArgs, output_of, process_syscall_learn}

-- A known call goes into the frame; an unknown one does not.
unfoldable pub append_known : Option Text → Tracer → Tracer
append_known none s = s
append_known (some name) s = record s { window = append_syscall global_window_size name s.window }

-- What an event of the page is traced with.
abbrev pub Processor : LibVmi → Type 0
Processor v = v.World → (vcpu : ℕ) → Junk → Tracer → v.World × Tracer

module _ (v : LibVmi) (get_args : GetArgs v) where
  -- `process_syscall` of mem_learn.c has the code of `process_syscall_learn` of bp_learn.c.
  unfoldable pub mem_process_syscall : Processor v
  mem_process_syscall w vcpu junk s = process_syscall_learn v get_args w vcpu junk s

  -- The part behind the two `malloc` calls; `get_args` is called as in learning mode.
  unfoldable pub report_analyze :
      v.World → (vcpu : ℕ) (pid : ℤ) (index : ℕ) → Option Text → Tracer → v.World × Tracer
  report_analyze w vcpu pid index name s =
      let s = append_known name s in
      let (a, csv, w) =
        get_args w vcpu pid index learn_mode s.csv (start_args (output_of pid index name) s.live) in
      let (text, live) = print_slots a.slots a.live in
      (w, record s { csv = csv; printed = s.printed ++ (text ++ codes "\n"); live = live - 1 })

  unfoldable pub process_syscall_analyze_mem : Processor v
  process_syscall_analyze_mem w vcpu junk s =
      let index = syscall_number v w vcpu junk in
      report_analyze w vcpu (current_pid v w vcpu junk) index (get_elem? s.tables.sys_index index)
        (record s { live = s.live + 2 })

module _ (v : LibVmi) (process : Processor v) where
  -- `syscall_cb`, and `syscall_cb_analyze_mem`: the entry's offset is that of the event.
  unfoldable pub mem_syscall_cb : Hit → Watch v → Watch v
  mem_syscall_cb h s =
      if not (h.offset == page_offset h.msr_lstar)
      then step_over v h.vcpu s
      else let (w, t) = process s.world h.vcpu h.junk s.tracer in
        step_over v h.vcpu (record s { world = w; tracer = t })

  -- `register_lstar_mem_event` of mem_event.c: the code of syscall-trace.c, over its own globals.
  unfoldable pub event_register_lstar_mem_event : Cr3Write → Watch v → Bool × Watch v
  event_register_lstar_mem_event e s = register_lstar_mem_event v e s

  -- `cr3_register_learn_callback`, and `cr3_register_analyze_callback`.
  unfoldable pub cr3_register_callback : Cr3Write → Watch v → Watch v
  cr3_register_callback e s =
      let (done, t) = event_register_lstar_mem_event e s in
      let s = if s.mem_events_registered then s else record t { mem_events_registered = done } in
      record s { world = v.clear_event s.world write_cr3 }

  unfoldable pub mem_handle : Event → Watch v → Watch v
  mem_handle (on_cr3 e) s = cr3_register_callback e s
  mem_handle (on_execute h) s = mem_syscall_cb h s

  module _ (clear_unregistered : v.World → v.World) where
    -- From `error_exit` on. `clear_unregistered` is what LibVMI does with an event that was never
    -- registered.
    unfoldable pub close_mem : (pending : List (Arrival v)) → Watch v → Watch v
    close_mem pending s =
        let s = drain_pending v mem_handle pending s in
        let w = v.clear_event s.world write_cr3 in
        let w = clear_unregistered w in record s { world = v.destroy w }

    unfoldable pub close_mem_exit : (pending : List (Arrival v)) → Exit v → Exit v
    close_mem_exit pending (exited s) = exited (close_mem pending s)
    close_mem_exit pending (listening s) = listening s

    -- `mem_learn` and `mem_analyze` from the registration of the CR3 event on, which is `register`.
    unfoldable pub mem_trace :
        (register : Watch v → Bool × Watch v) (timed : Bool) (limit : ℕ)
        → List (Turn v)
        → (pending : List (Arrival v)) → Watch v
        → Exit v
    mem_trace register timed limit turns pending s =
        let (done, s) = register s in
        close_mem_exit pending
          (if done then turn_all v mem_handle timed limit turns s else exited s)

-- `register_mem_events_learn`, and `register_mem_events_analyze`, which differs in its callback only.
unfoldable pub register_mem_events_learn : (v : LibVmi) → Watch v → Bool × Watch v
register_mem_events_learn v s =
    let (done, w) = v.register_event s.world write_cr3 in (done, record s { world = w })

unfoldable pub register_mem_events_analyze : (v : LibVmi) → Watch v → Bool × Watch v
register_mem_events_analyze v s =
    let (done, w) = v.register_event s.world write_cr3 in (done, record s { world = w })

module _ (v : LibVmi) (get_args : GetArgs v) (clear_unregistered : v.World → v.World) where
  -- `read_syscall_table`, whose declaration neither file sees, gives the tables.
  unfoldable pub mem_learn :
      Opening v
      → Tables
      → (old_csv : Text) → (to_float : ℕ → ℕ) → (set_time : ℤ) → List (Turn v)
      → (pending : List (Arrival v)) → Launch v (Exit v)
  mem_learn opening tables old_csv to_float set_time turns pending =
      launch v
        (λ w.
          mem_trace v (mem_process_syscall v get_args) clear_unregistered
            (register_mem_events_learn v) (is_timed set_time) (to_float (seconds set_time)) turns
            pending (new_watch v w (start_tracer learn_mode old_csv tables)))
        (open_guest v opening)

  abbrev pub has_exited : Launch v (Exit v) → Bool
  has_exited (ran (exited s)) = true
  has_exited l = false

  -- The parameter `window_size` hides the global of that name, and nothing uses it.
  unfoldable pub mem_analyze :
      Answers
      → Opening v
      → Tables
      → (old_csv : Text) → (to_float : ℕ → ℕ) → (set_time window_size : ℤ) → List (Turn v)
      → (pending : List (Arrival v)) → Run (Launch v (Exit v))
  mem_analyze n opening tables old_csv to_float set_time window_size turns pending =
      let l : Launch v (Exit v) =
        launch v
          (λ w.
            mem_trace v (process_syscall_analyze_mem v get_args) clear_unregistered
              (register_mem_events_analyze v) (is_timed set_time) (to_float (seconds set_time))
              turns pending (new_watch v w (start_tracer analysis_mode old_csv tables)))
          (open_guest v opening) in
      with_connection true n (has_exited l) l
