-- ===== src/MemLearn/Memory.antt =====
-- The page-watching tracers write nothing into the guest.
use xen_syscall_analysis.Base.{
  ℕ, ◌≡◌, refl, ap, sym, ◌∙◌, Bool, true, Bool-cases, inl, inr, List, ◌==◌, All, arith,
}
use xen_syscall_analysis.LibVmi.{LibVmi, MemoryLaws, write_cr3}
use xen_syscall_analysis.MemEvent.{
  Watch, Hit, Event, on_cr3, on_execute, Arrival, Turn, Exit, exited, listening, page_offset,
}
use xen_syscall_analysis.MemEvent.Memory.{
  watch_of, byte_of, Quiet, step_over_byte, register_byte, turn_all_byte, drain_pending_byte,
}
use xen_syscall_analysis.MemLearn.{
  report_analyze, Processor, mem_syscall_cb, event_register_lstar_mem_event, cr3_register_callback,
  mem_handle, close_mem, close_mem_exit, mem_trace, register_mem_events_learn,
  register_mem_events_analyze, mem_process_syscall, process_syscall_analyze_mem, mem_learn,
  mem_analyze, has_exited,
}
use xen_syscall_analysis.Process.{Tracer, Junk}
use xen_syscall_analysis.Arguments.{Args}
use xen_syscall_analysis.Base.Int.{ℤ}
use xen_syscall_analysis.Text.{Text}
use xen_syscall_analysis.Connection.{Answers, ok}
use xen_syscall_analysis.StartUp.{Opening, opened, open_guest, Launch, ran, launch}
use xen_syscall_analysis.StartUp.Refused.{launched, ran_opened}
use xen_syscall_analysis.SyscallTable.{Tables, learn_mode, analysis_mode}
use xen_syscall_analysis.Tracing.{is_timed, seconds, start_tracer}
use xen_syscall_analysis.BpLearn.{GetArgs, report_learn, process_syscall_learn}
use xen_syscall_analysis.MemEvent.{new_watch}

module _ (v : LibVmi) (m : MemoryLaws v) (x : ℕ) (process : Processor v)
    (process_keeps : (w : v.World) (vcpu : ℕ) (junk : Junk) (t : Tracer)
      → m.byte_at (process w vcpu junk t).0 x ≡ m.byte_at w x) where
  mem_syscall_cb_byte :
      (h : Hit) (s : Watch v) → byte_of v m x (mem_syscall_cb v process h s) ≡ byte_of v m x s
  unfolding mem_syscall_cb
  mem_syscall_cb_byte h s = elim (Bool-cases (h.offset == page_offset h.msr_lstar)) [
    | inl here ↦
        rw here (step_over_byte v m x h.vcpu _ ∙ process_keeps s.world h.vcpu h.junk s.tracer)
    | inr elsewhere ↦ rw elsewhere (step_over_byte v m x h.vcpu s)
  ]

  mem_handle_byte :
      (e : Event) (s : Watch v) → byte_of v m x (mem_handle v process e s) ≡ byte_of v m x s
  unfolding mem_handle cr3_register_callback event_register_lstar_mem_event
  mem_handle_byte (on_cr3 e) s = m.clear_keeps _ _ x ∙ ground (arith, register_byte v m x e s)
  mem_handle_byte (on_execute h) s = mem_syscall_cb_byte h s

  module _ (clear_unregistered : v.World → v.World)
      (clear_keeps : (w : v.World) (y : ℕ)
        → m.byte_at (clear_unregistered w) y ≡ m.byte_at w y) where
    close_mem_byte :
        (pending : List (Arrival v)) (o : Exit v)
        → All (Quiet v m x) pending
        → byte_of v m x (watch_of (close_mem_exit v process clear_unregistered pending o))
          ≡ byte_of v m x (watch_of o)
    unfolding close_mem_exit close_mem
    close_mem_byte pending (exited s) q =
        m.destroy_keeps _ x
        ∙ (clear_keeps _ x
            ∙ (m.clear_keeps _ _ x
                ∙ drain_pending_byte v m x (mem_handle v process) mem_handle_byte pending s q))
    close_mem_byte pending (listening s) q = refl

    mem_trace_byte :
        (register : Watch v → Bool × Watch v)
        → ((s : Watch v) → byte_of v m x (register s).1 ≡ byte_of v m x s)
        → (timed : Bool) (limit : ℕ) (turns : List (Turn v)) (pending : List (Arrival v))
          (s : Watch v)
        → All (λ r. All (Quiet v m x) r.arrivals) turns
        → All (Quiet v m x) pending
        → byte_of v m x
            (watch_of (mem_trace v process clear_unregistered register timed limit turns pending s))
          ≡ byte_of v m x s
    unfolding mem_trace
    mem_trace_byte register keeps timed limit turns pending s q p =
        close_mem_byte pending _ p ∙ (elim (Bool-cases (register s).0) [
          | inl done ↦ rw done (
              turn_all_byte v m x (mem_handle v process) mem_handle_byte timed limit turns _ q
              ∙ keeps s)
          | inr failed ↦ rw failed (keeps s)
        ])

module _ (v : LibVmi) (m : MemoryLaws v) (get_args : GetArgs v)
    (clear_unregistered : v.World → v.World)
    (clear_keeps : (w : v.World) (y : ℕ) → m.byte_at (clear_unregistered w) y ≡ m.byte_at w y)
    (o : Opening v) (w : v.World) (start : open_guest v o ≡ opened w) (tables : Tables)
    (old_csv : Text) (to_float : ℕ → ℕ) (set_time : ℤ) (x : ℕ) (turns : List (Turn v))
    (pending : List (Arrival v))
    (args_keep : (u : v.World) (vcpu : ℕ) (pid : ℤ) (index mode : ℕ) (csv : Text) (a : Args)
      → m.byte_at (get_args u vcpu pid index mode csv a).2 x ≡ m.byte_at u x)
    (quiet : All (λ r. All (Quiet v m x) r.arrivals) turns)
    (pending_quiet : All (Quiet v m x) pending) where
  mem_process_syscall-keeps :
      (u : v.World) (vcpu : ℕ) (junk : Junk) (t : Tracer)
      → m.byte_at (mem_process_syscall v get_args u vcpu junk t).0 x ≡ m.byte_at u x
  unfolding mem_process_syscall process_syscall_learn report_learn
  mem_process_syscall-keeps u vcpu junk t = args_keep u vcpu _ _ _ _ _

  process_syscall_analyze_mem-keeps :
      (u : v.World) (vcpu : ℕ) (junk : Junk) (t : Tracer)
      → m.byte_at (process_syscall_analyze_mem v get_args u vcpu junk t).0 x ≡ m.byte_at u x
  unfolding process_syscall_analyze_mem report_analyze
  process_syscall_analyze_mem-keeps u vcpu junk t = args_keep u vcpu _ _ _ _ _

  -- A run of `mem_learn` that starts changes no byte that the guest and `get_args` leave alone, however
  -- it ends, if clearing an event that was never registered changes none.
  pub mem_learn_keeps :
      {e : Exit v}
      → mem_learn v get_args clear_unregistered o tables old_csv to_float set_time turns pending
        ≡ ran e
      → m.byte_at (watch_of e).world x ≡ m.byte_at w x
  unfolding mem_learn launch register_mem_events_learn
  mem_learn_keeps {e} r =
      let process = mem_process_syscall v get_args in
      let keeps = mem_process_syscall-keeps in
      let fresh = new_watch v w (start_tracer learn_mode old_csv tables) in
      let run = λ (u : v.World).
        mem_trace v process clear_unregistered (register_mem_events_learn v) (is_timed set_time)
          (to_float (seconds set_time)) turns pending
          (new_watch v u (start_tracer learn_mode old_csv tables)) in
      let same : e ≡ run w = ran_opened v o w start run r in
      ap (λ e. m.byte_at (watch_of e).world x) same
      ∙ mem_trace_byte v m x process keeps clear_unregistered clear_keeps
          (register_mem_events_learn v) (λ s. m.register_keeps s.world write_cr3 x)
          (is_timed set_time) (to_float (seconds set_time)) turns pending fresh quiet pending_quiet

  -- A run of `mem_analyze` that starts changes no byte that the guest and `get_args` leave alone, however
  -- it ends and whatever the system answers to the connection, if clearing an event that was never
  -- registered changes none.
  pub mem_analyze_keeps :
      (n : Answers) (window_size : ℤ) {e : Exit v}
      → (mem_analyze v get_args clear_unregistered n o tables old_csv to_float set_time window_size
          turns pending).1
        ≡ ok (ran e)
      → m.byte_at (watch_of e).world x ≡ m.byte_at w x
  unfolding mem_analyze launch register_mem_events_analyze
  mem_analyze_keeps n window_size {e} r =
      let process = process_syscall_analyze_mem v get_args in
      let keeps = process_syscall_analyze_mem-keeps in
      let fresh = new_watch v w (start_tracer analysis_mode old_csv tables) in
      let run = λ (u : v.World).
        mem_trace v process clear_unregistered (register_mem_events_analyze v) (is_timed set_time)
          (to_float (seconds set_time)) turns pending
          (new_watch v u (start_tracer analysis_mode old_csv tables)) in
      let l : Launch v (Exit v) = launch v run (open_guest v o) in
      let same : e ≡ run w =
        ran_opened v o w start run
          (sym (launched true n (has_exited v get_args clear_unregistered l) l r)) in
      ap (λ e. m.byte_at (watch_of e).world x) same
      ∙ mem_trace_byte v m x process keeps clear_unregistered clear_keeps
          (register_mem_events_analyze v) (λ s. m.register_keeps s.world write_cr3 x)
          (is_timed set_time) (to_float (seconds set_time)) turns pending fresh quiet pending_quiet
