-- ===== src/Tracing/Ends.antt =====
-- When the program as a whole comes to its end.
use xen_syscall_analysis.Base.{
  ℕ, ◌≡◌, ap, ◌∙◌, inl, inr, Bool, true, Bool-cases, Option, some, List, ◌∷◌, ◌++◌, ◌==◌,
}
use xen_syscall_analysis.Base.Int.{ℤ}
use xen_syscall_analysis.LibVmi.{LibVmi}
use xen_syscall_analysis.Connection.{ok}
use xen_syscall_analysis.StartUp.{opened, open_guest, connect_if, ran, launch}
use xen_syscall_analysis.StartUp.Refused.{with_connection_result}
use xen_syscall_analysis.SyscallTable.{Tables, analysis_mode, read_syscall_table}
use xen_syscall_analysis.Breakpoint.{Session, new_session, vmi_success, set_lstar_breakpoint}
use xen_syscall_analysis.Tracing.{
  Delivery, Round, Host, ended, is_timed, seconds, start_tracer, close_session, close_outcome,
  code_of, trace, trace_guest, with_tables, introspect_syscall_trace,
}
use xen_syscall_analysis.Tracing.Ending.{stops, listen-ended}

module _ (v : LibVmi) (before : List (Round v)) (r : Round v) (after : List (Round v))
    (pending : List (Delivery v)) where
  trace-ended :
      (fall_off : ℕ) (timed : Bool) (limit : ℕ) (s : Session v)
      → stops timed limit r ≡ true
      → (t : Session v) × (trace v fall_off timed limit (before ++ r ∷ after) pending s ≡ ended t)
  unfolding trace close_outcome
  trace-ended fall_off timed limit s h =
      let u = (set_lstar_breakpoint v s).1 in
      elim (Bool-cases (code_of fall_off (set_lstar_breakpoint v s).0 == vmi_success)) [
        | inl going ↦
            let (t, e) = listen-ended v timed limit before r after u h in
            (close_session v pending t, rw going (ap (close_outcome v pending) e))
        | inr failed ↦ (close_session v pending u, rw failed)
      ]

  -- If the tables could be read, the server could be connected to where the mode wants it, and the
  -- start succeeded, then a program among whose rounds is one with a signal, a failing call of the
  -- library or a time limit that is over comes to its end.
  pub introspect_syscall_trace-ended :
      (h : Host v) (set_mode : ℕ) (window_size set_time : ℤ) (tables : Tables) (w : v.World)
      → {fd : Option ℕ}
      → read_syscall_table h.junk_name set_mode h.index_file h.set_file ≡ some tables
      → (connect_if (set_mode == analysis_mode) h.answers).1 ≡ ok fd
      → open_guest v h.opening ≡ opened w
      → stops (is_timed set_time) (h.to_float (seconds set_time)) r ≡ true
      → (t : Session v) × ((introspect_syscall_trace v h set_mode window_size set_time
            (before ++ r ∷ after)
            pending).1
          ≡ ok (ran (ended t)))
  unfolding introspect_syscall_trace with_tables launch trace_guest
  introspect_syscall_trace-ended h set_mode window_size set_time tables w read connected start
        stop =
      let (t, e) =
        trace-ended h.fall_off (is_timed set_time) (h.to_float (seconds set_time))
          (new_session v w (start_tracer set_mode h.old_csv tables)) stop in
      (
        t,
        rw read (
            with_connection_result (set_mode == analysis_mode) h.answers _ _ connected
            ∙ rw start (ap (λ o. ok (ran o)) e)),
      )
