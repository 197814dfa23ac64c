-- ===== src/Tracing/Program.antt =====
-- The program as a whole, from the reading of its tables to its exit.
use xen_syscall_analysis.Base.{
  ℕ, ◌≡◌, ◌≢◌, refl, ap, ◌∙◌, true, false, Option, none, some, List, [], All, ◌==◌,
}
use xen_syscall_analysis.Base.Int.{ℤ}
use xen_syscall_analysis.LibVmi.{LibVmi, MemoryLaws}
use xen_syscall_analysis.Connection.{ok}
use xen_syscall_analysis.StartUp.{opened, open_guest, Launch, ran, launch}
use xen_syscall_analysis.StartUp.Refused.{launched, with_connection_quiet}
use xen_syscall_analysis.SyscallTable.{Tables, analysis_mode, read_syscall_table}
use xen_syscall_analysis.Breakpoint.{Session, new_session, no_value, set_lstar_breakpoint}
use xen_syscall_analysis.Breakpoint.Callbacks.{byte}
use xen_syscall_analysis.Tracing.{
  Delivery, Round, Host, Outcome, ended, is_timed, seconds, start_tracer, trace, trace_guest,
  has_ended, with_tables, introspect_syscall_trace,
}
use xen_syscall_analysis.Tracing.Memory.{GuestKeeps, IsInt3}
use xen_syscall_analysis.Tracing.Whole.{Holds, trace-entry}
use xen_syscall_analysis.Tracing.Visits.{Follows, trace-Follows}
use xen_syscall_analysis.Tracing.Calls.{calls_of_program}
use mathlib.Core.Path.{subst}

of_ended :
    {v : LibVmi} (P : Session v → Type 0) {t : Session v} {o : Outcome v}
    → o ≡ ended t
    → Holds P o
    → P t
of_ended P e h = subst (Holds P) e h

module _ (v : LibVmi) (h : Host v) (set_mode : ℕ) (window_size set_time : ℤ)
    (rounds : List (Round v)) (pending : List (Delivery v)) (tables : Tables) (w : v.World)
    (read : read_syscall_table h.junk_name set_mode h.index_file h.set_file ≡ some tables)
    (start : open_guest v h.opening ≡ opened w) where
  abbrev pub fresh : Session v
  fresh = new_session v w (start_tracer set_mode h.old_csv tables)

  ran_with :
      (o : Option Tables) {l : Launch v (Outcome v)}
      → o ≡ some tables
      → (with_tables v h set_mode set_time rounds pending o).1 ≡ ok l
      → l ≡ ran (trace_guest v h set_mode set_time rounds pending tables w)
  unfolding with_tables launch
  ran_with none r e = absurd (cc)
  ran_with (some t) r e =
      let run =
        launch v (trace_guest v h set_mode set_time rounds pending t) (open_guest v h.opening) in
      let same : t ≡ tables = cc in
      launched (set_mode == analysis_mode) h.answers (has_ended v run) run e
      ∙ (rw start (ap (λ x. ran (trace_guest v h set_mode set_time rounds pending x w)) same))

  -- The run that a program which comes to its end has made.
  trace_of :
      {t : Session v}
      → (introspect_syscall_trace v h set_mode window_size set_time rounds pending).1
        ≡ ok (ran (ended t))
      → trace v h.fall_off (is_timed set_time) (h.to_float (seconds set_time)) rounds pending fresh
        ≡ ended t
  unfolding introspect_syscall_trace trace_guest
  trace_of {t} e =
      let r : ran (ended t) ≡ ran (trace_guest v h set_mode set_time rounds pending tables w) =
        ran_with (read_syscall_table h.junk_name set_mode h.index_file h.set_file) read e in
      cc

  -- If the tables could be read and the start succeeded, the tracer of a program that comes to its
  -- end is the first one behind `process_syscall` for the calls that the program gets to see, and
  -- the counter of hits has the number of them, up to its width.
  pub introspect_syscall_trace-Follows :
      {t : Session v}
      → (introspect_syscall_trace v h set_mode window_size set_time rounds pending).1
        ≡ ok (ran (ended t))
      → Follows v
          (start_tracer set_mode h.old_csv tables)
          (calls_of_program v h set_mode set_time rounds pending tables w)
          t
  introspect_syscall_trace-Follows e =
      let cs = calls_of_program v h set_mode set_time rounds pending tables w in
      of_ended (Follows v (start_tracer set_mode h.old_csv tables) cs) (trace_of e) (
        trace-Follows v (start_tracer set_mode h.old_csv tables) h.fall_off (is_timed set_time)
          (h.to_float (seconds set_time)) rounds pending w)

  module _ (m : MemoryLaws v) where
    -- If the tables could be read and the start and the setting of the breakpoint succeed, a program
    -- that comes to its end leaves the byte at the entry as `vmi_init` found it, if writing it
    -- succeeds, it is not 0, the guest does not write it, and no single step is pending at the end.
    pub introspect_syscall_trace-entry :
        (x : ℕ)
        → (set_lstar_breakpoint v fresh).0 ≡ no_value
        → x ≡ (set_lstar_breakpoint v fresh).1.lstar
        → m.byte_at w x ≢ 0
        → ((u : v.World) → (v.write_va u x (m.byte_at w x)).0 ≡ true)
        → All (λ r. All (GuestKeeps v m x) r.deliveries) rounds
        → All (GuestKeeps v m x) pending
        → All (IsInt3 v m x) pending
        → {t : Session v}
        → (introspect_syscall_trace v h set_mode window_size set_time rounds pending).1
          ≡ ok (ran (ended t))
        → byte v m t x ≡ m.byte_at w x
    introspect_syscall_trace-entry x set at ne writes keeps pending_keeps int3s e =
        trace-entry v m x (is_timed set_time) (h.to_float (seconds set_time)) h.fall_off rounds
          pending fresh set keeps pending_keeps at ne writes int3s (trace_of e)

module _ (v : LibVmi) (h : Host v) (window_size set_time : ℤ) (rounds : List (Round v))
    (pending : List (Delivery v)) where
  with_tables_quiet :
      (set_mode : ℕ) (o : Option Tables)
      → (set_mode == analysis_mode) ≡ false
      → (with_tables v h set_mode set_time rounds pending o).0 ≡ []
  unfolding with_tables
  with_tables_quiet set_mode none e = refl
  with_tables_quiet set_mode (some t) e = rw e (with_connection_quiet h.answers _ _)

  -- In the other modes the tracer makes no call for a connection.
  pub introspect_syscall_trace_quiet :
      (set_mode : ℕ)
      → (set_mode == analysis_mode) ≡ false
      → (introspect_syscall_trace v h set_mode window_size set_time rounds pending).0 ≡ []
  unfolding introspect_syscall_trace
  introspect_syscall_trace_quiet set_mode e = with_tables_quiet set_mode _ e
