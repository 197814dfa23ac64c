-- ===== src/Program/Sent.antt =====
-- The program in analysis mode, and what the server makes of what it sends.
use mathlib.Core.Path.{subst}
use xen_syscall_analysis.Base.{
  ◌≤◌, ◌≡◌, refl, ap, sym, ◌∙◌, some, List, [], ◌++◌, ◌%◌, ◌^◌, length, map, concat, All,
}
use xen_syscall_analysis.Base.Int.{ℤ, pos}
use xen_syscall_analysis.Text.{Text}
use xen_syscall_analysis.LibVmi.{LibVmi}
use xen_syscall_analysis.Connection.{ok}
use xen_syscall_analysis.StartUp.{opened, open_guest, ran}
use xen_syscall_analysis.SyscallTable.{Tables, analysis_mode, read_syscall_table}
use xen_syscall_analysis.Window.{empty_window, append_all}
use xen_syscall_analysis.Window.Frames.{join, frame, batch, append_all_batches}
use xen_syscall_analysis.Window.Batches.{batches}
use xen_syscall_analysis.Process.{Tracer}
use xen_syscall_analysis.Process.Frames.{Visit, process_all, names_of, process_all-append_all}
use xen_syscall_analysis.Breakpoint.{Session}
use xen_syscall_analysis.Tracing.{
  Delivery, Round, Host, ended, start_tracer, introspect_syscall_trace,
}
use xen_syscall_analysis.Tracing.Calls.{calls_of_program}
use xen_syscall_analysis.Tracing.Program.{introspect_syscall_trace-Follows}

-- What a run that traced these visits has sent, and what it keeps: batches of ten names and one
-- more, which is in no frame, and at most ten behind them.
pub record Sends (v : LibVmi) (tables : Tables) (cs : List (Visit v)) (t : Tracer) : Type 0 where
  pub bs : List (List Text × Text)
  pub rest : List Text
  pub names : names_of v tables cs ≡ concat (map batch bs) ++ rest
  pub full : All (λ b. length b.0 ≡ 10) bs
  pub few : length rest ≤ 10
  pub window :
      t.window
      ≡ record { buffer = join rest; frame_index = length rest; sent = map (λ b. frame b.0) bs }

start_mode :
    (old_csv : Text) (tables : Tables)
    → (start_tracer analysis_mode old_csv tables).running_mode ≡ analysis_mode
unfolding start_tracer
start_mode old_csv tables = refl

process_all-Sends :
    (v : LibVmi) (tables : Tables) (old_csv : Text) (cs : List (Visit v))
    → Sends v tables cs (process_all v cs (start_tracer analysis_mode old_csv tables))
unfolding start_tracer
process_all-Sends v tables old_csv cs =
    let b = batches 10 (names_of v tables cs) in
    record {
      bs = b.full;
      rest = b.rest;
      names = b.whole;
      full = b.full_length;
      few = b.rest_length;
      window =
          process_all-append_all v cs (start_tracer analysis_mode old_csv tables) refl
          ∙ ap (λ xs. append_all (pos 10) xs empty_window) b.whole
          ∙ append_all_batches 10 b.full b.rest [] b.full_length b.rest_length;
    }

module _ (v : LibVmi) (h : Host v) (window_size set_time : ℤ) (rounds : List (Round v))
    (pending : List (Delivery v)) (tables : Tables) (w : v.World)
    (read : read_syscall_table h.junk_name analysis_mode h.index_file h.set_file ≡ some tables)
    (start : open_guest v h.opening ≡ opened w) where
  -- From the program to the frames: if the tables could be read and the start succeeded, a program in
  -- analysis mode that comes to its end has counted, up to the width of its counter, the calls that it
  -- got to see: the INT3s with their data at the entry, in the order in which the library delivered
  -- them up to the end of the run. Of the names of these calls, read from RAX on the processor that
  -- made the call, in their order, it has sent one frame for each ten. The name behind each ten is in
  -- no frame, and at most ten names are left in the buffer.
  pub introspect_syscall_trace-Sends :
      {t : Session v}
      → (introspect_syscall_trace v h analysis_mode window_size set_time rounds pending).1
        ≡ ok (ran (ended t))
      → let cs = calls_of_program v h analysis_mode set_time rounds pending tables w in
        (t.cb_data.hit_count ≡ length cs % 2 ^ 64) × Sends v tables cs t.tracer
  introspect_syscall_trace-Sends {t} e =
      let cs = calls_of_program v h analysis_mode set_time rounds pending tables w in
      let f =
        introspect_syscall_trace-Follows v h analysis_mode window_size set_time rounds pending
          tables w read start e in
      (
        f.counted,
        subst (Sends v tables cs) (sym f.tracer) (process_all-Sends v tables h.old_csv cs),
      )
