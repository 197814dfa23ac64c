-- ===== src/Program/Judged.antt =====
-- The program in analysis mode together with the server that it sends its frames to.
use xen_syscall_analysis.Base.{
  suc, ◌≡◌, refl, ◌≢◌, ap, sym, ◌∙◌, Bool, some, List, [], ◌∷◌, ◌++◌, ◌*◌, ◌-◌, length, map, concat,
  All, All-append_split,
}
use xen_syscall_analysis.Base.Int.{ℤ}
use xen_syscall_analysis.Text.{Text}
use xen_syscall_analysis.LibVmi.{LibVmi}
use xen_syscall_analysis.Connection.{ok}
use xen_syscall_analysis.StartUp.{opened, open_guest, ran}
use xen_syscall_analysis.SyscallTable.{Tables, analysis_mode, read_syscall_table}
use xen_syscall_analysis.Window.Frames.{frame, batch}
use xen_syscall_analysis.Window.Decode.{PlainName}
use xen_syscall_analysis.Process.Frames.{names_of-All}
use xen_syscall_analysis.Breakpoint.{Session}
use xen_syscall_analysis.Tracing.{Delivery, Round, Host, ended, introspect_syscall_trace}
use xen_syscall_analysis.Detection.{Table, new_creator}
use xen_syscall_analysis.Detection.Service.{new_server, threaded_client}
use xen_syscall_analysis.Detection.Verdicts.{raised}
use xen_syscall_analysis.Detection.Relay.Groups.{threaded_client-groups}
use xen_syscall_analysis.Tracing.Calls.{calls_of_program}
use xen_syscall_analysis.Program.Sent.{introspect_syscall_trace-Sends}

-- The names of batches whose names all have the property.
batches-All :
    (P : Text → Type 0) (bs : List (List Text × Text))
    → All P (concat (map batch bs))
    → All (λ b. All P b.0) bs
batches-All P [] h = tt
batches-All P (b ∷ bs) h =
    let (here, later) = All-append_split P (batch b) (concat (map batch bs)) h in
    ((All-append_split P b.0 (b.1 ∷ []) here).0, batches-All P bs later)

length-map :
    (f : List Text × Text → Text) (bs : List (List Text × Text)) → length (map f bs) ≡ length bs
length-map f [] = refl
length-map f (b ∷ bs) = ap suc (length-map f bs)

module _ (v : LibVmi) (h : Host v) (window_size set_time : ℤ) (rounds : List (Round v))
    (pending : List (Delivery v)) (tables : Tables) (w : v.World)
    (read : read_syscall_table h.junk_name analysis_mode h.index_file h.set_file ≡ some tables)
    (start : open_guest v h.opening ≡ opened w) where
  -- From the program to the verdicts: if the tables could be read, their names are ASCII without a
  -- comma, and the start succeeded, then behind a program in analysis mode that comes to its end a server that
  -- starts afresh and receives the frames that were sent, in chunks of one or more whole frames, goes
  -- through all of them, and counts an anomaly for each of the ten names of a frame but the first ten
  -- of all if the queries of its database raise, and none if they do not.
  pub introspect_syscall_trace-threaded_client :
      (raises : Bool) (stored : Table) (groups : List (List Text))
      → All PlainName tables.sys_index
      → {t : Session v}
      → (introspect_syscall_trace v h analysis_mode window_size set_time rounds pending).1
        ≡ ok (ran (ended t))
      → concat groups ≡ t.tracer.window.sent
      → All (λ g. g ≢ []) groups
      → (sliding_window : List Text) × (threaded_client raises stored (map concat groups) new_server
          ≡ some (record {
            bosc = record new_creator { sliding_window = sliding_window };
            anomaly_count = raised (λ n. raises) (10 * length t.tracer.window.sent - 10);
          }))
  introspect_syscall_trace-threaded_client raises stored groups free {t} e sent some_frame =
      let cs = calls_of_program v h analysis_mode set_time rounds pending tables w in
      let (counted, s) =
        introspect_syscall_trace-Sends v h window_size set_time rounds pending tables w read start
          e in
      let frames : t.tracer.window.sent ≡ map (λ b. frame b.0) s.bs = ap (λ x. x.sent) s.window in
      let names_free : All PlainName (concat (map batch s.bs) ++ s.rest) =
        rw (← s.names) (names_of-All v PlainName tables cs free) in
      let bs_free : All (λ b. All PlainName b.0) s.bs =
        batches-All PlainName s.bs
          (All-append_split PlainName (concat (map batch s.bs)) s.rest names_free).0 in
      let as_many : length s.bs ≡ length t.tracer.window.sent =
        sym (ap length frames ∙ length-map (λ b. frame b.0) s.bs) in
      let (sw, result) =
        threaded_client-groups raises stored s.bs groups s.full bs_free (sent ∙ frames)
          some_frame in
      (
        sw,
        result
            ∙ ap
                (λ n. some (record {
                  bosc = record new_creator { sliding_window = sw };
                  anomaly_count = raised (λ k. raises) (10 * n - 10);
                }))
                as_many,
      )
