-- ===== src/Program/Learned.antt =====
-- The program in learning mode, and the learning of the server behind it.
use xen_syscall_analysis.Base.{Option, ◌≡◌, ap, sym, some, List, [], ◌%◌, ◌^◌, length, All}
use mathlib.Core.Path.{subst}
use xen_syscall_analysis.Base.Int.{ℤ}
use xen_syscall_analysis.LibVmi.{LibVmi}
use xen_syscall_analysis.Connection.{ok}
use xen_syscall_analysis.StartUp.{opened, open_guest, ran}
use xen_syscall_analysis.SyscallTable.{Tables, learn_mode, read_syscall_table}
use xen_syscall_analysis.Breakpoint.{Session}
use xen_syscall_analysis.Tracing.{Delivery, Round, Host, ended, introspect_syscall_trace}
use xen_syscall_analysis.Tracing.Calls.{calls_of_program}
use xen_syscall_analysis.Tracing.Program.{introspect_syscall_trace-Follows}
use xen_syscall_analysis.Detection.{Table}
use xen_syscall_analysis.Detection.Learning.{Pandas, PandasLaws, IsRead}
use xen_syscall_analysis.Detection.Learning.Rows.{spaced}
use xen_syscall_analysis.Detection.Learning.Trace.{Learns, learn-process_all}

module _ (v : LibVmi) (h : Host v) (window_size set_time : ℤ) (rounds : List (Round v))
    (pending : List (Delivery v)) (tables : Tables) (w : v.World)
    (read : read_syscall_table h.junk_name learn_mode h.index_file h.set_file ≡ some tables)
    (start : open_guest v h.opening ≡ opened w) where
  -- From the program to the database: if the tables could be read and the start succeeded, pandas
  -- reads the names of the table as they are written, a space in front of each, and no query raises,
  -- then behind a program in learning mode that comes to its end the learning ends with a table.
  -- The program has counted, up to the width of its counter, the calls that it got to see: the INT3s
  -- with their data at the entry, in the order in which the library delivered them up to the end of
  -- the run. The names of the table are those of these calls, each once, and it stores, beside what
  -- was there, the bags of the windows of ten consecutive calls with another call behind them and no
  -- others; no call of a bag is unknown.
  pub introspect_syscall_trace-learn :
      (p : Pandas) (laws : PandasLaws p) (db : Option Table)
      → IsRead p (spaced [])
      → All (λ x. IsRead p (spaced x)) tables.sys_index
      → {t : Session v}
      → (introspect_syscall_trace v h learn_mode window_size set_time rounds pending).1
        ≡ ok (ran (ended t))
      → let cs = calls_of_program v h learn_mode set_time rounds pending tables w in
        (t.cb_data.hit_count ≡ length cs % 2 ^ 64) × Learns v p tables cs t.tracer.csv db
  introspect_syscall_trace-learn p laws db blank names_read {t} e =
      let cs = calls_of_program v h learn_mode set_time rounds pending tables w in
      let f =
        introspect_syscall_trace-Follows v h learn_mode window_size set_time rounds pending tables w
          read start e in
      (
        f.counted,
        subst (λ trace. Learns v p tables cs trace db) (sym (ap (λ u. u.csv) f.tracer))
            (learn-process_all v p laws tables blank names_read h.old_csv cs db),
      )
