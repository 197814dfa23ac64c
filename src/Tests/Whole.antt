-- ===== src/Tests/Whole.antt =====
-- Whole programs and the server behind them, on the guest of Machine.
use xen_syscall_analysis.Base.{
  ◌≡◌, refl, true, none, some, List, [], ◌∷◌, ◌++◌, ◌%◌, ◌^◌, length, concat, All,
}
use xen_syscall_analysis.Base.Int.{pos}
use xen_syscall_analysis.Text.{Text, codes}
use xen_syscall_analysis.Text.Scan.{scan_int, span, value, scan_word}
use xen_syscall_analysis.Connection.{ok, ◌>>=◌, connect_server}
use xen_syscall_analysis.StartUp.{ran, open_guest, launch, connect_if, close_if, with_connection}
use xen_syscall_analysis.SyscallTable.{
  Tables, learn_mode, analysis_mode, read_syscall_table, read_entries, file_lines, fgets,
  scan_entry,
}
use xen_syscall_analysis.Window.{append_syscall}
use xen_syscall_analysis.Process.{process_syscall, report_syscall, describe, syscall_number}
use xen_syscall_analysis.Process.Frames.{Visit, names_of}
use xen_syscall_analysis.Breakpoint.{
  Session, set_lstar_breakpoint, pause_and_insert, insert_breakpoint, register_breakpoint,
  breakpoint_cb, own_breakpoint, single_step_cb,
}
use xen_syscall_analysis.Tracing.{
  Round, Host, is_timed, introspect_syscall_trace, trace_guest, trace, close_outcome, code_of,
  listen, listen_once, close_handler, deliver_all, deliver, close_session, unregister, drain,
  restore_opcode, start_tracer, seconds, ended,
}
use xen_syscall_analysis.Detection.{new_creator}
use xen_syscall_analysis.Detection.Service.{new_server, threaded_client}
use xen_syscall_analysis.Window.Frames.{frame}
use xen_syscall_analysis.Window.Decode.{PlainName}
use xen_syscall_analysis.Detection.Learning.{IsRead}
use xen_syscall_analysis.Detection.Learning.Rows.{spaced}
use xen_syscall_analysis.Detection.Learning.Trace.{Learns}
use xen_syscall_analysis.Tracing.Calls.{
  calls_in, calls_of_rounds, calls_of_end, calls_of_run, calls_of_program,
}
use xen_syscall_analysis.Tracing.Ends.{introspect_syscall_trace-ended}
use xen_syscall_analysis.Program.Learned.{introspect_syscall_trace-learn}
use xen_syscall_analysis.Program.Judged.{introspect_syscall_trace-threaded_client}
use xen_syscall_analysis.Program.Sent.{Sends, introspect_syscall_trace-Sends}
use xen_syscall_analysis.Tests.Csv.{pandas, pandas_laws}
use xen_syscall_analysis.Tests.Learning.{read, blank-IsRead}
use xen_syscall_analysis.Tests.Machine.{machine, memory}
use xen_syscall_analysis.Tests.Programs.{host, program, session_of, read_write}
use xen_syscall_analysis.Tests.Runs.{rounds, hit}
use xen_syscall_analysis.Tests.Relay.{plain_name, opens, times_ten, open_free}

names-IsRead : All (λ x. IsRead pandas (spaced x)) read_write.sys_index
names-IsRead = (read (spaced (codes "read")) refl, (read (spaced (codes "write")) refl, tt))

abbrev learned : Session machine
learned = session_of (program learn_mode).1

abbrev learned_calls : List (Visit machine)
learned_calls = calls_of_program machine host learn_mode (pos 0) rounds (hit ∷ []) read_write memory

introspect_syscall_trace-learn_example :
    (learned.cb_data.hit_count ≡ length learned_calls % 2 ^ 64)
    × Learns machine pandas read_write learned_calls learned.tracer.csv none
unfolding introspect_syscall_trace with_connection connect_if close_if ◌>>=◌ launch open_guest
    read_syscall_table read_entries file_lines fgets scan_entry scan_int span value scan_word
    trace_guest trace close_outcome code_of set_lstar_breakpoint pause_and_insert insert_breakpoint
    register_breakpoint listen listen_once close_handler deliver_all deliver breakpoint_cb
    own_breakpoint single_step_cb is_timed connect_server
introspect_syscall_trace-learn_example =
    introspect_syscall_trace-learn machine host (pos 3) (pos 0) rounds (hit ∷ []) read_write memory
      refl refl pandas pandas_laws none blank-IsRead names-IsRead refl

-- A guest whose third call has a name, and which makes it twenty-two times.
abbrev three_calls : Host machine
three_calls = record host { index_file = some (codes "0\tread\n1\twrite\n2\topen\n") }

abbrev read_write_open : Tables
read_write_open = record {
  sys_index = codes "read" ∷ codes "write" ∷ codes "open" ∷ [];
  set_syscalls = [];
}

abbrev crowded : Round machine
crowded = record {
  signal = none;
  deliveries = hit ∷ hit ∷ times_ten hit ++ times_ten hit;
  status = true;
  elapsed = 0;
}

abbrev long_rounds : List (Round machine)
long_rounds = crowded ∷ record { signal = some 2; deliveries = []; status = true; elapsed = 0 } ∷ []

-- The time limit of a minute is over.
abbrev late : Round machine
late = record { signal = none; deliveries = hit ∷ []; status = true; elapsed = 61 }

abbrev long_run : Session machine
long_run =
    session_of
      (introspect_syscall_trace machine three_calls analysis_mode (pos 3) (pos 0) long_rounds []).1

abbrev two_frames : List Text
two_frames = frame (times_ten (codes "open")) ∷ frame (times_ten (codes "open")) ∷ []

abbrev long_calls : List (Visit machine)
long_calls =
    calls_of_program machine three_calls analysis_mode (pos 0) long_rounds [] read_write_open memory

-- Twenty-two calls, and two frames.
introspect_syscall_trace-Sends_example :
    (long_run.cb_data.hit_count ≡ length long_calls % 2 ^ 64)
    × Sends machine read_write_open long_calls long_run.tracer
unfolding introspect_syscall_trace with_connection connect_if close_if ◌>>=◌ launch open_guest
    read_syscall_table read_entries file_lines fgets scan_entry scan_int span value scan_word
    trace_guest trace close_outcome code_of set_lstar_breakpoint pause_and_insert insert_breakpoint
    register_breakpoint listen listen_once close_handler deliver_all deliver breakpoint_cb
    own_breakpoint single_step_cb is_timed connect_server
introspect_syscall_trace-Sends_example =
    introspect_syscall_trace-Sends machine three_calls (pos 3) (pos 0) long_rounds []
      read_write_open memory refl refl {t = long_run} refl

test_long_calls : names_of machine read_write_open long_calls ≡ opens 22
unfolding introspect_syscall_trace with_connection connect_if close_if ◌>>=◌ launch open_guest
    read_syscall_table read_entries file_lines fgets scan_entry scan_int span value scan_word
    trace_guest trace close_outcome code_of set_lstar_breakpoint pause_and_insert insert_breakpoint
    register_breakpoint listen listen_once close_handler deliver_all deliver breakpoint_cb
    own_breakpoint single_step_cb is_timed connect_server close_session unregister drain
    restore_opcode calls_of_run calls_of_rounds calls_in calls_of_end process_syscall
test_long_calls = refl

names-PlainName : All PlainName read_write_open.sys_index
names-PlainName =
    (plain_name (codes "read") refl, (plain_name (codes "write") refl, (open_free, tt)))

introspect_syscall_trace-threaded_client_example :
    (sliding_window : List Text) × (threaded_client true [] (concat two_frames ∷ []) new_server
      ≡ some (record {
        bosc = record new_creator { sliding_window = sliding_window };
        anomaly_count = 10;
      }))
unfolding introspect_syscall_trace with_connection connect_if close_if ◌>>=◌ launch open_guest
    read_syscall_table read_entries file_lines fgets scan_entry scan_int span value scan_word
    trace_guest trace close_outcome code_of set_lstar_breakpoint pause_and_insert insert_breakpoint
    register_breakpoint listen listen_once close_handler deliver_all deliver breakpoint_cb
    own_breakpoint single_step_cb is_timed connect_server close_session unregister drain
    restore_opcode process_syscall start_tracer report_syscall describe syscall_number
    append_syscall
introspect_syscall_trace-threaded_client_example =
    introspect_syscall_trace-threaded_client machine three_calls (pos 3) (pos 0) long_rounds []
      read_write_open memory refl refl true [] (two_frames ∷ []) names-PlainName {t = long_run} refl
      refl ((λ e. cc), tt)

introspect_syscall_trace-ended_example :
    (t : Session machine) × ((introspect_syscall_trace machine three_calls analysis_mode
        (pos 3)
        (pos 1)
        (crowded ∷ late ∷ [])
        []).1
      ≡ ok (ran (ended t)))
unfolding read_syscall_table read_entries file_lines fgets scan_entry scan_int span value scan_word
    connect_if connect_server ◌>>=◌ open_guest is_timed seconds
introspect_syscall_trace-ended_example =
    introspect_syscall_trace-ended machine (crowded ∷ []) late [] [] three_calls analysis_mode
      (pos 3) (pos 1) read_write_open memory {fd = some 5} refl refl refl refl
