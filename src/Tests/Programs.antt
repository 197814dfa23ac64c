-- ===== src/Tests/Programs.antt =====
-- Whole programs, on the guest of Machine.
use xen_syscall_analysis.Base.{ℕ, ◌≡◌, refl, true, false, Option, some, none, List, [], ◌∷◌}
use xen_syscall_analysis.Base.Int.{pos}
use xen_syscall_analysis.Text.{codes}
use xen_syscall_analysis.Connection.{
  gethostname, getaddrinfo, getnameinfo, socket, bind, connect, freeaddrinfo, close, Answers, ok,
  exited, Run, ◌>>=◌, server_ip, server_port, read_host, name_calls, connect_server, Result,
}
use xen_syscall_analysis.Connection.Script.{connect_server-script}
use xen_syscall_analysis.StartUp.{
  Opening, open_guest, Launch, not_started, ran, launch, connect_if, close_if, with_connection,
}
use xen_syscall_analysis.SyscallTable.{
  Tables, learn_mode, read_syscall_table, read_entries, file_lines, fgets, scan_entry,
}
use xen_syscall_analysis.Tracing.{
  Host, Outcome, is_timed, introspect_syscall_trace, trace_guest, trace, close_outcome, code_of,
  listen, listen_once, close_handler, deliver_all, deliver,
}
use xen_syscall_analysis.Tracing.Program.{introspect_syscall_trace-entry}
use xen_syscall_analysis.Options.{Opt}
use xen_syscall_analysis.Program.{run_main}
use xen_syscall_analysis.Program.Network.{run_main_quiet}
use xen_syscall_analysis.Text.Scan.{scan_int, span, value, scan_word}
use xen_syscall_analysis.Breakpoint.{
  Session, new_session, set_lstar_breakpoint, pause_and_insert, insert_breakpoint,
  register_breakpoint, breakpoint_cb, own_breakpoint, single_step_cb,
}
use xen_syscall_analysis.Breakpoint.Callbacks.{byte}
use xen_syscall_analysis.Tests.Runs.{rounds, hit, final}
use xen_syscall_analysis.MemEvent.{
  Watch, new_watch, Exit, listening, turn_all, turn_once, take_signal, arrive_all, arrive,
  register_lstar_mem_event, step_over,
}
use xen_syscall_analysis.MemEvent.Memory.{watch_of}
use xen_syscall_analysis.MemLearn.{
  mem_analyze, mem_trace, mem_handle, cr3_register_callback, mem_syscall_cb,
  event_register_lstar_mem_event, close_mem_exit, register_mem_events_analyze,
}
use xen_syscall_analysis.MemLearn.Memory.{mem_analyze_keeps}
use xen_syscall_analysis.Tests.Calls.{tracer}
use xen_syscall_analysis.Tests.Machine.{machine, machine_laws, memory}
use xen_syscall_analysis.Tests.Events.{turns}
use xen_syscall_analysis.Tests.Learners.{args_of}

-- Two addresses, of which the second has no name.
abbrev pub answers : Answers
answers = record {
  addresses = some (some (codes "10.0.0.2") ∷ none ∷ []);
  host = [];
  socket = some 5;
  bound = true;
  connected = false;
}

connect_server-script_example : connect_server answers ≡ (
  gethostname
      ∷ getaddrinfo
      ∷ getnameinfo 0
      ∷ getnameinfo 1
      ∷ socket
      ∷ bind 5 (codes "10.0.0.2")
      ∷ connect 5 server_ip server_port
      ∷ [],
  exited 1,
)
unfolding read_host name_calls
connect_server-script_example = connect_server-script answers

abbrev no_os : Opening machine
no_os = record { access_mode = true; init = some memory; paging = true; os = false }

abbrev pub opening : Opening machine
opening = record { access_mode = true; init = some memory; paging = true; os = true }

abbrev tables : Tables
tables = record { sys_index = codes "read" ∷ codes "write" ∷ codes "open" ∷ []; set_syscalls = [] }

abbrev fresh : Watch machine
fresh = new_watch machine memory (tracer learn_mode [])

-- The run that a launch gives.
abbrev exit_of : Launch machine (Exit machine) → Exit machine
exit_of (ran e) = e
exit_of l = listening fresh

abbrev pub server : Answers
server = record answers { connected = true }

abbrev analyze_run : Run (Launch machine (Exit machine))
analyze_run =
    mem_analyze machine args_of (λ w. w) server opening tables [] (λ n. n) (pos 0) (pos 10) turns []

abbrev launch_of : Result (Launch machine (Exit machine)) → Launch machine (Exit machine)
launch_of (ok l) = l
launch_of (exited code) = not_started none

mem_analyze_keeps_example : (watch_of (exit_of (launch_of analyze_run.1))).world 4096 ≡ 0x0f
unfolding mem_analyze open_guest launch with_connection connect_if connect_server ◌>>=◌ close_if
    mem_trace turn_all turn_once take_signal arrive_all arrive mem_handle cr3_register_callback
    mem_syscall_cb event_register_lstar_mem_event register_lstar_mem_event step_over close_mem_exit
    register_mem_events_analyze is_timed
mem_analyze_keeps_example =
    mem_analyze_keeps machine machine_laws args_of (λ w. w) (λ w x. refl) opening memory refl tables
      [] (λ n. n) (pos 0) 4096 turns [] (λ u vcpu pid index mode csv a. refl)
      ((λ w. refl, (λ w. refl, tt)), (tt, tt)) tt server (pos 10) refl

-- The run ends by SIGINT, and the socket is closed.
analyze_calls :
    analyze_run.0
    ≡ gethostname
      ∷ getaddrinfo
      ∷ getnameinfo 0
      ∷ getnameinfo 1
      ∷ socket
      ∷ bind 5 (codes "10.0.0.2")
      ∷ connect 5 server_ip server_port
      ∷ freeaddrinfo
      ∷ close 5
      ∷ []
unfolding mem_analyze open_guest launch with_connection connect_if connect_server ◌>>=◌ close_if
    mem_trace turn_all turn_once take_signal arrive_all arrive mem_handle cr3_register_callback
    mem_syscall_cb event_register_lstar_mem_event register_lstar_mem_event step_over close_mem_exit
    register_mem_events_analyze read_host name_calls is_timed
analyze_calls = refl

abbrev pub host : Host machine
host = record {
  opening = opening;
  answers = server;
  index_file = some (codes "0\tread\n1\twrite\n");
  set_file = none;
  junk_name = [];
  old_csv = [];
  fall_off = 0;
  to_float = λ n. n;
}

abbrev pub program : (set_mode : ℕ) → Run (Launch machine (Outcome machine))
program set_mode = introspect_syscall_trace machine host set_mode (pos 3) (pos 0) rounds (hit ∷ [])

abbrev pub session_of : Result (Launch machine (Outcome machine)) → Session machine
session_of (ok (ran o)) = final o
session_of r = new_session machine memory (tracer learn_mode [])

abbrev pub read_write : Tables
read_write = record { sys_index = codes "read" ∷ codes "write" ∷ []; set_syscalls = [] }

introspect_syscall_trace-entry_example :
    byte machine machine_laws (session_of (program learn_mode).1) 4096 ≡ 0x0f
unfolding introspect_syscall_trace with_connection connect_if close_if ◌>>=◌ launch open_guest
    read_syscall_table read_entries file_lines fgets scan_entry scan_int span value scan_word
    trace_guest trace close_outcome code_of set_lstar_breakpoint pause_and_insert insert_breakpoint
    register_breakpoint listen listen_once close_handler deliver_all deliver breakpoint_cb
    own_breakpoint single_step_cb is_timed connect_server
introspect_syscall_trace-entry_example =
    introspect_syscall_trace-entry machine host learn_mode (pos 3) (pos 0) rounds (hit ∷ [])
      read_write memory refl refl machine_laws 4096 refl refl (λ e. cc) (λ u. refl)
      (((λ w. refl), ((λ w. refl), ((λ w. refl), tt))), (((λ w. refl), tt), tt)) ((λ w. refl), tt)
      (refl, tt) refl

abbrev process : List Opt → Run (Option (Launch machine (Outcome machine)))
process = run_main machine (λ name. host) rounds (hit ∷ [])

-- Without a guest nothing is analysed.
run_main_quiet_example : (process (Opt.mode (codes "analyze") ∷ [])).0 ≡ []
run_main_quiet_example =
    run_main_quiet machine (λ name. host) rounds (hit ∷ []) (Opt.mode (codes "analyze") ∷ []) refl
