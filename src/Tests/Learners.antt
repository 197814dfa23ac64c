-- ===== src/Tests/Learners.antt =====
-- The tracers in files of their own, on the guest of Machine.
use xen_syscall_analysis.Base.{◌≡◌, refl, true, false, some, none, List, [], ◌∷◌}
use xen_syscall_analysis.Base.Int.{pos}
use xen_syscall_analysis.StartUp.{Opening, open_guest, launch}
use xen_syscall_analysis.SyscallTable.{Tables, learn_mode, analysis_mode}
use xen_syscall_analysis.Process.{process_syscall}
use xen_syscall_analysis.Breakpoint.{
  breakpoint, set_lstar_breakpoint, pause_and_insert, insert_breakpoint, register_breakpoint,
}
use xen_syscall_analysis.Tracing.{Round, start_tracer, is_timed, seconds}
use xen_syscall_analysis.BpLearn.{
  GetArgs, LearnEnd, new_learner, process_syscall_learn, learn_trace, bp_learn,
}
use xen_syscall_analysis.BpLearn.Same.{client_args, process_syscall_learn-process_syscall}
use xen_syscall_analysis.BpLearn.Closing.{learner_of, bp_learn-breakpoint}
use xen_syscall_analysis.MemLearn.{process_syscall_analyze_mem}
use xen_syscall_analysis.MemLearn.Same.{process_syscall_analyze_mem-window}
use xen_syscall_analysis.Tests.Machine.{machine, machine_laws, memory}
use xen_syscall_analysis.Tests.Calls.{regs, junk, tracer}

abbrev pub args_of : GetArgs machine
args_of = client_args machine regs

process_syscall_learn-process_syscall_example :
    process_syscall_learn machine args_of memory 0 junk (tracer learn_mode [])
    ≡ (memory, process_syscall machine memory 0 junk (tracer learn_mode []))
process_syscall_learn-process_syscall_example =
    process_syscall_learn-process_syscall machine memory 0 junk (tracer learn_mode []) refl

analyze_mem_frames :
    (process_syscall_analyze_mem machine args_of memory 0 junk (tracer analysis_mode [])).1.window
    ≡ (process_syscall machine memory 0 junk (tracer analysis_mode [])).window
analyze_mem_frames =
    process_syscall_analyze_mem-window machine args_of memory 0 junk (tracer analysis_mode []) refl

-- Nothing comes until the user sends SIGINT.
abbrev idle_rounds : List (Round machine)
idle_rounds =
    record { signal = none; deliveries = []; status = true; elapsed = 1 }
    ∷ record { signal = some 2; deliveries = []; status = true; elapsed = 2 }
    ∷ []

-- The learner whose start-up succeeds.
abbrev ready : Opening machine
ready = record { access_mode = true; init = some memory; paging = true; os = true }

abbrev no_tables : Tables
no_tables = record { sys_index = []; set_syscalls = [] }

abbrev learn_end : LearnEnd machine
learn_end =
    learn_trace machine args_of (λ w. w) 0 false 0 idle_rounds []
      (new_learner machine memory (start_tracer learn_mode [] no_tables))

bp_learn-breakpoint_example : (learner_of learn_end).events.world 4096 ≡ breakpoint
unfolding set_lstar_breakpoint pause_and_insert insert_breakpoint register_breakpoint bp_learn
    open_guest launch is_timed seconds
bp_learn-breakpoint_example =
    bp_learn-breakpoint machine machine_laws args_of (λ w. w) (λ w x. refl) ready memory no_tables
      [] 0 (λ n. n) (pos 0) idle_rounds {e = learn_end} refl refl (refl, (refl, tt)) refl
