-- ===== src/Tests/Runs.antt =====
-- The breakpoint and whole runs, on the small guest.
use xen_syscall_analysis.Base.{
  ℕ, ◌≡◌, ◌⊎◌, refl, true, false, some, none, List, [], ◌∷◌, arith, if◌then◌else◌, ◌==◌,
}
use xen_syscall_analysis.Base.Int.{pos}
use xen_syscall_analysis.LibVmi.{keep, toggle_singlestep}
use xen_syscall_analysis.SyscallTable.{learn_mode}
use xen_syscall_analysis.Process.{process_syscall}
use xen_syscall_analysis.Breakpoint.{
  breakpoint, Session, new_session, Interrupt, no_value, returned, breakpoint_cb,
  set_lstar_breakpoint, pause_and_insert, insert_breakpoint, register_breakpoint,
}
use xen_syscall_analysis.Breakpoint.Callbacks.{byte, breakpoint_cb_own}
use xen_syscall_analysis.Breakpoint.Setup.{
  IsArmed, set_lstar_breakpoint_value, set_lstar_breakpoint-IsArmed,
}
use xen_syscall_analysis.Tracing.{
  on_int3, on_step, Delivery, Round, Outcome, ended, deliver, listen, close_session, trace,
}
use xen_syscall_analysis.Tracing.Cycle.{armed, Step, Reach, Stands, Reach-Stands}
use xen_syscall_analysis.Tracing.Ending.{listen-ended}
use xen_syscall_analysis.Tracing.Restore.{close_session_step}
use xen_syscall_analysis.Tracing.Whole.{Holds, trace_other}
use xen_syscall_analysis.Tests.Machine.{machine, machine_laws, memory}
use xen_syscall_analysis.Tests.Calls.{junk, tracer}

abbrev start : Session machine
start = new_session machine memory (tracer learn_mode [])

-- The session with the breakpoint set.
abbrev set : Session machine
set = record start {
  world = λ x. if x == 4096 then breakpoint else memory x;
  lstar = 4096;
  saved_opcode = 0x0f;
  cb_data = record { sym_vaddr = 4096; saved_opcode = 0x0f; hit_count = 0 };
}

abbrev int3_at : ℕ → Interrupt
int3_at rip = record { vcpu = 0; rip = rip; insn_length = 0; reinject = false; has_data = true }

breakpoint_cb_own_example :
    let (response, e', s') = breakpoint_cb machine junk (int3_at 4096) set in
    (s'.tracer ≡ process_syscall machine set.world 0 junk set.tracer)
    × (s'.cb_data.hit_count ≡ 1)
    × (e'.reinject ≡ false)
    × (((response ≡ toggle_singlestep)
          × (s'.interrupted ≡ pos 0)
          × (byte machine machine_laws s' 4096 ≡ 0x0f))
        ⊎ ((response ≡ keep)
            × (s'.interrupted ≡ pos 1)
            × (byte machine machine_laws s' 4096 ≡ breakpoint)))
breakpoint_cb_own_example =
    breakpoint_cb_own machine machine_laws junk (int3_at 4096) set 4096 refl refl

set_lstar_breakpoint_value_example :
    ((set_lstar_breakpoint machine start).0 ≡ no_value)
    ⊎ ((set_lstar_breakpoint machine start).0 ≡ returned 1)
set_lstar_breakpoint_value_example = set_lstar_breakpoint_value machine start

set_lstar_breakpoint-IsArmed_example :
    let t = (set_lstar_breakpoint machine start).1 in
    IsArmed machine t.lstar (byte machine machine_laws start t.lstar) t
    × (byte machine machine_laws t t.lstar ≡ breakpoint)
unfolding set_lstar_breakpoint pause_and_insert insert_breakpoint register_breakpoint
set_lstar_breakpoint-IsArmed_example = set_lstar_breakpoint-IsArmed machine machine_laws start refl

-- A system call: the breakpoint, then the step.
abbrev pub hit : Delivery machine
hit = record { guest = λ w. w; kind = on_int3 junk (int3_at 4096) }

abbrev step : Delivery machine
step = record { guest = λ w. w; kind = on_step 0 true }

abbrev busy : Round machine
busy = record { signal = none; deliveries = hit ∷ step ∷ hit ∷ []; status = true; elapsed = 1 }

abbrev interrupted_round : Round machine
interrupted_round = record { signal = some 2; deliveries = step ∷ []; status = true; elapsed = 2 }

busy_then_interrupted :
    (t : Session machine) × (listen machine false 0 (busy ∷ interrupted_round ∷ []) set ≡ ended t)
busy_then_interrupted = listen-ended machine false 0 (busy ∷ []) interrupted_round [] set refl

close_session_step_example :
    byte machine machine_laws (close_session machine (step ∷ []) set) 4096 ≡ breakpoint
close_session_step_example =
    close_session_step machine machine_laws 4096 {opcode = 0x0f} step 0 set (ground arith) refl
      (λ w. refl) refl

abbrev pub rounds : List (Round machine)
rounds = busy ∷ interrupted_round ∷ []

trace_other_example :
    Holds (λ t. byte machine machine_laws t 8 ≡ 0) (trace machine 0 false 0 rounds [] start)
unfolding set_lstar_breakpoint pause_and_insert insert_breakpoint register_breakpoint
trace_other_example =
    trace_other machine machine_laws 8 false 0 0 rounds [] start refl
      (((λ w. refl), ((λ w. refl), ((λ w. refl), tt))), (((λ w. refl), tt), tt)) tt (λ e. cc)

-- The session that the run ends with.
abbrev pub final : Outcome machine → Session machine
final (ended s) = s
final o = start

-- A hit, an INT3 at another address, and the step.
abbrev foreign_hit : Delivery machine
foreign_hit = record { guest = λ w. w; kind = on_int3 junk (int3_at 8) }

Reach-Stands_example :
    Stands machine machine_laws 4096 0x0f
      (λ w b. refl)
      armed
      1
      (pos 0)
      (deliver machine step (deliver machine foreign_hit (deliver machine hit set)))
Reach-Stands_example =
    Reach-Stands machine machine_laws 4096 0x0f (λ w b. refl)
      (Reach.next
        (Reach.next
          (Reach.next Reach.here (Step.hit hit junk (int3_at 4096) (λ w. refl) refl refl refl))
          (Step.foreign foreign_hit junk (int3_at 8) (λ w. refl) refl refl (λ e. cc)))
        (Step.step step 0 (λ w. refl) refl))
      (record {
        is_armed = record { lstar = refl; saved = refl; address = refl; data_saved = refl };
        byte_shown = refl;
        counted = refl;
        unstopped = refl;
      })
