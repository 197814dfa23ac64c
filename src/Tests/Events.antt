-- ===== src/Tests/Events.antt =====
-- The build with MEM_EVENT, on the guest of Machine.
use xen_syscall_analysis.Base.{ℕ, ◌≡◌, refl, true, false, some, none, List, [], ◌∷◌}
use xen_syscall_analysis.SyscallTable.{learn_mode}
use xen_syscall_analysis.Process.{Tracer}
use xen_syscall_analysis.MemEvent.{
  Watch, exited, close_watch, new_watch, Cr3Write, on_cr3, Hit, on_execute, Arrival, Turn,
  cr3_register_task_callback, register_lstar_mem_event, handle, arrive_all, trace_memory,
}
use xen_syscall_analysis.MemEvent.Calls.{
  Act, executes, step_done, arrivals, task_switches, arrive_all-task_switches,
}
use xen_syscall_analysis.MemEvent.Ending.{trace_memory-exited}
use xen_syscall_analysis.MemEvent.Memory.{watch_of, trace_memory_keeps}
use xen_syscall_analysis.Tests.Machine.{machine, machine_laws, memory}
use xen_syscall_analysis.Tests.Calls.{junk, tracer}

abbrev learner : Tracer
learner = tracer learn_mode []

abbrev task_switch : Cr3Write
task_switch = record { cr3 = 77; msr_lstar = 4096 }

abbrev watching : Watch machine
watching = record (new_watch machine memory learner) {
  lstar = 4096;
  gfn = 1;
  mem_events_registered = true;
}

-- The first write of CR3 finds the page.
test_task_switch :
    cr3_register_task_callback machine task_switch (new_watch machine memory learner) ≡ watching
unfolding cr3_register_task_callback register_lstar_mem_event
test_task_switch = refl

abbrev hit_at : (vcpu offset : ℕ) → Hit
hit_at vcpu offset = record { junk = junk; vcpu = vcpu; offset = offset; msr_lstar = 4096 }

abbrev executed : Arrival machine
executed = record { guest = λ w. w; event = on_execute (hit_at 0 0) }

-- The second processor makes a call during the single step of the first, and one behind it.
abbrev acts : List (Act machine)
acts =
    executes (λ w. w) (hit_at 0 8)
    ∷ step_done (λ w. w)
    ∷ executes (λ w. w) (hit_at 0 0)
    ∷ executes (λ w. w) (hit_at 1 0)
    ∷ step_done (λ w. w)
    ∷ executes (λ w. w) (hit_at 1 0)
    ∷ []

arrive_all-task_switches_example :
    arrive_all machine
      (handle machine)
      (task_switches machine (task_switch ∷ task_switch ∷ []))
      watching
    ≡ watching
arrive_all-task_switches_example =
    arrive_all-task_switches machine (task_switch ∷ task_switch ∷ []) watching refl

abbrev pub turns : List (Turn machine)
turns =
    record {
      signal = none;
      arrivals = record { guest = λ w. w; event = on_cr3 task_switch } ∷ executed ∷ [];
      status = true;
      elapsed = 1;
    }
    ∷ record { signal = some 2; arrivals = []; status = true; elapsed = 2 }
    ∷ []

trace_memory_keeps_example :
    (watch_of (trace_memory machine false 0 turns [] (new_watch machine memory learner))).world 4096
    ≡ 0x0f
trace_memory_keeps_example =
    trace_memory_keeps machine machine_laws 4096 false 0 turns [] (new_watch machine memory learner)
      ((λ w. refl, (λ w. refl, tt)), (tt, tt)) tt

-- A signal in the second turn.
trace_memory-exited_example :
    (t : Watch machine) × (trace_memory machine false 0 turns [] (new_watch machine memory learner)
      ≡ exited (close_watch machine [] t))
trace_memory-exited_example =
    trace_memory-exited machine false 0
      (record {
        signal = none;
        arrivals = record { guest = λ w. w; event = on_cr3 task_switch } ∷ executed ∷ [];
        status = true;
        elapsed = 1;
      }
        ∷ [])
      (record { signal = some 2; arrivals = []; status = true; elapsed = 2 }) [] []
      (new_watch machine memory learner) refl
