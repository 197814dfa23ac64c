-- ===== src/MemEvent/Calls.antt =====
-- Which calls the build with MEM_EVENT traces.
use xen_syscall_analysis.Base.{
  ℕ, Bool, ◌≡◌, refl, ap, ◌∙◌, true, false, List, [], ◌∷◌, ◌==◌, if◌then◌else◌, arith,
}
use xen_syscall_analysis.LibVmi.{LibVmi, write_cr3, execute_page}
use xen_syscall_analysis.Process.Frames.{Visit}
use xen_syscall_analysis.MemEvent.{
  Watch, Hit, Cr3Write, on_cr3, on_execute, Arrival, cr3_register_task_callback, handle, arrive,
  arrive_all,
}

module _ (v : LibVmi) where
  -- What happens to the watched page: an instruction on it is executed, or the single step of the
  -- event before is over. `before` is what the guest does ahead of it.
  pub data Act : Type 0 where
    executes : (before : v.World → v.World) (hit : Hit) → Act
    step_done : (before : v.World → v.World) → Act

  -- The events of acts behind what the guest has done so far. An event is cleared by the callback
  -- and set again behind its step: what any processor executes meanwhile raises none.
  abbrev pub arrivals : (watched : Bool) (so_far : v.World → v.World) → List Act → List (Arrival v)
  arrivals watched so_far [] = []
  arrivals true so_far (executes before hit ∷ acts) =
      record { guest = λ w. before (so_far w); event = on_execute hit }
      ∷ arrivals false (λ w. w) acts
  arrivals false so_far (executes before hit ∷ acts) = arrivals false (λ w. before (so_far w)) acts
  arrivals watched so_far (step_done before ∷ acts) = arrivals true (λ w. before (so_far w)) acts

  -- The calls among the acts: the instructions at the offset of the entry, but for those that are
  -- executed while the page is not watched.
  abbrev pub calls_at : (offset gfn : ℕ) (watched : Bool) → List Act → v.World → List (Visit v)
  calls_at offset gfn watched [] w = []
  calls_at offset gfn true (executes before hit ∷ acts) w =
      let w = before w in
      let rest =
        calls_at offset gfn false acts
          (v.step_event (v.clear_event w (execute_page gfn)) hit.vcpu) in
      if hit.offset == offset
      then record { world = w; vcpu = hit.vcpu; junk = hit.junk } ∷ rest
      else rest
  calls_at offset gfn false (executes before hit ∷ acts) w =
      calls_at offset gfn false acts (before w)
  calls_at offset gfn watched (step_done before ∷ acts) w = calls_at offset gfn true acts (before w)

  abbrev pub task_switches : List Cr3Write → List (Arrival v)
  task_switches [] = []
  task_switches (e ∷ es) = record { guest = λ w. w; event = on_cr3 e } ∷ task_switches es

  abbrev pub clear_all : List Cr3Write → v.World → v.World
  clear_all [] w = w
  clear_all (e ∷ es) w = clear_all es (v.clear_event w write_cr3)

  cr3_again :
      (e : Cr3Write) (s : Watch v)
      → s.mem_events_registered ≡ true
      → cr3_register_task_callback v e s ≡ record s { world = v.clear_event s.world write_cr3 }
  unfolding cr3_register_task_callback
  cr3_again e s h = ground arith

  -- Once the page is watched, further writes of CR3 only clear their event: the page is not
  -- registered a second time, and the address of the entry stands.
  pub arrive_all-task_switches :
      (es : List Cr3Write) (s : Watch v)
      → s.mem_events_registered ≡ true
      → arrive_all v (handle v) (task_switches es) s ≡ record s { world = clear_all es s.world }
  unfolding arrive_all arrive handle
  arrive_all-task_switches [] s h = refl
  arrive_all-task_switches (e ∷ es) s h =
      ap (arrive_all v (handle v) (task_switches es)) (cr3_again e s h)
      ∙ arrive_all-task_switches es (record s { world = v.clear_event s.world write_cr3 }) h
