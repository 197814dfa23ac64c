-- ===== src/MemEvent/Ending.antt =====
-- When the loop of the build with MEM_EVENT ends.
use xen_syscall_analysis.Base.{
  ℕ, ◌≡◌, refl, ap, ◌∙◌, inl, inr, Bool, true, not, ◌&&◌, ◌||◌, Bool-cases, Option, some, none,
  List, [], ◌∷◌, ◌++◌, ltb, arith,
}
use xen_syscall_analysis.Base.Int.{is_nonzero}
use xen_syscall_analysis.LibVmi.{LibVmi}
use xen_syscall_analysis.Tracing.Ending.{is_signal}
use xen_syscall_analysis.MemEvent.{
  Watch, Event, on_cr3, on_execute, Arrival, Turn, exited, step_over, syscall_cb,
  register_lstar_mem_event, cr3_register_task_callback, handle, arrive, arrive_all, take_signal,
  turn_once, turn_all, close_watch, close_exit, trace_memory, register_mem_events,
}

-- A signal, a failing call of the library, or a limit that is over.
abbrev pub halts : {v : LibVmi} (timed : Bool) (limit : ℕ) → Turn v → Bool
halts timed limit r = is_signal r.signal || (not r.status || (timed && ltb limit r.elapsed))

module _ (v : LibVmi) where
  handle_interrupted : (e : Event) (s : Watch v) → (handle v e s).interrupted ≡ s.interrupted
  unfolding handle syscall_cb step_over cr3_register_task_callback register_lstar_mem_event
  handle_interrupted (on_cr3 e) s = ground arith
  handle_interrupted (on_execute h) s = ground arith

  arrive_all_interrupted :
      (as' : List (Arrival v)) (s : Watch v)
      → (arrive_all v (handle v) as' s).interrupted ≡ s.interrupted
  unfolding arrive_all arrive
  arrive_all_interrupted [] s = refl
  arrive_all_interrupted (a ∷ as') s =
      arrive_all_interrupted as' (arrive v (handle v) a s) ∙ handle_interrupted a.event _

  take_signal_nonzero :
      (sig : Option ℕ) (s : Watch v)
      → is_signal sig ≡ true
      → is_nonzero (take_signal v (handle v) sig s).interrupted ≡ true
  unfolding take_signal
  take_signal_nonzero none s h = absurd (ground arith)
  take_signal_nonzero (some n) s h = h

  module _ (timed : Bool) (limit : ℕ) where
    turn_once-halts :
        (r : Turn v) (s : Watch v)
        → halts timed limit r ≡ true
        → is_nonzero (turn_once v (handle v) timed limit r s).interrupted ≡ true
    unfolding turn_once
    turn_once-halts r s h = ground (
      arith,
      arrive_all_interrupted r.arrivals (take_signal v (handle v) r.signal s),
      take_signal_nonzero r.signal s,
    )

    turn_all_halted :
        (rs : List (Turn v)) (s : Watch v)
        → is_nonzero s.interrupted ≡ true
        → turn_all v (handle v) timed limit rs s ≡ exited s
    unfolding turn_all
    turn_all_halted [] s h = rw h
    turn_all_halted (r ∷ rs) s h = rw h

    turn_all-exited :
        (earlier : List (Turn v)) (r : Turn v) (later : List (Turn v)) (s : Watch v)
        → halts timed limit r ≡ true
        → (t : Watch v) × (turn_all v (handle v) timed limit (earlier ++ r ∷ later) s ≡ exited t)
    unfolding turn_all
    turn_all-exited [] r later s h = elim (Bool-cases (is_nonzero s.interrupted)) [
      | inl halted ↦ (s, rw halted)
      | inr going ↦ (
        turn_once v (handle v) timed limit r s,
        rw going (turn_all_halted later _ (turn_once-halts r s h)),
      )
    ]
    turn_all-exited (b ∷ earlier) r later s h = elim (Bool-cases (is_nonzero s.interrupted)) [
      | inl halted ↦ (s, rw halted)
      | inr going ↦
          let (t, e) = turn_all-exited earlier r later (turn_once v (handle v) timed limit b s) h in
          (t, rw going e)
    ]

    -- A run of this build comes to its end and clears its events, if a turn has a signal, a failing
    -- call of the library or a limit that is over, whether or not the CR3 event could be registered.
    pub trace_memory-exited :
        (earlier : List (Turn v)) (r : Turn v) (later : List (Turn v))
        → (pending : List (Arrival v)) (s : Watch v) → halts timed limit r ≡ true
        → (t : Watch v) × (trace_memory v timed limit (earlier ++ r ∷ later) pending s
            ≡ exited (close_watch v pending t))
    unfolding trace_memory close_exit
    trace_memory-exited earlier r later pending s h =
        let (done, u) = register_mem_events v s in
        elim (Bool-cases done) [
          | inl registered ↦
              let (t, e) = turn_all-exited earlier r later u h in
              (t, rw registered (ap (close_exit v pending) e))
          | inr refused ↦ (u, rw refused)
        ]
