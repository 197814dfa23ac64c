-- ===== src/MemEvent/Memory.antt =====
-- The build with MEM_EVENT writes nothing into the guest.
use xen_syscall_analysis.Base.{
  ℕ, ◌/◌, ◌^◌, ◌≡◌, refl, ◌∙◌, Bool, Bool-cases, inl, inr, Option, some, none, List, [], ◌∷◌, ◌==◌,
  All, arith,
}
use xen_syscall_analysis.Base.Int.{is_nonzero}
use xen_syscall_analysis.LibVmi.{LibVmi, MemoryLaws, write_cr3, execute_page}
use xen_syscall_analysis.Arguments.{value_or}
use xen_syscall_analysis.MemEvent.{
  Watch, Hit, Cr3Write, Event, on_cr3, on_execute, Arrival, Turn, Exit, exited, listening,
  page_offset, step_over, syscall_cb, register_lstar_mem_event, cr3_register_task_callback,
  register_mem_events, handle, arrive, arrive_all, take_signal, turn_once, turn_all, drain_pending,
  close_watch, close_exit, trace_memory,
}

abbrev pub watch_of : {v : LibVmi} → Exit v → Watch v
watch_of (exited s) = s
watch_of (listening s) = s

module _ (v : LibVmi) (m : MemoryLaws v) (x : ℕ) where
  -- The byte at `x`.
  abbrev pub byte_of : Watch v → ℕ
  byte_of s = m.byte_at s.world x

  -- The guest does not write the byte at `x` before this event.
  abbrev pub Quiet : Arrival v → Type 0
  Quiet a = (w : v.World) → m.byte_at (a.guest w) x ≡ m.byte_at w x

  pub step_over_byte : (vcpu : ℕ) (s : Watch v) → byte_of (step_over v vcpu s) ≡ byte_of s
  unfolding step_over
  step_over_byte vcpu s = m.step_keeps _ vcpu x ∙ m.clear_keeps _ _ x

  syscall_cb_byte : (h : Hit) (s : Watch v) → byte_of (syscall_cb v h s) ≡ byte_of s
  unfolding syscall_cb
  syscall_cb_byte h s = elim (Bool-cases (h.offset == page_offset s.lstar)) [
    | inl here ↦ rw here (step_over_byte h.vcpu _)
    | inr elsewhere ↦ rw elsewhere (step_over_byte h.vcpu s)
  ]

  pub register_byte :
      (e : Cr3Write) (s : Watch v) → byte_of (register_lstar_mem_event v e s).1 ≡ byte_of s
  unfolding register_lstar_mem_event
  register_byte e s =
      let phys_lstar = value_or 0 (v.pagetable_lookup s.world e.cr3 e.msr_lstar) in
      ground (arith, m.register_keeps s.world (execute_page (phys_lstar / 2 ^ 12)) x)

  cr3_byte : (e : Cr3Write) (s : Watch v) → byte_of (cr3_register_task_callback v e s) ≡ byte_of s
  unfolding cr3_register_task_callback
  cr3_byte e s = m.clear_keeps _ _ x ∙ ground (arith, register_byte e s)

  handle_byte : (e : Event) (s : Watch v) → byte_of (handle v e s) ≡ byte_of s
  unfolding handle
  handle_byte (on_cr3 e) s = cr3_byte e s
  handle_byte (on_execute h) s = syscall_cb_byte h s

-- The loop over callbacks that keep a byte.
module _ (v : LibVmi) (m : MemoryLaws v) (x : ℕ) (callbacks : Event → Watch v → Watch v)
    (callbacks_byte : (e : Event) (s : Watch v)
      → byte_of v m x (callbacks e s) ≡ byte_of v m x s) where
  pub arrive_all_byte :
      (as' : List (Arrival v)) (s : Watch v)
      → All (Quiet v m x) as'
      → byte_of v m x (arrive_all v callbacks as' s) ≡ byte_of v m x s
  unfolding arrive_all arrive
  arrive_all_byte [] s q = refl
  arrive_all_byte (a ∷ as') s q =
      arrive_all_byte as' (arrive v callbacks a s) q.1 ∙ (callbacks_byte a.event _ ∙ q.0 s.world)

  take_signal_byte :
      (sig : Option ℕ) (s : Watch v)
      → byte_of v m x (take_signal v callbacks sig s) ≡ byte_of v m x s
  unfolding take_signal
  take_signal_byte none s = refl
  take_signal_byte (some n) s = refl

  module _ (timed : Bool) (limit : ℕ) where
    turn_once_byte :
        (r : Turn v) (s : Watch v)
        → All (Quiet v m x) r.arrivals
        → byte_of v m x (turn_once v callbacks timed limit r s) ≡ byte_of v m x s
    unfolding turn_once
    turn_once_byte r s q = ground (
      arith,
      arrive_all_byte r.arrivals (take_signal v callbacks r.signal s) q,
      take_signal_byte r.signal s,
    )

    pub turn_all_byte :
        (rs : List (Turn v)) (s : Watch v)
        → All (λ r. All (Quiet v m x) r.arrivals) rs
        → byte_of v m x (watch_of (turn_all v callbacks timed limit rs s)) ≡ byte_of v m x s
    unfolding turn_all
    turn_all_byte [] s q = ground arith
    turn_all_byte (r ∷ rs) s q = elim (Bool-cases (is_nonzero s.interrupted)) [
      | inl stop ↦ rw stop refl
      | inr go ↦
          rw go
            (turn_all_byte rs (turn_once v callbacks timed limit r s) q.1 ∙ turn_once_byte r s q.0)
    ]

  pub drain_pending_byte :
      (pending : List (Arrival v)) (s : Watch v)
      → All (Quiet v m x) pending
      → byte_of v m x (drain_pending v callbacks pending s) ≡ byte_of v m x s
  unfolding drain_pending
  drain_pending_byte pending s q = elim (Bool-cases (v.are_events_pending s.world)) [
    | inl some_left ↦ rw some_left (arrive_all_byte pending s q)
    | inr none_left ↦ rw none_left refl
  ]

module _ (v : LibVmi) (m : MemoryLaws v) (x : ℕ) where
  close_byte :
      (pending : List (Arrival v)) (o : Exit v)
      → All (Quiet v m x) pending
      → byte_of v m x (watch_of (close_exit v pending o)) ≡ byte_of v m x (watch_of o)
  unfolding close_exit close_watch
  close_byte pending (exited s) q =
      m.destroy_keeps _ x
      ∙ (m.clear_keeps _ _ x
          ∙ (m.clear_keeps _ _ x
              ∙ drain_pending_byte v m x (handle v) (handle_byte v m x) pending s q))
  close_byte pending (listening s) q = refl

  -- A run of this build changes no byte that the guest leaves alone, however it ends.
  pub trace_memory_keeps :
      (timed : Bool) (limit : ℕ) (turns : List (Turn v)) (pending : List (Arrival v)) (s : Watch v)
      → All (λ r. All (Quiet v m x) r.arrivals) turns
      → All (Quiet v m x) pending
      → byte_of v m x (watch_of (trace_memory v timed limit turns pending s)) ≡ byte_of v m x s
  unfolding trace_memory register_mem_events
  trace_memory_keeps timed limit turns pending s q p =
      close_byte pending _ p ∙ (elim (Bool-cases (v.register_event s.world write_cr3).0) [
        | inl done ↦ rw done (
            turn_all_byte v m x (handle v) (handle_byte v m x) timed limit turns _ q
            ∙ m.register_keeps s.world write_cr3 x)
        | inr failed ↦ rw failed (m.register_keeps s.world write_cr3 x)
      ])
