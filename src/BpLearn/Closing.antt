-- ===== src/BpLearn/Closing.antt =====
-- What a run of `bp_learn` leaves behind in the guest.
use xen_syscall_analysis.Base.{
  ℕ, ◌≡◌, refl, ap, ◌∙◌, Bool, true, false, Bool-cases, inl, inr, Option, some, none, List, [], ◌∷◌,
  ◌==◌, if◌then◌else◌, All, arith,
}
use xen_syscall_analysis.Base.Int.{ℤ, is_nonzero}
use xen_syscall_analysis.Text.{Text}
use xen_syscall_analysis.LibVmi.{LibVmi, MemoryLaws}
use xen_syscall_analysis.SyscallTable.{Tables, learn_mode}
use xen_syscall_analysis.StartUp.{Opening, opened, ran, open_guest}
use xen_syscall_analysis.StartUp.Refused.{ran_opened}
use xen_syscall_analysis.Breakpoint.{
  breakpoint, new_session, no_value, vmi_success, set_lstar_breakpoint,
}
use xen_syscall_analysis.Breakpoint.Setup.{set_lstar_breakpoint-IsArmed}
use xen_syscall_analysis.Tracing.{Round, Delivery, code_of, is_timed, seconds, start_tracer}
use xen_syscall_analysis.BpLearn.{
  GetArgs, Learner, LearnEnd, learned, learning, event_set_lstar_breakpoint, learn_deliver_all,
  learn_signal, learn_once, learn_listen, close_learn, close_learned, learn_trace, bp_learn,
  new_learner,
}

abbrev pub learner_of : {v : LibVmi} → LearnEnd v → Learner v
learner_of (learned s) = s
learner_of (learning s) = s

-- Nothing is delivered in the round.
abbrev pub Idle : {v : LibVmi} → Round v → Type 0
Idle r = r.deliveries ≡ []

module _ (v : LibVmi) (m : MemoryLaws v) (get_args : GetArgs v)
    (clear_unregistered : v.World → v.World)
    (clear_keeps : (w : v.World) (x : ℕ) → m.byte_at (clear_unregistered w) x ≡ m.byte_at w x) where
  module _ (x b : ℕ) where
    -- The byte at `x`, and that the opcode of bp_learn.c was never set.
    record Stands (s : Learner v) : Type 0 where
      byte_stands : m.byte_at s.events.world x ≡ b
      unsaved : s.saved_opcode ≡ 0

    deliver_none :
        (ds : List (Delivery v)) (s : Learner v) → ds ≡ [] → learn_deliver_all v get_args ds s ≡ s
    unfolding learn_deliver_all
    deliver_none ds s e = rw e refl

    learn_signal-Stands :
        (sig : Option ℕ) (s : Learner v) → Stands s → Stands (learn_signal v get_args sig s)
    unfolding learn_signal
    learn_signal-Stands none s k = k
    learn_signal-Stands (some n) s k = record { byte_stands = k.byte_stands; unsaved = k.unsaved }

    learn_once-Stands :
        (timed : Bool) (limit : ℕ) (r : Round v) (s : Learner v)
        → Idle r
        → Stands s
        → Stands (learn_once v get_args timed limit r s)
    unfolding learn_once
    learn_once-Stands timed limit r s idle k = ground (
      arith,
      k.byte_stands,
      k.unsaved,
      deliver_none r.deliveries (learn_signal v get_args r.signal s) idle,
      learn_signal-Stands r.signal s k,
    )

    learn_listen-Stands :
        (timed : Bool) (limit : ℕ) (rs : List (Round v)) (s : Learner v)
        → All Idle rs
        → Stands s
        → Stands (learner_of (learn_listen v get_args timed limit rs s))
    unfolding learn_listen
    learn_listen-Stands timed limit [] s idle k = elim (Bool-cases (is_nonzero s.interrupted)) [
      | inl stop ↦ rw stop k
      | inr go ↦ rw go k
    ]
    learn_listen-Stands timed limit (r ∷ rs) s idle k =
        elim (Bool-cases (is_nonzero s.interrupted)) [
          | inl stop ↦ rw stop k
          | inr go ↦ rw go (
              learn_listen-Stands timed limit rs (learn_once v get_args timed limit r s) idle.1
                (learn_once-Stands timed limit r s idle.0 k))
        ]

    close_learn_byte :
        (s : Learner v)
        → Stands s
        → m.byte_at (close_learn v get_args clear_unregistered [] s).events.world x ≡ b
    unfolding close_learn learn_deliver_all
    close_learn_byte s k =
        let w0 = (v.pause_vm s.events.world).1 in
        ground (
          arith,
          k.byte_stands,
          k.unsaved,
          m.pause_keeps s.events.world x,
          clear_keeps w0 x,
          clear_keeps (clear_unregistered w0) x,
          m.resume_keeps (clear_unregistered (clear_unregistered w0)) x,
          m.destroy_keeps (v.resume_vm (clear_unregistered (clear_unregistered w0))).1 x,
        )

    close_learned_byte :
        (e : LearnEnd v)
        → Stands (learner_of e)
        → m.byte_at (learner_of (close_learned v get_args clear_unregistered [] e)).events.world x
          ≡ b
    unfolding close_learned
    close_learned_byte (learned s) k = close_learn_byte s k
    close_learned_byte (learning s) k = k.byte_stands

    learn_if-Stands :
        (ready timed : Bool) (limit : ℕ) (rs : List (Round v)) (s : Learner v)
        → All Idle rs
        → Stands s
        → Stands
            (learner_of (if ready then learn_listen v get_args timed limit rs s else learned s))
    learn_if-Stands true timed limit rs s idle k = learn_listen-Stands timed limit rs s idle k
    learn_if-Stands false timed limit rs s idle k = k

  learn_trace-breakpoint :
      (fall_off : ℕ) (timed : Bool) (limit : ℕ) (rounds : List (Round v)) (s : Learner v)
      → s.saved_opcode ≡ 0
      → (set_lstar_breakpoint v s.events).0 ≡ no_value
      → All Idle rounds
      → m.byte_at
          (learner_of (
            learn_trace v get_args clear_unregistered fall_off timed limit rounds []
              s)).events.world
          (set_lstar_breakpoint v s.events).1.lstar
        ≡ breakpoint
  unfolding learn_trace event_set_lstar_breakpoint
  learn_trace-breakpoint fall_off timed limit rounds s unsaved set idle =
      let (result, t) = set_lstar_breakpoint v s.events in
      close_learned_byte t.lstar breakpoint _ (
        learn_if-Stands t.lstar breakpoint (code_of fall_off result == vmi_success) timed limit
          rounds (record s { events = t }) idle
          (record {
            byte_stands = (set_lstar_breakpoint-IsArmed v m s.events set).1;
            unsaved = unsaved;
          }))

  -- When `bp_learn` starts and its breakpoint could be set, a run in which nothing is delivered leaves
  -- the breakpoint in the guest, however the run ends, if clearing an event that was never registered
  -- changes no byte: the opcode that bp_event.c saved is not written back.
  pub bp_learn-breakpoint :
      (o : Opening v) (w : v.World) (tables : Tables) (old_csv : Text) (fall_off : ℕ)
      → (to_float : ℕ → ℕ) (set_time : ℤ) (rounds : List (Round v)) {e : LearnEnd v}
      → open_guest v o ≡ opened w
      → let armed =
          set_lstar_breakpoint v (new_session v w (start_tracer learn_mode old_csv tables)) in
        armed.0 ≡ no_value
        → All Idle rounds
        → bp_learn v get_args clear_unregistered o tables old_csv fall_off to_float set_time rounds
            []
          ≡ ran e
        → m.byte_at (learner_of e).events.world armed.1.lstar ≡ breakpoint
  unfolding bp_learn
  bp_learn-breakpoint o w tables old_csv fall_off to_float set_time rounds {e} start set idle r =
      let fresh = λ (u : v.World). new_learner v u (start_tracer learn_mode old_csv tables) in
      let run = λ (u : v.World).
        learn_trace v get_args clear_unregistered fall_off (is_timed set_time)
          (to_float (seconds set_time)) rounds [] (fresh u) in
      let armed =
        set_lstar_breakpoint v (new_session v w (start_tracer learn_mode old_csv tables)) in
      ap (λ e. m.byte_at (learner_of e).events.world armed.1.lstar) (ran_opened v o w start run r)
      ∙ learn_trace-breakpoint fall_off (is_timed set_time) (to_float (seconds set_time)) rounds
          (fresh w) refl set idle
