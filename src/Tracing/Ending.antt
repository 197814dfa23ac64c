-- ===== src/Tracing/Ending.antt =====
-- When the loop of a run ends.
use xen_syscall_analysis.Base.{
  ℕ, ◌≡◌, inl, inr, Bool, true, false, not, ◌&&◌, ◌||◌, Bool-cases, Option, some, none, List, [],
  ◌∷◌, ◌++◌, ltb, arith,
}
use xen_syscall_analysis.Base.Int.{is_nonzero}
use xen_syscall_analysis.LibVmi.{LibVmi}
use xen_syscall_analysis.Breakpoint.{Session, breakpoint_cb, own_breakpoint, single_step_cb}
use xen_syscall_analysis.Tracing.{
  Kind, on_int3, on_step, Delivery, Round, ended, dispatch, deliver, deliver_all, close_handler,
  listen_once, listen,
}

abbrev pub is_signal : Option ℕ → Bool
is_signal none = false
is_signal (some n) = ltb 0 n

-- A signal, a failing call of the library, or a limit that is over.
abbrev pub stops : {v : LibVmi} (timed : Bool) (limit : ℕ) → Round v → Bool
stops timed limit r = is_signal r.signal || (not r.status || (timed && ltb limit r.elapsed))

module _ (v : LibVmi) where
  dispatch_nonzero :
      (k : Kind) (s : Session v)
      → is_nonzero s.interrupted ≡ true
      → is_nonzero (dispatch v k s).interrupted ≡ true
  unfolding dispatch breakpoint_cb own_breakpoint single_step_cb
  dispatch_nonzero (on_int3 junk e) s h = ground arith
  dispatch_nonzero (on_step vcpu has_data) s h = ground arith

  deliver_all_nonzero :
      (ds : List (Delivery v)) (s : Session v)
      → is_nonzero s.interrupted ≡ true
      → is_nonzero (deliver_all v ds s).interrupted ≡ true
  unfolding deliver_all deliver
  deliver_all_nonzero [] s h = h
  deliver_all_nonzero (d ∷ ds) s h =
      deliver_all_nonzero ds _ (dispatch_nonzero d.kind (record s { world = d.guest s.world }) h)

  close_handler_nonzero :
      (sig : Option ℕ) (s : Session v)
      → is_signal sig ≡ true
      → is_nonzero (close_handler v sig s).interrupted ≡ true
  unfolding close_handler
  close_handler_nonzero none s h = absurd (ground arith)
  close_handler_nonzero (some n) s h = h

  module _ (timed : Bool) (limit : ℕ) where
    listen_once-stops :
        (r : Round v) (s : Session v)
        → stops timed limit r ≡ true
        → is_nonzero (listen_once v timed limit r s).interrupted ≡ true
    unfolding listen_once close_handler
    listen_once-stops r s h = ground (
      arith,
      deliver_all_nonzero r.deliveries (close_handler v r.signal s),
      close_handler_nonzero r.signal s,
    )

    listen_stopped :
        (rs : List (Round v)) (s : Session v)
        → is_nonzero s.interrupted ≡ true
        → listen v timed limit rs s ≡ ended s
    unfolding listen
    listen_stopped [] s h = rw h
    listen_stopped (r ∷ rs) s h = rw h

    -- A round with a signal, a failing call of the library or a limit that is over ends the loop, in
    -- that round at the latest.
    pub listen-ended :
        (before : List (Round v)) (r : Round v) (after : List (Round v)) (s : Session v)
        → stops timed limit r ≡ true
        → (t : Session v) × (listen v timed limit (before ++ r ∷ after) s ≡ ended t)
    unfolding listen
    listen-ended [] r after s h = elim (Bool-cases (is_nonzero s.interrupted)) [
      | inl stopped ↦ (s, rw stopped)
      | inr going ↦ (
        listen_once v timed limit r s,
        rw going (listen_stopped after _ (listen_once-stops r s h)),
      )
    ]
    listen-ended (b ∷ before) r after s h = elim (Bool-cases (is_nonzero s.interrupted)) [
      | inl stopped ↦ (s, rw stopped)
      | inr going ↦
          let (t, e) = listen-ended before r after (listen_once v timed limit b s) h in
          (t, rw going e)
    ]
