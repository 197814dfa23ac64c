-- ===== src/Tracing/Whole.antt =====
-- Whole runs: setup, loop and end together leave the guest's memory as they found it.
use xen_syscall_analysis.Base.{
  ℕ, ◌≡◌, ◌≢◌, refl, ap, ◌∙◌, sym, Bool, true, Bool-cases, inl, inr, Option, none, some, List, [],
  ◌∷◌, ◌==◌, arith, All, if◌then◌else◌,
}
use xen_syscall_analysis.Base.Int.{is_nonzero}
use xen_syscall_analysis.LibVmi.{LibVmi, MemoryLaws}
use xen_syscall_analysis.Breakpoint.{Session, no_value, vmi_success, set_lstar_breakpoint}
use xen_syscall_analysis.Breakpoint.Callbacks.{byte}
use xen_syscall_analysis.Breakpoint.Setup.{IsArmed, Prepared, set_lstar_breakpoint-Prepared}
use xen_syscall_analysis.Tracing.{
  Delivery, Round, Outcome, ended, running, deliver_all, close_handler, listen_once, listen,
  close_session, close_outcome, code_of, trace,
}
use xen_syscall_analysis.Tracing.Static.{listen_once-IsArmed}
use xen_syscall_analysis.Tracing.Memory.{GuestKeeps, IsInt3, deliver_all_other}
use xen_syscall_analysis.Tracing.Restore.{close_session_other, close_session_entry}

-- The session of an outcome, if there is one, has the property.
abbrev pub Holds : {v : LibVmi} → (Session v → Type 0) → Outcome v → Type 0
Holds P (ended s) = P s
Holds P (running s) = P s

module _ (v : LibVmi) (timed : Bool) (limit : ℕ) where
  -- What every round keeps, the loop keeps.
  pub listen_inv :
      (P : Session v → Type 0) (Q : Round v → Type 0)
      → ((r : Round v) (s : Session v) → Q r → P s → P (listen_once v timed limit r s))
      → (rs : List (Round v)) (s : Session v) → All Q rs
      → P s
      → Holds P (listen v timed limit rs s)
  unfolding listen
  listen_inv P Q keep [] s q p = elim (Bool-cases (is_nonzero s.interrupted)) [
    | inl stop ↦ rw stop p
    | inr go ↦ rw go p
  ]
  listen_inv P Q keep (r ∷ rs) s q p = elim (Bool-cases (is_nonzero s.interrupted)) [
    | inl stop ↦ rw stop p
    | inr go ↦ rw go (listen_inv P Q keep rs (listen_once v timed limit r s) q.1 (keep r s q.0 p))
  ]

close_handler-IsArmed :
    {v : LibVmi} {entry opcode : ℕ} (sig : Option ℕ) (s : Session v)
    → IsArmed v entry opcode s
    → IsArmed v entry opcode (close_handler v sig s)
unfolding close_handler
close_handler-IsArmed none s i = i
close_handler-IsArmed (some n) s i = ground arith

module _ (v : LibVmi) (m : MemoryLaws v) (x : ℕ) where
  close_handler_world :
      (sig : Option ℕ) (s : Session v) → byte v m (close_handler v sig s) x ≡ byte v m s x
  unfolding close_handler
  close_handler_world none s = refl
  close_handler_world (some n) s = refl

module _ (v : LibVmi) (m : MemoryLaws v) (x : ℕ) (timed : Bool) (limit fall_off : ℕ) where
  -- The guest leaves the byte at `x` alone through all rounds.
  abbrev pub RoundKeeps : Round v → Type 0
  RoundKeeps r = All (GuestKeeps v m x) r.deliveries

  listen_once_world :
      (r : Round v) (s : Session v)
      → byte v m (listen_once v timed limit r s) x
        ≡ byte v m (deliver_all v r.deliveries (close_handler v r.signal s)) x
  unfolding listen_once
  listen_once_world r s = ground arith

  -- Behind the setup: the breakpoint is set, and other bytes have not changed.
  record Kept (entry opcode old : ℕ) (s : Session v) : Type 0 where
    is_set : IsArmed v entry opcode s
    other : x ≢ entry → byte v m s x ≡ old

  listen_once-Kept :
      {entry opcode old : ℕ} (r : Round v) (s : Session v)
      → RoundKeeps r
      → Kept entry opcode old s
      → Kept entry opcode old (listen_once v timed limit r s)
  listen_once-Kept r s keeps k = record {
    is_set = listen_once-IsArmed v timed limit r k.is_set;
    other = λ ne.
        listen_once_world r s
        ∙ deliver_all_other v m x r.deliveries (close_handler v r.signal s)
            (close_handler-IsArmed r.signal s k.is_set) ne keeps
        ∙ close_handler_world v m x r.signal s
        ∙ k.other ne;
  }

  module _ (entry opcode old : ℕ) (pending : List (Delivery v))
      (pending_keeps : All (GuestKeeps v m x) pending) where
    close_other :
        x ≢ entry
        → (o : Outcome v) → Holds (Kept entry opcode old) o
        → Holds (λ t. byte v m t x ≡ old) (close_outcome v pending o)
    unfolding close_outcome
    close_other ne (ended s) k =
        close_session_other v m x pending s k.is_set ne pending_keeps ∙ k.other ne
    close_other ne (running s) k = k.other ne

    close_entry :
        x ≡ entry
        → old ≢ 0
        → ((w : v.World) → (v.write_va w x old).0 ≡ true)
        → All (IsInt3 v m x) pending
        → opcode ≡ old
        → (o : Outcome v) (t : Session v) → Holds (Kept entry opcode old) o
        → close_outcome v pending o ≡ ended t
        → byte v m t x ≡ old
    unfolding close_outcome
    close_entry at ne writes int3s same (running s) t k e = absurd (cc)
    close_entry at ne writes int3s same (ended s) t k e =
        let i : IsArmed v x old s = ground (arith, k.is_set) in
        let final : close_session v pending s ≡ t = cc in
        ap (λ u. byte v m u x) (sym final)
        ∙ close_session_entry v m x pending s i ne writes pending_keeps int3s

  module _ (rounds : List (Round v)) (pending : List (Delivery v)) (s : Session v)
      (set : (set_lstar_breakpoint v s).0 ≡ no_value) (round_keeps : All RoundKeeps rounds)
      (pending_keeps : All (GuestKeeps v m x) pending) where
    abbrev entry : ℕ
    entry = (set_lstar_breakpoint v s).1.lstar

    start-Kept : Kept entry (byte v m s entry) (byte v m s x) (set_lstar_breakpoint v s).1
    start-Kept =
        let p : Prepared v m s (set_lstar_breakpoint v s).0 (set_lstar_breakpoint v s).1 =
          set_lstar_breakpoint-Prepared v m s in
        record { is_set = (p.success set).0; other = λ ne. p.others x ne }

    loop-Kept : Holds (Kept entry (byte v m s entry) (byte v m s x)) (
        if code_of fall_off (set_lstar_breakpoint v s).0 == vmi_success
        then listen v timed limit rounds (set_lstar_breakpoint v s).1
        else ended (set_lstar_breakpoint v s).1)
    loop-Kept = elim (Bool-cases (code_of fall_off (set_lstar_breakpoint v s).0 == vmi_success)) [
      | inl ok ↦ rw ok (
          listen_inv v timed limit (Kept entry (byte v m s entry) (byte v m s x)) RoundKeeps
            listen_once-Kept rounds (set_lstar_breakpoint v s).1 round_keeps start-Kept)
      | inr no_loop ↦ rw no_loop start-Kept
    ]

    -- When the breakpoint could be set, no byte but the one at the entry is changed by the run,
    -- however it ends.
    pub trace_other :
        x ≢ entry
        → Holds (λ t. byte v m t x ≡ byte v m s x) (trace v fall_off timed limit rounds pending s)
    unfolding trace
    trace_other ne =
        close_other entry (byte v m s entry) (byte v m s x) pending pending_keeps ne _ loop-Kept

    -- When the breakpoint could be set and the run ends, the byte at the entry is what it was: if
    -- writing it succeeds, it is not 0, and no single step is pending at the end.
    pub trace-entry :
        x ≡ entry
        → byte v m s x ≢ 0
        → ((w : v.World) → (v.write_va w x (byte v m s x)).0 ≡ true)
        → All (IsInt3 v m x) pending
        → {t : Session v} → trace v fall_off timed limit rounds pending s ≡ ended t
        → byte v m t x ≡ byte v m s x
    unfolding trace
    trace-entry at ne writes int3s {t} e =
        close_entry entry (byte v m s entry) (byte v m s x) pending pending_keeps at ne writes int3s
          (ap (byte v m s) (sym at)) _ t loop-Kept e
