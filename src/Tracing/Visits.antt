-- ===== src/Tracing/Visits.antt =====
-- The calls that a run traces are those of Calls, in their order.
use xen_syscall_analysis.Base.{
  ℕ, ◌+◌, ◌%◌, ◌^◌, ◌≡◌, inl, inr, refl, ap, sym, ◌∙◌, Bool, true, false, Option, some, none, List,
  [], ◌∷◌, ◌++◌, append_assoc, append-nil, length, length-append, arith, ◌==◌, Bool-cases,
}
use xen_syscall_analysis.Base.Int.{is_nonzero}
use xen_syscall_analysis.LibVmi.{LibVmi}
use xen_syscall_analysis.Process.{Tracer, process_syscall}
use xen_syscall_analysis.Process.Frames.{Visit, process_all}
use xen_syscall_analysis.Breakpoint.{
  Session, new_session, breakpoint_cb, own_breakpoint, single_step_cb, set_lstar_breakpoint,
  pause_and_insert, insert_breakpoint, register_breakpoint, vmi_success,
}
use xen_syscall_analysis.Tracing.{
  Kind, on_int3, on_step, Delivery, Round, Outcome, ended, running, dispatch, deliver, deliver_all,
  close_handler, listen_once, listen, restore_opcode, drain, unregister, close_session,
  close_outcome, code_of, trace,
}
use xen_syscall_analysis.Tracing.Calls.{
  call_of, calls_in, calls_of_rounds, calls_of_end, calls_of_run,
}
use xen_syscall_analysis.Tracing.Whole.{Holds}
use mathlib.Core.Path.{subst}

-- Behind these visits the tracer `t` has become that of the session, and the counter counts them.
pub record Follows (v : LibVmi) (t : Tracer) (cs : List (Visit v)) (s : Session v) : Type 0 where
  pub tracer : s.tracer ≡ process_all v cs t
  pub counted : s.cb_data.hit_count ≡ length cs % 2 ^ 64

module _ (v : LibVmi) (t : Tracer) (entry : ℕ) where
  -- The session knows where its breakpoint is.
  unfoldable pub Traced : List (Visit v) → Session v → Type 0
  Traced cs s = Follows v t cs s × (s.cb_data.sym_vaddr ≡ entry)

  process_all-append :
      (cs ds : List (Visit v)) (u : Tracer)
      → process_all v (cs ++ ds) u ≡ process_all v ds (process_all v cs u)
  unfolding process_all
  process_all-append [] ds u = refl
  process_all-append (b ∷ cs) ds u =
      process_all-append cs ds (process_syscall v b.world b.vcpu b.junk u)

  with_more : {cs ds : List (Visit v)} (s : Session v) → cs ≡ ds → Traced cs s → Traced ds s
  with_more s e h = subst (λ xs. Traced xs s) e h

  -- A session with the same tracer, count and entry.
  moved :
      (cs : List (Visit v)) (s u : Session v)
      → Traced cs s
      → u.tracer ≡ s.tracer
      → u.cb_data.hit_count ≡ s.cb_data.hit_count
      → u.cb_data.sym_vaddr ≡ s.cb_data.sym_vaddr
      → Traced cs u
  unfolding Traced
  moved cs s u (f, at) same hits there =
      (record { tracer = same ∙ f.tracer; counted = hits ∙ f.counted }, there ∙ at)

  add_call :
      (cs : List (Visit v)) (c : Visit v) (s u : Session v)
      → Traced cs s
      → u.tracer ≡ process_syscall v c.world c.vcpu c.junk s.tracer
      → u.cb_data.hit_count ≡ (s.cb_data.hit_count + 1) % 2 ^ 64
      → u.cb_data.sym_vaddr ≡ s.cb_data.sym_vaddr
      → Traced (cs ++ c ∷ []) u
  unfolding Traced process_all
  add_call cs c s u (f, at) same hits there = (
    record {
      tracer =
          same
          ∙ ap (process_syscall v c.world c.vcpu c.junk) f.tracer
          ∙ sym (process_all-append cs (c ∷ []) t);
      counted = omega (arith, hits, f.counted, length-append {0} cs (c ∷ []));
    },
    there ∙ at,
  )

  dispatch-Traced :
      (k : Kind) (cs : List (Visit v)) (s : Session v)
      → Traced cs s
      → Traced (cs ++ call_of v entry s.world k) (dispatch v k s)
  unfolding dispatch single_step_cb breakpoint_cb own_breakpoint Traced
  dispatch-Traced (on_int3 junk e) cs s h =
      let u = dispatch v (on_int3 junk e) s in
      let c : Visit v = record { world = s.world; vcpu = e.vcpu; junk = junk } in
      let found = call_of v entry s.world (on_int3 junk e) in
      let none_found : found ≡ [] → Traced cs u → Traced (cs ++ found) u =
        λ no k. with_more u (sym (ap (λ xs. cs ++ xs) no ∙ append-nil cs)) k in
      elim (Bool-cases e.has_data) [
        | inl has ↦ elim (Bool-cases (e.rip == s.cb_data.sym_vaddr)) [
          | inl own ↦
              let there : (e.rip == entry) ≡ true = ap (λ n. e.rip == n) (sym h.1) ∙ own in
              let one : found ≡ c ∷ [] = rw (has, there) refl in
              with_more u (ap (λ xs. cs ++ xs) (sym one))
                (add_call cs c s u h (ground arith) (ground arith) (ground arith))
          | inr other ↦
              let away : (e.rip == entry) ≡ false = ap (λ n. e.rip == n) (sym h.1) ∙ other in
              none_found (rw (has, away) refl)
                (moved cs s u h (ground arith) (ground arith) (ground arith))
        ]
        | inr missing ↦
            none_found (rw missing refl)
              (moved cs s u h (ground arith) (ground arith) (ground arith))
      ]
  dispatch-Traced (on_step vcpu has_data) cs s h =
      let u = dispatch v (on_step vcpu has_data) s in
      with_more u (sym (append-nil cs))
        (moved cs s u h (ground arith) (ground arith) (ground arith))

  deliver_all-Traced :
      (ds : List (Delivery v)) (cs : List (Visit v)) (s : Session v)
      → Traced cs s
      → Traced (cs ++ calls_in v entry ds s) (deliver_all v ds s)
  unfolding deliver_all calls_in deliver
  deliver_all-Traced [] cs s h = with_more s (sym (append-nil cs)) h
  deliver_all-Traced (d ∷ ds) cs s h =
      let here = call_of v entry (d.guest s.world) d.kind in
      with_more (deliver_all v (d ∷ ds) s)
        (append_assoc cs here (calls_in v entry ds (deliver v d s)))
        (deliver_all-Traced ds (cs ++ here) (deliver v d s) (
          dispatch-Traced d.kind cs (record s { world = d.guest s.world })
            (moved cs s (record s { world = d.guest s.world }) h refl refl refl)))

  close_handler-Traced :
      (sig : Option ℕ) (cs : List (Visit v)) (s : Session v)
      → Traced cs s
      → Traced cs (close_handler v sig s)
  unfolding close_handler Traced
  close_handler-Traced none cs s h = h
  close_handler-Traced (some n) cs s h = moved cs s _ h refl refl refl

  listen_once-Traced :
      (timed : Bool) (limit : ℕ) (r : Round v) (cs : List (Visit v)) (s : Session v)
      → Traced cs s
      → Traced
          (cs ++ calls_in v entry r.deliveries (close_handler v r.signal s))
          (listen_once v timed limit r s)
  unfolding listen_once
  listen_once-Traced timed limit r cs s h =
      let u = deliver_all v r.deliveries (close_handler v r.signal s) in
      moved _ u (listen_once v timed limit r s)
        (deliver_all-Traced r.deliveries cs _ (close_handler-Traced r.signal cs s h)) (ground arith)
        (ground arith) (ground arith)

  listen-Traced :
      (timed : Bool) (limit : ℕ) (rounds : List (Round v)) (cs : List (Visit v)) (s : Session v)
      → Traced cs s
      → Holds
          (Traced (cs ++ calls_of_rounds v entry timed limit rounds s))
          (listen v timed limit rounds s)
  unfolding listen calls_of_rounds
  listen-Traced timed limit [] cs s h =
      let k = with_more s (sym (append-nil cs)) h in
      elim (Bool-cases (is_nonzero s.interrupted)) [ inl stop ↦ rw stop k | inr go ↦ rw go k ]
  listen-Traced timed limit (r ∷ rs) cs s h = elim (Bool-cases (is_nonzero s.interrupted)) [
    | inl stop ↦ rw stop (with_more s (sym (append-nil cs)) h)
    | inr go ↦
        let here = calls_in v entry r.deliveries (close_handler v r.signal s) in
        let u = listen_once v timed limit r s in
        rw go (
          subst (λ xs. Holds (Traced xs) (listen v timed limit rs u))
            (append_assoc cs here (calls_of_rounds v entry timed limit rs u))
            (listen-Traced timed limit rs (cs ++ here) u (listen_once-Traced timed limit r cs s h)))
  ]

  close_outcome-Traced :
      (pending : List (Delivery v)) (o : Outcome v) (cs : List (Visit v))
      → Holds (Traced cs) o
      → Holds (Traced (cs ++ calls_of_end v entry pending o)) (close_outcome v pending o)
  unfolding close_outcome close_session unregister drain calls_of_end restore_opcode
  close_outcome-Traced pending (ended s) cs h =
      let u = restore_opcode v s in
      let k : Traced cs u = moved cs s u h (ground arith) (ground arith) (ground arith) in
      elim (Bool-cases (v.are_events_pending u.world)) [
        | inl more ↦ rw more (
            moved _ (deliver_all v pending u) (unregister v (deliver_all v pending u))
              (deliver_all-Traced pending cs u k) refl refl refl)
        | inr no_more ↦
            rw no_more
              (moved _ u (unregister v u) (with_more u (sym (append-nil cs)) k) refl refl refl)
      ]
  close_outcome-Traced pending (running s) cs h = with_more s (sym (append-nil cs)) h

Holds-Follows :
    (v : LibVmi) (t : Tracer) (entry : ℕ) (cs : List (Visit v)) (o : Outcome v)
    → Holds (Traced v t entry cs) o
    → Holds (Follows v t cs) o
unfolding Traced
Holds-Follows v t entry cs (ended s) h = h.0
Holds-Follows v t entry cs (running s) h = h.0

set_lstar_breakpoint-Traced :
    (v : LibVmi) (t : Tracer) (w : v.World)
    → let u = (set_lstar_breakpoint v (new_session v w t)).1 in Traced v t u.cb_data.sym_vaddr [] u
unfolding set_lstar_breakpoint pause_and_insert insert_breakpoint register_breakpoint process_all
    Traced
set_lstar_breakpoint-Traced v t w = (record { tracer = ground arith; counted = ground arith }, refl)

-- However a run goes, its tracer is the first one behind `process_syscall` for the calls that it
-- gets to see, and its counter has the number of them.
pub trace-Follows :
    (v : LibVmi) (t : Tracer) (fall_off : ℕ) (timed : Bool) (limit : ℕ) (rounds : List (Round v))
    → (pending : List (Delivery v)) (w : v.World)
    → let s = new_session v w t in
      Holds
        (Follows v t (calls_of_run v fall_off timed limit rounds pending s))
        (trace v fall_off timed limit rounds pending s)
unfolding trace calls_of_run
trace-Follows v t fall_off timed limit rounds pending w =
    let (result, u) = set_lstar_breakpoint v (new_session v w t) in
    let entry = u.cb_data.sym_vaddr in
    let start : Traced v t entry [] u = set_lstar_breakpoint-Traced v t w in
    elim (Bool-cases (code_of fall_off result == vmi_success)) [
      | inl go ↦ rw go (
          Holds-Follows v t entry _ _ (
            close_outcome-Traced v t entry pending (listen v timed limit rounds u)
              (calls_of_rounds v entry timed limit rounds u)
              (listen-Traced v t entry timed limit rounds [] u start)))
      | inr no_loop ↦
          rw no_loop (
            Holds-Follows v t entry _ _ (close_outcome-Traced v t entry pending (ended u) [] start))
    ]
