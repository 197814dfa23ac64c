-- ===== src/Tracing/Static.antt =====
-- What no delivery and no round changes: the entry, the saved byte and what the callbacks know of
-- them.
use xen_syscall_analysis.Base.{ℕ, Bool, List, [], ◌∷◌, arith}
use xen_syscall_analysis.LibVmi.{LibVmi}
use xen_syscall_analysis.Breakpoint.{Session, breakpoint_cb, own_breakpoint, single_step_cb}
use xen_syscall_analysis.Breakpoint.Setup.{IsArmed}
use xen_syscall_analysis.Tracing.{
  Kind, on_int3, on_step, Delivery, Round, dispatch, deliver, deliver_all, close_handler,
  listen_once,
}

module _ (v : LibVmi) {entry opcode : ℕ} where
  dispatch-IsArmed :
      (k : Kind) {s : Session v}
      → IsArmed v entry opcode s
      → IsArmed v entry opcode (dispatch v k s)
  unfolding dispatch breakpoint_cb own_breakpoint single_step_cb
  dispatch-IsArmed (on_int3 junk e) i = ground arith
  dispatch-IsArmed (on_step vcpu has_data) i = ground arith

  pub deliver-IsArmed :
      (d : Delivery v) {s : Session v}
      → IsArmed v entry opcode s
      → IsArmed v entry opcode (deliver v d s)
  unfolding deliver
  deliver-IsArmed d {s} i =
      dispatch-IsArmed d.kind {s = record s { world = d.guest s.world }} (ground arith)

  pub deliver_all-IsArmed :
      (ds : List (Delivery v)) {s : Session v}
      → IsArmed v entry opcode s
      → IsArmed v entry opcode (deliver_all v ds s)
  unfolding deliver_all
  deliver_all-IsArmed [] i = i
  deliver_all-IsArmed (d ∷ ds) i = deliver_all-IsArmed ds (deliver-IsArmed d i)

  pub listen_once-IsArmed :
      (timed : Bool) (limit : ℕ) (r : Round v) {s : Session v}
      → IsArmed v entry opcode s
      → IsArmed v entry opcode (listen_once v timed limit r s)
  unfolding listen_once close_handler
  listen_once-IsArmed timed limit r {s} i =
      let j : IsArmed v entry opcode (close_handler v r.signal s) = ground arith in
      ground (arith, deliver_all-IsArmed r.deliveries j)
