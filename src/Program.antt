-- ===== src/Program.antt =====
-- The whole process: `main` of src/vmi.c with the tracer that it calls, from its command line to
-- its exit. `hosts` has what the system and the library answer for a guest of a given name.
pub mod Network
pub mod Learned
pub mod Sent
pub mod Judged
use xen_syscall_analysis.Base.{Option, some, none, List}
use xen_syscall_analysis.Text.{Text}
use xen_syscall_analysis.LibVmi.{LibVmi}
use xen_syscall_analysis.Connection.{Run, ◌>>=◌, return}
use xen_syscall_analysis.StartUp.{Launch}
use xen_syscall_analysis.Options.{Opt, Action, introspect, main}
use xen_syscall_analysis.Tracing.{Delivery, Round, Host, Outcome, introspect_syscall_trace}

module _ (v : LibVmi) (hosts : Text → Host v) (rounds : List (Round v))
    (pending : List (Delivery v)) where
  -- What `main` does behind its options: only a known mode calls the tracer.
  unfoldable pub perform : Action → Run (Option (Launch v (Outcome v)))
  perform (introspect name set_mode w t) = do
    l ← introspect_syscall_trace v (hosts name) set_mode w t rounds pending
    return (some l)
  perform a = return none

  unfoldable pub run_main : List Opt → Run (Option (Launch v (Outcome v)))
  run_main opts = perform (main opts)
