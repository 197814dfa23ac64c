-- ===== src/Program/Network.antt =====
-- The calls of the network that the process makes, from its command line on.
use xen_syscall_analysis.Base.{
  ◌≡◌, refl, Bool, true, false, Option, some, none, List, [], arith, ◌==◌, if◌then◌else◌,
}
use xen_syscall_analysis.Base.Int.{ℤ}
use xen_syscall_analysis.Text.{Text, codes, text_eq}
use xen_syscall_analysis.LibVmi.{LibVmi}
use xen_syscall_analysis.Connection.{Run, ok, exited, return, ◌>>=◌}
use xen_syscall_analysis.SyscallTable.{analysis_mode}
use xen_syscall_analysis.Options.{
  Opt, Action, usage, missing_option, unsupported, introspect, choose, main,
}
use xen_syscall_analysis.Options.Last.{
  asks_help, last_arg, name_arg, mode_arg, decide_action, main-decide_action,
}
use xen_syscall_analysis.Tracing.{Delivery, Round, Host}
use xen_syscall_analysis.Tracing.Program.{introspect_syscall_trace_quiet}
use xen_syscall_analysis.Program.{perform, run_main}

abbrev name_to_analyze : (help : Bool) (name mode : Option Text) → Option Text
name_to_analyze false (some n) (some m) = if text_eq m (codes "analyze") then some n else none
name_to_analyze _ _ _ = none

-- The guest that the options want analysed: with no `-h`, that of the last `-v` if the last `-m` is
-- `analyze`.
abbrev pub analysed : List Opt → Option Text
analysed os = name_to_analyze (asks_help os) (last_arg name_arg os) (last_arg mode_arg os)

-- Whether `main` calls the tracer in analysis mode.
abbrev analyses : Action → Bool
analyses (introspect name set_mode w t) = set_mode == analysis_mode
analyses a = false

choose-analyses :
    (name m : Text) (w t : ℤ)
    → text_eq m (codes "analyze") ≡ false
    → analyses (choose name m w t) ≡ false
unfolding choose
choose-analyses name m w t e = ground arith

decide_action-analyses :
    (help : Bool) (n m w t : Option Text)
    → name_to_analyze help n m ≡ none
    → analyses (decide_action help n m w t) ≡ false
decide_action-analyses true n m w t e = refl
decide_action-analyses false none m w t e = refl
decide_action-analyses false (some n) none w t e = refl
decide_action-analyses false (some n) (some m) w t e = choose-analyses n m _ _ (ground arith)

calls_then : {A B : Type 0} (r : Run A) (f : A → B) → r.0 ≡ [] → (do a ← r; return (f a)).0 ≡ []
unfolding ◌>>=◌
calls_then (calls, ok a) f e = rw e refl
calls_then (calls, exited c) f e = e

module _ (v : LibVmi) (hosts : Text → Host v) (rounds : List (Round v))
    (pending : List (Delivery v)) where
  perform_quiet : (a : Action) → analyses a ≡ false → (perform v hosts rounds pending a).0 ≡ []
  unfolding perform
  perform_quiet usage e = refl
  perform_quiet missing_option e = refl
  perform_quiet (unsupported m) e = refl
  perform_quiet (introspect name set_mode w t) e =
      calls_then _ some
        (introspect_syscall_trace_quiet v (hosts name) w t rounds pending set_mode e)

  -- With `-h` anywhere, without a `-v`, or with a last `-m` that is not `analyze`, the process makes
  -- no call for a connection, whatever its other options, its files and its guest are.
  pub run_main_quiet :
      (os : List Opt) → analysed os ≡ none → (run_main v hosts rounds pending os).0 ≡ []
  unfolding run_main
  run_main_quiet os e =
      perform_quiet (main os) (rw (main-decide_action os) (decide_action-analyses _ _ _ _ _ e))
