-- ===== src/StartUp.antt =====
-- The start of a tracer, from `vmi_get_access_mode` to `vmi_init_os`: the same code in
-- src/syscall-trace.c, src/bp_learn.c, src/mem_learn.c and src/mem_analyze.c. With it, the
-- connection to the server that two of them open before and close at their end.
pub mod Refused
use xen_syscall_analysis.Base.{
  ℕ, Bool, true, false, not, Option, some, none, [], ◌∷◌, if◌then◌else◌,
}
use xen_syscall_analysis.LibVmi.{LibVmi}
use xen_syscall_analysis.Connection.{
  Call, close, Answers, Result, ok, exited, Run, ◌>>=◌, ◌>>◌, return, connect_server,
}

-- Whether the calls succeed, and the world that `vmi_init` gives.
pub record Opening (v : LibVmi) : Type 0 where
  pub access_mode : Bool
  pub init : Option v.World
  pub paging : Bool
  pub os : Bool

-- `left` is the world behind `vmi_destroy`, if there was an instance to destroy.
pub data Opened (v : LibVmi) : Type 0 where
  refused : (left : Option v.World) → Opened v
  opened : v.World → Opened v

-- How a tracer ends: in a crash of the reading of its tables, with code 1 from the start, or as
-- its run does.
pub data Launch (v : LibVmi) (E : Type 0) : Type 0 where
  crashed : Launch v E
  not_started : (left : Option v.World) → Launch v E
  ran : E → Launch v E

module _ (v : LibVmi) where
  open_instance : Opening v → Option v.World → Opened v
  open_instance o none = refused none
  open_instance o (some w) =
      if not o.paging
      then refused (some (v.destroy w))
      else if not o.os
      then refused (some (v.destroy w))
      else opened w

  unfoldable pub open_guest : Opening v → Opened v
  unfolding open_instance
  open_guest o = if not o.access_mode then refused none else open_instance o o.init

  unfoldable pub launch : {E : Type 0} → (v.World → E) → Opened v → Launch v E
  launch run (refused left) = not_started left
  launch run (opened w) = ran (run w)

-- `connect_server(&cs)`, where the program does it.
unfoldable pub connect_if : Bool → Answers → Run (Option ℕ)
connect_if true n = do fd ← connect_server n; return (some fd)
connect_if false n = return none

-- `close(cs)`, which only a tracer comes to whose loop has ended.
unfoldable pub close_if : (at_end : Bool) → Option ℕ → Run (Unit {0})
close_if true (some fd) = (close fd ∷ [], ok tt)
close_if true none = return tt
close_if false fd = return tt

-- The result of a program, with the connection around it.
unfoldable pub with_connection :
    {A : Type 0} (connects : Bool) → Answers → (at_end : Bool) → A → Run A
with_connection connects n at_end l = do fd ← connect_if connects n; close_if at_end fd; return l
