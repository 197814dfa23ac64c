-- ===== src/Arguments/Slots.antt =====
-- Who owns the blocks that the decoding of a call allocates: the slots of `args`.
use xen_syscall_analysis.Base.{
  ℕ, suc, ◌+◌, ◌≡◌, Option, some, none, List, [], ◌∷◌, arith, length, get_elem?,
}
use xen_syscall_analysis.Base.Int.{ℤ}
use xen_syscall_analysis.Text.{Text}
use xen_syscall_analysis.LibVmi.{LibVmi}
use xen_syscall_analysis.Arguments.{
  Regs, Args, start_args, put_slot, print_regs, print_mprotect, print_open, print_execve,
  print_openat, print_write, print_call,
}

-- How many slots hold a text.
abbrev pub held : List (Option Text) → ℕ
held [] = 0
held (none ∷ slots) = held slots
held (some text ∷ slots) = suc (held slots)

-- Seven slots, the first as it was, and a block for each filled slot besides `base` others.
pub record Owns (output : Text) (base : ℕ) (a : Args) : Type 0 where
  pub seven : length a.slots ≡ 7
  pub first_kept : get_elem? a.slots 0 ≡ some (some output)
  pub accounted : a.live ≡ base + held a.slots

module _ (v : LibVmi) (w : v.World) (output : Text) (base : ℕ) (pid : ℤ) (r : Regs) where
  -- Whatever the call, it fills slots of the seven behind the first, each once.
  pub print_call-Owns :
      (syscall_id : ℕ)
      → Owns output base (print_call v w pid syscall_id r (start_args output (base + 1)))
  unfolding print_call print_regs print_mprotect print_open print_execve print_openat print_write
      put_slot start_args
  print_call-Owns syscall_id = ground arith
