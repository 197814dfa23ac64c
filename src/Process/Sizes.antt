-- ===== src/Process/Sizes.antt =====
-- When all blocks of a traced call are large enough.
use xen_syscall_analysis.Base.{
  ℕ, zero, suc, ◌+◌, ◌^◌, ◌≤◌, ◌<◌, ◌↔◌, Option, some, none, List, [], ◌∷◌, length, length-append,
  get_elem?, All, arith,
}
use xen_syscall_analysis.Base.Int.{ℤ, pos, negsuc}
use xen_syscall_analysis.Text.{Text, signed_decimal, length-decimal-le}
use xen_syscall_analysis.LibVmi.{LibVmi}
use xen_syscall_analysis.Arguments.{Regs, start_args, print_call}
use xen_syscall_analysis.Arguments.Sizes.{blocks, Fit, AreSafe, print_call_fits}
use xen_syscall_analysis.Process.{Tracer, describe, describe_known, describe_unknown}

-- The range of `int`.
abbrev pub IsInt : ℤ → Type 0
IsInt (pos n) = n < 2 ^ 31
IsInt (negsuc n) = n < 2 ^ 31

length-signed_decimal-le : (pid : ℤ) → IsInt pid → length (signed_decimal pid) ≤ 11
unfolding signed_decimal
length-signed_decimal-le (pos n) h = omega (arith, length-decimal-le 9 n (omega arith))
length-signed_decimal-le (negsuc n) h = omega (arith, length-decimal-le 9 (suc n) (omega arith))

-- A name that `output` has room for.
abbrev pub IsShort : Option Text → Type 0
IsShort none = Unit
IsShort (some name) = length name ≤ 71

describe_fits :
    (pid : ℤ) (index : ℕ) (name : Option Text) (s : Tracer)
    → IsInt pid
    → index < 2 ^ 16
    → IsShort name
    → length (describe pid index name s).0 + 1 ≤ 100
unfolding describe describe_known describe_unknown
describe_fits pid index none s p i h = omega (
  arith,
  length-append {0},
  length-signed_decimal-le pid p,
  length-decimal-le 4 index (omega arith),
)
describe_fits pid index (some name) s p i h =
    omega (arith, length-append {0}, length-signed_decimal-le pid p)

All-IsShort :
    (names : List Text) (index : ℕ)
    → All (λ name. length name ≤ 71) names
    → IsShort (get_elem? names index)
All-IsShort [] index h = tt
All-IsShort (name ∷ names) zero h = h.0
All-IsShort (name ∷ names) (suc index) h = All-IsShort names index h.1

-- A traced call with a process number in the range of `int` and a number of 16 bits, where no name of
-- the table is longer than 71 bytes: its texts fit their blocks exactly when its open flags leave
-- out at least ten bytes of names, for open and openat, or its address has at most 15 hexadecimal
-- digits, for mprotect; those of any other call always fit.
pub describe-print_call_fits :
    (v : LibVmi) (w : v.World) (pid : ℤ) (r : Regs) (live index : ℕ) (s : Tracer)
    → IsInt pid
    → index < 2 ^ 16
    → All (λ name. length name ≤ 71) s.tables.sys_index
    → let output = (describe pid index (get_elem? s.tables.sys_index index) s).0 in
      Fit (blocks index) (print_call v w pid index r (start_args output live)).slots
      ↔ AreSafe index r
describe-print_call_fits v w pid r live index s p i h =
    let name = get_elem? s.tables.sys_index index in
    print_call_fits v w pid r live (describe pid index name s).0
      (describe_fits pid index name s p i (All-IsShort s.tables.sys_index index h)) index
