-- ===== src/OffsetFinders/Layout.antt =====
-- What is printed depends on the layout only.
use xen_syscall_analysis.Base.{ℕ, ◌%◌, ◌^◌, ◌<◌, ◌≡◌, refl, some, [], ◌∷◌, ◌++◌, concat, arith}
use xen_syscall_analysis.Text.{Text, codes, hex}
use xen_syscall_analysis.TaskList.{add_addr, sub_addr}
use xen_syscall_analysis.OffsetFinders.{
  loaded, offset_line, semicolon, task_struct_name, TaskStruct, find_task_struct,
}

sub_addr-add_addr :
    (p field : ℕ) → p < 2 ^ 64 → field < 2 ^ 32 → sub_addr (add_addr p field) p ≡ field
unfolding sub_addr add_addr
sub_addr-add_addr p field h k = omega arith

-- The line of a field below 2 ^ 32.
abbrev pub plain_line : (label : Text) (field : ℕ) → Text
plain_line label field = label ++ (codes " = 0x" ++ (hex field ++ semicolon))

offset_line_lem :
    (label : Text) (p field : ℕ)
    → p < 2 ^ 64
    → field < 2 ^ 32
    → offset_line label semicolon (add_addr p field) p ≡ plain_line label field
unfolding offset_line
offset_line_lem label p field h k = rw (sub_addr-add_addr p field h k, small field k) refl
  where
    small : (n : ℕ) → n < 2 ^ 32 → n % 2 ^ 32 ≡ n
    small n h = omega arith

-- Wherever the process and its `mm` stand, the offsets of the layout are printed, if they are below
-- 2 ^ 32.
pub find_task_struct-plain_line :
    (l : TaskStruct) (p mm : ℕ)
    → p < 2 ^ 64
    → mm < 2 ^ 64
    → l.comm < 2 ^ 32
    → l.tasks < 2 ^ 32
    → l.mm < 2 ^ 32
    → l.pid < 2 ^ 32
    → l.pgd < 2 ^ 32
    → find_task_struct l (some p) mm
      ≡ concat (
          loaded task_struct_name
          ∷ plain_line (codes "linux_name") l.comm
          ∷ plain_line (codes "linux_tasks") l.tasks
          ∷ plain_line (codes "linux_mm") l.mm
          ∷ plain_line (codes "linux_pid") l.pid
          ∷ plain_line (codes "linux_pgd") l.pgd
          ∷ [])
unfolding find_task_struct
find_task_struct-plain_line l p mm h k c t m i g =
    rw
      (
        offset_line_lem (codes "linux_name") p l.comm h c,
        offset_line_lem (codes "linux_tasks") p l.tasks h t,
        offset_line_lem (codes "linux_mm") p l.mm h m,
        offset_line_lem (codes "linux_pid") p l.pid h i,
        offset_line_lem (codes "linux_pgd") mm l.pgd k g,
      )
      refl
