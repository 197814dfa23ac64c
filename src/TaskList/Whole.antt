-- ===== src/TaskList/Whole.antt =====
-- A list of processes that leads back to its head is printed whole.
use xen_syscall_analysis.Base.{
  ℕ, zero, suc, ◌<◌, ◌≡◌, refl, ap, ◌∙◌, true, false, Option, some, none, List, [], ◌∷◌, ◌++◌, ◌==◌,
  arith, ==_iff, ◌⊎◌, length, append_assoc, append-nil,
}
use mathlib.Core.Path.{subst}
use xen_syscall_analysis.Base.Int.{pos}
use xen_syscall_analysis.Text.{Text, codes}
use xen_syscall_analysis.LibVmi.{LibVmi}
use xen_syscall_analysis.Breakpoint.{returned, no_value, vmi_failure}
use xen_syscall_analysis.TaskList.{
  Offsets, add_addr, sub_addr, task_line, print_name, follow, walk, around, with_offsets,
  print_task_struct,
}

-- One process of the list: where its entry stands, and what it says.
pub record Task : Type 0 where
  pub entry : ℕ
  pub next : ℕ
  pub pid : ℕ
  pub name : Text

abbrev pub line : Offsets → Task → Text
line o t = task_line t.pid t.name (sub_addr t.entry o.tasks)

abbrev pub lines : Offsets → List Task → Text
lines o [] = []
lines o (t ∷ ts) = line o t ++ lines o ts

module _ (v : LibVmi) (w : v.World) (o : Offsets) (head : ℕ) where
  -- The fields of the process as the guest's memory has them.
  pub record Shows (t : Task) : Type 0 where
    pub has_next : v.read_addr_va w t.entry ≡ some t.next
    pub has_pid : v.read_32_va w (add_addr (sub_addr t.entry o.tasks) o.pid) ≡ some t.pid
    pub has_name :
        v.read_str_va w (add_addr (sub_addr t.entry o.tasks) o.name) (pos 0) ≡ some t.name

  -- The entries from `next` on lead to the head, and none is the head.
  abbrev pub Linked : (next : ℕ) → List Task → Type 0
  Linked next [] = next ≡ head
  Linked next (t ∷ ts) = (next ≡ t.entry) × ((t.entry == head) ≡ false) × Shows t × Linked t.next ts

  module _ (first : ℕ) (closed : v.read_addr_va w head ≡ some first) where
    walk-lines :
        (fuel : ℕ) (t : Task) (ts : List Task) (pid : ℕ) (printed : Text)
        → length ts < fuel
        → Shows t
        → Linked t.next ts
        → walk v w o head fuel t.entry t.next pid printed ≡ around (printed ++ lines o (t ∷ ts))
    unfolding walk print_name follow
    walk-lines zero t ts pid printed enough s l = elim enough [ ]
    walk-lines (suc fuel) t [] pid printed enough s l =
        rw (s.has_name, s.has_pid, l, closed, (==_iff head head).1 refl) (rw append-nil refl)
    walk-lines (suc fuel) t (u ∷ us) pid printed enough s (e, ne, s', l) =
        rw (s.has_name, s.has_pid, e, s'.has_next, ne)
          (walk-lines fuel u us t.pid (printed ++ line o t) (omega arith) s' l
            ∙ ap around (append_assoc printed (line o t) (lines o (u ∷ us))))

module _ (v : LibVmi) where
  -- When the offsets and `init_task` are known, the pause works and the entries of the paused guest
  -- lead back to the one of `init_task`, one round of fuel for each entry is enough: each process is
  -- printed once and in order, and the guest runs again.
  pub print_task_struct-tasks :
      (fuel : ℕ) (w : v.World) (o : Offsets) (symbol : ℕ) (t : Task) (ts : List Task)
      → v.get_offset w (codes "linux_tasks") ≡ some o.tasks
      → v.get_offset w (codes "linux_name") ≡ some o.name
      → v.get_offset w (codes "linux_pid") ≡ some o.pid
      → (v.pause_vm w).0 ≡ true
      → v.translate_ksym2v (v.pause_vm w).1 (codes "init_task") ≡ some symbol
      → t.entry ≡ add_addr symbol o.tasks
      → Shows v (v.pause_vm w).1 o (add_addr symbol o.tasks) t
      → Linked v (v.pause_vm w).1 o (add_addr symbol o.tasks) t.next ts
      → length ts < fuel
      → print_task_struct v fuel w
        ≡ some (no_value, lines o (t ∷ ts), (v.resume_vm (v.pause_vm w).1).1)
  unfolding print_task_struct with_offsets
  print_task_struct-tasks fuel w o symbol t ts tasks name pid paused init at s l enough =
      let closed : v.read_addr_va (v.pause_vm w).1 (add_addr symbol o.tasks) ≡ some t.next =
        rw at at s.has_next in
      let walked : walk v (v.pause_vm w).1 o (add_addr symbol o.tasks) fuel
            (add_addr symbol o.tasks) t.next 0 []
          ≡ around (lines o (t ∷ ts)) =
        subst
          (λ x.
            walk v (v.pause_vm w).1 o (add_addr symbol o.tasks) fuel x t.next 0 []
            ≡ around (lines o (t ∷ ts)))
          at
          (walk-lines v (v.pause_vm w).1 o (add_addr symbol o.tasks) t.next closed fuel t ts 0 []
            enough s l) in
      rw (tasks, name, pid, paused, init, closed, walked) refl

  paused_lem :
      (fuel : ℕ) (w w' : v.World) (printed : Text) (a b c : Option ℕ)
      → with_offsets v fuel w a b c ≡ some (returned vmi_failure, printed, w')
      → (w' ≡ w) ⊎ (w' ≡ (v.pause_vm w).1)
  unfolding with_offsets
  paused_lem fuel w w' printed (some a) (some b) (some c) e = ground arith
  paused_lem fuel w w' printed (some a) (some b) none e = ground arith
  paused_lem fuel w w' printed (some a) none c e = ground arith
  paused_lem fuel w w' printed none b c e = ground arith

  -- A call that fails leaves the world as it was or as the pause left it: it never lets a paused
  -- guest run again.
  pub print_task_struct_paused :
      (fuel : ℕ) (w w' : v.World) (printed : Text)
      → print_task_struct v fuel w ≡ some (returned vmi_failure, printed, w')
      → (w' ≡ w) ⊎ (w' ≡ (v.pause_vm w).1)
  unfolding print_task_struct
  print_task_struct_paused fuel w w' printed e =
      paused_lem fuel w w' printed (v.get_offset w (codes "linux_tasks"))
        (v.get_offset w (codes "linux_name")) (v.get_offset w (codes "linux_pid")) e
