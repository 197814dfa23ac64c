-- ===== src/TaskList.antt =====
-- The list of the guest's processes: `print_task_struct` of src/client.h. LibVMI gives the offsets of
-- the fields of `task_struct`; the list itself is read from the memory of the guest.
pub mod Whole
use xen_syscall_analysis.Base.{
  ℕ, zero, suc, ◌+◌, ◌-◌, ◌%◌, ◌^◌, Bool, not, Option, some, none, [], ◌∷◌, ◌++◌, ltb, ◌==◌,
  if◌then◌else◌, length,
}
use xen_syscall_analysis.Base.Int.{ℤ, pos, negsuc}
use xen_syscall_analysis.Text.{Text, codes, hex, signed_decimal}
use xen_syscall_analysis.LibVmi.{LibVmi}
use xen_syscall_analysis.Arguments.{value_or}
use xen_syscall_analysis.Breakpoint.{Returned, returned, no_value, vmi_failure}

-- `addr_t` has 64 bits.
unfoldable pub add_addr : (a b : ℕ) → ℕ
add_addr a b = (a + b) % 2 ^ 64

unfoldable pub sub_addr : (a b : ℕ) → ℕ
sub_addr a b = (a + (2 ^ 64 - b % 2 ^ 64)) % 2 ^ 64

pub record Offsets : Type 0 where
  pub tasks : ℕ
  pub name : ℕ
  pub pid : ℕ

-- The 32 bits read for `pid`, as a `vmi_pid_t`.
unfoldable pub to_pid : ℕ → ℤ
to_pid n = if ltb n (2 ^ 31) then pos n else negsuc (2 ^ 32 - suc n)

spaces : ℕ → Text
spaces zero = []
spaces (suc n) = b' ' ∷ spaces n

-- `%5d`.
unfoldable pub padded : ℤ → Text
unfolding spaces
padded n = let t = signed_decimal n in spaces (5 - length t) ++ t

unfoldable pub task_line : (pid : ℕ) (name : Text) (task : ℕ) → Text
task_line pid name task =
    codes "["
    ++ (padded (to_pid pid)
        ++ (codes "] " ++ (name ++ (codes " (struct addr:" ++ (hex task ++ codes ")\n")))))

unfoldable pub next_failed : (entry : ℕ) → Text
next_failed entry = codes "Failed to read next pointer in loop at " ++ (hex entry ++ codes "\n")

-- How the loop ends, with what it printed: the fuel is used up, a read failed, or the head of the
-- list came up again.
pub data Walk : Type 0 where
  out_of_fuel : Walk
  stopped around : (printed : Text) → Walk

-- The name of an entry, printed by `line`; `rest` goes on.
unfoldable pub print_name :
    (line : Text → Text) (printed : Text) → (rest : Text → Walk) → Option Text → Walk
print_name line printed rest none = stopped (printed ++ codes "Failed to find procname\n")
print_name line printed rest (some name) = rest (printed ++ line name)

-- The pointer behind `next`, and the test for the head; `rest` is the next round.
unfoldable pub follow :
    (at_head : Bool) (next : ℕ) (printed : Text) → (rest : ℕ → Walk) → Option ℕ → Walk
follow at_head next printed rest none = stopped (printed ++ next_failed next)
follow at_head next printed rest (some following) =
    if at_head then around printed else rest following

module _ (v : LibVmi) (w : v.World) (o : Offsets) (head : ℕ) where
  -- The loop; a process id that cannot be read leaves `pid` as the entry before set it.
  unfoldable pub walk : (fuel cur next pid : ℕ) (printed : Text) → Walk
  walk zero cur next pid printed = out_of_fuel
  walk (suc fuel) cur next pid printed =
      let task = sub_addr cur o.tasks in
      let pid = value_or pid (v.read_32_va w (add_addr task o.pid)) in
      print_name (λ name. task_line pid name task) printed
        (λ printed.
          follow (next == head) next printed (λ following. walk fuel next following pid printed)
            (v.read_addr_va w next))
        (v.read_str_va w (add_addr task o.name) (pos 0))

-- What a call returns, what it printed, and the world behind it; `none` if the fuel is used up.
abbrev pub Answer : LibVmi → Type 0
Answer v = Option (Returned × Text × v.World)

module _ (v : LibVmi) where
  finish : v.World → Walk → Answer v
  finish w out_of_fuel = none
  finish w (stopped printed) = some (returned vmi_failure, printed, w)
  finish w (around printed) = some (no_value, printed, (v.resume_vm w).1)

  -- The first entry's pointer is read before the loop.
  start : (fuel : ℕ) → v.World → Offsets → (head : ℕ) → Option ℕ → Answer v
  unfolding finish
  start fuel w o head none =
      some (
        returned vmi_failure,
        codes "Failed to read next pointer at " ++ (hex head ++ codes "\n"),
        w,
      )
  start fuel w o head (some next) = finish w (walk v w o head fuel head next 0 [])

  from_symbol : (fuel : ℕ) → v.World → Offsets → Option ℕ → Answer v
  unfolding start
  from_symbol fuel w o none = some (returned vmi_failure, [], w)
  from_symbol fuel w o (some symbol) =
      let head = add_addr symbol o.tasks in start fuel w o head (v.read_addr_va w head)

  unfoldable pub with_offsets : (fuel : ℕ) → v.World → Option ℕ → Option ℕ → Option ℕ → Answer v
  unfolding from_symbol
  with_offsets fuel w (some tasks) (some name) (some pid) =
      let (done, w') = v.pause_vm w in
      if not done
      then some (returned vmi_failure, codes "Failed to pause VM\n", w')
      else from_symbol fuel w' (record { tasks = tasks; name = name; pid = pid })
          (v.translate_ksym2v w' (codes "init_task"))
  with_offsets fuel w _ _ _ = some (returned vmi_failure, [], w)

  -- `fuel` bounds the rounds of the loop, which the guest's list decides.
  unfoldable pub print_task_struct : (fuel : ℕ) → v.World → Answer v
  unfolding with_offsets
  print_task_struct fuel w =
      with_offsets fuel w (v.get_offset w (codes "linux_tasks"))
        (v.get_offset w (codes "linux_name")) (v.get_offset w (codes "linux_pid"))
