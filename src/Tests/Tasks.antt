-- ===== src/Tests/Tasks.antt =====
-- A guest with two processes.
use xen_syscall_analysis.Base.{
  ℕ, ◌⊎◌, ◌≡◌, refl, Option, some, none, [], ◌∷◌, ◌==◌, if◌then◌else◌, arith,
}
use xen_syscall_analysis.Text.{Text, codes, text_eq, signed_decimal, hex}
use xen_syscall_analysis.LibVmi.{LibVmi}
use xen_syscall_analysis.Breakpoint.{no_value}
use xen_syscall_analysis.TaskList.{
  Offsets, padded, print_task_struct, add_addr, sub_addr, task_line, to_pid, walk, print_name,
}
use xen_syscall_analysis.TaskList.Whole.{Task, print_task_struct-tasks, print_task_struct_paused}
use xen_syscall_analysis.OffsetFinders.{TaskStruct, loaded, find_task_struct}
use xen_syscall_analysis.OffsetFinders.Layout.{find_task_struct-plain_line}
use xen_syscall_analysis.Tests.Machine.{machine, memory}

abbrev offset_of : Text → Option ℕ
offset_of name =
    if text_eq name (codes "linux_tasks")
    then some 16
    else if text_eq name (codes "linux_name")
    then some 32
    else if text_eq name (codes "linux_pid")
    then some 8
    else none

-- `init_task` at 1000, and a process at 2000.
abbrev guest : LibVmi
guest = record machine {
  get_offset = λ w t. offset_of t;
  translate_ksym2v = λ w t. some 1000;
  read_addr_va = λ w a. if a == 1016 then some 2016 else if a == 2016 then some 1016 else none;
  read_32_va = λ w a. if a == 1008 then some 0 else if a == 2008 then some 1 else none;
  read_str_va = λ w a p. if a == 1032 then some (codes "swapper") else some (codes "init");
}

abbrev guest_offsets : Offsets
guest_offsets = record { tasks = 16; name = 32; pid = 8 }

abbrev swapper : Task
swapper = record { entry = 1016; next = 2016; pid = 0; name = codes "swapper" }

abbrev init : Task
init = record { entry = 2016; next = 1016; pid = 1; name = codes "init" }

print_task_struct-tasks_example :
    print_task_struct guest 2 memory
    ≡ some (
      no_value,
      codes "[    0] swapper (struct addr:3e8)\n[    1] init (struct addr:7d0)\n",
      memory,
    )
unfolding print_task_struct text_eq add_addr sub_addr task_line padded signed_decimal to_pid hex
print_task_struct-tasks_example =
    print_task_struct-tasks guest 2 memory guest_offsets 1000 swapper (init ∷ []) refl refl refl
      refl refl refl (record { has_next = refl; has_pid = refl; has_name = refl })
      (refl, refl, record { has_next = refl; has_pid = refl; has_name = refl }, refl) (omega arith)

-- The same guest, with a name that cannot be read.
abbrev broken : LibVmi
broken = record guest { read_str_va = λ w a p. none }

print_task_struct_paused_example : (memory ≡ memory) ⊎ (memory ≡ memory)
unfolding print_task_struct text_eq add_addr sub_addr task_line padded signed_decimal to_pid hex
    walk print_name
print_task_struct_paused_example =
    print_task_struct_paused broken 2 memory memory (codes "Failed to find procname\n") refl

abbrev layout : TaskStruct
layout = record { comm = 0x4a8; tasks = 0x238; mm = 0x270; pid = 0x2ac; pgd = 0x50 }

find_task_struct-plain_line_example :
    find_task_struct layout (some 0xffff880000000000) 0xffff880000100000
    ≡ codes
        "Module FindTaskStruct  loaded.\n\nlinux_name = 0x4a8;\nlinux_tasks = 0x238;\nlinux_mm = 0x270;\nlinux_pid = 0x2ac;\nlinux_pgd = 0x50;\n"
unfolding hex loaded
find_task_struct-plain_line_example =
    find_task_struct-plain_line layout 0xffff880000000000 0xffff880000100000 (omega arith)
      (omega arith) (omega arith) (omega arith) (omega arith) (omega arith) (omega arith)
