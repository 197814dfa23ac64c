-- ===== src/OffsetFinders.antt =====
-- The kernel modules of tools/ that print where fields stand in structures of the running kernel:
-- findtaskstruct, findmodule, findpwd, findproc and findsocket. The layout of a structure is the
-- kernel's, and so a parameter. What is printed is the text without its log level.
pub mod Layout
use xen_syscall_analysis.Base.{ℕ, Option, some, none, List, [], ◌∷◌, ◌++◌, concat}
use xen_syscall_analysis.Text.{Text, codes, hex}
use xen_syscall_analysis.Arguments.{u32}
use xen_syscall_analysis.TaskList.{add_addr, sub_addr}

-- A line: the difference of two addresses, printed as `unsigned int`.
unfoldable pub offset_line : (label ending : Text) (field origin : ℕ) → Text
offset_line label ending field origin =
    label ++ (codes " = 0x" ++ (hex (u32 (sub_addr field origin)) ++ ending))

-- The texts on loading and unloading; the names of the modules end in a space.
unfoldable pub loaded : (name : Text) → Text
loaded name = codes "Module " ++ (name ++ codes " loaded.\n\n")

unfoldable pub unloaded : (name : Text) → Text
unloaded name = codes "Module " ++ (name ++ codes " unloaded.\n")

abbrev pub semicolon : Text
semicolon = codes ";\n"

abbrev pub newline : Text
newline = codes "\n"

pub record TaskStruct : Type 0 where
  pub comm : ℕ
  pub tasks : ℕ
  pub mm : ℕ
  pub pid : ℕ
  pub pgd : ℕ

abbrev pub task_struct_name : Text
task_struct_name = codes "FindTaskStruct "

-- `p` is `current`, and `mm` what it points at.
unfoldable pub find_task_struct : TaskStruct → (p : Option ℕ) (mm : ℕ) → Text
find_task_struct l none mm = concat (
    loaded task_struct_name
    ∷ task_struct_name
    ∷ codes ": found no process to populate task_struct.\n"
    ∷ [])
find_task_struct l (some p) mm = concat (
    loaded task_struct_name
    ∷ offset_line (codes "linux_name") semicolon (add_addr p l.comm) p
    ∷ offset_line (codes "linux_tasks") semicolon (add_addr p l.tasks) p
    ∷ offset_line (codes "linux_mm") semicolon (add_addr p l.mm) p
    ∷ offset_line (codes "linux_pid") semicolon (add_addr p l.pid) p
    ∷ offset_line (codes "linux_pgd") semicolon (add_addr mm l.pgd) mm
    ∷ [])

unfoldable pub clean_task_struct : Text
clean_task_struct = unloaded task_struct_name

pub record ModuleStruct : Type 0 where
  pub list : ℕ
  pub name : ℕ
  pub module_core : ℕ
  pub core_size : ℕ

abbrev pub module_name : Text
module_name = codes "FindModule "

-- Measured from the field `list`.
unfoldable pub find_module : ModuleStruct → (mod' : Option ℕ) → Text
find_module l none = concat (
    loaded module_name
    ∷ module_name
    ∷ codes ": found no module to populate module structure.\n"
    ∷ [])
find_module l (some p) =
    let list = add_addr p l.list in
    concat (
      loaded module_name
      ∷ offset_line (codes "name") semicolon (add_addr p l.name) list
      ∷ offset_line (codes "module_core") semicolon (add_addr p l.module_core) list
      ∷ offset_line (codes "core_size") semicolon (add_addr p l.core_size) list
      ∷ [])

unfoldable pub clean_module : Text
clean_module = unloaded module_name

pub record FsStruct : Type 0 where
  pub fs : ℕ
  pub dentry : ℕ
  pub d_parent : ℕ
  pub d_iname : ℕ

abbrev pub pwd_name : Text
pwd_name = codes "FindPWD "

-- The offsets of `findpwd`; the two names that follow them come from the kernel. `none` where
-- `current->fs` is read through a null pointer.
unfoldable pub find_pwd :
    FsStruct → (p : Option ℕ) (fs dentry : ℕ) (name parent_name : Text) → Option Text
find_pwd l none fs dentry name parent_name = none
find_pwd l (some p) fs dentry name parent_name = some (
    concat (
      loaded pwd_name
      ∷ offset_line (codes "fs_struct") semicolon (add_addr p l.fs) p
      ∷ offset_line (codes "dentry") semicolon (add_addr fs l.dentry) fs
      ∷ offset_line (codes "d_parent") semicolon (add_addr dentry l.d_parent) dentry
      ∷ offset_line (codes "d_iname") semicolon (add_addr dentry l.d_iname) dentry
      ∷ name
      ∷ newline
      ∷ parent_name
      ∷ newline
      ∷ []))

unfoldable pub clean_pwd : Text
clean_pwd = unloaded pwd_name

pub record ProcStruct : Type 0 where
  pub proc_net : ℕ
  pub subdir : ℕ
  pub name : ℕ
  pub next : ℕ
  pub data_field : ℕ
  pub show : ℕ

abbrev pub proc_name : Text
proc_name = codes "FindProc "

unfoldable pub find_proc : ProcStruct → (init_net proc_net tcp_afinfo : ℕ) → Text
find_proc l init_net proc_net tcp_afinfo = concat (
    loaded proc_name
    ∷ offset_line (codes "procnetoffset") newline (add_addr init_net l.proc_net) init_net
    ∷ offset_line (codes "subdiroffset") newline (add_addr proc_net l.subdir) proc_net
    ∷ offset_line (codes "nameoffset") newline (add_addr proc_net l.name) proc_net
    ∷ offset_line (codes "nextoffset") newline (add_addr proc_net l.next) proc_net
    ∷ offset_line (codes "dataoffset") newline (add_addr proc_net l.data_field) proc_net
    ∷ offset_line (codes "showoffset") newline (add_addr tcp_afinfo l.show) tcp_afinfo
    ∷ [])

unfoldable pub clean_proc : Text
clean_proc = unloaded proc_name

pub record SocketStruct : Type 0 where
  pub inet_dport : ℕ
  pub inet_daddr : ℕ
  pub inet_sport : ℕ
  pub listening_hash : ℕ
  pub listen_hashbucket_size : ℕ
  pub head_first : ℕ
  pub next : ℕ
  pub udp_hash : ℕ
  pub udp_hslot_size : ℕ
  pub udp_head_first : ℕ

size_line : (label : Text) (size : ℕ) → Text
size_line label size = label ++ (codes " = 0x" ++ (hex (u32 size) ++ newline))

abbrev pub socket_name : Text
socket_name = codes "FindSocket "

-- `hash_base` is `udp_table.hash`, an address of its own, while its offset is taken from
-- `udp_table`; `inet_sk` leaves the address as it is.
unfoldable pub find_socket : SocketStruct → (sk tcp_hashinfo node udp_table hash_base : ℕ) → Text
unfolding size_line
find_socket l sk tcp_hashinfo node udp_table hash_base =
    let bucket = add_addr tcp_hashinfo l.listening_hash in
    concat (
      loaded socket_name
      ∷ offset_line (codes "dportOffset") newline (add_addr sk l.inet_dport) sk
      ∷ offset_line (codes "daddrOffset") newline (add_addr sk l.inet_daddr) sk
      ∷ offset_line (codes "sportOffset") newline (add_addr sk l.inet_sport) sk
      ∷ offset_line (codes "hlistOffset") newline bucket tcp_hashinfo
      ∷ size_line (codes "hlistLength") l.listen_hashbucket_size
      ∷ offset_line (codes "firstOffset") newline (add_addr bucket l.head_first) bucket
      ∷ offset_line (codes "nextOffset") newline (add_addr node l.next) node
      ∷ offset_line (codes "uhlistOffset") newline (add_addr udp_table l.udp_hash) udp_table
      ∷ size_line (codes "uhlistLength") l.udp_hslot_size
      ∷ offset_line (codes "ufirstOffset") newline (add_addr hash_base l.udp_head_first) hash_base
      ∷ [])

unfoldable pub clean_socket : Text
clean_socket = unloaded socket_name
