-- ===== src/Options.antt =====
-- The command line: `main` of src/vmi.c. What `getopt` returns, call by call, is the list of its
-- arguments; the printed texts are left out.
pub mod Last
use xen_syscall_analysis.Base.{
  ℕ, Bool, true, false, Option, some, none, List, [], ◌∷◌, if◌then◌else◌,
}
use xen_syscall_analysis.Base.Int.{ℤ, pos, negsuc}
use xen_syscall_analysis.Text.{Text, codes, text_eq}
use xen_syscall_analysis.Text.Scan.{atoi}
use xen_syscall_analysis.SyscallTable.{learn_mode, analysis_mode, sandbox_mode, educational_mode}

-- A letter with its argument, and the `?` of a letter that is unknown or lacks its argument.
pub data Opt : Type 0 where
  help : Opt
  vm_name : Text → Opt
  mode : Text → Opt
  show_output : Opt
  window_size : Text → Opt
  time : Text → Opt
  invalid : (optopt : ℕ) → Opt

pub record Settings : Type 0 where
  pub vm_name : Option Text
  pub mode : Option Text
  pub print : Bool
  pub window_size : ℤ
  pub time : ℤ

abbrev pub defaults : Settings
defaults = record {
  vm_name = none;
  mode = none;
  print = false;
  window_size = pos 10;
  time = negsuc 0;
}

-- `none` for the early return of `-h`.
unfoldable pub read_options : List Opt → Settings → Option Settings
read_options [] s = some s
read_options (Opt.help ∷ os) s = none
read_options (Opt.vm_name a ∷ os) s = read_options os (record s { vm_name = some a })
read_options (Opt.mode a ∷ os) s = read_options os (record s { mode = some a })
read_options (Opt.show_output ∷ os) s = read_options os (record s { print = true })
read_options (Opt.window_size a ∷ os) s = read_options os (record s { window_size = atoi a })
read_options (Opt.time a ∷ os) s = read_options os (record s { time = atoi a })
read_options (Opt.invalid c ∷ os) s = read_options os s

-- What `main` goes on to do; `introspect` is the call of `introspect_syscall_trace`.
pub data Action : Type 0 where
  usage missing_option : Action
  unsupported : Text → Action
  introspect : (name : Text) (set_mode : ℕ) (window_size set_time : ℤ) → Action

unfoldable pub choose : (name m : Text) (w t : ℤ) → Action
choose name m w t =
    if text_eq m (codes "learn")
    then introspect name learn_mode w t
    else if text_eq m (codes "analyze")
    then introspect name analysis_mode w t
    else if text_eq m (codes "educational")
    then introspect name educational_mode w t
    else if text_eq m (codes "sandbox")
    then introspect name sandbox_mode w t
    else unsupported m

check_mandatory : Option Text → Option Text → (w t : ℤ) → Action
check_mandatory (some name) (some m) w t = choose name m w t
check_mandatory _ _ w t = missing_option

run_settings : Option Settings → Action
unfolding check_mandatory
run_settings none = usage
run_settings (some s) = check_mandatory s.vm_name s.mode s.window_size s.time

unfoldable pub main : List Opt → Action
unfolding run_settings
main opts = run_settings (read_options opts defaults)
