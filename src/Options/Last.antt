-- ===== src/Options/Last.antt =====
-- `main` against a description that does not go through the options one after another: the help
-- letter wins wherever it stands, and of every other letter the last one counts.
use xen_syscall_analysis.Base.{
  ◌≡◌, refl, Bool, true, false, Option, some, none, List, [], ◌∷◌, if◌then◌else◌, arith,
}
use xen_syscall_analysis.Base.Int.{ℤ, pos, negsuc}
use xen_syscall_analysis.Text.{Text}
use xen_syscall_analysis.Text.Scan.{atoi}
use xen_syscall_analysis.Options.{
  Opt, Settings, defaults, read_options, Action, usage, missing_option, choose, check_mandatory,
  run_settings, main,
}

-- The argument of the last option that `get` answers to.
abbrev pub last_arg : (Opt → Option Text) → List Opt → Option Text
last_arg get [] = none
last_arg get (o ∷ os) = elim (last_arg get os) [ none ↦ get o | some a ↦ some a ]

abbrev pub asks_help : List Opt → Bool
asks_help [] = false
asks_help (Opt.help ∷ os) = true
asks_help (o ∷ os) = asks_help os

abbrev pub name_arg : Opt → Option Text
name_arg (Opt.vm_name a) = some a
name_arg _ = none

abbrev pub mode_arg : Opt → Option Text
mode_arg (Opt.mode a) = some a
mode_arg _ = none

abbrev pub window_arg : Opt → Option Text
window_arg (Opt.window_size a) = some a
window_arg _ = none

abbrev pub time_arg : Opt → Option Text
time_arg (Opt.time a) = some a
time_arg _ = none

-- A number given by an option, or its default.
abbrev pub number_or : ℤ → Option Text → ℤ
number_or d none = d
number_or d (some a) = atoi a

abbrev pub text_or : Option Text → Option Text → Option Text
text_or d none = d
text_or d (some a) = some a

abbrev pub decide_action : (help : Bool) (name mode window time : Option Text) → Action
decide_action true n m w t = usage
decide_action false none m w t = missing_option
decide_action false (some n) none w t = missing_option
decide_action false (some n) (some m) w t =
    choose n m (number_or (pos 10) w) (number_or (negsuc 0) t)

run_read_options :
    (os : List Opt) (s : Settings)
    → run_settings (read_options os s) ≡ (
        if asks_help os
        then usage
        else check_mandatory
            (text_or s.vm_name (last_arg name_arg os))
            (text_or s.mode (last_arg mode_arg os))
            (number_or s.window_size (last_arg window_arg os))
            (number_or s.time (last_arg time_arg os)))
unfolding read_options run_settings
run_read_options [] s = refl
run_read_options (Opt.help ∷ os) s = refl
run_read_options (Opt.vm_name a ∷ os) s =
    ground (arith, run_read_options os (record s { vm_name = some a }))
run_read_options (Opt.mode a ∷ os) s =
    ground (arith, run_read_options os (record s { mode = some a }))
run_read_options (Opt.show_output ∷ os) s =
    ground (arith, run_read_options os (record s { print = true }))
run_read_options (Opt.window_size a ∷ os) s =
    ground (arith, run_read_options os (record s { window_size = atoi a }))
run_read_options (Opt.time a ∷ os) s =
    ground (arith, run_read_options os (record s { time = atoi a }))
run_read_options (Opt.invalid c ∷ os) s = ground (arith, run_read_options os s)

-- With `-h` anywhere `main` prints the usage; else it wants a last `-v` and a last `-m`, and the
-- last `-w` and `-t` replace the defaults 10 and -1.
pub main-decide_action :
    (os : List Opt)
    → main os
      ≡ decide_action
          (asks_help os)
          (last_arg name_arg os)
          (last_arg mode_arg os)
          (last_arg window_arg os)
          (last_arg time_arg os)
unfolding main
main-decide_action os = ground (arith, run_read_options os defaults)
