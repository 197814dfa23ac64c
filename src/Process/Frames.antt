-- ===== src/Process/Frames.antt =====
-- What a run of traced calls sends in analysis mode.
use xen_syscall_analysis.Base.{
  ℕ, zero, suc, ◌+◌, ◌%◌, ◌^◌, ◌≤◌, ◌≡◌, refl, ap, sym, ◌∙◌, Option, some, none, List, [], ◌∷◌,
  arith, length, get_elem?, All,
}
use xen_syscall_analysis.Base.Int.{ℤ, pos}
use xen_syscall_analysis.Text.{Text}
use xen_syscall_analysis.LibVmi.{LibVmi, Reg}
use xen_syscall_analysis.SyscallTable.{Tables, analysis_mode}
use xen_syscall_analysis.Window.{Window, empty_window, max_bufsize, append_all}
use xen_syscall_analysis.Arguments.{value_or}
use xen_syscall_analysis.Window.Buffer.{append_all_bounds}
use xen_syscall_analysis.Process.{
  Tracer, Junk, global_window_size, describe, syscall_number, current_pid, report_syscall,
  process_syscall,
}
use xen_syscall_analysis.Process.Effects.{window_after, process_syscall_analysis}

-- A name that a call stores, if it has one.
abbrev pub cons? : Option Text → List Text → List Text
cons? none xs = xs
cons? (some x) xs = x ∷ xs

append_all-cons? :
    (name : Option Text) (xs : List Text) (win : Window)
    → append_all global_window_size (cons? name xs) win
      ≡ append_all global_window_size xs (window_after name win)
unfolding append_all
append_all-cons? none xs win = refl
append_all-cons? (some x) xs win = refl

describe_static :
    (pid : ℤ) (index : ℕ) (name : Option Text) (s : Tracer)
    → ((describe pid index name s).1.running_mode ≡ s.running_mode)
      × ((describe pid index name s).1.tables ≡ s.tables)
unfolding describe
describe_static pid index none s = ground arith
describe_static pid index (some name) s = ground arith

All-cons?-get_elem? :
    (P : Text → Type 0) (xs : List Text) (i : ℕ) (ys : List Text)
    → All P xs
    → All P ys
    → All P (cons? (get_elem? xs i) ys)
All-cons?-get_elem? P [] i ys h k = k
All-cons?-get_elem? P (x ∷ xs) zero ys h k = (h.0, k)
All-cons?-get_elem? P (x ∷ xs) (suc i) ys h k = All-cons?-get_elem? P xs i ys h.1 k

All-weaken :
    (ts : List Text) → All (λ t. length t ≤ 2041) ts → All (λ t. length t + 1 ≤ max_bufsize) ts
All-weaken [] h = tt
All-weaken (t ∷ ts) h = (omega (arith, h.0), All-weaken ts h.1)

module _ (v : LibVmi) where
  -- A traced call: the guest at that moment, and its other arguments.
  pub record Visit : Type 0 where
    pub world : v.World
    pub vcpu : ℕ
    pub junk : Junk

  -- The calls of `process_syscall` of a run, one behind the other.
  unfoldable pub process_all : List Visit → Tracer → Tracer
  process_all [] s = s
  process_all (c ∷ cs) s = process_all cs (process_syscall v c.world c.vcpu c.junk s)

  -- The names of the calls that have one, in their order: the low 16 bits of RAX on the processor
  -- that makes the call are its number.
  abbrev pub names_of : Tables → List Visit → List Text
  names_of t [] = []
  names_of t (c ∷ cs) =
      cons?
        (get_elem? t.sys_index
          (value_or c.junk.rax (v.get_vcpureg c.world Reg.rax c.vcpu) % 2 ^ 16))
        (names_of t cs)

  pub process_syscall_static :
      (c : Visit) (s : Tracer)
      → ((process_syscall v c.world c.vcpu c.junk s).running_mode ≡ s.running_mode)
        × ((process_syscall v c.world c.vcpu c.junk s).tables ≡ s.tables)
  unfolding process_syscall report_syscall
  process_syscall_static c s =
      let index = syscall_number v c.world c.vcpu c.junk in
      ground (
        arith,
        describe_static (current_pid v c.world c.vcpu c.junk) index
            (get_elem? s.tables.sys_index index) (record s { live = s.live + 2 }),
      )

  -- In analysis mode a run of traced calls leaves the window that `append_all` makes of the names of
  -- those calls that have one, in their order.
  pub process_all-append_all :
      (cs : List Visit) (s : Tracer)
      → s.running_mode ≡ analysis_mode
      → (process_all cs s).window ≡ append_all global_window_size (names_of s.tables cs) s.window
  unfolding process_all append_all syscall_number
  process_all-append_all [] s h = refl
  process_all-append_all (c ∷ cs) s h =
      let t = process_syscall v c.world c.vcpu c.junk s in
      let (mode, tables) = process_syscall_static c s in
      let name = get_elem? s.tables.sys_index (syscall_number v c.world c.vcpu c.junk) in
      process_all-append_all cs t (mode ∙ h)
      ∙ ap (λ tb. append_all global_window_size (names_of tb cs) t.window) tables
      ∙ ap (append_all global_window_size (names_of s.tables cs))
          (process_syscall_analysis v c.world c.vcpu c.junk s h).0
      ∙ sym (append_all-cons? name (names_of s.tables cs) s.window)

  pub names_of-All :
      (P : Text → Type 0) (t : Tables) (cs : List Visit) → All P t.sys_index → All P (names_of t cs)
  unfolding syscall_number
  names_of-All P t [] h = tt
  names_of-All P t (c ∷ cs) h =
      All-cons?-get_elem? P t.sys_index (syscall_number v c.world c.vcpu c.junk) (names_of t cs) h
        (names_of-All P t cs h)

  -- If no name of the table is longer than 203 bytes, the buffer holds what is stored with its NUL,
  -- and every frame sent with its end mark and NUL, however many calls are traced.
  pub process_all_bounds :
      (cs : List Visit) (s : Tracer)
      → s.running_mode ≡ analysis_mode
      → s.window ≡ empty_window
      → All (λ x. length x ≤ 203) s.tables.sys_index
      → (length (process_all cs s).window.buffer + 1 ≤ max_bufsize)
        × All (λ t. length t + 1 ≤ max_bufsize) (process_all cs s).window.sent
  process_all_bounds cs s mode empty short =
      let sent_names = names_of s.tables cs in
      let same : (process_all cs s).window ≡ append_all (pos 10) sent_names empty_window =
        process_all-append_all cs s mode ∙ ap (append_all (pos 10) sent_names) empty in
      let (stored, sent) = append_all_bounds 10 203 sent_names (names_of-All _ s.tables cs short) in
      rw same (omega (arith, stored), All-weaken _ sent)
