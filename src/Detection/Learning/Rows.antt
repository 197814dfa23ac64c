-- ===== src/Detection/Learning/Rows.antt =====
-- The trace file that a run in learning mode leaves, as a file of comma-separated values.
use xen_syscall_analysis.Base.{
  ℕ, suc, ◌%◌, ◌^◌, ◌≡◌, refl, sym, ap, ◌∙◌, Bool, true, ◌&&◌, Option, none, some, List, [], ◌∷◌,
  ◌++◌, append_assoc, append-nil, map, All, arith, get_elem?,
}
use xen_syscall_analysis.Base.Int.{ℤ, pos, negsuc}
use xen_syscall_analysis.Text.{Text, codes, decimal, signed_decimal}
use xen_syscall_analysis.Text.Scan.{is_digit, decimal-IsAll}
use xen_syscall_analysis.LibVmi.{LibVmi, Reg}
use xen_syscall_analysis.SyscallTable.{Tables, learn_mode}
use xen_syscall_analysis.Arguments.{Regs, value_or, u32, read_regs, format_row}
use xen_syscall_analysis.Process.{
  Tracer, csv_header, row_start, syscall_number, current_pid, process_syscall,
}
use xen_syscall_analysis.Process.Effects.{process_syscall_learning}
use xen_syscall_analysis.Process.Frames.{Visit, process_all, process_syscall_static}
use xen_syscall_analysis.Tracing.{start_tracer}
use xen_syscall_analysis.Detection.Learning.{IsPlain, is_plain, print_row, print_rows, value_at}

abbrev pub spaced : Text → Text
spaced t = b' ' ∷ t

abbrev pub trace_header : List Text
trace_header =
    codes "PID"
    ∷ spaced (codes "SyscallID")
    ∷ spaced (codes "Syscall")
    ∷ spaced (codes "RDI")
    ∷ spaced (codes "RSI")
    ∷ spaced (codes "RDX")
    ∷ spaced (codes "R10")
    ∷ spaced (codes "R8")
    ∷ spaced (codes "R9")
    ∷ []

csv_header_lem : csv_header ≡ print_row trace_header
csv_header_lem = refl

-- The value of a call in the column of names.
abbrev pub named : Option Text → Text
named none = spaced []
named (some name) = spaced name

abbrev pub trace_row : (pid : ℤ) (index : ℕ) → Option Text → Regs → List Text
trace_row pid index name r =
    signed_decimal pid
    ∷ spaced (decimal index)
    ∷ named name
    ∷ spaced (decimal (u32 r.rdi))
    ∷ spaced (decimal (u32 r.rsi))
    ∷ spaced (decimal (u32 r.rdx))
    ∷ spaced (decimal (u32 r.r10))
    ∷ spaced (decimal (u32 r.r8))
    ∷ spaced (decimal (u32 r.r9))
    ∷ []

print_row-trace_row :
    (pid : ℤ) (index : ℕ) (name : Option Text) (r : Regs)
    → row_start pid index name ++ format_row r ≡ print_row (trace_row pid index name r)
unfolding row_start format_row
print_row-trace_row pid index none r = simp append_assoc
print_row-trace_row pid index (some name) r = simp append_assoc

abbrev pub are_plain : List Text → Bool
are_plain [] = true
are_plain ([] ∷ ts) = are_plain ts
are_plain ((c ∷ t) ∷ ts) = is_plain c && are_plain (t ∷ ts)

-- A test for texts that are given.
pub are_plain_sound : (ts : List Text) → are_plain ts ≡ true → All IsPlain ts
are_plain_sound [] h = tt
are_plain_sound ([] ∷ ts) h = (tt, are_plain_sound ts h)
are_plain_sound ((c ∷ t) ∷ ts) h =
    let (here, later) = are_plain_sound (t ∷ ts) (ground (arith, h)) in
    ((ground (arith, h), here), later)

digit-IsPlain : (t : Text) → All (λ c. is_digit c ≡ true) t → IsPlain t
digit-IsPlain [] h = tt
digit-IsPlain (c ∷ t) h = (ground (arith, h.0), digit-IsPlain t h.1)

pub decimal-IsPlain : (n : ℕ) → IsPlain (decimal n)
decimal-IsPlain n = digit-IsPlain (decimal n) (decimal-IsAll n)

signed_decimal-IsPlain : (z : ℤ) → IsPlain (signed_decimal z)
unfolding signed_decimal
signed_decimal-IsPlain (pos n) = decimal-IsPlain n
signed_decimal-IsPlain (negsuc n) = (refl, decimal-IsPlain (suc n))

pub trace_row-IsPlain :
    (pid : ℤ) (index : ℕ) (name : Option Text) (r : Regs)
    → IsPlain (named name)
    → All IsPlain (trace_row pid index name r)
trace_row-IsPlain pid index name r h = (
  signed_decimal-IsPlain pid,
  (
    (refl, decimal-IsPlain index),
    (
      h,
      (
        (refl, decimal-IsPlain (u32 r.rdi)),
        (
          (refl, decimal-IsPlain (u32 r.rsi)),
          (
            (refl, decimal-IsPlain (u32 r.rdx)),
            (
              (refl, decimal-IsPlain (u32 r.r10)),
              ((refl, decimal-IsPlain (u32 r.r8)), ((refl, decimal-IsPlain (u32 r.r9)), tt)),
            ),
          ),
        ),
      ),
    ),
  ),
)

module _ (v : LibVmi) where
  -- The name of the call that a visit traces, whose number is in the low 16 bits of RAX.
  abbrev pub name_of : Tables → Visit v → Option Text
  name_of t c =
      get_elem? t.sys_index (value_or c.junk.rax (v.get_vcpureg c.world Reg.rax c.vcpu) % 2 ^ 16)

  abbrev pub row_of : Tables → Visit v → List Text
  row_of t c =
      trace_row (current_pid v c.world c.vcpu c.junk) (syscall_number v c.world c.vcpu c.junk)
        (name_of t c) (read_regs v c.world c.vcpu c.junk.regs)

  -- The column of names that a run writes.
  abbrev pub calls_seen : Tables → List (Visit v) → List Text
  calls_seen t cs = map (λ c. named (name_of t c)) cs

  -- The trace file of a run.
  abbrev pub trace_file : Tables → (old_csv : Text) → List (Visit v) → Text
  trace_file t old_csv cs = (process_all v cs (start_tracer learn_mode old_csv t)).csv

  -- A run in learning mode adds a row for each call to the trace file.
  pub process_all-rows :
      (cs : List (Visit v)) (s : Tracer)
      → s.running_mode ≡ learn_mode
      → (process_all v cs s).csv ≡ s.csv ++ print_rows (map (row_of s.tables) cs)
  unfolding process_all syscall_number
  process_all-rows [] s h = sym (append-nil s.csv)
  process_all-rows (c ∷ cs) s h =
      let t = process_syscall v c.world c.vcpu c.junk s in
      let (mode, tables) = process_syscall_static v c s in
      process_all-rows cs t (mode ∙ h)
      ∙ ap (λ tb. t.csv ++ print_rows (map (row_of tb) cs)) tables
      ∙ ap (λ r. r ++ print_rows (map (row_of s.tables) cs))
          ((process_syscall_learning v c.world c.vcpu c.junk s h).0
            ∙ ap (λ r. s.csv ++ r) (print_row-trace_row _ _ (name_of s.tables c) _))
      ∙ append_assoc s.csv (print_row (row_of s.tables c)) (print_rows (map (row_of s.tables) cs))

  pub column_of_names :
      (t : Tables) (cs : List (Visit v)) → map (value_at 2) (map (row_of t) cs) ≡ calls_seen t cs
  column_of_names t [] = refl
  column_of_names t (c ∷ cs) = ap (λ r. named (name_of t c) ∷ r) (column_of_names t cs)
