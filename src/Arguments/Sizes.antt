-- ===== src/Arguments/Sizes.antt =====
-- Which formatted arguments fit the blocks that they are written to.
use xen_syscall_analysis.Base.{
  ℕ, ◌+◌, ◌^◌, ◌≡◌, ◌⊎◌, false, ◌≤◌, ◌<◌, ◌↔◌, ◌++◌, Bool-cases, inl, inr, ltb, arith, length,
  length-append, ◌==◌, if◌then◌else◌, Option, some, none, List, [], ◌∷◌,
}
use xen_syscall_analysis.Base.Int.{ℤ}
use xen_syscall_analysis.LibVmi.{LibVmi}
use xen_syscall_analysis.Flags.Sizes.{missing, open_flags_fits_any, mprotect_flags_fits}
use xen_syscall_analysis.Flags.Tables.{open_table}
use xen_syscall_analysis.Text.{
  Text, codes, decimal, hex, length-decimal-le, length-hex-le, lt-length-hex,
}
use xen_syscall_analysis.Arguments.{
  Regs, u32, start_args, put_slot, print_regs, print_mprotect, print_open, print_execve,
  print_openat, print_write, print_call, format_mode, format_dfd, format_fd, format_count,
  format_start, format_len, format_reg,
}

abbrev pub arg_buffer : ℕ
arg_buffer = 30

length-decimal-u32 : (n : ℕ) → length (decimal (u32 n)) ≤ 10
length-decimal-u32 n = length-decimal-le 9 (u32 n) (omega arith)

-- The decimal arguments fit with their NUL, whatever the register holds.
format_decimal_fits :
    (n : ℕ)
    → (length (format_mode n) + 1 ≤ arg_buffer)
      × (length (format_dfd n) + 1 ≤ arg_buffer)
      × (length (format_fd n) + 1 ≤ arg_buffer)
      × (length (format_count n) + 1 ≤ arg_buffer)
      × (length (format_len n) + 1 ≤ arg_buffer)
      × (length (format_reg n) + 1 ≤ arg_buffer)
unfolding format_mode format_dfd format_fd format_count format_len format_reg
format_decimal_fits n =
    let h : length (decimal (u32 n)) ≤ 10 = length-decimal-u32 n in
    (
      omega arith,
      omega arith,
      omega arith,
      omega arith,
      omega arith,
      rw length-append (omega arith),
    )

-- The address of `mprotect` fits with its NUL exactly when it has at most 15 hexadecimal digits.
pub format_start_fits : (n : ℕ) → (length (format_start n) + 1 ≤ arg_buffer) ↔ (n < 16 ^ 15)
unfolding format_start
format_start_fits n = (small, λ h. omega (arith, length-hex-le 14 n h))
  where
    small : length (codes "start addr: 0x" ++ hex n) + 1 ≤ arg_buffer → n < 16 ^ 15
    small h = elim (Bool-cases (ltb n (16 ^ 15))) [
      | inl below ↦ ground arith
      | inr above ↦ absurd (omega (arith, lt-length-hex 15 n (ground arith)))
    ]

-- The block of each slot that is written by `sprintf` or `strcat`; `strdup` makes its own.
abbrev pub blocks : (syscall_id : ℕ) → List (Option ℕ)
blocks syscall_id =
    some 100
    ∷ (if syscall_id == 1
        then some 30 ∷ none ∷ some 30 ∷ []
        else if syscall_id == 2
        then none ∷ some 30 ∷ some 100 ∷ []
        else if syscall_id == 10
        then some 30 ∷ some 30 ∷ some 100 ∷ []
        else if syscall_id == 59
        then none ∷ []
        else if syscall_id == 257
        then some 30 ∷ none ∷ some 30 ∷ some 100 ∷ []
        else some 50 ∷ some 50 ∷ some 50 ∷ some 50 ∷ some 50 ∷ some 50 ∷ [])

-- Each text fits the block of its slot, its NUL included.
abbrev pub Fit : List (Option ℕ) → List (Option Text) → Type 0
Fit [] slots = Unit
Fit (b ∷ bs) [] = Unit
Fit (none ∷ bs) (slot ∷ slots) = Fit bs slots
Fit (some n ∷ bs) (none ∷ slots) = Fit bs slots
Fit (some n ∷ bs) (some text ∷ slots) = (length text + 1 ≤ n) × Fit bs slots

-- What open, openat and mprotect ask of their arguments.
abbrev pub AreSafe : (syscall_id : ℕ) → Regs → Type 0
AreSafe syscall_id r =
    if syscall_id == 2
    then 10 ≤ missing open_table (u32 r.rdx)
    else if syscall_id == 257
    then 10 ≤ missing open_table (u32 r.r10)
    else if syscall_id == 10
    then r.rdi < 16 ^ 15
    else Unit

module _ (v : LibVmi) (w : v.World) (pid : ℤ) (r : Regs) (live : ℕ) (output : Text)
    (short : length output + 1 ≤ 100) where
  abbrev pub IsRight : (syscall_id : ℕ) → Type 0
  IsRight syscall_id =
      Fit (blocks syscall_id) (print_call v w pid syscall_id r (start_args output live)).slots
      ↔ AreSafe syscall_id r

  write_fits : IsRight 1
  unfolding print_call print_write put_slot start_args
  write_fits =
      (λ _. tt, λ _. (short, ((format_decimal_fits r.rdi).2, ((format_decimal_fits r.rdx).3, tt))))

  open_fits : IsRight 2
  unfolding print_call print_open put_slot start_args
  open_fits =
      let flags = open_flags_fits_any (u32 r.rdx) in
      (λ f. flags.0 f.1.1.0, λ k. (short, ((format_decimal_fits r.rsi).0, (flags.1 k, tt))))

  mprotect_fits : IsRight 10
  unfolding print_call print_mprotect put_slot start_args
  mprotect_fits =
      let start = format_start_fits r.rdi in
      let flags = mprotect_flags_fits (u32 r.rdx) in
      (λ f. start.0 f.1.0, λ k. (short, (start.1 k, ((format_decimal_fits r.rsi).4, (flags, tt)))))

  openat_fits : IsRight 257
  unfolding print_call print_openat put_slot start_args
  openat_fits =
      let flags = open_flags_fits_any (u32 r.r10) in
      (
        λ f. flags.0 f.1.1.1.0,
        λ k. (
          short,
          ((format_decimal_fits r.rdi).1, ((format_decimal_fits r.rdx).0, (flags.1 k, tt))),
        ),
      )

  register_fits : (n : ℕ) → length (format_reg n) + 1 ≤ 50
  register_fits n = omega (arith, (format_decimal_fits n).5)

  execve_fits : IsRight 59
  unfolding print_call print_execve put_slot start_args
  execve_fits = (λ _. tt, λ _. (short, tt))

  print_regs-Fit :
      Fit
        (some 100 ∷ some 50 ∷ some 50 ∷ some 50 ∷ some 50 ∷ some 50 ∷ some 50 ∷ [])
        (print_regs r (start_args output live)).slots
  unfolding print_regs put_slot start_args
  print_regs-Fit =
      let f = register_fits in
      (short, (f r.rdi, (f r.rsi, (f r.rdx, (f r.r10, (f r.r8, (f r.r9, tt)))))))

  other_fits :
      (syscall_id : ℕ)
      → (syscall_id == 1) ≡ false
      → (syscall_id == 2) ≡ false
      → (syscall_id == 10) ≡ false
      → (syscall_id == 59) ≡ false
      → (syscall_id == 257) ≡ false
      → IsRight syscall_id
  unfolding print_call
  other_fits syscall_id a b c d e = rw (a, b, c, d, e) (λ _. tt, λ _. print_regs-Fit)

  -- If the description of the call fits its block of 100 bytes, all slots of a call fit theirs
  -- exactly when its open flags leave out at least ten bytes of names, for open and openat, or its
  -- address has at most 15 hexadecimal digits, for mprotect; those of any other call always fit.
  pub print_call_fits :
      (syscall_id : ℕ)
      → Fit (blocks syscall_id) (print_call v w pid syscall_id r (start_args output live)).slots
        ↔ AreSafe syscall_id r
  print_call_fits syscall_id = by_id (split 1) (split 2) (split 10) (split 59) (split 257)
    where
      Split : ℕ → Type 0
      Split n = (syscall_id ≡ n) ⊎ ((syscall_id == n) ≡ false)

      split : (n : ℕ) → Split n
      split n = elim (Bool-cases (syscall_id == n)) [
        | inl same ↦ inl (ground arith)
        | inr other ↦ inr other
      ]

      by_id : Split 1 → Split 2 → Split 10 → Split 59 → Split 257 → IsRight syscall_id
      by_id (inl is) b c d e = rw is write_fits
      by_id (inr a) (inl is) c d e = rw is open_fits
      by_id (inr a) (inr b) (inl is) d e = rw is mprotect_fits
      by_id (inr a) (inr b) (inr c) (inl is) e = rw is execve_fits
      by_id (inr a) (inr b) (inr c) (inr d) (inl is) = rw is openat_fits
      by_id (inr a) (inr b) (inr c) (inr d) (inr e) = other_fits syscall_id a b c d e
