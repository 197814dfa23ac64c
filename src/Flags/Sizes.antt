-- ===== src/Flags/Sizes.antt =====
-- When the buffers of 100 bytes of `print_open_flags` and `print_mprotect_flags` are enough.
use xen_syscall_analysis.Base.{
  ℕ, zero, suc, ◌+◌, ◌≤◌, ◌≡◌, ◌≢◌, ◌↔◌, refl, Bool, true, false, [], ◌∷◌, ◌==◌, if◌then◌else◌,
  length, length-append, arith,
}
use xen_syscall_analysis.Text.{Text, codes}
use xen_syscall_analysis.Flags.{has_bit, open_flags, mprotect_flags}
use xen_syscall_analysis.Flags.Tables.{
  FlagTable, open_table, mprotect_table, names_of, open_flags-names_of, mprotect_flags-names_of,
}

-- What `malloc` gives for the text, its NUL included.
abbrev pub flag_buffer : ℕ
flag_buffer = 100

abbrev total : FlagTable → ℕ
total [] = 0
total ((mask, name) ∷ table) = length name + total table

-- The bytes of the names whose bit is not set.
abbrev pub missing : FlagTable → (flags : ℕ) → ℕ
missing [] flags = 0
missing ((mask, name) ∷ table) flags =
    (if has_bit flags mask then 0 else length name) + missing table flags

choice-total :
    (b : Bool) (name : Text)
    → length (if b then name else []) + (if b then 0 else length name) ≡ length name
choice-total true name = omega arith
choice-total false name = omega arith

names_of-missing :
    (table : FlagTable) (flags : ℕ)
    → length (names_of table flags) + missing table flags ≡ total table
unfolding names_of
names_of-missing [] flags = refl
names_of-missing ((mask, name) ∷ table) flags =
    rw length-append
      (omega (arith, choice-total (has_bit flags mask) name, names_of-missing table flags))

module _ (flags : ℕ) (nonzero : flags ≢ 0) where
  open_flags-missing : length (open_flags flags) + missing open_table flags ≡ 109
  open_flags-missing =
      let test : (flags == 0) ≡ false = ground arith in
      rw open_flags-names_of (rw test (names_of-missing open_table flags))

  -- The text of a value that is not 0 fits its buffer exactly when the flags that are not set take
  -- at least ten of the 109 bytes that all names take together.
  pub open_flags_fits :
      (length (open_flags flags) + 1 ≤ flag_buffer) ↔ (10 ≤ missing open_table flags)
  open_flags_fits = (λ h. omega (arith, open_flags-missing), λ h. omega (arith, open_flags-missing))

-- The same of every value: that of 0 has no bit set.
pub open_flags_fits_any :
    (flags : ℕ) → (length (open_flags flags) + 1 ≤ flag_buffer) ↔ (10 ≤ missing open_table flags)
unfolding open_flags
open_flags_fits_any zero = (λ h. omega arith, λ h. omega arith)
open_flags_fits_any (suc n) = open_flags_fits (suc n) (omega arith)

-- The text of every value fits the buffer.
pub mprotect_flags_fits : (flags : ℕ) → length (mprotect_flags flags) + 1 ≤ flag_buffer
mprotect_flags_fits flags = rw mprotect_flags-names_of (rw length-append (go (flags == 0)))
  where
    go :
        (b : Bool)
        → length (if b then codes "PROT_NONE " else []) + length (names_of mprotect_table flags) + 1
          ≤ flag_buffer
    go true = omega (arith, names_of-missing mprotect_table flags)
    go false = omega (arith, names_of-missing mprotect_table flags)

open_flags_full : length (open_flags 0o2257703) ≡ 109
unfolding open_flags
open_flags_full = refl
