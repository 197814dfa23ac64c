-- ===== src/Flags/Tables.antt =====
-- The flag texts against a table of bits and names.
use xen_syscall_analysis.Base.{
  ℕ, ◌≡◌, refl, ◌∙◌, Bool, true, false, List, [], ◌∷◌, ◌++◌, ◌==◌, if◌then◌else◌, append_assoc,
  append-nil,
}
use xen_syscall_analysis.Text.{Text, codes}
use xen_syscall_analysis.Flags.{
  o_wronly, o_rdwr, o_creat, o_excl, o_noctty, o_trunc, o_append, o_nonblock, o_dsync, o_direct,
  o_directory, o_cloexec, prot_read, prot_write, prot_exec, has_bit, strcat_if, open_flags,
  mprotect_flags,
}

abbrev pub FlagTable : Type 0
FlagTable = List (ℕ × Text)

abbrev pub open_table : FlagTable
open_table =
    (o_wronly, codes "O_WRONLY ")
    ∷ (o_rdwr, codes "O_RDWR ")
    ∷ (o_creat, codes "O_CREAT ")
    ∷ (o_excl, codes "O_EXCL ")
    ∷ (o_noctty, codes "O_NOCTTY ")
    ∷ (o_trunc, codes "O_TRUNC ")
    ∷ (o_append, codes "O_APPEND ")
    ∷ (o_nonblock, codes "O_NONBLOCK ")
    ∷ (o_dsync, codes "O_DSYNC ")
    ∷ (o_direct, codes "__O_DIRECT ")
    ∷ (o_directory, codes "O_DIRECTORY ")
    ∷ (o_cloexec, codes "O_CLOEXEC ")
    ∷ []

abbrev pub mprotect_table : FlagTable
mprotect_table =
    (prot_read, codes "PROT_READ ")
    ∷ (prot_write, codes "PROT_WRITE ")
    ∷ (prot_exec, codes "PROT_EXEC ")
    ∷ []

-- The names of the bits that are set, in the order of the table.
unfoldable pub names_of : FlagTable → (flags : ℕ) → Text
names_of [] flags = []
names_of ((mask, name) ∷ table) flags =
    (if has_bit flags mask then name else []) ++ names_of table flags

strcat_table : FlagTable → (flags : ℕ) → Text → Text
strcat_table [] flags text = text
strcat_table ((mask, name) ∷ table) flags text =
    strcat_table table flags (strcat_if (has_bit flags mask) name text)

strcat_if-append :
    (b : Bool) (name text rest : Text)
    → strcat_if b name text ++ rest ≡ text ++ ((if b then name else []) ++ rest)
unfolding strcat_if
strcat_if-append true name text rest = append_assoc text name rest
strcat_if-append false name text rest = refl

strcat_table-names_of :
    (table : FlagTable) (flags : ℕ) (text : Text)
    → strcat_table table flags text ≡ text ++ names_of table flags
unfolding strcat_table names_of strcat_if
strcat_table-names_of [] flags text = rw append-nil
strcat_table-names_of ((mask, name) ∷ table) flags text =
    strcat_table-names_of table flags _
    ∙ strcat_if-append (has_bit flags mask) name text (names_of table flags)

-- `print_open_flags` writes the name of the value 0 or of each set bit of the table.
pub open_flags-names_of :
    (flags : ℕ)
    → open_flags flags ≡ (if flags == 0 then codes "O_RDONLY " else []) ++ names_of open_table flags
unfolding open_flags strcat_table
open_flags-names_of flags =
    strcat_table-names_of open_table flags (strcat_if (flags == 0) (codes "O_RDONLY ") [])

-- `print_mprotect_flags` writes the name of the value 0 or of each set bit of the table.
pub mprotect_flags-names_of :
    (flags : ℕ)
    → mprotect_flags flags
      ≡ (if flags == 0 then codes "PROT_NONE " else []) ++ names_of mprotect_table flags
unfolding mprotect_flags strcat_table
mprotect_flags-names_of flags =
    strcat_table-names_of mprotect_table flags (strcat_if (flags == 0) (codes "PROT_NONE ") [])
