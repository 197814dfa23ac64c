-- ===== src/Flags.antt =====
-- The names of flag bits: `print_open_flags` and `print_mprotect_flags` of src/client.h. The
-- texts are built without their buffers of 100 bytes; Flags/Sizes.antt says when these are enough.
pub mod Sizes
pub mod Tables
use Prim.Native.Nat.{bit_and}
use xen_syscall_analysis.Base.{ℕ, Bool, not, [], ◌++◌, ◌==◌, if◌then◌else◌}
use xen_syscall_analysis.Text.{Text, codes}

-- The bits of fcntl.h and sys/mman.h on x86-64 Linux.
abbrev pub o_wronly : ℕ
o_wronly = 0o1

abbrev pub o_rdwr : ℕ
o_rdwr = 0o2

abbrev pub o_creat : ℕ
o_creat = 0o100

abbrev pub o_excl : ℕ
o_excl = 0o200

abbrev pub o_noctty : ℕ
o_noctty = 0o400

abbrev pub o_trunc : ℕ
o_trunc = 0o1000

abbrev pub o_append : ℕ
o_append = 0o2000

abbrev pub o_nonblock : ℕ
o_nonblock = 0o4000

abbrev pub o_dsync : ℕ
o_dsync = 0o10000

abbrev pub o_direct : ℕ
o_direct = 0o40000

abbrev pub o_directory : ℕ
o_directory = 0o200000

abbrev pub o_cloexec : ℕ
o_cloexec = 0o2000000

abbrev pub prot_read : ℕ
prot_read = 1

abbrev pub prot_write : ℕ
prot_write = 2

abbrev pub prot_exec : ℕ
prot_exec = 4

-- `flags & mask` as a condition.
unfoldable pub has_bit : (flags mask : ℕ) → Bool
has_bit flags mask = not (bit_and flags mask == 0)

-- `if (condition) strcat(text, name);`.
unfoldable pub strcat_if : Bool → (name : Text) → Text → Text
strcat_if condition name text = if condition then text ++ name else text

-- What `args[index]` holds in the end; the first test is `!flags`.
unfoldable pub open_flags : (flags : ℕ) → Text
unfolding has_bit strcat_if
open_flags flags =
    let text = strcat_if (flags == 0) (codes "O_RDONLY ") [] in
    let text = strcat_if (has_bit flags o_wronly) (codes "O_WRONLY ") text in
    let text = strcat_if (has_bit flags o_rdwr) (codes "O_RDWR ") text in
    let text = strcat_if (has_bit flags o_creat) (codes "O_CREAT ") text in
    let text = strcat_if (has_bit flags o_excl) (codes "O_EXCL ") text in
    let text = strcat_if (has_bit flags o_noctty) (codes "O_NOCTTY ") text in
    let text = strcat_if (has_bit flags o_trunc) (codes "O_TRUNC ") text in
    let text = strcat_if (has_bit flags o_append) (codes "O_APPEND ") text in
    let text = strcat_if (has_bit flags o_nonblock) (codes "O_NONBLOCK ") text in
    let text = strcat_if (has_bit flags o_dsync) (codes "O_DSYNC ") text in
    let text = strcat_if (has_bit flags o_direct) (codes "__O_DIRECT ") text in
    let text = strcat_if (has_bit flags o_directory) (codes "O_DIRECTORY ") text in
    strcat_if (has_bit flags o_cloexec) (codes "O_CLOEXEC ") text

unfoldable pub mprotect_flags : (flags : ℕ) → Text
unfolding has_bit strcat_if
mprotect_flags flags =
    let text = strcat_if (flags == 0) (codes "PROT_NONE ") [] in
    let text = strcat_if (has_bit flags prot_read) (codes "PROT_READ ") text in
    let text = strcat_if (has_bit flags prot_write) (codes "PROT_WRITE ") text in
    strcat_if (has_bit flags prot_exec) (codes "PROT_EXEC ") text
