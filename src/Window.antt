-- ===== src/Window.antt =====
-- The frames of analysis mode: `append_syscall` of src/client.h, with the buffer and the frame index
-- that src/syscall-trace.c keeps for it, and the reading of a frame in server/server.py.
pub mod Frames
pub mod Batches
pub mod Buffer
pub mod Decode
use xen_syscall_analysis.Base.{
  ℕ, suc, ◌+◌, Bool, false, List, [], ◌∷◌, ◌++◌, ◌==◌, if◌then◌else◌, drop_last,
}
use xen_syscall_analysis.Base.Int.{ℤ, pos, negsuc, eq_ℤ}
use xen_syscall_analysis.Text.{Text, codes}

abbrev pub max_bufsize : ℕ
max_bufsize = 2048

abbrev pub separator : Text
separator = b',' ∷ []

abbrev pub end_mark : Text
end_mark = b'.' ∷ []

-- `sent` holds the texts handed to `write` on the socket, in order. The index starts at 0 and only
-- grows, so it is a natural number; the window size is whatever `int` the caller passes.
pub record Window : Type 0 where
  pub buffer : Text
  pub frame_index : ℕ
  pub sent : List Text

abbrev pub empty_window : Window
empty_window = record { buffer = []; frame_index = 0; sent = [] }

-- The full frame is closed and sent; in that call the system call itself is not stored.
unfoldable pub append_syscall : ℤ → Text → Window → Window
append_syscall window_size syscall s =
    if eq_ℤ (pos s.frame_index) window_size
    then record s { frame_index = 0; sent = s.sent ++ (s.buffer ++ end_mark) ∷ []; buffer = [] }
    else record s { buffer = (s.buffer ++ syscall) ++ separator; frame_index = s.frame_index + 1 }

-- A run of calls.
unfoldable pub append_all : ℤ → List Text → Window → Window
append_all window_size [] s = s
append_all window_size (x ∷ xs) s = append_all window_size xs (append_syscall window_size x s)

push_char : ℕ → List Text → List Text
push_char c [] = (c ∷ []) ∷ []
push_char c (w ∷ ws) = (c ∷ w) ∷ ws

-- `text.split(",")`.
split_commas : Text → List Text
unfolding push_char
split_commas [] = [] ∷ []
split_commas (c ∷ t) = if c == b',' then [] ∷ split_commas t else push_char c (split_commas t)

-- What the server makes of a chunk: `chunks[:-2]`, then `split(",")`.
unfoldable pub read_frame : Text → List Text
unfolding split_commas
read_frame chunk = split_commas (drop_last (drop_last chunk))
