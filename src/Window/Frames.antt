-- ===== src/Window/Frames.antt =====
-- Which frames `append_syscall` sends: a full window at a time, and what a run of calls sends.
use xen_syscall_analysis.Base.{
  ℕ, suc, ◌+◌, ◌≤◌, ◌<◌, ◌≡◌, refl, ◌∙◌, List, [], ◌∷◌, ◌++◌, map, arith, length, concat, All,
  false, ◌==◌, append_assoc, append-nil,
}
use native.Mathlib.Nat.{add-zero, zero-add}
use xen_syscall_analysis.Base.Int.{ℤ, pos}
use xen_syscall_analysis.Text.{Text}
use xen_syscall_analysis.Window.{Window, separator, end_mark, append_syscall, append_all}

-- The text of a list of names, each with its separator.
abbrev pub join : List Text → Text
join [] = []
join (x ∷ xs) = x ++ (separator ++ join xs)

-- The frame that stands for a full window.
abbrev pub frame : List Text → Text
frame xs = join xs ++ end_mark

pub append_all-append :
    (w : ℤ) (xs ys : List Text) (s : Window)
    → append_all w (xs ++ ys) s ≡ append_all w ys (append_all w xs s)
unfolding append_all
append_all-append w [] ys s = refl
append_all-append w (x ∷ xs) ys s = append_all-append w xs ys (append_syscall w x s)

==-lt : (i w : ℕ) → i < w → (i == w) ≡ false
==-lt i w h = ground arith

-- An empty buffer, after the frames `sent`.
abbrev pub at_start : List Text → Window
at_start sent = record { buffer = []; frame_index = 0; sent = sent }

pub add-one-add : (i n : ℕ) → i + 1 + n ≡ i + suc n
add-one-add i n = omega arith

-- While there is room the names are stored behind one another.
pub append_all_room :
    (w : ℕ) (xs : List Text) (s : Window)
    → s.frame_index + length xs ≤ w
    → append_all (pos w) xs s
      ≡ record s { buffer = s.buffer ++ join xs; frame_index = s.frame_index + length xs }
unfolding append_all append_syscall
append_all_room w [] s h = cc (append-nil s.buffer, add-zero s.frame_index)
append_all_room w (x ∷ xs) s h =
    rw (==-lt s.frame_index w (omega arith))
      (append_all_room w xs _ (omega arith) ∙ simp (append_assoc, add-one-add))

-- A full window and one more call: the window is sent, and the buffer starts afresh.
pub append_all_full :
    (w : ℕ) (xs : List Text) (dropped : Text) (sent : List Text)
    → length xs ≡ w
    → append_all (pos w) (xs ++ dropped ∷ []) (at_start sent)
      ≡ record { buffer = []; frame_index = 0; sent = sent ++ frame xs ∷ [] }
unfolding append_all append_syscall
append_all_full w xs dropped sent h =
    rw append_all-append (rw (append_all_room w xs (at_start sent) (omega arith)) (ground arith))

-- A batch is a full window and the call behind it.
abbrev pub batch : List Text × Text → List Text
batch (xs, dropped) = xs ++ dropped ∷ []

-- A run of batches, each a full window and one call more, with at most a window of calls behind them,
-- sends one frame for each batch, with the names of its window, and keeps the rest in the buffer. The
-- one call more is in no frame.
pub append_all_batches :
    (w : ℕ) (bs : List (List Text × Text)) (rest : List Text) (sent : List Text)
    → All (λ b. length b.0 ≡ w) bs
    → length rest ≤ w
    → append_all (pos w) (concat (map batch bs) ++ rest) (at_start sent) ≡ record {
      buffer = join rest;
      frame_index = length rest;
      sent = sent ++ map (λ b. frame b.0) bs;
    }
append_all_batches w [] rest sent h k =
    append_all_room w rest _ (omega arith) ∙ simp (append-nil, zero-add)
append_all_batches w ((xs, dropped) ∷ bs) rest sent h k = rw (append_assoc (batch (xs, dropped))) (
    rw append_all-append (
      rw (append_all_full w xs dropped sent h.0)
        (append_all_batches w bs rest (sent ++ frame xs ∷ []) h.1 k ∙ simp append_assoc)))
