-- ===== src/Window/Buffer.antt =====
-- How far `append_syscall` fills its buffer of `max_bufsize` bytes.
use xen_syscall_analysis.Base.{
  ℕ, ◌+◌, ◌*◌, ◌≤◌, ◌≡◌, ◌∙◌, inl, inr, Bool-cases, List, [], ◌∷◌, ◌++◌, arith, ◌==◌, length, All,
  All-append, append_assoc, append-nil, length-append,
}
use native.Mathlib.Nat.{add-zero}
use xen_syscall_analysis.Base.Int.{pos, negsuc}
use xen_syscall_analysis.Text.{Text}
use xen_syscall_analysis.Window.{Window, empty_window, append_syscall, append_all}
use xen_syscall_analysis.Window.Frames.{join, add-one-add}

-- Within a window of `w` names of at most `m` bytes, and so are the frames sent.
pub record Fits (w m : ℕ) (s : Window) : Type 0 where
  pub index_bound : s.frame_index ≤ w
  pub buffer_bound : length s.buffer ≤ s.frame_index * (m + 1)
  pub sent_bound : All (λ t. length t ≤ w * (m + 1) + 1) s.sent

module _ (w m : ℕ) where
  append_syscall-Fits :
      (x : Text) (s : Window) → length x ≤ m → Fits w m s → Fits w m (append_syscall (pos w) x s)
  unfolding append_syscall
  append_syscall-Fits x s h f = elim (Bool-cases (s.frame_index == w)) [
    | inl full ↦ rw full record {
      index_bound = omega arith;
      buffer_bound = omega arith;
      sent_bound =
          All-append _ s.sent _ f.sent_bound (rw length-append (ground (arith, f.buffer_bound)));
    }
    | inr room ↦ rw room record {
      index_bound = ground (arith, f.index_bound);
      buffer_bound = rw length-append (rw length-append (omega (arith, f.buffer_bound)));
      sent_bound = f.sent_bound;
    }
  ]

  append_all-Fits :
      (xs : List Text) (s : Window)
      → All (λ x. length x ≤ m) xs
      → Fits w m s
      → Fits w m (append_all (pos w) xs s)
  unfolding append_all
  append_all-Fits [] s h f = f
  append_all-Fits (x ∷ xs) s h f =
      append_all-Fits xs (append_syscall (pos w) x s) h.1 (append_syscall-Fits x s h.0 f)

  -- For names of at most `m` bytes and a window of `w` of them, the buffer never holds more than
  -- `w * (m + 1)` bytes, however many calls are made, and no frame sent has more than one more.
  pub append_all_bounds :
      (xs : List Text)
      → All (λ x. length x ≤ m) xs
      → (length (append_all (pos w) xs empty_window).buffer ≤ w * (m + 1))
        × All (λ t. length t ≤ w * (m + 1) + 1) (append_all (pos w) xs empty_window).sent
  append_all_bounds xs h =
      let f : Fits w m (append_all (pos w) xs empty_window) =
        append_all-Fits xs empty_window h
          (record { index_bound = omega arith; buffer_bound = omega arith; sent_bound = tt }) in
      (grind (arith, f.index_bound, f.buffer_bound), f.sent_bound)

-- With a negative window size nothing is ever sent: every name stays in the buffer.
append_all_negative :
    (n : ℕ) (xs : List Text) (s : Window)
    → append_all (negsuc n) xs s
      ≡ record s { buffer = s.buffer ++ join xs; frame_index = s.frame_index + length xs }
unfolding append_all append_syscall
append_all_negative n [] s = simp (append-nil, add-zero)
append_all_negative n (x ∷ xs) s = append_all_negative n xs _ ∙ simp (append_assoc, add-one-add)
