-- ===== src/SyscallTable/Lines.antt =====
-- The lines that the loop over `fgets` sees: nothing of the file is lost, and a file written line
-- by line is read line by line, as long as no line has more than 254 bytes before its newline.
use xen_syscall_analysis.Base.{
  ℕ, zero, suc, ◌≤◌, ◌<◌, ◌≡◌, refl, ap, ◌∙◌, false, Bool-cases, inl, inr, List, [], ◌∷◌, ◌++◌, map,
  arith, ◌==◌, length, length-append, append_assoc, concat, All,
}
use native.Mathlib.Nat.{le_of_lt}
use xen_syscall_analysis.Text.{Text}
use xen_syscall_analysis.SyscallTable.{newline, fgets, read_lines, file_lines}

fgets-append : (room : ℕ) (t : Text) → (fgets room t).0 ++ (fgets room t).1 ≡ t
unfolding fgets
fgets-append zero t = refl
fgets-append (suc room) [] = refl
fgets-append (suc room) (c ∷ t) = elim (Bool-cases (c == newline)) [
  | inl end ↦ rw end
  | inr more ↦ rw more (ap (λ s. c ∷ s) (fgets-append room t))
]

fgets-le : (room : ℕ) (t : Text) → length (fgets room t).1 ≤ length t
unfolding fgets
fgets-le zero t = omega arith
fgets-le (suc room) [] = omega arith
fgets-le (suc room) (c ∷ t) = ground (arith, fgets-le room t)

-- A call on a file with something left takes at least one byte.
fgets-lt : (c : ℕ) (t : Text) → length (fgets 255 (c ∷ t)).1 ≤ length t
fgets-lt c t = go 254
  where
    go : (room : ℕ) → length (fgets (suc room) (c ∷ t)).1 ≤ length t
    go room = unfold fgets in ground (arith, fgets-le room t)

concat-read_lines : (fuel : ℕ) (t : Text) → length t ≤ fuel → concat (read_lines fuel t) ≡ t
unfolding read_lines
concat-read_lines zero [] h = refl
concat-read_lines zero (c ∷ t) h = elim h [ ]
concat-read_lines (suc fuel) [] h = refl
concat-read_lines (suc fuel) (c ∷ t) h =
    ap (λ r. (fgets 255 (c ∷ t)).0 ++ r)
      (concat-read_lines fuel (fgets 255 (c ∷ t)).1 (omega (arith, fgets-lt c t)))
    ∙ fgets-append 255 (c ∷ t)

-- The loop ends by itself, and the lines it saw are the file.
pub concat-file_lines : (t : Text) → concat (file_lines t) ≡ t
unfolding file_lines
concat-file_lines t = concat-read_lines (length t) t (omega arith)

read_lines_enough :
    (f g : ℕ) (t : Text) → length t ≤ f → length t ≤ g → read_lines f t ≡ read_lines g t
unfolding read_lines
read_lines_enough zero zero [] h k = refl
read_lines_enough zero (suc g) [] h k = refl
read_lines_enough (suc f) zero [] h k = refl
read_lines_enough (suc f) (suc g) [] h k = refl
read_lines_enough zero g (c ∷ t) h k = elim h [ ]
read_lines_enough (suc f) zero (c ∷ t) h k = elim k [ ]
read_lines_enough (suc f) (suc g) (c ∷ t) h k =
    ap (λ r. (fgets 255 (c ∷ t)).0 ∷ r)
      (read_lines_enough f g (fgets 255 (c ∷ t)).1 (omega (arith, fgets-lt c t))
        (omega (arith, fgets-lt c t)))

read_lines_step :
    (fuel c : ℕ) (t : Text) {line rest : Text}
    → fgets 255 (c ∷ t) ≡ (line, rest)
    → read_lines (suc fuel) (c ∷ t) ≡ line ∷ read_lines fuel rest
unfolding read_lines
read_lines_step fuel c t e = rw e

read_lines-nil : (fuel : ℕ) → read_lines fuel [] ≡ []
unfolding read_lines
read_lines-nil zero = refl
read_lines-nil (suc fuel) = refl

abbrev pub NewlineFree : Text → Type 0
NewlineFree t = All (λ c. (c == newline) ≡ false) t

fgets-line :
    (room : ℕ) (s t : Text)
    → NewlineFree s
    → length s < room
    → fgets room (s ++ newline ∷ t) ≡ (s ++ newline ∷ [], t)
unfolding fgets
fgets-line zero s t h k = elim k [ ]
fgets-line (suc room) [] t h k = refl
fgets-line (suc room) (c ∷ s) t h k = rw (fgets-line room s t h.1 (omega arith)) (rw h.0)

fgets-last : (room : ℕ) (s : Text) → NewlineFree s → length s ≤ room → fgets room s ≡ (s, [])
unfolding fgets
fgets-last zero [] h k = refl
fgets-last zero (c ∷ s) h k = elim k [ ]
fgets-last (suc room) [] h k = refl
fgets-last (suc room) (c ∷ s) h k = rw (fgets-last room s h.1 (omega arith)) (rw h.0)

-- A line that fits the buffer with its newline.
pub record IsLine (s : Text) : Type 0 where
  pub one_line : NewlineFree s
  pub fits : length s < 255

abbrev pub close_line : Text → Text
close_line s = s ++ newline ∷ []

pub file_lines-line :
    (s t : Text) → IsLine s → file_lines (s ++ newline ∷ t) ≡ close_line s ∷ file_lines t
unfolding file_lines
file_lines-line [] t l = read_lines_step (length t) newline t (fgets-line 255 [] t tt (omega arith))
file_lines-line (c ∷ s) t l =
    read_lines_step (length (s ++ newline ∷ t)) c (s ++ newline ∷ t)
      (fgets-line 255 (c ∷ s) t l.one_line l.fits)
    ∙ ap (λ r. close_line (c ∷ s) ∷ r)
        (read_lines_enough (length (s ++ newline ∷ t)) (length t) t (rw length-append (omega arith))
          (omega arith))

-- A file that is written line by line, with a last line that has no newline.
pub file_lines-concat :
    (ss : List Text) (last : Text)
    → All IsLine ss
    → file_lines (concat (map close_line ss) ++ last) ≡ map close_line ss ++ file_lines last
file_lines-concat [] last h = refl
file_lines-concat (s ∷ ss) last h =
    ap file_lines (
      append_assoc (close_line s) (concat (map close_line ss)) last
      ∙ append_assoc s (newline ∷ []) (concat (map close_line ss) ++ last))
    ∙ file_lines-line s (concat (map close_line ss) ++ last) h.0
    ∙ ap (λ r. close_line s ∷ r) (file_lines-concat ss last h.1)

pub file_lines-last : (c : ℕ) (s : Text) → IsLine (c ∷ s) → file_lines (c ∷ s) ≡ (c ∷ s) ∷ []
unfolding file_lines
file_lines-last c s l =
    read_lines_step (length s) c s (fgets-last 255 (c ∷ s) l.one_line (le_of_lt l.fits))
    ∙ ap (λ r. (c ∷ s) ∷ r) (read_lines-nil (length s))
