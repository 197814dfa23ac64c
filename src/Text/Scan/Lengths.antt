-- ===== src/Text/Scan/Lengths.antt =====
-- That scanning only ever shortens a text.
use xen_syscall_analysis.Base.{
  ℕ, ◌+◌, ◌≤◌, ◌≡◌, refl, Bool, true, false, not, some, [], ◌∷◌, length, arith,
}
use xen_syscall_analysis.Base.Int.{ℤ}
use xen_syscall_analysis.Text.{Text}
use xen_syscall_analysis.Text.Scan.{
  is_digit, is_space, skip_spaces, span, signed, after_spaces, scan_int, nonempty, scan_word,
}

pub length-skip_spaces-le : (t : Text) → length (skip_spaces t) ≤ length t
unfolding skip_spaces
length-skip_spaces-le [] = omega arith
length-skip_spaces-le (c ∷ t) = ground (arith, length-skip_spaces-le t)

length-span : (p : ℕ → Bool) (t : Text) → length (span p t).0 + length (span p t).1 ≡ length t
unfolding span
length-span p [] = refl
length-span p (c ∷ t) = ground (arith, length-span p t)

length-signed-le :
    (minus : Bool) (t : Text) (n : ℤ) (rest : Text)
    → signed minus t ≡ some (n, rest)
    → length rest ≤ length t
unfolding signed
length-signed-le minus t n rest e = ground (arith, length-span is_digit t)

length-after_spaces-le :
    (t : Text) (n : ℤ) (rest : Text) → after_spaces t ≡ some (n, rest) → length rest ≤ length t
unfolding after_spaces
length-after_spaces-le [] n rest e = absurd (cc)
length-after_spaces-le (c ∷ t) n rest e = ground (
  arith,
  length-signed-le true t n rest,
  length-signed-le false t n rest,
  length-signed-le false (c ∷ t) n rest,
)

pub length-scan_int-le :
    (t : Text) (n : ℤ) (rest : Text) → scan_int t ≡ some (n, rest) → length rest ≤ length t
unfolding scan_int
length-scan_int-le t n rest e =
    omega (arith, length-after_spaces-le (skip_spaces t) n rest e, length-skip_spaces-le t)

length-nonempty-le :
    (p : Text × Text) (word rest : Text) → nonempty p ≡ some (word, rest) → length word ≤ length p.0
unfolding nonempty
length-nonempty-le ([], r) word rest e = absurd (cc)
length-nonempty-le (c ∷ s, r) word rest e = ground arith

pub length-scan_word-le :
    (t word rest : Text) → scan_word t ≡ some (word, rest) → length word ≤ length t
unfolding scan_word
length-scan_word-le t word rest e =
    let is_word = λ (c : ℕ). not (is_space c) in
    omega (
      arith,
      length-nonempty-le (span is_word (skip_spaces t)) word rest e,
      length-span is_word (skip_spaces t),
      length-skip_spaces-le t,
    )
