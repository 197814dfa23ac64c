-- ===== src/Text/Scan.antt =====
-- The parts of sscanf and atoi that the tracer uses: %d, %s and white space in a format.
pub mod Lengths
use xen_syscall_analysis.Base.{
  ℕ, zero, suc, ◌+◌, ◌*◌, ◌-◌, ◌/◌, ◌%◌, ◌<◌, ◌≡◌, refl, ap, ◌∙◌, Bool, true, false, ◌&&◌, ◌||◌,
  not, Option, some, none, [], ◌∷◌, ◌++◌, arith, leb, ltb, ◌==◌, if◌then◌else◌, All, All-append,
  Bool-cases, inl, inr,
}
use xen_syscall_analysis.Base.Int.{ℤ, pos, negsuc}
use xen_syscall_analysis.Text.{Text, codes, digit, digits_of, decimal, decimal-ne-nil}

abbrev pub is_digit : ℕ → Bool
is_digit c = leb b'0' c && leb c b'9'

-- `isspace`: tab, newline, vertical tab, form feed, carriage return, space.
abbrev pub is_space : ℕ → Bool
is_space c = c == 32 || (leb 9 c && leb c 13)

unfoldable pub skip_spaces : Text → Text
skip_spaces [] = []
skip_spaces (c ∷ t) = if is_space c then skip_spaces t else c ∷ t

-- The longest start whose bytes pass a test, and what follows it.
unfoldable pub span : (ℕ → Bool) → Text → Text × Text
span p [] = ([], [])
span p (c ∷ t) = let (s, r) = span p t in if p c then (c ∷ s, r) else ([], c ∷ t)

-- The value of a run of digits.
unfoldable pub value : ℕ → Text → ℕ
value acc [] = acc
value acc (c ∷ t) = value (acc * 10 + (c - b'0')) t

negate : ℕ → ℤ
negate zero = pos 0
negate (suc n) = negsuc n

signed : Bool → Text → Option (ℤ × Text)
signed minus t =
    let (ds, r) = span is_digit t in
    elim ds [
      | [] ↦ none
      | d ∷ ds' ↦ some ((if minus then negate (value 0 (d ∷ ds')) else pos (value 0 (d ∷ ds'))), r)
    ]

after_spaces : Text → Option (ℤ × Text)
after_spaces [] = none
after_spaces (c ∷ t) =
    if c == b'-' then signed true t else if c == b'+' then signed false t else signed false (c ∷ t)

-- `%d`: the number and what follows it, if there is one. Overflow is not modelled.
unfoldable pub scan_int : Text → Option (ℤ × Text)
unfolding after_spaces skip_spaces signed negate
scan_int t = after_spaces (skip_spaces t)

nonempty : Text × Text → Option (Text × Text)
nonempty ([], r) = none
nonempty (c ∷ s, r) = some (c ∷ s, r)

-- `%s`: a run of bytes that are not white space, if there is one.
unfoldable pub scan_word : Text → Option (Text × Text)
unfolding skip_spaces nonempty
scan_word t = nonempty (span (λ c. not (is_space c)) (skip_spaces t))

unfoldable pub atoi : Text → ℤ
unfolding scan_int
atoi t = elim (scan_int t) [ none ↦ pos 0 | some (n, r) ↦ n ]

atoi_test : atoi (codes " -42x") ≡ negsuc 41
unfolding atoi span value negate
atoi_test = refl

abbrev pub IsAll : (ℕ → Bool) → Text → Type 0
IsAll p t = All (λ c. p c ≡ true) t

pub span-append :
    (p : ℕ → Bool) (s : Text) (c : ℕ) (t : Text)
    → IsAll p s
    → p c ≡ false
    → span p (s ++ c ∷ t) ≡ (s, c ∷ t)
unfolding span
span-append p [] c t h k = rw k
span-append p (d ∷ s) c t h k = rw (span-append p s c t h.1 k) (rw h.0)

digit_lem : (d : ℕ) → d < 10 → is_digit (digit d) ≡ true
unfolding digit
digit_lem d h = ground arith

digits_of-IsAll : (fuel n : ℕ) → IsAll is_digit (digits_of 10 fuel n)
unfolding digits_of
digits_of-IsAll zero n = tt
digits_of-IsAll (suc fuel) n = elim (Bool-cases (ltb n 10)) [
  | inl small ↦ rw small (digit_lem n (ground arith), tt)
  | inr large ↦ rw large (
      All-append (λ c. is_digit c ≡ true) (digits_of 10 fuel (n / 10)) (digit (n % 10))
        (digits_of-IsAll fuel (n / 10)) (digit_lem (n % 10) (omega arith)))
]

pub decimal-IsAll : (n : ℕ) → IsAll is_digit (decimal n)
unfolding decimal
decimal-IsAll n = digits_of-IsAll (suc n) n

decimal-cons : (n : ℕ) → (c : ℕ) × (t : Text) × (decimal n ≡ c ∷ t)
decimal-cons n = go (decimal n) refl
  where
    go : (t : Text) → decimal n ≡ t → (c : ℕ) × (t : Text) × (decimal n ≡ c ∷ t)
    go [] e = absurd (decimal-ne-nil n e)
    go (c ∷ t) e = (c, t, e)

digit_not_space : (c : ℕ) → is_digit c ≡ true → is_space c ≡ false
digit_not_space c h = ground arith

not_eq : (b : Bool) → not b ≡ true → b ≡ false
not_eq b h = ground arith

-- `%d` reads a run of digits up to a byte that is none.
scan_int-digits :
    (d : ℕ) (ds : Text) (c : ℕ) (t : Text)
    → IsAll is_digit (d ∷ ds)
    → is_digit c ≡ false
    → scan_int ((d ∷ ds) ++ c ∷ t) ≡ some (pos (value 0 (d ∷ ds)), c ∷ t)
unfolding scan_int
scan_int-digits d ds c t h k =
    let head : is_space d ≡ false = digit_not_space d h.0 in
    let run : span is_digit ((d ∷ ds) ++ c ∷ t) ≡ (d ∷ ds, c ∷ t) =
      span-append is_digit (d ∷ ds) c t h k in
    ground (arith, h.0)

pub scan_int-decimal :
    (n c : ℕ) (t : Text)
    → is_digit c ≡ false
    → scan_int (decimal n ++ c ∷ t) ≡ some (pos (value 0 (decimal n)), c ∷ t)
scan_int-decimal n c t k =
    let (d, ds, e) = decimal-cons n in rw e (scan_int-digits d ds c t (rw e at (decimal-IsAll n)) k)

skip_spaces-word : (c : ℕ) (t : Text) → not (is_space c) ≡ true → skip_spaces (c ∷ t) ≡ c ∷ t
unfolding skip_spaces
skip_spaces-word c t h = rw (not_eq (is_space c) h)

pub scan_word-append :
    (c : ℕ) (s : Text) (d : ℕ) (t : Text)
    → IsAll (λ b. not (is_space b)) (c ∷ s)
    → is_space d ≡ true
    → scan_word ((c ∷ s) ++ d ∷ t) ≡ some (c ∷ s, d ∷ t)
unfolding scan_word
scan_word-append c s d t h k =
    let run : span (λ b. not (is_space b)) ((c ∷ s) ++ d ∷ t) ≡ (c ∷ s, d ∷ t) =
      span-append (λ b. not (is_space b)) (c ∷ s) d t h (rw k) in
    let start : skip_spaces ((c ∷ s) ++ d ∷ t) ≡ (c ∷ s) ++ d ∷ t =
      skip_spaces-word c (s ++ d ∷ t) h.0 in
    ap (λ r. nonempty (span (λ b. not (is_space b)) r)) start ∙ ap nonempty run
