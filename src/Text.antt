-- ===== src/Text.antt =====
-- C strings as the lists of their bytes, without the closing NUL, and the conversions of printf
-- that the tracer uses: %u, %d, %lx and %s.
pub mod Scan
pub mod Utf8
use Prim.Native.Char.{code}
use Prim.Native.String.{String}
use xen_syscall_analysis.Base.{
  ℕ, zero, suc, ◌+◌, ◌/◌, ◌%◌, ◌^◌, ◌*◌, ◌≤◌, ◌<◌, ◌≡◌, ◌≢◌, refl, Bool, true, false, ◌&&◌, List,
  [], ◌∷◌, ◌++◌, arith, ◌-◌, ltb, le→ltb, ◌==◌, if◌then◌else◌, length, length-append, Bool-cases,
  inl, inr,
}
use native.Mathlib.Nat.{
  pow-suc, pow-zero, div-lt_iff_lt-mul, le-div_iff_mul-le, div-lt_self, one-le-pow,
}
use xen_syscall_analysis.Base.Int.{ℤ, pos, negsuc}

abbrev pub Text : Type 0
Text = List ℕ

abbrev pub codes : String → Text
codes String.[] = []
codes (String.◌∷◌ c s) = code c ∷ codes s

-- `strcmp(a, b) == 0`.
unfoldable pub text_eq : Text → Text → Bool
text_eq [] [] = true
text_eq (a ∷ s) (b ∷ t) = (a == b) && text_eq s t
text_eq _ _ = false

pub text_eq_sound : (s t : Text) → text_eq s t ≡ true → s ≡ t
unfolding text_eq
text_eq_sound [] [] h = refl
text_eq_sound [] (b ∷ t) h = ground arith
text_eq_sound (a ∷ s) [] h = ground arith
text_eq_sound (a ∷ s) (b ∷ t) h = ground (arith, text_eq_sound s t)

pub text_eq_refl : (s : Text) → text_eq s s ≡ true
unfolding text_eq
text_eq_refl [] = refl
text_eq_refl (a ∷ s) = ground (arith, text_eq_refl s)

digit : ℕ → ℕ
digit d = if ltb d 10 then d + b'0' else d - 10 + b'a'

-- The digits of a number, the most significant first; `suc n` rounds are enough for `n`.
digits_of : (base fuel : ℕ) → ℕ → Text
digits_of base zero n = []
digits_of base (suc fuel) n =
    let rest = digits_of base fuel (n / base) in
    if ltb n base then digit n ∷ [] else rest ++ digit (n % base) ∷ []

-- `%u`.
unfoldable pub decimal : ℕ → Text
unfolding digits_of digit
decimal n = digits_of 10 (suc n) n

-- `%lx`.
unfoldable pub hex : ℕ → Text
unfolding digits_of digit
hex n = digits_of 16 (suc n) n

-- `%d`.
unfoldable pub signed_decimal : ℤ → Text
unfolding decimal
signed_decimal (pos n) = decimal n
signed_decimal (negsuc n) = b'-' ∷ decimal (suc n)

test_decimal : decimal 4096 ≡ codes "4096"
unfolding decimal
test_decimal = refl

test_hex : hex 0xbeef ≡ codes "beef"
unfolding hex
test_hex = refl

module _ (base : ℕ) (large_base : 1 < base) where
  -- A number below `base ^ k` has at most k digits.
  length-digits_of-le : (fuel k n : ℕ) → n < base ^ suc k → length (digits_of base fuel n) ≤ suc k
  unfolding digits_of
  length-digits_of-le zero k n h = omega arith
  length-digits_of-le (suc fuel) zero n h = ground (arith, pow-suc base 0, pow-zero base)
  length-digits_of-le (suc fuel) (suc k) n h =
      let positive : 0 < base = omega arith in
      let bound : n / base < base ^ suc k = (div-lt_iff_lt-mul positive).1 (rw pow-suc at h) in
      elim (Bool-cases (ltb n base)) [
        | inl small ↦ rw small (omega arith)
        | inr large ↦
            rw (large, length-append) (omega (arith, length-digits_of-le fuel k (n / base) bound))
      ]

  -- A number from `base ^ k` on has more than k digits.
  lt-length-digits_of :
      (fuel k n : ℕ) → n < fuel → base ^ k ≤ n → k < length (digits_of base fuel n)
  unfolding digits_of
  lt-length-digits_of zero k n enough h = elim enough [ ]
  lt-length-digits_of (suc fuel) zero n enough h = elim (Bool-cases (ltb n base)) [
    | inl small ↦ rw small (omega arith)
    | inr large ↦ rw (large, length-append) (omega arith)
  ]
  lt-length-digits_of (suc fuel) (suc k) n enough h =
      let pos_pow : 1 ≤ base ^ k = one-le-pow k base (omega arith) in
      let grown : base ^ k * base ≤ n = rw pow-suc at h in
      let big : base ≤ n = grind arith in
      let smaller : n / base < n = div-lt_self (omega arith) large_base in
      let positive : 0 < base = omega arith in
      let fewer : n / base < fuel = omega arith in
      let rest : base ^ k ≤ n / base = (le-div_iff_mul-le positive).1 grown in
      rw (le→ltb n base big, length-append)
        (omega (arith, lt-length-digits_of fuel k (n / base) fewer rest))

pub length-decimal-le : (k n : ℕ) → n < 10 ^ suc k → length (decimal n) ≤ suc k
unfolding decimal
length-decimal-le k n h = length-digits_of-le 10 (omega arith) (suc n) k n h

pub decimal-ne-nil : (n : ℕ) → decimal n ≢ []
unfolding decimal
decimal-ne-nil n h = ground (arith, lt-length-digits_of 10 (omega arith) (suc n) 0 n)

pub length-hex-le : (k n : ℕ) → n < 16 ^ suc k → length (hex n) ≤ suc k
unfolding hex
length-hex-le k n h = length-digits_of-le 16 (omega arith) (suc n) k n h

pub lt-length-hex : (k n : ℕ) → 16 ^ k ≤ n → k < length (hex n)
unfolding hex
lt-length-hex k n h = lt-length-digits_of 16 (omega arith) (suc n) k n (omega arith) h
