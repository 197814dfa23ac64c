-- ===== src/Detection/Names.antt =====
-- What `load_lookup_table` makes of a table of names.
use xen_syscall_analysis.Base.{
  ℕ, suc, ◌+◌, ◌≡◌, refl, ap, ◌∙◌, inl, inr, Bool, true, false, Bool-cases, Option, some, none,
  List, [], ◌∷◌, if◌then◌else◌, length, arith, All,
}
use xen_syscall_analysis.Text.{Text, text_eq, text_eq_sound}
use xen_syscall_analysis.Detection.{Lut, has_value, set_item, load_rows}

abbrev pub is_known : Text → List Text → Bool
is_known s [] = false
is_known s (name ∷ names) = if text_eq s name then true else is_known s names

abbrev pub IsDistinct : List Text → Type 0
IsDistinct [] = Unit
IsDistinct (name ∷ names) = (is_known name names ≡ false) × IsDistinct names

text_eq_sym : (s t : Text) → text_eq s t ≡ text_eq t s
unfolding text_eq
text_eq_sym [] [] = refl
text_eq_sym [] (b ∷ t) = refl
text_eq_sym (a ∷ s) [] = refl
text_eq_sym (a ∷ s) (b ∷ t) = ground (arith, text_eq_sym s t)

abbrev pub shift : Option ℕ → Option ℕ
shift none = none
shift (some i) = some (suc i)

abbrev pub index_of : Text → List Text → Option ℕ
index_of s [] = none
index_of s (name ∷ names) = if text_eq s name then some 0 else shift (index_of s names)

abbrev pub found_at : (start : ℕ) → Option ℕ → Option ℕ → Option ℕ
found_at start none other = other
found_at start (some i) other = some (start + i)

index_of_unknown :
    (s : Text) (names : List Text) → is_known s names ≡ false → index_of s names ≡ none
index_of_unknown s [] h = refl
index_of_unknown s (name ∷ names) h = elim (Bool-cases (text_eq s name)) [
  | inl same ↦ absurd (ground (arith, same))
  | inr other ↦ rw other (rw (index_of_unknown s names (ground (arith, other))) refl)
]

found_at-shift :
    (start : ℕ) (i other : Option ℕ) → found_at (suc start) i other ≡ found_at start (shift i) other
found_at-shift start none other = refl
found_at-shift start (some i) other = ap some (omega arith)

pub find-load_rows :
    (s : Text) (start : ℕ) (names : List Text) (d : Lut)
    → IsDistinct names
    → (load_rows start names d).find s ≡ found_at start (index_of s names) (d.find s)
unfolding load_rows set_item
find-load_rows s start [] d h = refl
find-load_rows s start (name ∷ names) d h =
    find-load_rows s (suc start) names (set_item name start d) h.1
    ∙ (elim (Bool-cases (text_eq s name)) [
      | inl same ↦
          rw (index_of_unknown s names (rw (text_eq_sound s name same) h.0), same)
            (ap some (omega arith))
      | inr other ↦ rw other (found_at-shift start (index_of s names) (d.find s))
    ])

pub size-load_rows :
    (start : ℕ) (names : List Text) (d : Lut)
    → IsDistinct names
    → All (λ name. has_value (d.find name) ≡ false) names
    → (load_rows start names d).size ≡ d.size + length names
unfolding load_rows set_item
size-load_rows start [] d h new = omega arith
size-load_rows start (name ∷ names) d h new =
    let grown : (set_item name start d).size ≡ suc d.size = rw new.0 refl in
    omega (
      arith,
      size-load_rows (suc start) names (set_item name start d) h.1 (still_new names h.0 new.1),
      grown,
    )
  where
    still_new :
        (rest : List Text)
        → is_known name rest ≡ false
        → All (λ x. has_value (d.find x) ≡ false) rest
        → All (λ x. has_value ((set_item name start d).find x) ≡ false) rest
    still_new [] k a = tt
    still_new (x ∷ rest) k a = elim (Bool-cases (text_eq name x)) [
      | inl same ↦ absurd (ground (arith, same))
      | inr other ↦
          (rw (text_eq_sym x name) (rw other a.0), still_new rest (ground (arith, other)) a.1)
    ]
