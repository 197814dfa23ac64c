-- ===== src/Detection/Bags.antt =====
-- What a bag of `create_BoSC` counts.
use xen_syscall_analysis.Base.{
  ℕ, suc, ◌+◌, ◌≡◌, refl, sym, ap, ◌∙◌, inl, inr, false, Bool-cases, Option, some, none, List, [],
  ◌∷◌, if◌then◌else◌, length, arith, All,
}
use xen_syscall_analysis.Text.{Text, text_eq, text_eq_sound}
use xen_syscall_analysis.Detection.{
  Lut, empty_lut, has_value, load_rows, load_lookup_table, Bag, cons_bag, increment, increment_last,
  count_at, count_calls, zeros, create_bosc,
}
use xen_syscall_analysis.Detection.Names.{
  is_known, IsDistinct, shift, index_of, found_at, find-load_rows, size-load_rows,
}

-- The number of times that a name is called.
abbrev pub calls_of : Text → List Text → ℕ
calls_of name [] = 0
calls_of name (s ∷ ss) = (if text_eq s name then 1 else 0) + calls_of name ss

-- The number of calls of a name that is not in the table.
abbrev pub unknown_calls : (names : List Text) → List Text → ℕ
unknown_calls names [] = 0
unknown_calls names (s ∷ ss) = (if is_known s names then 0 else 1) + unknown_calls names ss

-- A value for each name, and one more.
abbrev pub tabulate : (Text → ℕ) → ℕ → List Text → Bag
tabulate f u [] = u ∷ []
tabulate f u (name ∷ names) = f name ∷ tabulate f u names

abbrev pub hit : Text → Text → ℕ
hit s name = if text_eq s name then 1 else 0

tabulate_cong :
    {f g : Text → ℕ} {u v : ℕ} (names : List Text)
    → ((name : Text) → f name ≡ g name)
    → u ≡ v
    → tabulate f u names ≡ tabulate g v names
tabulate_cong [] same e = ap (λ n. n ∷ []) e
tabulate_cong {u} {v} (name ∷ names) same e =
    simp (same name, tabulate_cong {u = u} {v = v} names same e)

tabulate_unknown :
    (s : Text) (f : Text → ℕ) (u : ℕ) (names : List Text)
    → is_known s names ≡ false
    → tabulate (λ n. f n + hit s n) u names ≡ tabulate f u names
tabulate_unknown s f u [] h = refl
tabulate_unknown s f u (name ∷ names) h = elim (Bool-cases (text_eq s name)) [
  | inl same ↦ absurd (ground (arith, same))
  | inr other ↦
      let zero_more : f name + hit s name ≡ f name = rw other (omega arith) in
      rw (zero_more, tabulate_unknown s f u names (ground (arith, other))) refl
]

count_at-shift :
    (i : Option ℕ) (n : ℕ) (f : Text → ℕ) (u : ℕ) (names : List Text)
    → count_at (shift i) (n ∷ tabulate f u names) ≡ cons_bag n (count_at i (tabulate f u names))
unfolding count_at increment increment_last
count_at-shift none n f u [] = refl
count_at-shift none n f u (name ∷ names) = refl
count_at-shift (some i) n f u names = refl

count_at-tabulate :
    (s : Text) (f : Text → ℕ) (u : ℕ) (names : List Text)
    → IsDistinct names
    → count_at (index_of s names) (tabulate f u names)
      ≡ some (tabulate (λ n. f n + hit s n) (u + (if is_known s names then 0 else 1)) names)
unfolding count_at increment increment_last
count_at-tabulate s f u [] h = ap (λ n. some (n ∷ [])) (omega arith)
count_at-tabulate s f u (name ∷ names) h = elim (Bool-cases (text_eq s name)) [
  | inl same ↦
      let missing : is_known s names ≡ false = rw (text_eq_sound s name same) h.0 in
      let more : ℕ = if is_known s (name ∷ names) then 0 else 1 in
      let at_start : index_of s (name ∷ names) ≡ some 0 = rw same refl in
      let rest : tabulate f u names ≡ tabulate (λ n. f n + hit s n) (u + more) names =
        sym (tabulate_unknown s f u names missing)
        ∙ tabulate_cong names (λ n. refl) (rw same (omega arith)) in
      let one_more : suc (f name) ≡ f name + hit s name = rw same (omega arith) in
      ap (λ i. count_at i (tabulate f u (name ∷ names))) at_start
      ∙ ap (λ n. some (n ∷ tabulate f u names)) one_more
      ∙ ap (λ bag. some ((f name + hit s name) ∷ bag)) rest
  | inr other ↦
      let same_known : is_known s (name ∷ names) ≡ is_known s names = rw other refl in
      let later : index_of s (name ∷ names) ≡ shift (index_of s names) = rw other refl in
      let no_more : f name ≡ f name + hit s name = rw other (omega arith) in
      let grown : Bag =
        tabulate (λ n. f n + hit s n) (u + (if is_known s names then 0 else 1)) names in
      ap (λ i. count_at i (tabulate f u (name ∷ names))) later
      ∙ count_at-shift (index_of s names) (f name) f u names
      ∙ ap (cons_bag (f name)) (count_at-tabulate s f u names h.1)
      ∙ ap (λ n. some (n ∷ grown)) no_more
      ∙ ap (λ k. some (tabulate (λ n. f n + hit s n) (u + (if k then 0 else 1)) (name ∷ names)))
          (sym same_known)
]

count_calls-tabulate :
    (lut : Lut) (names : List Text) (w : List Text) (f : Text → ℕ) (u : ℕ)
    → IsDistinct names
    → ((s : Text) → lut.find s ≡ index_of s names)
    → count_calls lut w (tabulate f u names)
      ≡ some (tabulate (λ n. f n + calls_of n w) (u + unknown_calls names w) names)
unfolding count_calls
count_calls-tabulate lut names [] f u h finds =
    ap some (tabulate_cong names (λ n. omega arith) (omega arith))
count_calls-tabulate lut names (s ∷ w) f u h finds =
    let more : ℕ = if is_known s names then 0 else 1 in
    rw (finds s) (
      rw (count_at-tabulate s f u names h) (
        count_calls-tabulate lut names w (λ n. f n + hit s n) (u + more) h finds
        ∙ ap some (tabulate_cong names (λ n. omega arith) (omega arith))))

zeros-tabulate : (names : List Text) → zeros (suc (length names)) ≡ tabulate (λ n. 0) 0 names
unfolding zeros
zeros-tabulate [] = refl
zeros-tabulate (name ∷ names) = ap (λ b. 0 ∷ b) (zeros-tabulate names)

All-new : (names : List Text) → All (λ name. has_value (empty_lut.find name) ≡ false) names
All-new [] = tt
All-new (name ∷ names) = (refl, All-new names)

-- If no two names of the table are the same, the bag of a window always exists, and has for each
-- name, in the order of the table, the number of its calls, and at the end that of the other calls.
pub create_bosc-calls_of :
    (names w : List Text)
    → IsDistinct names
    → create_bosc (load_lookup_table names) w
      ≡ some (tabulate (λ name. calls_of name w) (unknown_calls names w) names)
unfolding create_bosc load_lookup_table
create_bosc-calls_of names w h =
    let finds : (s : Text) → (load_rows 0 names empty_lut).find s ≡ index_of s names =
      λ s. find-load_rows s 0 names empty_lut h ∙ found_from_start (index_of s names) in
    ap (λ n. count_calls (load_rows 0 names empty_lut) w (zeros n))
      (omega (arith, size-load_rows 0 names empty_lut h (All-new names)))
    ∙ ap (count_calls (load_rows 0 names empty_lut) w) (zeros-tabulate names)
    ∙ count_calls-tabulate (load_rows 0 names empty_lut) names w (λ n. 0) 0 h finds
    ∙ ap some (tabulate_cong names (λ n. omega arith) (omega arith))
  where
    found_from_start : (i : Option ℕ) → found_at 0 i none ≡ i
    found_from_start none = refl
    found_from_start (some i) = ap some (omega arith)
