-- ===== src/Window/Batches.antt =====
-- Every run of calls is a run of batches with at most a window of calls behind them.
use xen_syscall_analysis.Base.{
  ℕ, zero, suc, ◌≤◌, ◌≡◌, ◌⊎◌, inl, inr, refl, ap, ◌∙◌, sym, List, [], ◌∷◌, ◌++◌, append_assoc, map,
  concat, length, length-append, All, arith,
}
use xen_syscall_analysis.Text.{Text}
use xen_syscall_analysis.Window.Frames.{batch}

-- The batches of a list of names, and the rest.
pub record Batches (w : ℕ) (xs : List Text) : Type 0 where
  pub full : List (List Text × Text)
  pub rest : List Text
  pub whole : xs ≡ concat (map batch full) ++ rest
  pub full_length : All (λ b. length b.0 ≡ w) full
  pub rest_length : length rest ≤ w

cut :
    (w : ℕ) (xs : List Text)
    → (length xs ≤ w)
      ⊎ ((b : List Text × Text) × (after : List Text) × ((xs ≡ batch b ++ after)
            × (length b.0 ≡ w)))
cut w [] = inl (omega arith)
cut zero (x ∷ xs) = inr (([], x), xs, (refl, refl))
cut (suc w) (x ∷ xs) = elim (cut w xs) [
  | inl few ↦ inl (omega (arith, few))
  | inr (b, after, (e, n)) ↦ inr ((x ∷ b.0, b.1), after, (ap (λ r. x ∷ r) e, ap suc n))
]

Batches-within : (fuel w : ℕ) (xs : List Text) → length xs ≤ fuel → Batches w xs
Batches-within zero w xs h = record {
  full = [];
  rest = xs;
  whole = refl;
  full_length = tt;
  rest_length = omega (arith, h);
}
Batches-within (suc fuel) w xs h = elim (cut w xs) [
  | inl few ↦ record { full = []; rest = xs; whole = refl; full_length = tt; rest_length = few }
  | inr (b, after, (e, n)) ↦
      let more = Batches-within fuel w after (
        omega (
          arith,
          h,
          ap length e,
          length-append {0} (batch b) after,
          length-append {0} b.0 (b.1 ∷ []),
        )) in
      record {
        full = b ∷ more.full;
        rest = more.rest;
        whole =
            e
            ∙ ap (λ r. batch b ++ r) more.whole
            ∙ sym (append_assoc (batch b) (concat (map batch more.full)) more.rest);
        full_length = (n, more.full_length);
        rest_length = more.rest_length;
      }
]

pub batches : (w : ℕ) (xs : List Text) → Batches w xs
batches w xs = Batches-within (length xs) w xs (omega arith)
