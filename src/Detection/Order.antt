-- ===== src/Detection/Order.antt =====
-- The bag of a window does not depend on the order of its calls, whatever the dictionary holds.
use mathlib.Core.Logic.{∥∥₁_elim}
use mathlib.Core.List.{Perm, Permᴰ}
use native.Mathlib.Nat.{ℕ_set}
use xen_syscall_analysis.Base.{
  ℕ, zero, suc, ◌+◌, ◌≡◌, refl, sym, ap, ◌∙◌, Option, some, none, List, [], ◌∷◌,
}
use xen_syscall_analysis.Text.{Text}
use xen_syscall_analysis.Detection.{
  Lut, Bag, cons_bag, increment, increment_last, count_at, then_bag, count_calls, zeros,
  create_bosc,
}

-- Two steps that may both fail, in either order.
abbrev Commute : (Bag → Option Bag) → (Bag → Option Bag) → Bag → Type 0
Commute f g bag = then_bag (f bag) g ≡ then_bag (g bag) f

then_bag-cons :
    (n i : ℕ) (o : Option Bag)
    → then_bag (cons_bag n o) (increment (suc i)) ≡ cons_bag n (then_bag o (increment i))
unfolding increment
then_bag-cons n i none = refl
then_bag-cons n i (some bag) = refl

then_bag-cons_zero :
    (n : ℕ) (o : Option Bag) → cons_bag (suc n) o ≡ then_bag (cons_bag n o) (increment zero)
unfolding increment
then_bag-cons_zero n none = refl
then_bag-cons_zero n (some bag) = refl

increment-increment : (i j : ℕ) (bag : Bag) → Commute (increment i) (increment j) bag
unfolding increment
increment-increment i j [] = refl
increment-increment zero zero (n ∷ bag) = refl
increment-increment zero (suc j) (n ∷ bag) = then_bag-cons_zero n (increment j bag)
increment-increment (suc i) zero (n ∷ bag) = sym (then_bag-cons_zero n (increment i bag))
increment-increment (suc i) (suc j) (n ∷ bag) =
    then_bag-cons n j (increment i bag)
    ∙ ap (cons_bag n) (increment-increment i j bag)
    ∙ sym (then_bag-cons n i (increment j bag))

last-cons :
    (n m : ℕ) (o : Option Bag)
    → then_bag (cons_bag n (cons_bag m o)) increment_last
      ≡ cons_bag n (then_bag (cons_bag m o) increment_last)
unfolding increment_last
last-cons n m none = refl
last-cons n m (some bag) = refl

last-increment :
    (n m i : ℕ) (bag : Bag)
    → then_bag (cons_bag n (increment i (m ∷ bag))) increment_last
      ≡ cons_bag n (then_bag (increment i (m ∷ bag)) increment_last)
unfolding increment increment_last
last-increment n m zero bag = refl
last-increment n m (suc i) bag = last-cons n m (increment i bag)

increment-increment_last : (i : ℕ) (bag : Bag) → Commute (increment i) increment_last bag
unfolding increment increment_last
increment-increment_last i [] = refl
increment-increment_last zero (n ∷ []) = refl
increment-increment_last (suc i) (n ∷ []) = refl
increment-increment_last zero (n ∷ m ∷ bag) = then_bag-cons_zero n (increment_last (m ∷ bag))
increment-increment_last (suc i) (n ∷ m ∷ bag) =
    last-increment n m i bag
    ∙ ap (cons_bag n) (increment-increment_last i (m ∷ bag))
    ∙ sym (then_bag-cons n i (increment_last (m ∷ bag)))

count_at-count_at : (i j : Option ℕ) (bag : Bag) → Commute (count_at i) (count_at j) bag
unfolding count_at
count_at-count_at none none bag = refl
count_at-count_at none (some j) bag = sym (increment-increment_last j bag)
count_at-count_at (some i) none bag = increment-increment_last i bag
count_at-count_at (some i) (some j) bag = increment-increment i j bag

then_bag_assoc {ℓ} :
    {A : Type ℓ} (o : Option Bag) (f : Bag → Option Bag) (g : Bag → Option A)
    → then_bag o (λ bag. then_bag (f bag) g) ≡ then_bag (then_bag o f) g
then_bag_assoc none f g = refl
then_bag_assoc (some bag) f g = refl

then_bag_cong :
    (o : Option Bag) (f g : Bag → Option Bag)
    → ((bag : Bag) → f bag ≡ g bag)
    → then_bag o f ≡ then_bag o g
then_bag_cong none f g same = refl
then_bag_cong (some bag) f g same = same bag

module _ (lut : Lut) where
  count_calls-Permᴰ :
      {w w' : List Text} → Permᴰ w w' → (bag : Bag) → count_calls lut w bag ≡ count_calls lut w' bag
  unfolding count_calls
  count_calls-Permᴰ Permᴰ.nil bag = refl
  count_calls-Permᴰ (Permᴰ.cons {a} {b} {l₁} {l₂} e p) bag =
      ap (λ x. then_bag (count_at (lut.find x) bag) (count_calls lut l₁)) e
      ∙ then_bag_cong (count_at (lut.find b) bag) (count_calls lut l₁) (count_calls lut l₂)
          (count_calls-Permᴰ p)
  count_calls-Permᴰ (Permᴰ.swap {a} {b} {a'} {b'} {l} e e') bag =
      then_bag_assoc (count_at (lut.find a) bag) (count_at (lut.find b)) (count_calls lut l)
      ∙ ap (λ o. then_bag o (count_calls lut l)) (count_at-count_at (lut.find a) (lut.find b) bag)
      ∙ sym (then_bag_assoc (count_at (lut.find b) bag) (count_at (lut.find a)) (count_calls lut l))
      ∙ ap (λ x. count_calls lut (x ∷ a ∷ l) bag) e'
      ∙ ap (λ x. count_calls lut (a' ∷ x ∷ l) bag) e
  count_calls-Permᴰ (Permᴰ.trans p q) bag = count_calls-Permᴰ p bag ∙ count_calls-Permᴰ q bag

  -- Two windows with the same calls in another order have the same bag, or both have none.
  pub create_bosc-perm : {w w' : List Text} → Perm w w' → create_bosc lut w ≡ create_bosc lut w'
  unfolding create_bosc
  create_bosc-perm {w} {w'} p =
      ∥∥₁_elim p (hlevel (ℕ_set)) (λ q. count_calls-Permᴰ q (zeros (lut.size + 1)))
