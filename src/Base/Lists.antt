-- ===== src/Base/Lists.antt =====
-- Lists measured and indexed by native numbers, under the library's names.
use Prim.Native.Nat.{ℕ, zero, suc, ◌+◌}
use mathlib.Core.Path.{◌≡◌, refl, ap}
use mathlib.Core.List.{List, [], ◌∷◌, ◌++◌}
use mathlib.Core.Option.{Option, none, some}
use native.Mathlib.Omega.{arith}

module _ {ℓ} {A : Type ℓ} where
  abbrev pub length : List A → ℕ
  length [] = 0
  length (x ∷ xs) = suc (length xs)

  abbrev pub get_elem? : List A → ℕ → Option A
  get_elem? [] i = none
  get_elem? (x ∷ xs) zero = some x
  get_elem? (x ∷ xs) (suc i) = get_elem? xs i

  -- A write out of bounds changes nothing.
  abbrev pub set : List A → ℕ → A → List A
  set [] i v = []
  set (x ∷ xs) zero v = v ∷ xs
  set (x ∷ xs) (suc i) v = x ∷ set xs i v

  pub length-append : (xs ys : List A) → length (xs ++ ys) ≡ length xs + length ys
  length-append [] ys = omega arith
  length-append (x ∷ xs) ys = omega (arith, length-append xs ys)

  -- Everything but the last element.
  abbrev pub drop_last : List A → List A
  drop_last [] = []
  drop_last (x ∷ []) = []
  drop_last (x ∷ y ∷ xs) = x ∷ drop_last (y ∷ xs)

  abbrev pub concat : List (List A) → List A
  concat [] = []
  concat (xs ∷ xss) = xs ++ concat xss

  abbrev pub All {κ} : (A → Type κ) → List A → Type κ
  All P [] = Unit
  All P (x ∷ xs) = P x × All P xs

module _ {ℓ κ} {A : Type ℓ} (P Q : A → Type κ) where
  pub All-implies : ((x : A) → P x → Q x) → (xs : List A) → All P xs → All Q xs
  All-implies f [] h = tt
  All-implies f (x ∷ xs) h = (f x h.0, All-implies f xs h.1)

module _ {ℓ κ} {A : Type ℓ} (P : A → Type κ) where
  pub All-append : (xs : List A) (x : A) → All P xs → P x → All P (xs ++ x ∷ [])
  All-append [] x h k = (k, tt)
  All-append (y ∷ xs) x h k = (h.0, All-append xs x h.1 k)

  pub All-append_both : (xs ys : List A) → All P xs → All P ys → All P (xs ++ ys)
  All-append_both [] ys h k = k
  All-append_both (x ∷ xs) ys h k = (h.0, All-append_both xs ys h.1 k)

  pub All-append_split : (xs ys : List A) → All P (xs ++ ys) → All P xs × All P ys
  All-append_split [] ys h = (tt, h)
  All-append_split (x ∷ xs) ys h =
      let (here, later) = All-append_split xs ys h.1 in ((h.0, here), later)

module _ {ℓ} {A : Type ℓ} where
  pub drop_last-append : (xs : List A) (x : A) → drop_last (xs ++ x ∷ []) ≡ xs
  drop_last-append [] x = refl
  drop_last-append (y ∷ []) x = refl
  drop_last-append (y ∷ z ∷ xs) x = ap (λ t. y ∷ t) (drop_last-append (z ∷ xs) x)

  pub length-set : (xs : List A) (i : ℕ) (v : A) → length (set xs i v) ≡ length xs
  length-set [] i v = refl
  length-set (x ∷ xs) zero v = refl
  length-set (x ∷ xs) (suc i) v = ap suc (length-set xs i v)
