-- ===== src/Detection/Multiset.antt =====
-- The windows of the detection server as multisets of calls: what a bag forgets, and what it keeps.
use mathlib.Core.List.{Perm, Permᴰ}
use mathlib.Core.List.Permᴰ
use mathlib.Core.Quot
use mathlib.Core.Quot.{Quot}
use native.Mathlib.Nat.{ℕ_set}
use xen_syscall_analysis.Base.{
  ℕ, ◌+◌, ◌<◌, ◌≡◌, ◌↔◌, refl, sym, ap, ◌∙◌, inl, inr, true, Bool-cases, Option, some, List, [],
  ◌∷◌, if◌then◌else◌, All, arith,
}
use xen_syscall_analysis.Text.{Text, text_eq, text_eq_sound, text_eq_refl}
use xen_syscall_analysis.Detection.{Lut, Bag, load_lookup_table, create_bosc}
use xen_syscall_analysis.Detection.Names.{is_known, IsDistinct}
use xen_syscall_analysis.Detection.Bags.{calls_of, unknown_calls, tabulate, create_bosc-calls_of}
use xen_syscall_analysis.Detection.Order.{create_bosc-perm}

-- A window without the order of its calls.
abbrev pub CallBag : Type 0
CallBag = Quot (Perm {A = Text})

abbrev pub of_calls : List Text → CallBag
of_calls = Quot.mk

unfoldable pub bosc_of : Lut → CallBag → Option Bag
bosc_of lut = Quot.lift (hlevel (ℕ_set)) (create_bosc lut) (λ w w' p. create_bosc-perm lut p)

erase : Text → List Text → List Text
erase x [] = []
erase x (y ∷ ys) = if text_eq y x then ys else y ∷ erase x ys

module _ (x : Text) where
  erase-perm : (w : List Text) → 0 < calls_of x w → Permᴰ w (x ∷ erase x w)
  unfolding erase
  erase-perm [] h = absurd (omega arith)
  erase-perm (y ∷ ys) h = elim (Bool-cases (text_eq y x)) [
    | inl same ↦ rw same (Permᴰ.cons (text_eq_sound y x same) (Permᴰ.refl ys))
    | inr other ↦ rw other (
        Permᴰ.trans (Permᴰ.cons refl (erase-perm ys (ground (arith, other))))
          (Permᴰ.swap refl refl))
  ]

  calls_of-erase :
      (s : Text) (w : List Text) → 0 < calls_of x w → calls_of s w ≡ calls_of s (x ∷ erase x w)
  unfolding erase
  calls_of-erase s [] h = absurd (omega arith)
  calls_of-erase s (y ∷ ys) h = elim (Bool-cases (text_eq y x)) [
    | inl same ↦
        rw same (ap (λ z. (if text_eq z s then 1 else 0) + calls_of s ys) (text_eq_sound y x same))
    | inr other ↦ rw other (omega (arith, calls_of-erase s ys (ground (arith, other))))
  ]

  All-erase {ℓ} : (P : Text → Type ℓ) (w : List Text) → All P w → All P (erase x w)
  unfolding erase
  All-erase P [] h = tt
  All-erase P (y ∷ ys) h = elim (Bool-cases (text_eq y x)) [
    | inl same ↦ rw same h.1
    | inr other ↦ rw other (h.0, All-erase P ys h.1)
  ]

module _ (names : List Text) where
  abbrev pub IsKnown : Text → Type 0
  IsKnown s = is_known s names ≡ true

  perm_of_calls :
      (w w' : List Text)
      → All IsKnown w
      → All IsKnown w'
      → ((s : Text) → IsKnown s → calls_of s w ≡ calls_of s w')
      → Permᴰ w w'
  perm_of_calls [] [] h h' same = Permᴰ.nil
  perm_of_calls [] (s ∷ w') h h' same = absurd (ground (arith, same s h'.0, text_eq_refl s))
  perm_of_calls (x ∷ w) w' h h' same =
      let often : 0 < calls_of x w' = ground (arith, same x h.0, text_eq_refl x) in
      Permᴰ.trans
        (Permᴰ.cons refl (
          perm_of_calls w (erase x w') h.1 (All-erase x IsKnown w' h')
            (λ s k. omega (arith, same s k, calls_of-erase x s w' often))))
        (Permᴰ.symm (erase-perm x w' often))

  tabulate_inj :
      (f g : Text → ℕ) (u v : ℕ) (rest : List Text)
      → tabulate f u rest ≡ tabulate g v rest
      → (s : Text) → is_known s rest ≡ true
      → f s ≡ g s
  tabulate_inj f g u v [] e s k = absurd (cc)
  tabulate_inj f g u v (name ∷ rest) e s k = elim (Bool-cases (text_eq s name)) [
    | inl same ↦ let here : s ≡ name = text_eq_sound s name same in cc
    | inr other ↦ tabulate_inj f g u v rest (cc) s (ground (arith, other))
  ]

  module _ (w w' : List Text) where
    perm_of_bosc :
        IsDistinct names
        → All IsKnown w
        → All IsKnown w'
        → create_bosc (load_lookup_table names) w ≡ create_bosc (load_lookup_table names) w'
        → Permᴰ w w'
    perm_of_bosc distinct known known' e =
        let tables : some (tabulate (λ n. calls_of n w) (unknown_calls names w) names)
            ≡ some (tabulate (λ n. calls_of n w') (unknown_calls names w') names) =
          sym (create_bosc-calls_of names w distinct)
          ∙ e
          ∙ create_bosc-calls_of names w' distinct in
        perm_of_calls w w' known known' (
          tabulate_inj (λ n. calls_of n w) (λ n. calls_of n w') (unknown_calls names w)
            (unknown_calls names w') names (cc))

    -- If no two names of the table are the same, and all calls of two windows have a name in it, the
    -- windows have the same bag exactly when they are the same but for the order of their calls.
    pub create_bosc_iff_of_calls :
        IsDistinct names
        → All IsKnown w
        → All IsKnown w'
        → (create_bosc (load_lookup_table names) w ≡ create_bosc (load_lookup_table names) w')
          ↔ (of_calls w ≡ of_calls w')
    unfolding bosc_of
    create_bosc_iff_of_calls distinct known known' = (
      λ e. Quot.sound (∣ perm_of_bosc distinct known known' e ∣₁),
      λ e. ap (bosc_of (load_lookup_table names)) e,
    )
