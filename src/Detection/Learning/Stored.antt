-- ===== src/Detection/Learning/Stored.antt =====
-- What is in the table after the bags of windows were stored.
use xen_syscall_analysis.Base.{
  ℕ, zero, suc, ◌≡◌, refl, ap, ◌∙◌, inl, inr, Bool, true, false, ◌||◌, Bool-cases, some, List, [],
  ◌∷◌, ◌++◌, map, All, arith, ltb, length,
}
use xen_syscall_analysis.Text.{Text, text_eq, text_eq_sound}
use xen_syscall_analysis.Detection.{
  Bag, create_bosc, load_lookup_table, str, Table, is_stored, insert_bag_if_nonexistent,
}
use xen_syscall_analysis.Detection.Names.{is_known, IsDistinct}
use xen_syscall_analysis.Detection.Bags.{calls_of, unknown_calls, tabulate, create_bosc-calls_of}
use xen_syscall_analysis.Detection.Windows.{take, windows, store_windows}

-- The bag of a window of known calls.
abbrev pub known_bag : (names w : List Text) → Bag
known_bag names w = tabulate (λ name. calls_of name w) 0 names

abbrev pub never : ℕ → Bool
never n = false

abbrev pub IsKnown : (names : List Text) → Text → Type 0
IsKnown names s = is_known s names ≡ true

unknown_calls_zero : (names w : List Text) → All (IsKnown names) w → unknown_calls names w ≡ 0
unknown_calls_zero names [] h = refl
unknown_calls_zero names (s ∷ w) h = ground (arith, h.0, unknown_calls_zero names w h.1)

create_bosc-known_bag :
    (names w : List Text)
    → IsDistinct names
    → All (IsKnown names) w
    → create_bosc (load_lookup_table names) w ≡ some (known_bag names w)
create_bosc-known_bag names w distinct h =
    create_bosc-calls_of names w distinct
    ∙ ap (λ n. some (tabulate (λ name. calls_of name w) n names)) (unknown_calls_zero names w h)

All-take : (P : Text → Type 0) (n : ℕ) (xs : List Text) → All P xs → All P (take n xs)
All-take P zero xs h = tt
All-take P (suc n) [] h = tt
All-take P (suc n) (x ∷ xs) h = (h.0, All-take P n xs h.1)

pub All-windows :
    (P : Text → Type 0) (size : ℕ) (xs : List Text) → All P xs → All (All P) (windows size xs)
All-windows P size [] h = tt
All-windows P size (x ∷ xs) h = elim (Bool-cases (ltb size (suc (length xs)))) [
  | inl more ↦ rw more (All-take P size (x ∷ xs) h, All-windows P size xs h.1)
  | inr last ↦ rw last tt
]

is_stored-append :
    (key new : Text) (t : Table)
    → is_stored key (t ++ new ∷ []) ≡ (is_stored key t || text_eq key new)
unfolding is_stored
is_stored-append key new [] = ground arith
is_stored-append key new (x ∷ t) = ground (arith, is_stored-append key new t)

is_stored_again :
    (key new : Text) (t : Table)
    → is_stored new t ≡ true
    → is_stored key t ≡ (is_stored key t || text_eq key new)
is_stored_again key new t h = elim (Bool-cases (text_eq key new)) [
  | inl same ↦
      let stored : is_stored key t ≡ true = rw (text_eq_sound key new same) h in rw stored refl
  | inr other ↦ ground (arith, other)
]

-- Storing a bag without an error.
insert-never :
    (new : Text) (t : Table)
    → (u : Table) × (insert_bag_if_nonexistent false new t ≡ some u)
      × ((key : Text) → is_stored key u ≡ (is_stored key t || text_eq key new))
unfolding insert_bag_if_nonexistent
insert-never new t = elim (Bool-cases (is_stored new t)) [
  | inl stored ↦ (t, rw stored refl, λ key. is_stored_again key new t stored)
  | inr fresh ↦ (t ++ new ∷ [], rw fresh refl, λ key. is_stored-append key new t)
]

-- If no two names of the table are the same, the calls of all windows are among them, and no query
-- raises, then the bags of the windows are stored beside what was there, and nothing else is.
pub store_windows-known_bag :
    (names : List Text) (ws : List (List Text)) (t : Table)
    → IsDistinct names
    → All (All (IsKnown names)) ws
    → (u : Table) × (store_windows (load_lookup_table names) never ws t ≡ some u)
      × ((key : Text)
          → is_stored key u
            ≡ (is_stored key t || is_known key (map (λ w. str (known_bag names w)) ws)))
store_windows-known_bag names [] t distinct h = (t, refl, λ key. ground arith)
store_windows-known_bag names (w ∷ ws) t distinct h =
    let (u, inserted, has_u) = insert-never (str (known_bag names w)) t in
    let (z, stored, has_z) = store_windows-known_bag names ws u distinct h.1 in
    (
      z,
      rw (create_bosc-known_bag names w distinct h.0, inserted) stored,
      λ key. ground (arith, has_u key, has_z key),
    )
