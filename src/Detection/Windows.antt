-- ===== src/Detection/Windows.antt =====
-- Which windows the two loops of the server make bags of, and what the analysis finds.
use xen_syscall_analysis.Base.{
  ℕ, zero, suc, ◌≤◌, ◌<◌, ◌≡◌, refl, sym, ap, ◌∙◌, inl, inr, Bool, true, false, Bool-cases, Option,
  some, none, List, [], ◌∷◌, ◌++◌, append-nil, append_assoc, ◌==◌, ltb, if◌then◌else◌, length,
  length-append, arith,
}
use xen_syscall_analysis.Text.{Text}
use xen_syscall_analysis.Detection.{
  Lut, Bag, then_bag, create_bosc, str, Table, insert_bag_if_nonexistent, BoscCreator, slide,
  learned, learn_row, then_learn, learn_rows, create_learning_db, load_lookup_table,
}

abbrev pub take : ℕ → List Text → List Text
take zero xs = []
take (suc n) [] = []
take (suc n) (x ∷ xs) = x ∷ take n xs

-- The windows of consecutive calls behind which another call stands.
abbrev pub windows : (size : ℕ) → List Text → List (List Text)
windows size [] = []
windows size (x ∷ xs) =
    if ltb size (suc (length xs)) then take size (x ∷ xs) ∷ windows size xs else []

abbrev pub then_table {ℓ} : {A : Type ℓ} → Option Table → (Table → Option A) → Option A
then_table none f = none
then_table (some t) f = f t

-- The bags of windows, stored one behind the other.
abbrev pub store_windows : Lut → (raises : ℕ → Bool) → List (List Text) → Table → Option Table
store_windows lut raises [] t = some t
store_windows lut raises (w ∷ ws) t = then_bag (create_bosc lut w) (λ bag.
    then_table (insert_bag_if_nonexistent (raises 0) (str bag) t)
      (store_windows lut (λ n. raises (suc n)) ws))

abbrev pub table_of : Option (BoscCreator × Table) → Option Table
table_of none = none
table_of (some (c, t)) = some t

take-append : (w xs : List Text) → take (length w) (w ++ xs) ≡ w
take-append [] xs = refl
take-append (x ∷ w) xs = ap (λ r. x ∷ r) (take-append w xs)

pub windows_short : (size : ℕ) (w : List Text) → length w ≤ size → windows size w ≡ []
windows_short size [] h = refl
windows_short size (x ∷ w) h = ground arith

-- A full window with a call behind it.
pub windows_full :
    (size : ℕ) (x : Text) (w : List Text) (row : Text) (rows : List Text)
    → suc (length w) ≡ size
    → windows size ((x ∷ w) ++ row ∷ rows) ≡ (x ∷ w) ∷ windows size ((w ++ row ∷ []) ++ rows)
windows_full size x w row rows h =
    let longer : ltb size (suc (length (w ++ row ∷ rows))) ≡ true =
      rw length-append (ground arith) in
    let start : take size (x ∷ (w ++ row ∷ rows)) ≡ x ∷ w =
      rw (← h) (take-append (x ∷ w) (row ∷ rows)) in
    rw (longer, start) (ap (λ r. (x ∷ w) ∷ windows size r) (sym (append_assoc w (row ∷ []) rows)))

module _ (size : ℕ) (lut : Lut) where
  abbrev pub creator : List Text → BoscCreator
  creator w = record { window_size = size; syscall_lut = lut; sliding_window = w }

  -- A full window.
  learn_row_full :
      (raises : ℕ → Bool) (w : List Text) (row : Text) (rows : List Text) (t : Table)
      → length w ≡ size
      → learn_rows raises (row ∷ rows) (creator w) t
        ≡ then_bag (create_bosc lut w) (λ bag.
          then_table
            (insert_bag_if_nonexistent (raises 0) (str bag) t)
            (learn_rows (λ n. raises (suc n)) rows (creator (slide w row))))
  unfolding learn_rows learn_row
  learn_row_full raises w row rows t h =
      let full : (length w == size) ≡ true = ground arith in rw full (by_bag (create_bosc lut w))
    where
      by_table :
          (o : Option Table)
          → then_learn (learned (creator (slide w row)) o) (learn_rows (λ n. raises (suc n)) rows)
            ≡ then_table o (learn_rows (λ n. raises (suc n)) rows (creator (slide w row)))
      by_table none = refl
      by_table (some u) = refl

      by_bag :
          (o : Option Bag)
          → then_learn
              (then_bag o (λ bag.
                learned (creator (slide w row)) (insert_bag_if_nonexistent (raises 0) (str bag) t)))
              (learn_rows (λ n. raises (suc n)) rows)
            ≡ then_bag o (λ bag.
              then_table
                (insert_bag_if_nonexistent (raises 0) (str bag) t)
                (learn_rows (λ n. raises (suc n)) rows (creator (slide w row))))
      by_bag none = refl
      by_bag (some bag) = by_table (insert_bag_if_nonexistent (raises 0) (str bag) t)

  learn_row_short :
      (raises : ℕ → Bool) (w : List Text) (row : Text) (rows : List Text) (t : Table)
      → length w < size
      → learn_rows raises (row ∷ rows) (creator w) t
        ≡ learn_rows raises rows (creator (w ++ row ∷ [])) t
  unfolding learn_rows learn_row
  learn_row_short raises w row rows t h =
      let open_window : (length w == size) ≡ false = ground arith in
      let room : ltb (length w) size ≡ true = ground arith in rw (open_window, room) refl

  table_of-then :
      (o : Option Bag) (g : Bag → Option Table) (k : Table → Option (BoscCreator × Table))
      → (l : Table → Option Table) → ((t : Table) → table_of (k t) ≡ l t)
      → table_of (then_bag o (λ bag. then_table (g bag) k))
        ≡ then_bag o (λ bag. then_table (g bag) l)
  table_of-then none g k l same = refl
  table_of-then (some bag) g k l same = by_table (g bag)
    where
      by_table : (p : Option Table) → table_of (then_table p k) ≡ then_table p l
      by_table none = refl
      by_table (some t) = same t

  learn_rows-windows :
      (raises : ℕ → Bool) (rows w : List Text) (t : Table)
      → 1 ≤ size
      → length w ≤ size
      → table_of (learn_rows raises rows (creator w) t)
        ≡ store_windows lut raises (windows size (w ++ rows)) t
  unfolding learn_rows
  learn_rows-windows raises [] w t some_room h = rw (append-nil w, windows_short size w h) refl
  learn_rows-windows raises (row ∷ rows) [] t some_room h =
      ap table_of (learn_row_short raises [] row rows t (omega arith))
      ∙ learn_rows-windows raises rows (row ∷ []) t some_room some_room
  learn_rows-windows raises (row ∷ rows) (x ∷ w) t some_room h =
      elim (Bool-cases (ltb (suc (length w)) size)) [
        | inl room ↦
            ap table_of (learn_row_short raises (x ∷ w) row rows t (ground arith))
            ∙ learn_rows-windows raises rows (x ∷ (w ++ row ∷ [])) t some_room
                (rw length-append (ground arith))
            ∙ ap (λ r. store_windows lut raises (windows size (x ∷ r)) t)
                (append_assoc w (row ∷ []) rows)
        | inr full ↦
            let size_is : suc (length w) ≡ size = ground arith in
            let next : ℕ → Bool = λ n. raises (suc n) in
            ap table_of (learn_row_full raises (x ∷ w) row rows t size_is)
            ∙ table_of-then (create_bosc lut (x ∷ w))
                (λ bag. insert_bag_if_nonexistent (raises 0) (str bag) t)
                (learn_rows next rows (creator (w ++ row ∷ [])))
                (store_windows lut next (windows size ((w ++ row ∷ []) ++ rows)))
                (λ u.
                  learn_rows-windows next rows (w ++ row ∷ []) u some_room
                    (rw length-append (omega (arith, size_is))))
            ∙ ap (λ ws. store_windows lut raises ws t)
                (sym (windows_full size x w row rows size_is))
      ]

-- Whatever queries raise, `create_learning_db` stores, one behind the other, the bags of the windows
-- of ten consecutive calls that have another call behind them, and no others; where a bag cannot be
-- made or stored, both sides fail.
pub create_learning_db-windows :
    (raises : ℕ → Bool) (names rows : List Text) (t : Table)
    → table_of (create_learning_db raises names rows t)
      ≡ store_windows (load_lookup_table names) raises (windows 10 rows) t
unfolding create_learning_db
create_learning_db-windows raises names rows t =
    learn_rows-windows 10 (load_lookup_table names) raises rows [] t (omega arith) (omega arith)
