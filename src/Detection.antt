-- ===== src/Detection.antt =====
-- The detection server: the bags of system calls of server/BoSC.py and its database of
-- server/db_utils.py. What pandas reads from the files
-- is a list of names; `raises n` says whether the n-th query of the database raises.
pub mod Names
pub mod Bags
pub mod Order
pub mod Multiset
pub mod Windows
pub mod Service
pub mod Clients
pub mod Stream
pub mod Learning
pub mod Chunks
pub mod Relay
pub mod Verdicts
use xen_syscall_analysis.Base.{
  ℕ, zero, suc, ◌+◌, Bool, true, false, ◌||◌, not, Option, some, none, List, [], ◌∷◌, ◌++◌, ◌==◌,
  ltb, if◌then◌else◌, length,
}
use xen_syscall_analysis.Text.{Text, codes, text_eq, decimal}

-- The dictionary `syscall_LUT`: its `get`, and its `len`.
pub record Lut : Type 0 where
  pub find : Text → Option ℕ
  pub size : ℕ

abbrev pub empty_lut : Lut
empty_lut = record { find = λ x. none; size = 0 }

abbrev pub has_value : Option ℕ → Bool
has_value none = false
has_value (some i) = true

-- `lut[name] = index`.
unfoldable pub set_item : (name : Text) (index : ℕ) → Lut → Lut
set_item name index d = record {
  find = λ x. if text_eq x name then some index else d.find x;
  size = if has_value (d.find name) then d.size else suc d.size;
}

unfoldable pub load_rows : (index : ℕ) → List Text → Lut → Lut
load_rows index [] d = d
load_rows index (name ∷ names) d = load_rows (suc index) names (set_item name index d)

-- The names of lut.csv, each with the number of its row.
unfoldable pub load_lookup_table : List Text → Lut
load_lookup_table names = load_rows 0 names empty_lut

abbrev pub Bag : Type 0
Bag = List ℕ

abbrev pub cons_bag : ℕ → Option Bag → Option Bag
cons_bag n none = none
cons_bag n (some bag) = some (n ∷ bag)

-- `bag[index] += 1`; an index out of range raises.
unfoldable pub increment : (index : ℕ) → Bag → Option Bag
increment i [] = none
increment zero (n ∷ bag) = some (suc n ∷ bag)
increment (suc i) (n ∷ bag) = cons_bag n (increment i bag)

-- `bag[-1] += 1`.
unfoldable pub increment_last : Bag → Option Bag
increment_last [] = none
increment_last (n ∷ []) = some (suc n ∷ [])
increment_last (n ∷ m ∷ bag) = cons_bag n (increment_last (m ∷ bag))

unfoldable pub count_at : Option ℕ → Bag → Option Bag
count_at none bag = increment_last bag
count_at (some i) bag = increment i bag

abbrev pub then_bag {ℓ} : {A : Type ℓ} → Option Bag → (Bag → Option A) → Option A
then_bag none f = none
then_bag (some bag) f = f bag

unfoldable pub count_calls : Lut → List Text → Bag → Option Bag
count_calls lut [] bag = some bag
count_calls lut (s ∷ ss) bag = then_bag (count_at (lut.find s) bag) (count_calls lut ss)

unfoldable pub zeros : ℕ → Bag
zeros zero = []
zeros (suc n) = 0 ∷ zeros n

unfoldable pub create_bosc : Lut → (sliding_window : List Text) → Option Bag
create_bosc lut sliding_window = count_calls lut sliding_window (zeros (lut.size + 1))

abbrev pub str_items : Bag → Text
str_items [] = []
str_items (n ∷ []) = decimal n
str_items (n ∷ m ∷ bag) = decimal n ++ codes ", " ++ str_items (m ∷ bag)

-- `str(bag)`.
abbrev pub str : Bag → Text
str bag = codes "[" ++ str_items bag ++ codes "]"

-- The column of bags.
abbrev pub Table : Type 0
Table = List Text

unfoldable pub is_stored : Text → Table → Bool
is_stored key [] = false
is_stored key (t ∷ ts) = text_eq key t || is_stored key ts

-- The rows that the query selects are never fetched.
unfoldable pub check_existence : (raises : Bool) (key : Text) → Table → Bool
check_existence raises key t = not raises

-- The column is a primary key, so a second insertion of a bag raises.
unfoldable pub insert_bag_if_nonexistent : (raises : Bool) (key : Text) → Table → Option Table
insert_bag_if_nonexistent raises key t =
    if is_stored key t then if raises then none else some t else some (t ++ key ∷ [])

pub record BoscCreator : Type 0 where
  pub window_size : ℕ
  pub syscall_lut : Lut
  pub sliding_window : List Text

-- `BoSC_Creator(10)`.
abbrev pub new_creator : BoscCreator
new_creator = record { window_size = 10; syscall_lut = empty_lut; sliding_window = [] }

-- `sliding_window[1:]` with one more call.
abbrev pub slide : List Text → Text → List Text
slide [] s = s ∷ []
slide (x ∷ w) s = w ++ s ∷ []

-- What `append_BoSC` returns; it returns nothing for a window that is too long.
pub data Verdict : Type 0 where
  anomaly normal constructing no_verdict : Verdict

abbrev pub judge :
    (raises : Bool) → Table → (c : BoscCreator) (s : Text) → Bag → Verdict × BoscCreator
judge raises t c s bag = (
  if check_existence raises (str bag) t then normal else anomaly,
  record c { sliding_window = slide c.sliding_window s },
)

unfoldable pub append_bosc :
    (raises : Bool) → Table → Text → BoscCreator → Option (Verdict × BoscCreator)
append_bosc raises t s c =
    if length c.sliding_window == c.window_size
    then then_bag (create_bosc c.syscall_lut c.sliding_window)
        (λ bag. some (judge raises t c s bag))
    else if ltb (length c.sliding_window) c.window_size
    then some (constructing, record c { sliding_window = c.sliding_window ++ s ∷ [] })
    else some (no_verdict, c)

-- What the two loops do with one call, and whether they made a query for it.
abbrev pub needs_query : BoscCreator → Bool
needs_query c = length c.sliding_window == c.window_size

-- The queries that are left behind a call.
abbrev pub left : (queried : Bool) → (ℕ → Bool) → ℕ → Bool
left true raises = λ n. raises (suc n)
left false raises = raises

-- A row of `create_learning_db`.
abbrev pub learned {ℓ} : {A : Type ℓ} → A → Option Table → Option (A × Table)
learned a none = none
learned a (some t) = some (a, t)

unfoldable pub learn_row :
    (raises : Bool) → Text → BoscCreator → Table → Option (BoscCreator × Table)
learn_row raises row c t =
    if needs_query c
    then then_bag (create_bosc c.syscall_lut c.sliding_window) (λ bag.
      learned (record c { sliding_window = slide c.sliding_window row })
        (insert_bag_if_nonexistent raises (str bag) t))
    else some (
      record c {
        sliding_window =
            if ltb (length c.sliding_window) c.window_size
            then c.sliding_window ++ row ∷ []
            else c.sliding_window;
      },
      t,
    )

abbrev pub then_learn {ℓ} :
    {A : Type ℓ} → Option (BoscCreator × Table) → (BoscCreator → Table → Option A) → Option A
then_learn none f = none
then_learn (some (c, t)) f = f c t

unfoldable pub learn_rows :
    (raises : ℕ → Bool) → List Text → BoscCreator → Table → Option (BoscCreator × Table)
learn_rows raises [] c t = some (c, t)
learn_rows raises (row ∷ rows) c t =
    then_learn (learn_row (raises 0) row c t) (learn_rows (left (needs_query c) raises) rows)

-- The column of syscall-trace.csv, and that of lut.csv.
unfoldable pub create_learning_db :
    (raises : ℕ → Bool) (names rows : List Text) → Table → Option (BoscCreator × Table)
create_learning_db raises names rows t =
    learn_rows raises rows (record new_creator { syscall_lut = load_lookup_table names }) t
