-- ===== src/SyscallTable/Watched.antt =====
-- The watched names of sandbox mode: what the file gives, and which calls pass.
use xen_syscall_analysis.Base.{
  ◌↔◌, ℕ, ◌≡◌, refl, ap, ◌∙◌, inl, inr, true, Bool-cases, some, Option-cases, List, [], ◌∷◌, ◌++◌,
  map, arith, get_elem?, drop_last, drop_last-append, append_assoc, concat, All,
}
use mathlib.Core.List.{Memᴰ}
use xen_syscall_analysis.Text.{Text, text_eq, text_eq_sound, text_eq_refl}
use xen_syscall_analysis.SyscallTable.{
  newline, file_lines, read_watched, Tables, is_watched, check_set_syscalls,
}
use xen_syscall_analysis.SyscallTable.Lines.{
  IsLine, close_line, file_lines-concat, file_lines-line, file_lines-last,
}

map-drop_last :
    (ss : List Text) (more : List Text)
    → map drop_last (map close_line ss ++ more) ≡ ss ++ map drop_last more
map-drop_last [] more = refl
map-drop_last (s ∷ ss) more =
    ap (λ t. t ∷ map drop_last (map close_line ss ++ more)) (drop_last-append s newline)
    ∙ ap (λ r. s ∷ r) (map-drop_last ss more)

-- A file in which every name is closed by a newline gives these names.
pub read_watched-closed :
    (ss : List Text) → All IsLine ss → read_watched (concat (map close_line ss)) ≡ ss
unfolding read_watched file_lines
read_watched-closed [] h = refl
read_watched-closed (s ∷ ss) h =
    ap (map drop_last) (
      ap file_lines (append_assoc s (newline ∷ []) (concat (map close_line ss)))
      ∙ file_lines-line s (concat (map close_line ss)) h.0)
    ∙ ap (λ t. t ∷ read_watched (concat (map close_line ss))) (drop_last-append s newline)
    ∙ ap (λ r. s ∷ r) (read_watched-closed ss h.1)

-- A last name with no newline behind it loses its last byte.
pub read_watched-open :
    (ss : List Text) (c : ℕ) (last : Text)
    → All IsLine ss
    → IsLine (c ∷ last)
    → read_watched (concat (map close_line ss) ++ c ∷ last) ≡ ss ++ drop_last (c ∷ last) ∷ []
unfolding read_watched
read_watched-open ss c last h l =
    ap (map drop_last) (
      file_lines-concat ss (c ∷ last) h
      ∙ ap (λ r. map close_line ss ++ r) (file_lines-last c last l))
    ∙ map-drop_last ss ((c ∷ last) ∷ [])

is_watched-Memᴰ : (name : Text) (ss : List Text) → is_watched name ss ≡ true → Memᴰ name ss
unfolding is_watched
is_watched-Memᴰ name [] h = absurd (ground arith)
is_watched-Memᴰ name (s ∷ ss) h = elim (Bool-cases (text_eq name s)) [
  | inl same ↦ Memᴰ.head (text_eq_sound name s same)
  | inr other ↦ Memᴰ.tail (is_watched-Memᴰ name ss (ground arith))
]

is_watched_complete : (name : Text) (ss : List Text) → Memᴰ name ss → is_watched name ss ≡ true
unfolding is_watched
is_watched_complete name [] m = elim m [ ]
is_watched_complete name (s ∷ ss) (Memᴰ.head e) = rw (← e) (rw text_eq_refl)
is_watched_complete name (s ∷ ss) (Memᴰ.tail m) = ground (arith, is_watched_complete name ss m)

module _ (t : Tables) (index : ℕ) where
  -- Only a number of the table whose name is among the watched ones passes.
  check_set_syscalls_sound :
      check_set_syscalls t index ≡ true
      → (name : Text) × (get_elem? t.sys_index index ≡ some name) × Memᴰ name t.set_syscalls
  unfolding check_set_syscalls
  check_set_syscalls_sound h = elim (Option-cases (get_elem? t.sys_index index)) [
    | inl missing ↦ absurd (ground (arith, missing))
    | inr found ↦
        (found.0, found.1, is_watched-Memᴰ found.0 t.set_syscalls (ground (arith, found.1)))
  ]

  -- Each number of the table whose name is among the watched ones passes.
  check_set_syscalls_complete :
      {name : Text}
      → get_elem? t.sys_index index ≡ some name
      → Memᴰ name t.set_syscalls
      → check_set_syscalls t index ≡ true
  unfolding check_set_syscalls
  check_set_syscalls_complete {name} e m =
      rw (e, check_set_syscalls) (is_watched_complete name t.set_syscalls m)

  -- A number passes exactly when it has a name in the table and that name is among the watched ones.
  pub check_set_syscalls_iff :
      (check_set_syscalls t index ≡ true)
      ↔ ((name : Text) × (get_elem? t.sys_index index ≡ some name) × Memᴰ name t.set_syscalls)
  check_set_syscalls_iff =
      (check_set_syscalls_sound, λ named. check_set_syscalls_complete named.1 named.2)
