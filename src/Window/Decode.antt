-- ===== src/Window/Decode.antt =====
-- What the server reads from a frame of `append_syscall`.
use xen_syscall_analysis.Base.{
  ◌<◌, arith, ◌≡◌, refl, ap, ◌∙◌, false, List, [], ◌∷◌, ◌++◌, ◌==◌, All, All-append_both,
  drop_last-append, append_assoc,
}
use xen_syscall_analysis.Text.{Text}
use xen_syscall_analysis.Window.{end_mark, split_commas, read_frame}
use xen_syscall_analysis.Window.Frames.{join, frame}

-- ASCII, with no comma.
abbrev pub PlainName : Text → Type 0
PlainName t = All (λ c. ((c == b',') ≡ false) × (c < 128)) t

split_commas-comma : (x t : Text) → PlainName x → split_commas (x ++ b',' ∷ t) ≡ x ∷ split_commas t
unfolding split_commas
split_commas-comma [] t h = refl
split_commas-comma (c ∷ x) t h = rw (h.0.0, split_commas-comma x t h.1)

split_commas-name : (x : Text) → PlainName x → split_commas x ≡ x ∷ []
unfolding split_commas
split_commas-name [] h = refl
split_commas-name (c ∷ x) h = rw (h.0.0, split_commas-name x h.1)

-- The names with separators between them only.
between : Text → List Text → Text
between x [] = x
between x (y ∷ ys) = x ++ b',' ∷ between y ys

join-between : (x : Text) (xs : List Text) → join (x ∷ xs) ≡ between x xs ++ b',' ∷ []
unfolding between
join-between x [] = refl
join-between x (y ∷ ys) = ap (λ t. x ++ b',' ∷ t) (join-between y ys) ∙ simp append_assoc

split_commas-between :
    (x : Text) (xs : List Text)
    → PlainName x
    → All PlainName xs
    → split_commas (between x xs) ≡ x ∷ xs
unfolding between
split_commas-between x [] h hs = split_commas-name x h
split_commas-between x (y ∷ ys) h hs =
    split_commas-comma x (between y ys) h ∙ ap (λ t. x ∷ t) (split_commas-between y ys hs.0 hs.1)

-- The server reads back the names of a frame, if it holds at least one and all are ASCII without a
-- comma.
pub read_frame-frame :
    (x : Text) (xs : List Text)
    → PlainName x
    → All PlainName xs
    → read_frame (frame (x ∷ xs)) ≡ x ∷ xs
unfolding read_frame
read_frame-frame x xs h hs =
    rw drop_last-append (rw join-between (rw drop_last-append (split_commas-between x xs h hs)))

PlainName-ascii : (x : Text) → PlainName x → All (λ c. c < 128) x
PlainName-ascii [] h = tt
PlainName-ascii (c ∷ x) h = (h.0.1, PlainName-ascii x h.1)

join-ascii : (xs : List Text) → All PlainName xs → All (λ c. c < 128) (join xs)
join-ascii [] h = tt
join-ascii (x ∷ xs) h =
    All-append_both (λ c. c < 128) x (b',' ∷ join xs) (PlainName-ascii x h.0)
      (omega arith, join-ascii xs h.1)

-- Python decodes the frame.
pub frame-ascii : (xs : List Text) → All PlainName xs → All (λ c. c < 128) (frame xs)
frame-ascii xs h =
    All-append_both (λ c. c < 128) (join xs) end_mark (join-ascii xs h) (omega arith, tt)
