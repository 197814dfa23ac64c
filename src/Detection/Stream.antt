-- ===== src/Detection/Stream.antt =====
-- What the server makes of the stream that the tracer writes to the socket: a `recv` may give
-- several frames at once.
use xen_syscall_analysis.Base.{
  ◌≡◌, ◌≢◌, refl, sym, ap, ◌∙◌, List, [], ◌∷◌, ◌++◌, append_assoc, map, concat, All-append_both,
  length, length-append, arith, All, ◌+◌, append-nil,
}
use xen_syscall_analysis.Text.{Text}
use xen_syscall_analysis.Window.{end_mark}
use xen_syscall_analysis.Window.Frames.{join, frame}
use xen_syscall_analysis.Window.Decode.{PlainName}

-- The end mark of the frame before stays at the first name of a frame.
abbrev pub marked : List Text → List Text
marked [] = []
marked (x ∷ xs) = (end_mark ++ x) ∷ xs

-- The names that a chunk of whole frames shows.
abbrev pub merge : List (List Text) → List Text
merge [] = []
merge (xs ∷ []) = xs
merge (xs ∷ ys ∷ yss) = xs ++ marked (merge (ys ∷ yss))

abbrev pub Nonempty : List Text → Type 0
Nonempty xs = xs ≢ []

join-append : (xs ys : List Text) → join (xs ++ ys) ≡ join xs ++ join ys
join-append [] ys = refl
join-append (x ∷ xs) ys = rw (join-append xs ys) (simp append_assoc)

join-marked : (xs : List Text) → xs ≢ [] → join (marked xs) ≡ end_mark ++ join xs
join-marked [] h = absurd (h refl)
join-marked (x ∷ xs) h = refl

pub merge-Nonempty : (xs : List Text) (xss : List (List Text)) → xs ≢ [] → merge (xs ∷ xss) ≢ []
merge-Nonempty xs [] h = h
merge-Nonempty [] (ys ∷ yss) h = absurd (h refl)
merge-Nonempty (x ∷ xs) (ys ∷ yss) h = λ e. cc

-- Whole frames behind one another are the frame of the names that they show.
pub concat-frame :
    (xs : List Text) (xss : List (List Text))
    → All Nonempty (xs ∷ xss)
    → concat (map frame (xs ∷ xss)) ≡ frame (merge (xs ∷ xss))
concat-frame xs [] h = append-nil (frame xs)
concat-frame xs (ys ∷ yss) h =
    ap (λ t. frame xs ++ t) (concat-frame ys yss h.1)
    ∙ (rw
        (
          join-append xs (marked (merge (ys ∷ yss))),
          join-marked (merge (ys ∷ yss)) (merge-Nonempty ys yss h.1.0),
        )
        (simp append_assoc))

PlainName-marked : (xs : List Text) → All PlainName xs → All PlainName (marked xs)
PlainName-marked [] h = tt
PlainName-marked (x ∷ xs) h = (((refl, omega arith), h.0), h.1)

pub PlainName-merge : (xss : List (List Text)) → All (All PlainName) xss → All PlainName (merge xss)
PlainName-merge [] h = tt
PlainName-merge (xs ∷ []) h = h.0
PlainName-merge (xs ∷ ys ∷ yss) h =
    All-append_both PlainName xs (marked (merge (ys ∷ yss))) h.0
      (PlainName-marked (merge (ys ∷ yss)) (PlainName-merge (ys ∷ yss) h.1))

length-marked : (xs : List Text) → length (marked xs) ≡ length xs
length-marked [] = refl
length-marked (x ∷ xs) = refl

-- No name is lost or added.
pub length-merge : (xss : List (List Text)) → length (merge xss) ≡ length (concat xss)
length-merge [] = refl
length-merge (xs ∷ []) = ap length (sym (append-nil xs))
length-merge (xs ∷ ys ∷ yss) =
    length-append {0} xs (marked (merge (ys ∷ yss)))
    ∙ ap (λ n. length xs + n) (length-marked (merge (ys ∷ yss)) ∙ length-merge (ys ∷ yss))
    ∙ sym (length-append {0} xs (concat (ys ∷ yss)))
