-- ===== src/Detection/Chunks.antt =====
-- The server on chunks of whole frames: what it judges does not depend on how its loops are nested.
use xen_syscall_analysis.Base.{
  ℕ, ◌≡◌, ◌≢◌, refl, sym, ap, ◌∙◌, Bool, true, false, Option, some, none, List, [], ◌∷◌, ◌++◌, map,
  concat, All,
}
use xen_syscall_analysis.Text.{Text}
use xen_syscall_analysis.Window.Frames.{frame}
use xen_syscall_analysis.Window.Decode.{PlainName}
use xen_syscall_analysis.Detection.{append_bosc, needs_query, left, Table}
use xen_syscall_analysis.Detection.Service.{
  Server, count_verdict, then_serve, judge_calls, receive_chunk, threaded_client,
}
use xen_syscall_analysis.Detection.Stream.{
  Nonempty, merge, merge-Nonempty, concat-frame, PlainName-merge,
}
use xen_syscall_analysis.Detection.Verdicts.{receive_chunk-frame}

then_serve_assoc :
    (o : Option Server) (f g : Server → Option Server)
    → then_serve o (λ s. then_serve (f s) g) ≡ then_serve (then_serve o f) g
then_serve_assoc none f g = refl
then_serve_assoc (some s) f g = refl

then_serve_cong :
    (o : Option Server) (f g : Server → Option Server)
    → ((s : Server) → f s ≡ g s)
    → then_serve o f ≡ then_serve o g
then_serve_cong none f g same = refl
then_serve_cong (some s) f g same = same s

-- The names of a window, none of them with a comma.
abbrev pub IsSendable : List Text → Type 0
IsSendable xs = (xs ≢ []) × All PlainName xs

-- What one `recv` gives when it gives several frames.
abbrev pub chunk_of : List (List Text) → Text
chunk_of xss = concat (map frame xss)

All-Nonempty : (xss : List (List Text)) → All IsSendable xss → All Nonempty xss
All-Nonempty [] h = tt
All-Nonempty (xs ∷ xss) h = (h.0.0, All-Nonempty xss h.1)

All-free : (xss : List (List Text)) → All IsSendable xss → All (All PlainName) xss
All-free [] h = tt
All-free (xs ∷ xss) h = (h.0.1, All-free xss h.1)

module _ (raises : Bool) (t : Table) where
  abbrev pub always : ℕ → Bool
  always n = raises

  left-always : (queried : Bool) → left queried always ≡ always
  left-always true = refl
  left-always false = refl

  judge_calls-cons :
      (x : Text) (xs : List Text) (s : Server)
      → judge_calls always t (x ∷ xs) s
        ≡ then_serve
            (count_verdict s.anomaly_count (append_bosc raises t x s.bosc))
            (judge_calls always t xs)
  unfolding judge_calls
  judge_calls-cons x xs s =
      ap
        (λ r.
          then_serve (count_verdict s.anomaly_count (append_bosc raises t x s.bosc))
            (judge_calls r t xs))
        (left-always (needs_query s.bosc))

  judge_calls-append :
      (xs ys : List Text) (s : Server)
      → judge_calls always t (xs ++ ys) s
        ≡ then_serve (judge_calls always t xs s) (judge_calls always t ys)
  judge_calls-append [] ys s = unfold judge_calls in refl
  judge_calls-append (x ∷ xs) ys s =
      let counted = count_verdict s.anomaly_count (append_bosc raises t x s.bosc) in
      judge_calls-cons x (xs ++ ys) s
      ∙ then_serve_cong counted (judge_calls always t (xs ++ ys))
          (λ u. then_serve (judge_calls always t xs u) (judge_calls always t ys))
          (judge_calls-append xs ys)
      ∙ then_serve_assoc counted (judge_calls always t xs) (judge_calls always t ys)
      ∙ ap (λ o. then_serve o (judge_calls always t ys)) (sym (judge_calls-cons x xs s))

  receive_chunk-window :
      (xs : List Text) (s : Server)
      → IsSendable xs
      → receive_chunk always t (frame xs) s ≡ judge_calls always t xs s
  receive_chunk-window [] s h = absurd (h.0 refl)
  receive_chunk-window (x ∷ xs) s h = receive_chunk-frame always t x xs s h.1.0 h.1.1

  receive_chunk-merge :
      (xs : List Text) (xss : List (List Text)) (s : Server)
      → All IsSendable (xs ∷ xss)
      → receive_chunk always t (chunk_of (xs ∷ xss)) s ≡ judge_calls always t (merge (xs ∷ xss)) s
  receive_chunk-merge xs xss s h =
      ap (λ chunk. receive_chunk always t chunk s) (concat-frame xs xss (All-Nonempty (xs ∷ xss) h))
      ∙ receive_chunk-window (merge (xs ∷ xss)) s
          (merge-Nonempty xs xss h.0.0, PlainName-merge (xs ∷ xss) (All-free (xs ∷ xss) h))

  -- The server judges the names that the chunks show, one behind the other.
  pub threaded_client-chunks :
      (gs : List (List (List Text))) (s : Server)
      → All (λ g. g ≢ []) gs
      → All (All IsSendable) gs
      → threaded_client raises t (map chunk_of gs) s
        ≡ judge_calls always t (concat (map merge gs)) s
  unfolding threaded_client
  threaded_client-chunks [] s some_frame h = unfold judge_calls in refl
  threaded_client-chunks ([] ∷ gs) s some_frame h = absurd (some_frame.0 refl)
  threaded_client-chunks ((xs ∷ xss) ∷ gs) s some_frame h =
      let g : List (List Text) = xs ∷ xss in
      ap (λ o. then_serve o (threaded_client raises t (map chunk_of gs)))
        (receive_chunk-merge xs xss s h.0)
      ∙ then_serve_cong (judge_calls always t (merge g) s)
          (threaded_client raises t (map chunk_of gs))
          (judge_calls always t (concat (map merge gs)))
          (λ u. threaded_client-chunks gs u some_frame.1 h.1)
      ∙ sym (judge_calls-append (merge g) (concat (map merge gs)) s)
