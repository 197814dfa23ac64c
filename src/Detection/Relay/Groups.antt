-- ===== src/Detection/Relay/Groups.antt =====
-- The server on the frames that were sent, in chunks of one or more.
use xen_syscall_analysis.Base.{
  ◌≡◌, ◌≢◌, refl, sym, ap, ◌∙◌, Bool, some, List, [], ◌∷◌, ◌++◌, map, concat, length, All, ◌-◌, ◌*◌,
}
use xen_syscall_analysis.Text.{Text}
use xen_syscall_analysis.Window.Frames.{frame}
use xen_syscall_analysis.Window.Decode.{PlainName}
use xen_syscall_analysis.Detection.{new_creator, Table}
use xen_syscall_analysis.Detection.Service.{new_server, threaded_client}
use xen_syscall_analysis.Detection.Stream.{merge}
use xen_syscall_analysis.Detection.Verdicts.{last_of, raised}
use xen_syscall_analysis.Detection.Chunks.{chunk_of}
use xen_syscall_analysis.Detection.Relay.{sent_windows, map-frame, threaded_client-new_server}

-- Frames that are put behind one another are frames on each side.
split_frames :
    (g ys : List Text) (xss : List (List Text))
    → g ++ ys ≡ map frame xss
    → (before : List (List Text)) × (after : List (List Text)) × ((xss ≡ before ++ after)
        × (g ≡ map frame before)
        × (ys ≡ map frame after))
split_frames [] ys xss e = ([], xss, (refl, refl, e))
split_frames (x ∷ g) ys [] e = absurd (cc)
split_frames (x ∷ g) ys (xs ∷ xss) e =
    let (before, after, (whole, here, later)) = split_frames g ys xss (cc) in
    (xs ∷ before, after, (ap (λ r. xs ∷ r) whole, cc, later))

-- The windows of the frames of each chunk.
windows_of_groups :
    (groups : List (List Text)) (xss : List (List Text))
    → concat groups ≡ map frame xss
    → (gs : List (List (List Text))) × (groups ≡ map (map frame) gs) × (concat gs ≡ xss)
windows_of_groups [] [] e = ([], refl, refl)
windows_of_groups [] (xs ∷ xss) e = absurd (cc)
windows_of_groups (g ∷ groups) xss e =
    let (before, after, (whole, here, later)) = split_frames g (concat groups) xss e in
    let (gs, same, joined) = windows_of_groups groups after later in
    (
      before ∷ gs,
      ap (λ x. x ∷ groups) here ∙ ap (λ r. map frame before ∷ r) same,
      ap (λ r. before ++ r) joined ∙ sym whole,
    )

chunks_of_groups :
    (gs : List (List (List Text))) → map concat (map (map frame) gs) ≡ map chunk_of gs
chunks_of_groups [] = refl
chunks_of_groups (g ∷ gs) = ap (λ r. chunk_of g ∷ r) (chunks_of_groups gs)

groups_Nonempty :
    (gs : List (List (List Text))) → All (λ g. g ≢ []) (map (map frame) gs) → All (λ g. g ≢ []) gs
groups_Nonempty [] h = tt
groups_Nonempty ([] ∷ gs) h = absurd (h.0 refl)
groups_Nonempty ((x ∷ g) ∷ gs) h = ((λ e. cc), groups_Nonempty gs h.1)

-- The server on frames that come in chunks of one or more.
pub threaded_client-groups :
    (raises : Bool) (t : Table) (bs : List (List Text × Text)) (groups : List (List Text))
    → All (λ b. length b.0 ≡ 10) bs
    → All (λ b. All PlainName b.0) bs
    → concat groups ≡ map (λ b. frame b.0) bs
    → All (λ g. g ≢ []) groups
    → (sliding_window : List Text) × (threaded_client raises t (map concat groups) new_server
        ≡ some (record {
          bosc = record new_creator { sliding_window = sliding_window };
          anomaly_count = raised (λ n. raises) (10 * length bs - 10);
        }))
threaded_client-groups raises t bs groups ten free sent some_frame =
    let (gs, same, joined) = windows_of_groups groups (sent_windows bs) (sent ∙ map-frame bs) in
    let nonempty : All (λ g. g ≢ []) gs = groups_Nonempty gs (rw (← same) some_frame) in
    (
      last_of 10 (concat (map merge gs)),
      ap (λ gr. threaded_client raises t (map concat gr) new_server) same
          ∙ ap (λ chunks. threaded_client raises t chunks new_server) (chunks_of_groups gs)
          ∙ threaded_client-new_server raises t bs gs ten free joined nonempty,
    )
