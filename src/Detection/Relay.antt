-- ===== src/Detection/Relay.antt =====
-- What the server makes of the frames that a tracer in analysis mode sends, however many of them a
-- chunk holds.
pub mod Groups
use xen_syscall_analysis.Base.{
  ℕ, ◌≤◌, ◌≡◌, ◌≢◌, refl, sym, ap, ◌∙◌, Bool, true, false, Option, some, none, List, [], ◌∷◌, ◌++◌,
  map, concat, length, length-append, All, All-append_split, arith, ◌+◌, ◌-◌, ◌*◌,
}
use xen_syscall_analysis.Base.Int.{pos}
use xen_syscall_analysis.Text.{Text}
use xen_syscall_analysis.LibVmi.{LibVmi}
use xen_syscall_analysis.SyscallTable.{analysis_mode}
use xen_syscall_analysis.Window.{empty_window, append_all}
use xen_syscall_analysis.Window.Frames.{frame, batch, append_all_batches}
use xen_syscall_analysis.Window.Decode.{PlainName}
use xen_syscall_analysis.Process.{Tracer}
use xen_syscall_analysis.Process.Frames.{Visit, process_all, names_of, process_all-append_all}
use xen_syscall_analysis.Detection.{new_creator, append_bosc, needs_query, left, Table}
use xen_syscall_analysis.Detection.Service.{
  Server, new_server, count_verdict, then_serve, judge_calls, receive_chunk, threaded_client,
}
use xen_syscall_analysis.Detection.Stream.{
  Nonempty, merge, merge-Nonempty, concat-frame, PlainName-merge, length-merge,
}
use xen_syscall_analysis.Detection.Windows.{windows}
use xen_syscall_analysis.Detection.Verdicts.{
  last_of, raised, judge_calls-raised, receive_chunk-frame,
}
use xen_syscall_analysis.Detection.Chunks.{IsSendable, chunk_of, threaded_client-chunks}

-- The names that are sent, a window each.
abbrev pub sent_windows : List (List Text × Text) → List (List Text)
sent_windows bs = map (λ b. b.0) bs

map-frame : (bs : List (List Text × Text)) → map (λ b. frame b.0) bs ≡ map frame (sent_windows bs)
map-frame [] = refl
map-frame (b ∷ bs) = ap (λ r. frame b.0 ∷ r) (map-frame bs)

length-ten-ne-nil : (xs : List Text) → length xs ≡ 10 → xs ≢ []
length-ten-ne-nil xs h e = omega (arith, h, ap length e)

All-IsSendable :
    (bs : List (List Text × Text))
    → All (λ b. length b.0 ≡ 10) bs
    → All (λ b. All PlainName b.0) bs
    → All IsSendable (sent_windows bs)
All-IsSendable [] ten free = tt
All-IsSendable (b ∷ bs) ten free =
    ((length-ten-ne-nil b.0 ten.0, free.0), All-IsSendable bs ten.1 free.1)

All-concat : (gs : List (List (List Text))) → All IsSendable (concat gs) → All (All IsSendable) gs
All-concat [] h = tt
All-concat (g ∷ gs) h =
    let (here, later) = All-append_split IsSendable g (concat gs) h in (here, All-concat gs later)

length-windows : (size : ℕ) (xs : List Text) → length (windows size xs) ≡ length xs - size
length-windows size [] = omega arith
length-windows size (x ∷ xs) = ground (arith, length-windows size xs)

length-concat-append :
    (xss yss : List (List Text))
    → length (concat (xss ++ yss)) ≡ length (concat xss) + length (concat yss)
length-concat-append [] yss = omega arith
length-concat-append (xs ∷ xss) yss = omega (
  arith,
  length-append xs (concat (xss ++ yss)),
  length-append xs (concat xss),
  length-concat-append xss yss,
)

length-concat-merge :
    (gs : List (List (List Text))) → length (concat (map merge gs)) ≡ length (concat (concat gs))
length-concat-merge [] = refl
length-concat-merge (g ∷ gs) = omega (
  arith,
  length-append (merge g) (concat (map merge gs)),
  length-concat-append g (concat gs),
  length-merge g,
  length-concat-merge gs,
)

length-sent_windows :
    (bs : List (List Text × Text))
    → All (λ b. length b.0 ≡ 10) bs
    → length (concat (sent_windows bs)) ≡ 10 * length bs
length-sent_windows [] h = refl
length-sent_windows (b ∷ bs) h =
    omega (arith, length-append b.0 (concat (sent_windows bs)), h.0, length-sent_windows bs h.1)

-- The server that starts afresh on chunks of whole frames.
threaded_client-new_server :
    (raises : Bool) (t : Table) (bs : List (List Text × Text)) (gs : List (List (List Text)))
    → All (λ b. length b.0 ≡ 10) bs
    → All (λ b. All PlainName b.0) bs
    → concat gs ≡ sent_windows bs
    → All (λ g. g ≢ []) gs
    → threaded_client raises t (map chunk_of gs) new_server
      ≡ some (record {
        bosc = record new_creator { sliding_window = last_of 10 (concat (map merge gs)) };
        anomaly_count = raised (λ n. raises) (10 * length bs - 10);
      })
threaded_client-new_server raises t bs gs ten free split some_frame =
    let sendable : All (All IsSendable) gs =
      All-concat gs (rw split (All-IsSendable bs ten free)) in
    let queries : length (windows 10 (concat (map merge gs))) ≡ 10 * length bs - 10 =
      length-windows 10 (concat (map merge gs))
      ∙ ap (λ n. n - 10)
          (length-concat-merge gs
            ∙ ap (λ xss. length (concat xss)) split
            ∙ length-sent_windows bs ten) in
    threaded_client-chunks raises t gs new_server some_frame sendable
    ∙ judge_calls-raised (λ n. raises) t (concat (map merge gs))
    ∙ ap
        (λ n. some (record {
          bosc = record new_creator { sliding_window = last_of 10 (concat (map merge gs)) };
          anomaly_count = raised (λ k. raises) n;
        }))
        queries

-- From the guest to the verdicts: if the names of the traced calls are batches of ten and one more,
-- with at most ten behind them, all ASCII without a comma, then the tracer sends a frame with the
-- ten of each batch. If the server receives these frames in chunks of one or more whole frames, it
-- judges ten names for each frame, where the first name of a frame that is not the first of its
-- chunk has the end mark of the frame before it. It keeps the last ten of them, and counts an
-- anomaly for each window with a call behind it if the queries raise, and none if they do not.
pub threaded_client-process_all :
    (v : LibVmi) (visits : List (Visit v)) (s : Tracer) (raises : Bool) (t : Table)
    → (bs : List (List Text × Text)) (rest : List Text) (gs : List (List (List Text)))
    → s.running_mode ≡ analysis_mode
    → s.window ≡ empty_window
    → names_of v s.tables visits ≡ concat (map batch bs) ++ rest
    → All (λ b. length b.0 ≡ 10) bs
    → length rest ≤ 10
    → All (λ b. All PlainName b.0) bs
    → concat gs ≡ sent_windows bs
    → All (λ g. g ≢ []) gs
    → ((process_all v visits s).window.sent ≡ map frame (concat gs))
      × (threaded_client raises t (map chunk_of gs) new_server
          ≡ some (record {
            bosc = record new_creator { sliding_window = last_of 10 (concat (map merge gs)) };
            anomaly_count = raised (λ n. raises) (10 * length bs - 10);
          }))
threaded_client-process_all v visits s raises t bs rest gs mode empty names ten few free split
      some_frame =
    let sent_is : (process_all v visits s).window.sent ≡ map frame (sent_windows bs) =
      ap (λ w. w.sent)
        (process_all-append_all v visits s mode
          ∙ ap (append_all (pos 10) (names_of v s.tables visits)) empty
          ∙ ap (λ xs. append_all (pos 10) xs empty_window) names
          ∙ append_all_batches 10 bs rest [] ten few)
      ∙ map-frame bs in
    (
      sent_is ∙ ap (map frame) (sym split),
      threaded_client-new_server raises t bs gs ten free split some_frame,
    )
