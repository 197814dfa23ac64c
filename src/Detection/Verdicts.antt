-- ===== src/Detection/Verdicts.antt =====
-- What the analysis of the server counts as anomalies.
use xen_syscall_analysis.Base.{
  ℕ, zero, suc, ◌+◌, ◌≤◌, ◌<◌, ◌≡◌, refl, sym, ap, ◌∙◌, inl, inr, Bool, true, false, Bool-cases,
  some, List, [], ◌∷◌, ◌++◌, append-nil, append_assoc, ◌==◌, ltb, if◌then◌else◌, length,
  length-append, arith, ◌≢◌, All,
}
use xen_syscall_analysis.Text.{Text}
use xen_syscall_analysis.Text.Utf8.{decode, decode-ascii}
use xen_syscall_analysis.Window.{end_mark}
use xen_syscall_analysis.Window.Frames.{join, frame}
use xen_syscall_analysis.Window.Decode.{PlainName, read_frame-frame, frame-ascii}
use xen_syscall_analysis.Detection.{
  Lut, empty_lut, Bag, create_bosc, Table, check_existence, new_creator, slide, judge, append_bosc,
  load_lookup_table, load_rows,
}
use xen_syscall_analysis.Detection.Service.{
  judge_decoded, Server, new_server, count_verdict, then_serve, judge_calls, receive_chunk,
}
use xen_syscall_analysis.Detection.Bags.{unknown_calls, create_bosc-calls_of}
use xen_syscall_analysis.Detection.Windows.{windows, windows_short, windows_full}

abbrev pub last_of : (size : ℕ) → List Text → List Text
last_of size [] = []
last_of size (x ∷ xs) = if ltb size (suc (length xs)) then last_of size xs else x ∷ xs

-- How many of the first queries raise.
abbrev pub raised : (ℕ → Bool) → (queries : ℕ) → ℕ
raised raises zero = 0
raised raises (suc k) = (if raises 0 then 1 else 0) + raised (λ n. raises (suc n)) k

last_of_short : (size : ℕ) (w : List Text) → length w ≤ size → last_of size w ≡ w
last_of_short size [] h = refl
last_of_short size (x ∷ w) h = ground arith

last_of_full :
    (size : ℕ) (x : Text) (w : List Text) (row : Text) (rows : List Text)
    → suc (length w) ≡ size
    → last_of size ((x ∷ w) ++ row ∷ rows) ≡ last_of size ((w ++ row ∷ []) ++ rows)
last_of_full size x w row rows h =
    let longer : ltb size (suc (length (w ++ row ∷ rows))) ≡ true =
      rw length-append (ground arith) in
    rw longer (ap (last_of size) (sym (append_assoc w (row ∷ []) rows)))

module _ (size : ℕ) (lut : Lut) (t : Table)
    (bags : (w : List Text) → (bag : Bag) × (create_bosc lut w ≡ some bag)) where
  abbrev pub server : List Text → ℕ → Server
  server w n = record {
    bosc = record { window_size = size; syscall_lut = lut; sliding_window = w };
    anomaly_count = n;
  }

  judge_full :
      (raises : ℕ → Bool) (s : Text) (xs w : List Text) (n : ℕ)
      → length w ≡ size
      → judge_calls raises t (s ∷ xs) (server w n)
        ≡ judge_calls
            (λ k. raises (suc k))
            t
            xs
            (server (slide w s) ((if raises 0 then 1 else 0) + n))
  unfolding judge_calls append_bosc check_existence
  judge_full raises s xs w n h =
      let full : (length w == size) ≡ true = ground arith in
      let (bag, made) = bags w in rw full (rw made (by_query (raises 0)))
    where
      by_query :
          (r : Bool)
          → then_serve
              (count_verdict n (
                some (
                  judge r t
                    (record { window_size = size; syscall_lut = lut; sliding_window = w })
                    s
                    (bags w).0)))
              (judge_calls (λ k. raises (suc k)) t xs)
            ≡ judge_calls (λ k. raises (suc k)) t xs (server (slide w s) ((if r then 1 else 0) + n))
      by_query true =
          ap (λ k. judge_calls (λ k. raises (suc k)) t xs (server (slide w s) k)) (omega arith)
      by_query false =
          ap (λ k. judge_calls (λ k. raises (suc k)) t xs (server (slide w s) k)) (omega arith)

  judge_short :
      (raises : ℕ → Bool) (s : Text) (xs w : List Text) (n : ℕ)
      → length w < size
      → judge_calls raises t (s ∷ xs) (server w n)
        ≡ judge_calls raises t xs (server (w ++ s ∷ []) n)
  unfolding judge_calls append_bosc
  judge_short raises s xs w n h =
      let open_window : (length w == size) ≡ false = ground arith in
      let room : ltb (length w) size ≡ true = ground arith in rw (open_window, room) refl

  judge_calls-windows :
      (raises : ℕ → Bool) (xs w : List Text) (n : ℕ)
      → 1 ≤ size
      → length w ≤ size
      → judge_calls raises t xs (server w n)
        ≡ some
            (server (last_of size (w ++ xs)) (raised raises (length (windows size (w ++ xs))) + n))
  unfolding judge_calls
  judge_calls-windows raises [] w n some_room h =
      rw (append-nil w, windows_short size w h, last_of_short size w h)
        (ap (λ k. some (server w k)) (omega arith))
  judge_calls-windows raises (s ∷ xs) [] n some_room h =
      judge_short raises s xs [] n (omega arith)
      ∙ judge_calls-windows raises xs (s ∷ []) n some_room some_room
  judge_calls-windows raises (s ∷ xs) (x ∷ w) n some_room h =
      elim (Bool-cases (ltb (suc (length w)) size)) [
        | inl room ↦
            judge_short raises s xs (x ∷ w) n (ground arith)
            ∙ judge_calls-windows raises xs (x ∷ (w ++ s ∷ [])) n some_room
                (rw length-append (ground arith))
            ∙ ap
                (λ r. some (
                  server (last_of size (x ∷ r))
                    (raised raises (length (windows size (x ∷ r))) + n)))
                (append_assoc w (s ∷ []) xs)
        | inr full ↦
            let size_is : suc (length w) ≡ size = ground arith in
            let next : ℕ → Bool = λ k. raises (suc k) in
            let now : ℕ = if raises 0 then 1 else 0 in
            judge_full raises s xs (x ∷ w) n size_is
            ∙ judge_calls-windows next xs (w ++ s ∷ []) (now + n) some_room
                (rw length-append (omega (arith, size_is)))
            ∙ ap
                (λ r. some (
                  server r (raised next (length (windows size ((w ++ s ∷ []) ++ xs))) + (now + n))))
                (sym (last_of_full size x w s xs size_is))
            ∙ ap (λ k. some (server (last_of size ((x ∷ w) ++ s ∷ xs)) k)) (omega arith)
            ∙ ap
                (λ ws.
                  some (server (last_of size ((x ∷ w) ++ s ∷ xs)) (raised raises (length ws) + n)))
                (sym (windows_full size x w s xs size_is))
      ]

-- The server that analyses has no table of names, and counts an anomaly for each window of ten calls
-- that has another call behind it and whose query raises, and no other: which calls were made, and
-- what was learned, does not matter. It keeps the last ten calls.
pub judge_calls-raised :
    (raises : ℕ → Bool) (t : Table) (xs : List Text)
    → judge_calls raises t xs new_server
      ≡ some (record {
        bosc = record new_creator { sliding_window = last_of 10 xs };
        anomaly_count = raised raises (length (windows 10 xs));
      })
unfolding load_lookup_table load_rows
judge_calls-raised raises t xs =
    judge_calls-windows 10 empty_lut t
      (λ w. (unknown_calls [] w ∷ [], create_bosc-calls_of [] w tt)) raises xs [] 0 (omega arith)
      (omega arith)
    ∙ ap
        (λ k. some (record {
          bosc = record new_creator { sliding_window = last_of 10 xs };
          anomaly_count = k;
        }))
        (omega arith)

receive_chunk_nonempty :
    (raises : ℕ → Bool) (t : Table) (chunk : Text) (s : Server)
    → chunk ≢ []
    → receive_chunk raises t chunk s ≡ judge_decoded raises t (decode chunk) s
unfolding receive_chunk
receive_chunk_nonempty raises t [] s h = absurd (h refl)
receive_chunk_nonempty raises t (c ∷ chunk) s h = refl

frame-ne-nil : (xs : List Text) → frame xs ≢ []
frame-ne-nil xs h = omega (arith, ap length h, length-append (join xs) end_mark)

-- A frame of the tracer that holds at least one name, all of them ASCII without a comma, makes the
-- server judge these names, in their order.
pub receive_chunk-frame :
    (raises : ℕ → Bool) (t : Table) (x : Text) (xs : List Text) (s : Server)
    → PlainName x
    → All PlainName xs
    → receive_chunk raises t (frame (x ∷ xs)) s ≡ judge_calls raises t (x ∷ xs) s
receive_chunk-frame raises t x xs s h hs =
    receive_chunk_nonempty raises t (frame (x ∷ xs)) s (frame-ne-nil (x ∷ xs))
    ∙ ap (λ u. judge_decoded raises t u s)
        (decode-ascii (frame (x ∷ xs)) (frame-ascii (x ∷ xs) (h, hs)))
    ∙ ap (λ names. judge_calls raises t names s) (read_frame-frame x xs h hs)
