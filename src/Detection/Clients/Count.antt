-- ===== src/Detection/Clients/Count.antt =====
-- The count of anomalies when several threads write it.
use xen_syscall_analysis.Base.{ℕ, suc, ◌+◌, ◌≤◌, List, [], ◌∷◌, All, arith}
use xen_syscall_analysis.Detection.Clients.{
  Client, judging, comparing, filling, evicting, replacing, sliding, asking, found, counting, ended,
  Shared, empty_shared, Move, receive, fail, is_full, not_full, has_room, no_room, fill, evict,
  store, slide, is_normal, is_anomaly, read_count, write_count, Step, accept, first, later, Reach,
  here, next,
}

-- How many anomalies a thread has found and not yet come to count.
abbrev pub uncounted : Client → ℕ
uncounted (found calls) = 1
uncounted (judging calls) = 0
uncounted (comparing s calls) = 0
uncounted (filling s calls) = 0
uncounted (evicting s calls) = 0
uncounted (replacing slice s calls) = 0
uncounted (sliding s calls) = 0
uncounted (asking calls) = 0
uncounted (counting n calls) = 0
uncounted ended = 0

abbrev pub all_uncounted : List Client → ℕ
all_uncounted [] = 0
all_uncounted (c ∷ cs) = uncounted c + all_uncounted cs

-- What a thread is about to store leaves, of the anomalies found, as many as wait to be counted.
abbrev pub Fits : (waiting hits : ℕ) → Client → Type 0
Fits waiting hits (counting n calls) = suc n + waiting ≤ hits
Fits waiting hits (judging calls) = Unit
Fits waiting hits (comparing s calls) = Unit
Fits waiting hits (filling s calls) = Unit
Fits waiting hits (evicting s calls) = Unit
Fits waiting hits (replacing slice s calls) = Unit
Fits waiting hits (sliding s calls) = Unit
Fits waiting hits (asking calls) = Unit
Fits waiting hits (found calls) = Unit
Fits waiting hits ended = Unit

Fits-mono :
    (waiting hits waiting' hits' : ℕ) (c : Client)
    → waiting' + hits ≤ waiting + hits'
    → Fits waiting hits c
    → Fits waiting' hits' c
Fits-mono waiting hits waiting' hits' (counting n calls) h k = omega arith
Fits-mono waiting hits waiting' hits' (judging calls) h k = tt
Fits-mono waiting hits waiting' hits' (comparing s calls) h k = tt
Fits-mono waiting hits waiting' hits' (filling s calls) h k = tt
Fits-mono waiting hits waiting' hits' (evicting s calls) h k = tt
Fits-mono waiting hits waiting' hits' (replacing slice s calls) h k = tt
Fits-mono waiting hits waiting' hits' (sliding s calls) h k = tt
Fits-mono waiting hits waiting' hits' (asking calls) h k = tt
Fits-mono waiting hits waiting' hits' (found calls) h k = tt
Fits-mono waiting hits waiting' hits' ended h k = tt

All-Fits-mono :
    (waiting hits waiting' hits' : ℕ) (cs : List Client)
    → waiting' + hits ≤ waiting + hits'
    → All (Fits waiting hits) cs
    → All (Fits waiting' hits') cs
All-Fits-mono waiting hits waiting' hits' [] h k = tt
All-Fits-mono waiting hits waiting' hits' (c ∷ cs) h k = (
  Fits-mono waiting hits waiting' hits' c h k.0,
  All-Fits-mono waiting hits waiting' hits' cs h k.1,
)

module _ (size : ℕ) where
  Move_honest :
      {c c' : Client} {m m' : Shared} {k : ℕ} (apart hits : ℕ)
      → Move size c m c' m' k
      → m.anomaly_count + (uncounted c + apart) ≤ hits
      → Fits (uncounted c + apart) hits c
      → (m'.anomaly_count + (uncounted c' + apart) ≤ k + hits)
        × Fits (uncounted c' + apart) (k + hits) c'
        × (uncounted c' + hits ≤ uncounted c + (k + hits))
  Move_honest apart hits (receive calls m) h f = omega arith
  Move_honest apart hits (fail m) h f = omega arith
  Move_honest apart hits (is_full s calls m e) h f = omega arith
  Move_honest apart hits (not_full s calls m e) h f = omega arith
  Move_honest apart hits (has_room s calls m room) h f = omega arith
  Move_honest apart hits (no_room s calls m full) h f = omega arith
  Move_honest apart hits (fill s calls m) h f = omega arith
  Move_honest apart hits (evict s calls m) h f = omega arith
  Move_honest apart hits (store slice s calls m) h f = omega arith
  Move_honest apart hits (slide s calls m) h f = omega arith
  Move_honest apart hits (is_normal calls m) h f = omega arith
  Move_honest apart hits (is_anomaly calls m) h f = omega arith
  Move_honest apart hits (read_count calls m) h f = omega arith
  Move_honest apart hits (write_count n calls m) h f = omega arith

  -- With `apart` anomalies of other threads that are still to be counted.
  pub record Honest (apart : ℕ) (cs : List Client) (m : Shared) (hits : ℕ) : Type 0 where
    pub stored : m.anomaly_count + (all_uncounted cs + apart) ≤ hits
    pub storing : All (Fits (all_uncounted cs + apart) hits) cs

  Step-Honest :
      {cs ds : List Client} {m m' : Shared} {k : ℕ} (apart hits : ℕ)
      → Step size cs m ds m' k
      → Honest apart cs m hits
      → Honest apart ds m' (k + hits) × (all_uncounted ds + hits ≤ all_uncounted cs + (k + hits))
  Step-Honest apart hits (accept cs m) i = (
    record {
      stored = omega (arith, i.stored);
      storing = (tt, All-Fits-mono (all_uncounted cs + apart) hits _ _ cs (omega arith) i.storing);
    },
    omega arith,
  )
  Step-Honest apart hits (first {c} {c'} {m} {m'} {found = k} cs mv) i =
      let rest = all_uncounted cs + apart in
      let (stored, storing, less) =
        Move_honest rest hits mv (omega (arith, i.stored))
          (Fits-mono _ _ (uncounted c + rest) hits c (omega arith) i.storing.0) in
      (
        record {
          stored = omega (arith, stored);
          storing = (
            Fits-mono (uncounted c' + rest) (k + hits) _ _ c' (omega arith) storing,
            All-Fits-mono (uncounted c + all_uncounted cs + apart) hits _ _ cs (omega (arith, less))
                i.storing.1,
          );
        },
        omega (arith, less),
      )
  Step-Honest apart hits (later {cs} {cs' = ds} {m} {m'} {found = k} c st) i =
      let (j, less) = Step-Honest (uncounted c + apart) hits st (record {
        stored = omega (arith, i.stored);
        storing =
            All-Fits-mono (uncounted c + all_uncounted cs + apart) hits _ _ cs (omega arith)
              i.storing.1;
      }) in
      (
        record {
          stored = omega (arith, j.stored);
          storing = (
            Fits-mono (uncounted c + all_uncounted cs + apart) hits _ _ c (omega (arith, less))
                i.storing.0,
            All-Fits-mono (all_uncounted ds + (uncounted c + apart)) (k + hits) _ _ ds (omega arith)
                j.storing,
          );
        },
        omega (arith, less),
      )

  Reach-Honest :
      {cs : List Client} {m : Shared} {hits : ℕ}
      → Reach size [] empty_shared cs m hits
      → Honest 0 cs m hits
  Reach-Honest here = record { stored = omega arith; storing = tt }
  Reach-Honest (next {found = hits} r st) = (Step-Honest 0 hits st (Reach-Honest r)).0

  -- However the threads are interleaved, never more anomalies are counted than were found, those that
  -- are found and not yet counted taken off.
  pub Reach-anomaly_count-le :
      {cs : List Client} {m : Shared} {hits : ℕ}
      → Reach size [] empty_shared cs m hits
      → m.anomaly_count + all_uncounted cs ≤ hits
  Reach-anomaly_count-le r = omega (arith, (Reach-Honest r).stored)
