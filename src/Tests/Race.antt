-- ===== src/Tests/Race.antt =====
-- Two clients of the server that get in each other's way, with a window of one call.
use xen_syscall_analysis.Base.{ℕ, ◌+◌, ◌≤◌, ◌≡◌, refl, List, [], ◌∷◌, arith}
use xen_syscall_analysis.Text.{Text, codes}
use xen_syscall_analysis.Detection.Clients.{
  Client, judging, comparing, filling, found, counting, Shared, empty_shared, Move, receive,
  is_full, not_full, has_room, fill, evict, store, slide, is_anomaly, read_count, write_count, Step,
  accept, first, later, Reach, here, next,
}
use xen_syscall_analysis.Detection.Clients.Count.{Reach-anomaly_count-le}
use xen_syscall_analysis.Detection.Clients.Overfull.{Reach-overfull}

abbrev a : Text
a = codes "read"

abbrev b : Text
b = codes "open"

abbrev two : Client → Client → List Client
two c d = c ∷ d ∷ []

-- The first or the second of two clients moves.
one_of :
    {c c' : Client} {m m' : Shared} {k : ℕ} (d : Client)
    → Move 1 c m c' m' k
    → Step 1 (two c d) m (two c' d) m' k
one_of d mv = first (d ∷ []) mv

other_of :
    {d d' : Client} {m m' : Shared} {k : ℕ} (c : Client)
    → Move 1 d m d' m' k
    → Step 1 (two c d) m (two c d') m' k
other_of c mv = later c (first [] mv)

abbrev empty : Shared
empty = empty_shared

connected : Reach 1 [] empty (two (judging []) (judging [])) empty 0
connected = next (next here (accept [] empty)) (accept (judging [] ∷ []) empty)

-- Both see that there is room before either of them fills it.
abbrev overfull : Shared
overfull = record { window = a ∷ b ∷ []; anomaly_count = 0 }

both_fill : Reach 1 [] empty (two (judging []) (judging [])) overfull 0
both_fill =
    let m : Shared = record { window = a ∷ []; anomaly_count = 0 } in
    let r =
      next (next connected (one_of (judging []) (receive (a ∷ []) empty)))
        (other_of (judging (a ∷ [])) (receive (b ∷ []) empty)) in
    let r =
      next (next r (one_of (judging (b ∷ [])) (not_full a [] empty (λ e. cc))))
        (other_of (comparing a []) (not_full b [] empty (λ e. cc))) in
    let r =
      next (next r (one_of (comparing b []) (has_room a [] empty (omega arith))))
        (other_of (filling a []) (has_room b [] empty (omega arith))) in
    next (next r (one_of (filling b []) (fill a [] empty))) (other_of (judging []) (fill b [] m))

-- The window has two calls for one, and a third call is not stored any more.
Reach-overfull_example : (overfull ≡ overfull) × (◌≡◌ {A = ℕ} 0 0)
Reach-overfull_example =
    Reach-overfull 1
      (next
        (next (next here (one_of (judging []) (receive (a ∷ []) overfull)))
          (one_of (judging []) (not_full a [] overfull (λ e. cc))))
        (one_of (judging []) (Move.no_room a [] overfull (omega arith))))
      (omega arith) (tt, (tt, tt))

-- Both have found an anomaly, and both read the count before either of them writes it.
abbrev full : (count : ℕ) → Text → Shared
full count s = record { window = s ∷ []; anomaly_count = count }

abbrev none_left : Shared
none_left = record { window = []; anomaly_count = 0 }

first_filled : Reach 1 [] empty (two (judging []) (judging [])) (full 0 a) 0
first_filled =
    let d : Client = judging [] in
    let r =
      next (next connected (one_of d (receive (a ∷ []) empty)))
        (one_of d (not_full a [] empty (λ e. cc))) in
    next (next r (one_of d (has_room a [] empty (omega arith)))) (one_of d (fill a [] empty))

both_found : Reach 1 [] empty (two (found []) (found [])) (full 0 a) 2
both_found =
    let d : Client = judging [] in
    let c : Client = found [] in
    let r =
      next (next first_filled (one_of d (receive (b ∷ []) (full 0 a))))
        (one_of d (is_full b [] (full 0 a) refl)) in
    let r =
      next (next r (one_of d (evict b [] (full 0 a)))) (one_of d (store [] b [] (full 0 a))) in
    let r = next r (one_of d (slide b [] none_left)) in
    let r =
      next (next r (one_of d (is_anomaly [] (full 0 b))))
        (other_of c (receive (a ∷ []) (full 0 b))) in
    let r =
      next (next r (other_of c (is_full a [] (full 0 b) refl)))
        (other_of c (evict a [] (full 0 b))) in
    let r = next r (other_of c (store [] a [] (full 0 b))) in
    next (next r (other_of c (slide a [] none_left))) (other_of c (is_anomaly [] (full 0 a)))

both_counted : Reach 1 [] empty (two (judging []) (judging [])) (full 1 a) 2
both_counted =
    let r =
      next (next both_found (one_of (found []) (read_count [] (full 0 a))))
        (other_of (counting 0 []) (read_count [] (full 0 a))) in
    next (next r (one_of (counting 0 []) (write_count 0 [] (full 0 a))))
      (other_of (judging []) (write_count 0 [] (full 1 a)))

-- Of the two anomalies one is counted.
Reach-anomaly_count-le_example : (full 1 a).anomaly_count + 0 ≤ 2
Reach-anomaly_count-le_example = Reach-anomaly_count-le 1 both_counted
