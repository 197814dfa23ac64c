-- ===== src/Detection/Clients/Overfull.antt =====
-- What becomes of a window that has grown too long.
use xen_syscall_analysis.Base.{ℕ, ◌<◌, ◌≡◌, refl, ◌∙◌, List, length, All, arith}
use xen_syscall_analysis.Detection.Clients.{
  Client, judging, comparing, filling, evicting, replacing, sliding, asking, found, counting, ended,
  Shared, Move, receive, fail, is_full, not_full, has_room, no_room, fill, evict, store, slide,
  is_normal, is_anomaly, read_count, write_count, Step, accept, first, later, Reach, here, next,
}

-- A thread that is not on the way to change anything.
abbrev pub IsIdle : Client → Type 0
IsIdle (judging calls) = Unit
IsIdle (comparing s calls) = Unit
IsIdle ended = Unit
IsIdle (filling s calls) = ⊥
IsIdle (evicting s calls) = ⊥
IsIdle (replacing slice s calls) = ⊥
IsIdle (sliding s calls) = ⊥
IsIdle (asking calls) = ⊥
IsIdle (found calls) = ⊥
IsIdle (counting n calls) = ⊥

module _ (size : ℕ) where
  Move-IsIdle :
      {c c' : Client} {m m' : Shared} {k : ℕ}
      → Move size c m c' m' k
      → size < length m.window
      → IsIdle c
      → IsIdle c' × (m' ≡ m) × (k ≡ 0)
  Move-IsIdle (receive calls m) long i = (tt, refl, refl)
  Move-IsIdle (fail m) long i = (tt, refl, refl)
  Move-IsIdle (is_full s calls m e) long i = absurd (omega arith)
  Move-IsIdle (not_full s calls m e) long i = (tt, refl, refl)
  Move-IsIdle (has_room s calls m room) long i = absurd (omega arith)
  Move-IsIdle (no_room s calls m full) long i = (tt, refl, refl)
  Move-IsIdle (fill s calls m) long i = absurd i
  Move-IsIdle (evict s calls m) long i = absurd i
  Move-IsIdle (store slice s calls m) long i = absurd i
  Move-IsIdle (slide s calls m) long i = absurd i
  Move-IsIdle (is_normal calls m) long i = absurd i
  Move-IsIdle (is_anomaly calls m) long i = absurd i
  Move-IsIdle (read_count calls m) long i = absurd i
  Move-IsIdle (write_count n calls m) long i = absurd i

  Step-IsIdle :
      {cs ds : List Client} {m m' : Shared} {k : ℕ}
      → Step size cs m ds m' k
      → size < length m.window
      → All IsIdle cs
      → All IsIdle ds × (m' ≡ m) × (k ≡ 0)
  Step-IsIdle (accept cs m) long i = ((tt, i), refl, refl)
  Step-IsIdle (first cs mv) long i =
      let (idle, same, none_found) = Move-IsIdle mv long i.0 in ((idle, i.1), same, none_found)
  Step-IsIdle (later c st) long i =
      let (idle, same, none_found) = Step-IsIdle st long i.1 in ((i.0, idle), same, none_found)

  Reach-IsIdle :
      {cs : List Client} {m : Shared} {ds : List Client} {m' : Shared} {hits : ℕ}
      → Reach size cs m ds m' hits
      → size < length m.window
      → All IsIdle cs
      → All IsIdle ds × (m' ≡ m) × (hits ≡ 0)
  Reach-IsIdle here long i = (i, refl, refl)
  Reach-IsIdle (next r st) long i =
      let (idle, same, none_found) = Reach-IsIdle r long i in
      let (idle', same', none_found') = Step-IsIdle st (rw same long) idle in
      (idle', same' ∙ same, omega (arith, none_found, none_found'))

  -- Once the window is longer than its size and no thread is on the way to change anything, nothing
  -- ever changes again, whatever the clients send: no call is stored and no anomaly found.
  pub Reach-overfull :
      {cs : List Client} {m : Shared} {ds : List Client} {m' : Shared} {hits : ℕ}
      → Reach size cs m ds m' hits
      → size < length m.window
      → All IsIdle cs
      → (m' ≡ m) × (hits ≡ 0)
  Reach-overfull r long i =
      let (idle, same, none_found) = Reach-IsIdle r long i in (same, none_found)
