-- ===== src/Detection/Clients.antt =====
-- The threads of server/server.py: each connection runs `threaded_client` in a thread of its own, and
-- all of them share `bosc` and `anomalyCount`. A step is one read or write of what they share, by
-- any one of them: the slice that an eviction takes is stored in a step of its own, and may be out
-- of date by then. A call is appended to the list that is the window at that moment: finding that
-- list and appending to it are taken as one step. What a chunk holds and what a query answers is
-- open.
pub mod Count
pub mod Overfull
use xen_syscall_analysis.Base.{ℕ, zero, suc, ◌+◌, ◌<◌, ◌≤◌, ◌≡◌, ◌≢◌, List, [], ◌∷◌, ◌++◌, length}
use xen_syscall_analysis.Text.{Text}

-- Where a thread stands; `calls` are those of its chunk that are left. An ended one was left by an
-- exception.
pub data Client : Type 0 where
  judging : (calls : List Text) → Client
  comparing : (s : Text) (calls : List Text) → Client
  filling : (s : Text) (calls : List Text) → Client
  evicting : (s : Text) (calls : List Text) → Client
  replacing : (slice : List Text) (s : Text) (calls : List Text) → Client
  sliding : (s : Text) (calls : List Text) → Client
  asking : (calls : List Text) → Client
  found : (calls : List Text) → Client
  counting : (n : ℕ) (calls : List Text) → Client
  ended : Client

pub record Shared : Type 0 where
  pub window : List Text
  pub anomaly_count : ℕ

abbrev pub empty_shared : Shared
empty_shared = record { window = []; anomaly_count = 0 }

-- `sliding_window[1:]`.
abbrev pub rest_of : List Text → List Text
rest_of [] = []
rest_of (x ∷ w) = w

-- A step of a thread, and how many anomalies it finds.
pub data Move (size : ℕ) : Client → Shared → Client → Shared → (found : ℕ) → Type 0 where
  receive : (calls : List Text) (m : Shared) → Move size (judging []) m (judging calls) m 0
  fail : (m : Shared) → Move size (judging []) m ended m 0
  is_full :
      (s : Text) (calls : List Text) (m : Shared)
      → length m.window ≡ size
      → Move size (judging (s ∷ calls)) m (evicting s calls) m 0
  not_full :
      (s : Text) (calls : List Text) (m : Shared)
      → length m.window ≢ size
      → Move size (judging (s ∷ calls)) m (comparing s calls) m 0
  has_room :
      (s : Text) (calls : List Text) (m : Shared)
      → length m.window < size
      → Move size (comparing s calls) m (filling s calls) m 0
  no_room :
      (s : Text) (calls : List Text) (m : Shared)
      → size ≤ length m.window
      → Move size (comparing s calls) m (judging calls) m 0
  fill :
      (s : Text) (calls : List Text) (m : Shared)
      → Move size (filling s calls) m (judging calls) (record m { window = m.window ++ s ∷ [] }) 0
  evict :
      (s : Text) (calls : List Text) (m : Shared)
      → Move size (evicting s calls) m (replacing (rest_of m.window) s calls) m 0
  store :
      (slice : List Text) (s : Text) (calls : List Text) (m : Shared)
      → Move size (replacing slice s calls) m (sliding s calls) (record m { window = slice }) 0
  slide :
      (s : Text) (calls : List Text) (m : Shared)
      → Move size (sliding s calls) m (asking calls) (record m { window = m.window ++ s ∷ [] }) 0
  is_normal : (calls : List Text) (m : Shared) → Move size (asking calls) m (judging calls) m 0
  is_anomaly : (calls : List Text) (m : Shared) → Move size (asking calls) m (found calls) m 1
  read_count :
      (calls : List Text) (m : Shared)
      → Move size (found calls) m (counting m.anomaly_count calls) m 0
  write_count :
      (n : ℕ) (calls : List Text) (m : Shared)
      → Move size (counting n calls) m (judging calls) (record m { anomaly_count = suc n }) 0

-- One of the threads moves, or one more is started.
pub data Step (size : ℕ) : List Client → Shared → List Client → Shared → (found : ℕ) → Type 0 where
  accept : (cs : List Client) (m : Shared) → Step size cs m (judging [] ∷ cs) m 0
  first :
      {c c' : Client} {m m' : Shared} {found : ℕ} (cs : List Client)
      → Move size c m c' m' found
      → Step size (c ∷ cs) m (c' ∷ cs) m' found
  later :
      {cs cs' : List Client} {m m' : Shared} {found : ℕ} (c : Client)
      → Step size cs m cs' m' found
      → Step size (c ∷ cs) m (c ∷ cs') m' found

-- What comes of steps, and how many anomalies they have found.
pub data Reach (size : ℕ) (cs : List Client) (m : Shared)
    : List Client → Shared → (found : ℕ) → Type 0 where
  here : Reach size cs m cs m 0
  next :
      {ds es : List Client} {n o : Shared} {found more : ℕ}
      → Reach size cs m ds n found
      → Step size ds n es o more
      → Reach size cs m es o (more + found)
