-- ===== src/StartUp/Refused.antt =====
-- What a start leaves behind, and what a program with a connection returns.
use xen_syscall_analysis.Base.{
  ℕ, ◌≡◌, refl, Bool, true, false, ◌&&◌, Option, some, none, List, [], if◌then◌else◌,
}
use xen_syscall_analysis.LibVmi.{LibVmi}
use xen_syscall_analysis.Connection.{Call, Answers, ok, exited, Run, ◌>>=◌, ◌>>◌, return}
use xen_syscall_analysis.StartUp.{
  Opening, Opened, refused, opened, open_guest, launch, ran, connect_if, close_if, with_connection,
}

module _ (v : LibVmi) where
  -- Whether a start can succeed.
  abbrev pub is_ready : Opening v → Bool
  is_ready o = o.access_mode && (o.paging && o.os)

  abbrev pub destroyed : Option v.World → Option v.World
  destroyed none = none
  destroyed (some w) = some (v.destroy w)

  abbrev pub opened_with : Option v.World → Opened v
  opened_with none = refused none
  opened_with (some w) = opened w

  by_calls :
      (access_mode : Bool) (init : Option v.World) (paging os : Bool)
      → let o : Opening v = record {
        access_mode = access_mode;
        init = init;
        paging = paging;
        os = os;
      } in
        open_guest v o ≡ (
          if is_ready o
          then opened_with o.init
          else refused (if o.access_mode then destroyed o.init else none))
  unfolding open_guest
  by_calls false init paging os = refl
  by_calls true none false os = refl
  by_calls true none true false = refl
  by_calls true none true true = refl
  by_calls true (some w) false os = refl
  by_calls true (some w) true false = refl
  by_calls true (some w) true true = refl

  -- A start whose calls all succeed gives the world that `vmi_init` made. One that fails has
  -- destroyed the instance, if `vmi_init` was reached and made one.
  open_guest_cases :
      (o : Opening v)
      → open_guest v o ≡ (
          if is_ready o
          then opened_with o.init
          else refused (if o.access_mode then destroyed o.init else none))
  open_guest_cases o = by_calls o.access_mode o.init o.paging o.os

-- A run that a launch gave is that from the world that was opened.
pub ran_opened :
    (v : LibVmi) (o : Opening v) (w : v.World)
    → open_guest v o ≡ opened w
    → {E : Type 0} (run : v.World → E) {e : E} → launch v run (open_guest v o) ≡ ran e
    → e ≡ run w
unfolding launch
ran_opened v o w start run {e} r = let r' : ran (run w) ≡ ran e = rw start at r in cc

-- A program that returns a value got it from its launch, whatever the connection did.
pub launched :
    {A : Type 0} (connects : Bool) (n : Answers) (at_end : Bool) (l : A) {r : A}
    → (with_connection connects n at_end l).1 ≡ ok r
    → r ≡ l
unfolding with_connection ◌>>=◌ close_if
launched connects n at_end l e = by_connection (connect_if connects n) at_end l e
  where
    by_connection :
        {A : Type 0} (m : Run (Option ℕ)) (at_end : Bool) (l : A) {r : A}
        → (m >>= λ fd. (close_if at_end fd >> return l)).1 ≡ ok r
        → r ≡ l
    by_connection (made, exited code) at_end l e = absurd (cc)
    by_connection (made, ok none) true l e = cc
    by_connection (made, ok none) false l e = cc
    by_connection (made, ok (some fd)) true l e = cc
    by_connection (made, ok (some fd)) false l e = cc

-- Without a connection no call is made.
pub with_connection_quiet :
    {A : Type 0} (n : Answers) (at_end : Bool) (l : A) → (with_connection false n at_end l).0 ≡ []
unfolding with_connection connect_if close_if ◌>>=◌
with_connection_quiet n true l = refl
with_connection_quiet n false l = refl

-- A program whose connection succeeds, or that makes none, has the result of its run.
pub with_connection_result :
    {A : Type 0} (connects : Bool) (n : Answers) (at_end : Bool) (l : A) {fd : Option ℕ}
    → (connect_if connects n).1 ≡ ok fd
    → (with_connection connects n at_end l).1 ≡ ok l
unfolding with_connection close_if ◌>>=◌
with_connection_result connects n at_end l e = by_run (connect_if connects n) at_end e
  where
    closed :
        (b : Bool) (f : Option ℕ) (calls : List Call)
        → ((calls, ok f) >>= λ g. close_if b g >> return l).1 ≡ ok l
    closed true (some fd) calls = refl
    closed true none calls = refl
    closed false f calls = refl

    by_run :
        (r : Run (Option ℕ)) (b : Bool) {fd : Option ℕ}
        → r.1 ≡ ok fd
        → (r >>= λ g. close_if b g >> return l).1 ≡ ok l
    by_run (calls, ok f) b e = closed b f calls
    by_run (calls, exited c) b e = absurd (cc)
