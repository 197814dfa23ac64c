-- ===== src/Tests/Relay.antt =====
-- Twenty-two calls of open from the guest of Machine to the server.
use xen_syscall_analysis.Base.{
  Bool, not, ◌&&◌, ◌==◌, ltb, ℕ, zero, suc, ◌≡◌, refl, arith, true, some, List, [], ◌∷◌, ◌++◌, All,
}
use xen_syscall_analysis.Text.{Text, codes}
use xen_syscall_analysis.SyscallTable.{analysis_mode}
use xen_syscall_analysis.Window.Decode.{PlainName}
use xen_syscall_analysis.Process.{syscall_number}
use xen_syscall_analysis.Process.Frames.{Visit}
use xen_syscall_analysis.Detection.{new_creator}
use xen_syscall_analysis.Detection.Service.{new_server, threaded_client}
use xen_syscall_analysis.Detection.Stream.{marked}
use xen_syscall_analysis.Detection.Relay.{threaded_client-process_all}
use xen_syscall_analysis.Tests.Machine.{machine, memory}
use xen_syscall_analysis.Tests.Calls.{junk, tracer}

abbrev pub visit : Visit machine
visit = record { world = memory; vcpu = 0; junk = junk }

abbrev pub times_ten {ℓ} : {A : Type ℓ} → A → List A
times_ten x = x ∷ x ∷ x ∷ x ∷ x ∷ x ∷ x ∷ x ∷ x ∷ x ∷ []

abbrev is_plain_name : Text → Bool
is_plain_name [] = true
is_plain_name (c ∷ t) = not (c == b',') && (ltb c 128 && is_plain_name t)

pub plain_name : (t : Text) → is_plain_name t ≡ true → PlainName t
plain_name [] h = tt
plain_name (c ∷ t) h = ((ground (arith, h), ground (arith, h)), plain_name t (ground (arith, h)))

pub open_free : PlainName (codes "open")
open_free = plain_name (codes "open") refl

abbrev pub opens : ℕ → List Text
opens zero = []
opens (suc n) = codes "open" ∷ opens n

opens_free : (n : ℕ) → All PlainName (opens n)
opens_free zero = tt
opens_free (suc n) = (open_free, opens_free n)

opens_ten : All PlainName (times_ten (codes "open"))
opens_ten = opens_free 10

abbrev visits : List (Visit machine)
visits = visit ∷ visit ∷ times_ten visit ++ times_ten visit

-- Both frames come in one chunk, and twenty of the calls are judged. Of the last ten the first has
-- the mark of the frame before.
threaded_client-process_all_example :
    threaded_client true []
      (codes
          "open,open,open,open,open,open,open,open,open,open,.open,open,open,open,open,open,open,open,open,open,."
        ∷ [])
      new_server
    ≡ some (record {
      bosc = record new_creator { sliding_window = marked (times_ten (codes "open")) };
      anomaly_count = 10;
    })
unfolding syscall_number
threaded_client-process_all_example =
    (threaded_client-process_all machine visits (tracer analysis_mode []) true []
      ((times_ten (codes "open"), codes "open") ∷ (times_ten (codes "open"), codes "open") ∷ []) []
      ((times_ten (codes "open") ∷ times_ten (codes "open") ∷ []) ∷ []) refl refl refl
      (refl, (refl, tt)) (omega arith) (opens_ten, (opens_ten, tt)) refl ((λ e. cc), tt)).1
