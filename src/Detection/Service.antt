-- ===== src/Detection/Service.antt =====
-- What `threaded_client` of server/server.py does with the chunks that it receives.
use xen_syscall_analysis.Base.{
  ℕ, suc, Bool, true, false, Option, some, none, List, [], ◌∷◌, if◌then◌else◌,
}
use xen_syscall_analysis.Text.{Text}
use xen_syscall_analysis.Text.Utf8.{decode}
use xen_syscall_analysis.Window.{read_frame}
use xen_syscall_analysis.Detection.{
  BoscCreator, new_creator, Verdict, anomaly, append_bosc, needs_query, left, Table,
}

pub record Server : Type 0 where
  pub bosc : BoscCreator
  pub anomaly_count : ℕ

abbrev pub new_server : Server
new_server = record { bosc = new_creator; anomaly_count = 0 }

abbrev pub is_anomaly : Verdict → Bool
is_anomaly anomaly = true
is_anomaly v = false

abbrev pub count_verdict : (anomaly_count : ℕ) → Option (Verdict × BoscCreator) → Option Server
count_verdict n none = none
count_verdict n (some (v, c)) =
    some (record { bosc = c; anomaly_count = if is_anomaly v then suc n else n })

abbrev pub then_serve {ℓ} : {A : Type ℓ} → Option Server → (Server → Option A) → Option A
then_serve none f = none
then_serve (some s) f = f s

-- The calls of a chunk.
unfoldable pub judge_calls : (raises : ℕ → Bool) → Table → List Text → Server → Option Server
judge_calls raises t [] s = some s
judge_calls raises t (x ∷ xs) s =
    then_serve (count_verdict s.anomaly_count (append_bosc (raises 0) t x s.bosc))
      (judge_calls (left (needs_query s.bosc) raises) t xs)

abbrev pub judge_decoded : (raises : ℕ → Bool) → Table → Option Text → Server → Option Server
judge_decoded raises t none s = none
judge_decoded raises t (some calls) s = judge_calls raises t (read_frame calls) s

-- A turn of the loop of `threaded_client`. Its inner loop always ends after one `recv`, since
-- `chunk[-1]` is a number; an empty chunk raises, and so does one that is not UTF-8.
unfoldable pub receive_chunk : (raises : ℕ → Bool) → Table → (chunk : Text) → Server → Option Server
receive_chunk raises t [] s = none
receive_chunk raises t (c ∷ chunk) s = judge_decoded raises t (decode (c ∷ chunk)) s

-- The loop of `threaded_client` over the chunks that come. Either all queries of a thread raise, or
-- none: the database refuses a thread that has not opened it.
unfoldable pub threaded_client :
    (raises : Bool) → Table → (chunks : List Text) → Server → Option Server
threaded_client raises t [] s = some s
threaded_client raises t (chunk ∷ chunks) s =
    then_serve (receive_chunk (λ n. raises) t chunk s) (threaded_client raises t chunks)
