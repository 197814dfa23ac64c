-- ===== src/Tests/Detector.antt =====
-- The bags and verdicts of the server, on small tables.
use xen_syscall_analysis.Base.{◌++◌, ◌↔◌, ◌≡◌, refl, false, some, List, [], ◌∷◌, ◌==◌}
use xen_syscall_analysis.Text.{Text, codes, text_eq}
use xen_syscall_analysis.Detection.{create_bosc, load_lookup_table, create_learning_db, new_creator}
use xen_syscall_analysis.Detection.Service.{new_server, judge_calls}
use xen_syscall_analysis.Detection.Bags.{create_bosc-calls_of}
use xen_syscall_analysis.Detection.Multiset.{of_calls, create_bosc_iff_of_calls}
use xen_syscall_analysis.Detection.Windows.{
  windows, store_windows, table_of, create_learning_db-windows,
}
use xen_syscall_analysis.Detection.Verdicts.{judge_calls-raised}

abbrev names : List Text
names = codes "read" ∷ codes "open" ∷ []

abbrev repeated : List Text
repeated =
    codes "read"
    ∷ codes "open"
    ∷ codes "read"
    ∷ codes "exit"
    ∷ codes "read"
    ∷ codes "open"
    ∷ codes "read"
    ∷ codes "exit"
    ∷ codes "read"
    ∷ codes "open"
    ∷ codes "read"
    ∷ codes "exit"
    ∷ []

-- The names are distinct, and of the calls one name is unknown.
create_bosc-calls_of_example :
    create_bosc (load_lookup_table names) repeated ≡ some (6 ∷ 3 ∷ 3 ∷ [])
unfolding text_eq
create_bosc-calls_of_example = create_bosc-calls_of names repeated (refl, (refl, tt))

create_learning_db-windows_example :
    table_of (create_learning_db (λ n. false) names repeated [])
    ≡ store_windows (load_lookup_table names) (λ n. false) (windows 10 repeated) []
create_learning_db-windows_example = create_learning_db-windows (λ n. false) names repeated []

-- Of twelve calls two windows have a call behind them; only the first query raises.
judge_calls-raised_example :
    judge_calls (λ n. n == 0) [] repeated new_server
    ≡ some (record {
      bosc = record new_creator {
        sliding_window =
            codes "read"
            ∷ codes "exit"
            ∷ codes "read"
            ∷ codes "open"
            ∷ codes "read"
            ∷ codes "exit"
            ∷ codes "read"
            ∷ codes "open"
            ∷ codes "read"
            ∷ codes "exit"
            ∷ [];
      };
      anomaly_count = 1;
    })
judge_calls-raised_example = judge_calls-raised (λ n. n == 0) [] repeated

-- The same four calls in another order.
create_bosc_iff_of_calls_example :
    (create_bosc (load_lookup_table names) (names ++ names)
      ≡ create_bosc (load_lookup_table names) (codes "open" ∷ names ++ codes "read" ∷ []))
    ↔ (of_calls (names ++ names) ≡ of_calls (codes "open" ∷ names ++ codes "read" ∷ []))
unfolding text_eq
create_bosc_iff_of_calls_example =
    create_bosc_iff_of_calls names (names ++ names) (codes "open" ∷ names ++ codes "read" ∷ [])
      (refl, (refl, tt)) (refl, (refl, (refl, (refl, tt)))) (refl, (refl, (refl, (refl, tt))))
