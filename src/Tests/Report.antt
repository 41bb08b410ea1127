-- ===== src/Tests/Report.antt =====
-- Two CPUs that have counted three aborts.
use rcx_hashtables.Base.{[], ◌∷◌, refl, ◌≡◌, true, List}
use rcx_hashtables.Machine.{xabort_status}
use rcx_hashtables.Rcx.{abort_conflict, abort_double_free}
use rcx_hashtables.RtmDebug.{ulong}
use rcx_hashtables.RtmDebug.Report.{Call, ResultStat, after, how_many, has_reason, pr_abort_stat}
use rcx_hashtables.RtmDebug.Report.Totals.{pr_abort_stat_lem}

abbrev three_calls : List Call
three_calls =
    record { cpu = 1; stat = xabort_status abort_conflict }
    ∷ record { cpu = 0; stat = 8 }
    ∷ record { cpu = 1; stat = xabort_status abort_double_free }
    ∷ []

abbrev no_ops : ResultStat
no_ops = record { duration_ms = 0; nr_issued_ops = 0; nr_succ_ops = 0; nr_upd = 0 }

pr_abort_stat_example :
    ((pr_abort_stat (0 ∷ 1 ∷ []) (after three_calls) no_ops).nr_total_aborts
      ≡ ulong (how_many (λ c. true) three_calls))
    × ((pr_abort_stat (0 ∷ 1 ∷ []) (after three_calls) no_ops).sum 0
        ≡ ulong (how_many (λ c. has_reason 0 c.stat) three_calls))
pr_abort_stat_example =
    pr_abort_stat_lem (0 ∷ 1 ∷ []) three_calls no_ops 0 (refl, (refl, (refl, tt)))
