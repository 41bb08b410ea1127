-- ===== src/RtmDebug/Report.antt =====
-- rtm_debug.c: the report of the statistics over all CPUs.
pub mod Totals
use rcx_hashtables.Base.{
  ℕ, zero, suc, ◌+◌, ◌*◌, ◌/◌, ◌≡◌, refl, Bool, true, false, ◌||◌, ◌==◌, ltb, eq_of_==, ==-refl,
  if◌then◌else◌, arith, Bool-cases, inl, inr, List, [], ◌∷◌, ◌∙◌, ap,
}
use rcx_hashtables.Rcx.{abort_double_free, abort_conflict, abort_lf_conflict}
use rcx_hashtables.RtmDebug.{
  RtmAbortCnt, ulong, has_bit, xabort_code, count_if, count_bits, count_if-other, count_bits-above,
  record_abort,
}

abbrev pub nr_abort_reasons : ℕ
nr_abort_reasons = 9

-- `struct result_stat`
pub record ResultStat : Type 0 where
  pub duration_ms : ℕ
  pub nr_issued_ops : ℕ
  pub nr_succ_ops : ℕ
  pub nr_upd : ℕ

-- The per-CPU variable `abort_cnt`.
abbrev pub PerCpu : Type 0
PerCpu = ℕ → RtmAbortCnt

-- `record_abort(stat)` on a CPU.
abbrev pub record_on : (cpu stat : ℕ) → PerCpu → PerCpu
record_on cpu stat cnt j = if j == cpu then record_abort stat (cnt j) else cnt j

-- The lines of the report, the sums of the reasons by their number.
pub record Report : Type 0 where
  pub aborts_per_sec : ℕ
  pub aborts_per_1000issued : ℕ
  pub aborts_per_1000succ : ℕ
  pub aborts_per_1000upd : ℕ
  pub nr_total_aborts : ℕ
  pub sum : ℕ → ℕ

-- The loop over the CPUs that are online, for one counter.
unfoldable pub sum_cpus : (RtmAbortCnt → ℕ) → List ℕ → PerCpu → (sum : ℕ) → ℕ
sum_cpus counter [] cnt sum = sum
sum_cpus counter (cpu ∷ cpus) cnt sum = sum_cpus counter cpus cnt (ulong (sum + counter (cnt cpu)))

-- A divisor that is 0 becomes 1.
abbrev pub at_least_one : ℕ → ℕ
at_least_one n = if n == 0 then 1 else n

-- `*stat` after the call.
abbrev pub no_zeros : ResultStat → ResultStat
no_zeros stat = record {
  duration_ms = at_least_one stat.duration_ms;
  nr_issued_ops = at_least_one stat.nr_issued_ops;
  nr_succ_ops = at_least_one stat.nr_succ_ops;
  nr_upd = at_least_one stat.nr_upd;
}

abbrev pub per_1000 : (nr_total_aborts divisor : ℕ) → ℕ
per_1000 nr_total_aborts divisor = ulong (nr_total_aborts * 1000) / divisor

unfoldable pub pr_abort_stat : (online : List ℕ) → PerCpu → ResultStat → Report
unfolding sum_cpus
pr_abort_stat online cnt stat =
    let nr_total_aborts = sum_cpus (λ c. c.nr_aborts) online cnt 0 in
    let s = no_zeros stat in
    record {
      aborts_per_sec = per_1000 nr_total_aborts s.duration_ms;
      aborts_per_1000issued = per_1000 nr_total_aborts s.nr_issued_ops;
      aborts_per_1000succ = per_1000 nr_total_aborts s.nr_succ_ops;
      aborts_per_1000upd = per_1000 nr_total_aborts s.nr_upd;
      nr_total_aborts = nr_total_aborts;
      sum = λ i. sum_cpus (λ c. c.counts i) online cnt 0;
    }

-- Calls of `record_abort`, each on its CPU with its status.
pub record Call : Type 0 where
  pub cpu : ℕ
  pub stat : ℕ

abbrev pub no_aborts : PerCpu
no_aborts cpu = record { counts = λ _. 0; nr_aborts = 0 }

-- The counters after some calls, the first call last.
abbrev pub after : List Call → PerCpu
after [] = no_aborts
after (c ∷ cs) = record_on c.cpu c.stat (after cs)

-- The status has the reason `i`.
abbrev pub has_reason : ℕ → ℕ → Bool
has_reason i stat =
    if ltb i 6
    then has_bit i stat
    else if (i == abort_double_free) || ((i == abort_conflict) || (i == abort_lf_conflict))
    then xabort_code stat == i
    else false

-- The number of calls for which a test holds.
abbrev pub how_many : (Call → Bool) → List Call → ℕ
how_many test [] = 0
how_many test (c ∷ cs) = if test c then suc (how_many test cs) else how_many test cs
