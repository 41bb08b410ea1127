-- ===== src/RtmDebug/Report/Totals.antt =====
-- The sums in the report of the aborts, and the calls of `record_abort` that they count.
use rcx_hashtables.Base.{
  ℕ, zero, suc, ◌+◌, ◌≡◌, refl, Bool, true, false, ◌||◌, ◌==◌, ltb, eq_of_==, ==-refl,
  if◌then◌else◌, arith, Bool-cases, inl, inr, List, [], ◌∷◌, ◌∙◌, ap,
}
use rcx_hashtables.Rcx.{abort_double_free, abort_conflict, abort_lf_conflict}
use rcx_hashtables.RtmDebug.{
  RtmAbortCnt, ulong, has_bit, xabort_code, count_if, count_bits, count_if-other, count_bits-above,
  record_abort,
}
use rcx_hashtables.RtmDebug.Report.{
  ResultStat, sum_cpus, pr_abort_stat, Call, after, has_reason, how_many,
}

abbrev bumped : Bool → ℕ → ℕ
bumped test n = if test then ulong (n + 1) else n

count_if_same :
    (test : Bool) (i : ℕ) (counts : ℕ → ℕ) → count_if test i counts i ≡ bumped test (counts i)
count_if_same true i counts = rw (==-refl i) refl
count_if_same false i counts = refl

count_bits_at :
    (k stat : ℕ) (counts : ℕ → ℕ) (j : ℕ)
    → (ltb j k) ≡ true
    → count_bits k stat counts j ≡ bumped (has_bit j stat) (counts j)
count_bits_at zero stat counts j lt = absurd (ground (arith, lt))
count_bits_at (suc k) stat counts j lt = elim (Bool-cases (j == k)) [
  | inl same ↦ rw (eq_of_== j k same) (
      count_if_same (has_bit k stat) k (count_bits k stat counts)
      ∙ ap (bumped (has_bit k stat)) (count_bits-above k stat counts k (omega arith)))
  | inr other ↦
      count_if-other (has_bit k stat) k (count_bits k stat counts) j other
      ∙ count_bits_at k stat counts j (ground (arith, lt, other))
]

-- The counters of the codes, over what the bits have counted.
abbrev count_codes : (code : ℕ) → (ℕ → ℕ) → ℕ → ℕ
count_codes code counts = count_if (code == abort_lf_conflict) abort_lf_conflict (
    count_if (code == abort_conflict) abort_conflict
      (count_if (code == abort_double_free) abort_double_free counts))

count_codes-other :
    (code : ℕ) (counts : ℕ → ℕ) (j : ℕ)
    → (j == abort_lf_conflict) ≡ false
    → (j == abort_conflict) ≡ false
    → (j == abort_double_free) ≡ false
    → count_codes code counts j ≡ counts j
count_codes-other code counts j e f g =
    count_if-other (code == abort_lf_conflict) abort_lf_conflict
      (count_if (code == abort_conflict) abort_conflict
        (count_if (code == abort_double_free) abort_double_free counts))
      j e
    ∙ count_if-other (code == abort_conflict) abort_conflict
        (count_if (code == abort_double_free) abort_double_free counts) j f
    ∙ count_if-other (code == abort_double_free) abort_double_free counts j g

is_code : ℕ → Bool
is_code j = (j == abort_double_free) || ((j == abort_conflict) || (j == abort_lf_conflict))

count_codes_at :
    (code : ℕ) (counts : ℕ → ℕ) (j : ℕ)
    → count_codes code counts j ≡ bumped (if is_code j then code == j else false) (counts j)
unfolding is_code
count_codes_at code counts j = elim (Bool-cases (j == abort_lf_conflict)) [
  | inl e ↦ rw (eq_of_== j abort_lf_conflict e) (ground arith)
  | inr e ↦ elim (Bool-cases (j == abort_conflict)) [
    | inl f ↦ rw (eq_of_== j abort_conflict f) (ground arith)
    | inr f ↦ elim (Bool-cases (j == abort_double_free)) [
      | inl g ↦ rw (eq_of_== j abort_double_free g) (ground arith)
      | inr g ↦
          let back : counts j ≡ bumped (if is_code j then code == j else false) (counts j) =
            rw (g, f, e) refl in
          count_codes-other code counts j e f g ∙ back
    ]
  ]
]

record_abort_counts :
    (stat : ℕ) (cnt : RtmAbortCnt) (j : ℕ)
    → (record_abort stat cnt).counts j ≡ bumped (has_reason j stat) (cnt.counts j)
unfolding record_abort is_code
record_abort_counts stat cnt j =
    let code : ℕ = xabort_code stat in
    let bits : ℕ → ℕ = count_bits 6 stat cnt.counts in
    elim (Bool-cases (ltb j 6)) [
      | inl lt ↦ rw lt (
          count_codes-other code bits j (ground (arith, lt)) (ground (arith, lt))
            (ground (arith, lt))
          ∙ count_bits_at 6 stat cnt.counts j lt)
      | inr ge ↦ rw ge (
          count_codes_at code bits j
          ∙ ap (bumped (if is_code j then code == j else false))
              (count_bits-above 6 stat cnt.counts j (ground (arith, ge))))
    ]

-- One counter of the CPUs, for a test on the calls that it counts.
pub record Counts (counter : RtmAbortCnt → ℕ) (test : Call → Bool) : Type 0 where
  pub start : counter (record { counts = λ _. 0; nr_aborts = 0 }) ≡ 0
  pub step :
      (c : Call) (cnt : RtmAbortCnt)
      → counter (record_abort c.stat cnt)
        ≡ (if test c then ulong (counter cnt + 1) else counter cnt)

-- The number of the calls on a CPU for which a test holds.
abbrev on : ℕ → (Call → Bool) → Call → Bool
on cpu test c = if cpu == c.cpu then test c else false

module _ (counter : RtmAbortCnt → ℕ) (test : Call → Bool) (k : Counts counter test) where
  counter-after :
      (cs : List Call) (cpu : ℕ) → counter (after cs cpu) ≡ ulong (how_many (on cpu test) cs)
  counter-after [] cpu = k.start
  counter-after (c ∷ cs) cpu = elim (Bool-cases (cpu == c.cpu)) [
    | inr other ↦ rw other (counter-after cs cpu)
    | inl here ↦ elim (Bool-cases (test c)) [
      | inl counts ↦
          let bump : counter (record_abort c.stat (after cs cpu))
              ≡ ulong (counter (after cs cpu) + 1) =
            rw counts at (k.step c (after cs cpu)) in
          rw (here, counts) (omega (arith, bump, counter-after cs cpu))
      | inr other ↦
          let same : counter (record_abort c.stat (after cs cpu)) ≡ counter (after cs cpu) =
            rw other at (k.step c (after cs cpu)) in
          rw (here, other) (same ∙ counter-after cs cpu)
    ]
  ]

  -- The calls that the CPUs of a list have counted.
  abbrev calls_on : List ℕ → List Call → ℕ
  calls_on [] cs = 0
  calls_on (cpu ∷ cpus) cs = how_many (on cpu test) cs + calls_on cpus cs

  sum_cpus-calls_on :
      (online : List ℕ) (cs : List Call) (sum : ℕ)
      → sum_cpus counter online (after cs) (ulong sum) ≡ ulong (sum + calls_on online cs)
  unfolding sum_cpus
  sum_cpus-calls_on [] cs sum = omega arith
  sum_cpus-calls_on (cpu ∷ cpus) cs sum =
      let here : ulong (ulong sum + counter (after cs cpu))
          ≡ ulong (sum + how_many (on cpu test) cs) =
        omega (arith, counter-after cs cpu) in
      rw here (sum_cpus-calls_on cpus cs (sum + how_many (on cpu test) cs) ∙ omega arith)

-- How often a CPU stands in a list, and that the calls ran on CPUs that stand there once.
abbrev pub times : ℕ → List ℕ → ℕ
times cpu [] = 0
times cpu (x ∷ xs) = if x == cpu then suc (times cpu xs) else times cpu xs

abbrev pub AllOn : List ℕ → List Call → Type 0
AllOn online [] = Unit {0}
AllOn online (c ∷ cs) = (times c.cpu online ≡ 1) × AllOn online cs

module _ (counter : RtmAbortCnt → ℕ) (test : Call → Bool) (k : Counts counter test) where
  calls_on-none : (online : List ℕ) → calls_on counter test k online [] ≡ 0
  calls_on-none [] = refl
  calls_on-none (cpu ∷ cpus) = omega (arith, calls_on-none cpus)

  calls_on-call :
      (online : List ℕ) (c : Call) (cs : List Call)
      → calls_on counter test k online (c ∷ cs)
        ≡ (if test c then times c.cpu online else 0) + calls_on counter test k online cs
  calls_on-call [] c cs = ground arith
  calls_on-call (cpu ∷ cpus) c cs = ground (arith, calls_on-call cpus c cs)

  calls_on-all :
      (online : List ℕ) (cs : List Call)
      → AllOn online cs
      → calls_on counter test k online cs ≡ how_many test cs
  calls_on-all online [] all = calls_on-none online
  calls_on-all online (c ∷ cs) (once, all) =
      ground (arith, calls_on-call online c cs, once, calls_on-all online cs all)

  sum_cpus-how_many :
      (online : List ℕ) (cs : List Call)
      → AllOn online cs
      → sum_cpus counter online (after cs) 0 ≡ ulong (how_many test cs)
  sum_cpus-how_many online cs all =
      sum_cpus-calls_on counter test k online cs 0 ∙ omega (arith, calls_on-all online cs all)

-- The report after any calls of `record_abort`, on CPUs that are online: the total is the number of the calls,
-- and the sum of a reason is the number of those whose status has it, both modulo 2 ^ 64.
pub pr_abort_stat_lem :
    (online : List ℕ) (cs : List Call) (stat : ResultStat) (i : ℕ)
    → AllOn online cs
    → ((pr_abort_stat online (after cs) stat).nr_total_aborts ≡ ulong (how_many (λ c. true) cs))
      × ((pr_abort_stat online (after cs) stat).sum i
          ≡ ulong (how_many (λ c. has_reason i c.stat) cs))
unfolding pr_abort_stat record_abort
pr_abort_stat_lem online cs stat i all = (
  sum_cpus-how_many (λ c. c.nr_aborts) (λ c. true) (record { start = refl; step = λ c cnt. refl })
      online cs all,
  sum_cpus-how_many (λ c. c.counts i) (λ c. has_reason i c.stat)
      (record { start = refl; step = λ c cnt. record_abort_counts c.stat cnt i }) online cs all,
)
