-- ===== src/Barrier.antt =====
-- barrier.c: a barrier that threads cross together, once.
use rcx_hashtables.Base.{
  ℕ, zero, suc, ◌+◌, ◌≤◌, ◌≡◌, ◌∙◌, refl, ◌==◌, eq_of_==, if◌then◌else◌, List, [], ◌∷◌, arith,
  Bool-cases, inl, inr,
}

-- `barrier_t`
pub record Barrier : Type 0 where
  pub count : ℕ
  pub crossing : ℕ

-- Where a thread is in `barrier_cross`: it has read the count, it has last seen a number of
-- crossings, or it has returned.
pub data Phase : Type 0 where
  outside : Phase
  counted : (count : ℕ) → Phase
  waiting : (count crossing : ℕ) → Phase
  crossed : Phase

abbrev pub barrier_init : ℕ → Barrier
barrier_init n = record { count = n; crossing = 0 }

-- The barrier after the next atomic step of a thread.
unfoldable pub cross_barrier : Phase → Barrier → Barrier
cross_barrier (counted c) b = record b { crossing = b.crossing + 1 }
cross_barrier _ b = b

-- Where the thread is then. The test of the loop follows a read at once.
unfoldable pub cross_phase : Phase → Barrier → Phase
cross_phase outside b = counted b.count
cross_phase (counted c) b = waiting c (b.crossing + 1)
cross_phase (waiting c k) b = if k == c then crossed else waiting c b.crossing
cross_phase crossed b = crossed

-- One step of the thread with the number `i` in a list of threads.
unfoldable pub step_barrier : ℕ → List Phase → Barrier → Barrier
unfolding cross_barrier
step_barrier i [] b = b
step_barrier zero (x ∷ xs) b = cross_barrier x b
step_barrier (suc i) (x ∷ xs) b = step_barrier i xs b

unfoldable pub step_phases : ℕ → List Phase → Barrier → List Phase
unfolding cross_phase
step_phases i [] b = []
step_phases zero (x ∷ xs) b = cross_phase x b ∷ xs
step_phases (suc i) (x ∷ xs) b = x ∷ step_phases i xs b

pub record System : Type 0 where
  pub barrier : Barrier
  pub phases : List Phase

-- The threads take steps in the order of a schedule.
unfoldable pub run : List ℕ → System → System
unfolding step_barrier step_phases
run [] s = s
run (i ∷ is) s = run is (record {
  barrier = step_barrier i s.phases s.barrier;
  phases = step_phases i s.phases s.barrier;
})

abbrev pub has_arrived : Phase → ℕ
has_arrived outside = 0
has_arrived (counted c) = 0
has_arrived _ = 1

-- The number of threads that have counted themselves.
abbrev pub arrived : List Phase → ℕ
arrived [] = 0
arrived (x ∷ xs) = has_arrived x + arrived xs

-- What a thread knows when `m` have crossed a barrier for `n`.
abbrev Knows : (n m : ℕ) → Phase → Type 0
Knows n m outside = Unit {0}
Knows n m (counted c) = c ≡ n
Knows n m (waiting c k) = (c ≡ n) × (k ≤ m)
Knows n m crossed = n ≤ m

abbrev AllKnow : (n m : ℕ) → List Phase → Type 0
AllKnow n m [] = Unit {0}
AllKnow n m (x ∷ xs) = Knows n m x × AllKnow n m xs

Knows-later : (n m m' : ℕ) (x : Phase) → m ≤ m' → Knows n m x → Knows n m' x
Knows-later n m m' outside le k = tt
Knows-later n m m' (counted c) le k = k
Knows-later n m m' (waiting c i) le (k, l) = (k, omega (arith, l, le))
Knows-later n m m' crossed le k = omega (arith, k, le)

AllKnow-later : (n m m' : ℕ) (xs : List Phase) → m ≤ m' → AllKnow n m xs → AllKnow n m' xs
AllKnow-later n m m' [] le a = tt
AllKnow-later n m m' (x ∷ xs) le (k, a) = (Knows-later n m m' x le k, AllKnow-later n m m' xs le a)

cross-count : (x : Phase) (b : Barrier) → (cross_barrier x b).count ≡ b.count
unfolding cross_barrier
cross-count outside b = refl
cross-count (counted c) b = refl
cross-count (waiting c k) b = refl
cross-count crossed b = refl

cross-arrived :
    (x : Phase) (b : Barrier)
    → (cross_barrier x b).crossing + has_arrived x ≡ b.crossing + has_arrived (cross_phase x b)
unfolding cross_barrier cross_phase
cross-arrived outside b = refl
cross-arrived (counted c) b = omega arith
cross-arrived (waiting c k) b = elim (Bool-cases (k == c)) [ inl e ↦ rw e refl | inr e ↦ rw e refl ]
cross-arrived crossed b = refl

cross-Knows :
    (n : ℕ) (x : Phase) (b : Barrier)
    → b.count ≡ n
    → Knows n b.crossing x
    → Knows n (cross_barrier x b).crossing (cross_phase x b)
unfolding cross_barrier cross_phase
cross-Knows n outside b e k = e
cross-Knows n (counted c) b e k = (k, omega arith)
cross-Knows n (waiting c i) b e (k, l) = elim (Bool-cases (i == c)) [
  | inl same ↦ rw same (omega (arith, k, l, eq_of_== i c same))
  | inr other ↦ rw other (k, omega arith)
]
cross-Knows n crossed b e k = k

step-count : (i : ℕ) (xs : List Phase) (b : Barrier) → (step_barrier i xs b).count ≡ b.count
unfolding step_barrier
step-count i [] b = refl
step-count zero (x ∷ xs) b = cross-count x b
step-count (suc i) (x ∷ xs) b = step-count i xs b

step-arrived :
    (i : ℕ) (xs : List Phase) (b : Barrier)
    → (step_barrier i xs b).crossing + arrived xs ≡ b.crossing + arrived (step_phases i xs b)
unfolding step_barrier step_phases
step-arrived i [] b = refl
step-arrived zero (x ∷ xs) b = omega (arith, cross-arrived x b)
step-arrived (suc i) (x ∷ xs) b = omega (arith, step-arrived i xs b)

cross-later : (x : Phase) (b : Barrier) → b.crossing ≤ (cross_barrier x b).crossing
unfolding cross_barrier
cross-later outside b = omega arith
cross-later (counted c) b = omega arith
cross-later (waiting c k) b = omega arith
cross-later crossed b = omega arith

step-later : (i : ℕ) (xs : List Phase) (b : Barrier) → b.crossing ≤ (step_barrier i xs b).crossing
unfolding step_barrier
step-later i [] b = omega arith
step-later zero (x ∷ xs) b = cross-later x b
step-later (suc i) (x ∷ xs) b = step-later i xs b

step-AllKnow :
    (n i : ℕ) (xs : List Phase) (b : Barrier)
    → b.count ≡ n
    → AllKnow n b.crossing xs
    → AllKnow n (step_barrier i xs b).crossing (step_phases i xs b)
unfolding step_barrier step_phases
step-AllKnow n i [] b e a = tt
step-AllKnow n zero (x ∷ xs) b e (k, a) = (
  cross-Knows n x b e k,
  AllKnow-later n b.crossing (cross_barrier x b).crossing xs (cross-later x b) a,
)
step-AllKnow n (suc i) (x ∷ xs) b e (k, a) = (
  Knows-later n b.crossing (step_barrier i xs b).crossing x (step-later i xs b) k,
  step-AllKnow n i xs b e a,
)

-- The barrier for `n` threads counts the threads that have arrived.
record IsCounting (n : ℕ) (s : System) : Type 0 where
  count : s.barrier.count ≡ n
  crossing : s.barrier.crossing ≡ arrived s.phases
  know : AllKnow n s.barrier.crossing s.phases

run-IsCounting : (n : ℕ) (is : List ℕ) (s : System) → IsCounting n s → IsCounting n (run is s)
unfolding run
run-IsCounting n [] s c = c
run-IsCounting n (i ∷ is) s c =
    run-IsCounting n is
      (record {
        barrier = step_barrier i s.phases s.barrier;
        phases = step_phases i s.phases s.barrier;
      })
      (record {
        count = step-count i s.phases s.barrier ∙ c.count;
        crossing = omega (arith, step-arrived i s.phases s.barrier, c.crossing);
        know = step-AllKnow n i s.phases s.barrier c.count c.know;
      })

-- `count` threads before the barrier.
abbrev pub all_outside : ℕ → List Phase
all_outside zero = []
all_outside (suc count) = outside ∷ all_outside count

start-arrived : (k : ℕ) → arrived (all_outside k) ≡ 0
start-arrived zero = refl
start-arrived (suc k) = omega (arith, start-arrived k)

start-AllKnow : (n k : ℕ) → AllKnow n 0 (all_outside k)
start-AllKnow n zero = tt
start-AllKnow n (suc k) = (tt, start-AllKnow n k)

-- One of the threads has crossed the barrier.
pub data HasCrossed : List Phase → Type 0 where
  here : {xs : List Phase} → HasCrossed (crossed ∷ xs)
  there : {x : Phase} {xs : List Phase} → HasCrossed xs → HasCrossed (x ∷ xs)

crossed-Knows : {n m : ℕ} {xs : List Phase} → HasCrossed xs → AllKnow n m xs → n ≤ m
crossed-Knows here (k, a) = k
crossed-Knows (there h) (k, a) = crossed-Knows h a

-- No thread crosses a barrier for `n` threads before `n` threads have arrived, whatever the number of
-- the threads is and in whatever order they take their steps.
pub barrier_cross-arrived :
    (n k : ℕ) (is : List ℕ)
    → HasCrossed (run is (record { barrier = barrier_init n; phases = all_outside k })).phases
    → n ≤ arrived (run is (record { barrier = barrier_init n; phases = all_outside k })).phases
barrier_cross-arrived n k is has =
    let c =
      run-IsCounting n is (record { barrier = barrier_init n; phases = all_outside k })
        (record {
          count = refl;
          crossing = omega (arith, start-arrived k);
          know = start-AllKnow n k;
        }) in
    omega (arith, crossed-Knows has c.know, c.crossing)
