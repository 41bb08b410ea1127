-- ===== src/Tests/Waiting.antt =====
-- A thread of RLU that waits for another one, which leaves its section then.
use mathlib.Core.Option
use rcx_hashtables.Base.{
  ℕ, ◌+◌, ◌≡◌, refl, Bool, true, false, ◌==◌, if◌then◌else◌, Option, none, some, arith, Bool-cases,
  eq_of_==, inl, inr, ◌⊎◌,
}
use rcx_hashtables.Rlu.{Thread, State, Env, is_odd}
use rcx_hashtables.Rlu.Ends.{Returns, Allows}
use rcx_hashtables.Rlu.Sync.{rlu_synchronize}
use rcx_hashtables.Rlu.Others.{Respects}
use rcx_hashtables.Rlu.Quiescence.{Passed, Onward, Drains}
use rcx_hashtables.Rlu.Quiescence.Init.{counters}
use rcx_hashtables.Rlu.Quiescence.Synchronize.{
  Leaves, Synchronized, rlu_synchronize-safe, rlu_synchronize-Returns,
}
use rcx_hashtables.Rlu.Section.{no_thread}
use rcx_hashtables.Tests.WriteSets.{writer, locked_one}

abbrev pub leave : Thread → Thread
leave t = if is_odd t.run_counter then record t { run_counter = t.run_counter + 1 } else t

abbrev leave_all : Bool → State → State
leave_all true s = record s { threads = λ j. Option.map leave (s.threads j) }
leave_all false s = s

-- Thread 1 leaves its section as soon as it is waited for.
abbrev pub leaving : Env
leaving = record {
  others = λ s. leave_all (s.self.q_threads 1).is_wait s;
  malloc = λ _. 0;
  malloc_struct = λ _. true;
}

-- The section of thread 0 has ended, and thread 1 is in one.
abbrev pub waiting : State
waiting = record locked_one {
  self = record writer { run_counter = 2; is_write_detected = false; writer_version = 1 };
  threads = λ j. if j == 1 then some (record no_thread { uniq_id = 1; run_counter = 3 }) else none;
  cur_threads = 2;
  writer_version = 1;
}

leave_all-self : (b : Bool) (s : State) → (leave_all b s).self ≡ s.self
leave_all-self true s = refl
leave_all-self false s = refl

leave_all-heap : (b : Bool) (s : State) → (leave_all b s).heap ≡ s.heap
leave_all-heap true s = refl
leave_all-heap false s = refl

leaving-Respects : Respects leaving
leaving-Respects = record {
  is_sync = λ s. s.self.is_sync;
  self = λ s. leave_all-self (s.self.q_threads 1).is_wait s;
  locks = λ s a w at o e f. rw (leave_all-heap (s.self.q_threads 1).is_wait s) e;
}

counters-waiting : (th : ℕ) → (counters leaving waiting th ≡ 3) ⊎ (counters leaving waiting th ≡ 0)
counters-waiting th = elim (Bool-cases (th == 1)) [
  | inl one ↦ inl (rw one refl)
  | inr other ↦ inr (rw other refl)
]

leave-past :
    (c : ℕ) (u : Thread)
    → (c ≡ 3) ⊎ (c ≡ 0)
    → (c == u.run_counter) ≡ false
    → (c == (leave u).run_counter) ≡ false
leave-past c u which past = elim (Bool-cases (is_odd u.run_counter)) [
  | inl odd ↦ rw odd (ground (arith, which, odd))
  | inr even ↦ rw even past
]

leave-local_version : (u : Thread) → (leave u).local_version ≡ u.local_version
leave-local_version u = elim (Bool-cases (is_odd u.run_counter)) [
  | inl odd ↦ rw odd refl
  | inr even ↦ rw even refl
]

leave-Passed :
    (c : ℕ) (t : Option Thread) → (c ≡ 3) ⊎ (c ≡ 0) → Passed c 1 t → Passed c 1 (Option.map leave t)
leave-Passed c t which p = record {
  u = leave p.u;
  there = rw (p.there) refl;
  past = elim (p.past) [
    | inl f ↦ inl (leave-past c p.u which f)
    | inr (f, g) ↦ inr (f, rw (leave-local_version p.u) g)
  ];
}

leave_all-present :
    (b : Bool) (s : State) (th : ℕ) (u : Thread)
    → s.threads th ≡ some u
    → (v : Thread) × ((leave_all b s).threads th ≡ some v)
leave_all-present true s th u e = (leave u, rw e refl)
leave_all-present false s th u e = (u, e)

leave_all-Passed :
    (b : Bool) (s : State) (th c : ℕ)
    → (c ≡ 3) ⊎ (c ≡ 0)
    → Passed c 1 (s.threads th)
    → Passed c 1 ((leave_all b s).threads th)
leave_all-Passed true s th c which p = leave-Passed c (s.threads th) which p
leave_all-Passed false s th c which p = p

leaving-Onward : Onward leaving (Leaves leaving waiting)
leaving-Onward = record {
  respects = leaving-Respects;
  present = λ s th u e. leave_all-present (s.self.q_threads 1).is_wait s th u e;
  passed = λ s th p.
      leave_all-Passed (s.self.q_threads 1).is_wait s th (counters leaving waiting th)
        (counters-waiting th) p;
}

odd-one : (th : ℕ) → is_odd (counters leaving waiting th) ≡ true → th ≡ 1
odd-one th odd = elim (Bool-cases (th == 1)) [
  | inl one ↦ eq_of_== th 1 one
  | inr other ↦
      let zero : counters leaving waiting th ≡ 0 = rw other refl in
      absurd (ground (arith, odd, zero))
]

leave-passes : (u : Thread) → (3 == (leave u).run_counter) ≡ false
leave-passes u = elim (Bool-cases (is_odd u.run_counter)) [
  | inl odd ↦ rw odd (ground (arith, odd))
  | inr even ↦ rw even (ground (arith, even))
]

leaving-passes :
    (s : State) (th : ℕ) (u : Thread)
    → s.threads th ≡ some u
    → is_odd (counters leaving waiting th) ≡ true
    → (s.self.q_threads th).is_wait ≡ true
    → Passed (counters leaving waiting th) 1 ((leaving.others s).threads th)
leaving-passes s th u e odd w =
    let one : th ≡ 1 = odd-one th odd in
    let w1 : (s.self.q_threads 1).is_wait ≡ true = rw one at w in
    let e1 : s.threads 1 ≡ some u = rw one at e in
    rw one (record { u = leave u; there = rw w1 (rw e1 refl); past = inl (leave-passes u) })

leaving-Drains : Drains leaving (counters leaving waiting) 1 1
leaving-Drains = record {
  rank = λ th s. 0;
  passes = λ s th u e odd w. inl (leaving-passes s th u e odd w);
  enough = λ s th. omega arith;
}

rlu_synchronize-safe_example :
    Allows (λ _ s'. Synchronized leaving waiting s') (rlu_synchronize leaving 1 waiting)
rlu_synchronize-safe_example =
    rlu_synchronize-safe leaving waiting 1 refl (λ th le. refl) leaving-Onward

rlu_synchronize-Returns_example :
    Returns (λ _ s'. Synchronized leaving waiting s') (rlu_synchronize leaving 1 waiting)
rlu_synchronize-Returns_example =
    rlu_synchronize-Returns leaving waiting 1 refl (λ th le. refl) leaving-Onward leaving-Drains
