-- ===== src/Rlu/Quiescence/Synchronize.antt =====
-- rlu.c: `rlu_synchronize`, the wait as a whole.
use rcx_hashtables.Base.{
  ℕ, ◌+◌, ◌≤◌, ◌<◌, ◌≡◌, ◌∙◌, refl, ap, true, false, arith, Option, some, inl, inr, Bool-cases, ltb,
  ◌⊎◌, ◌==◌,
}
use rcx_hashtables.Rlu.{Thread, State, Env, tick, is_odd}
use rcx_hashtables.Rlu.Ends
use rcx_hashtables.Rlu.Ends.{Ends, returns, Returns, Allows}
use rcx_hashtables.Rlu.Sync.{
  init_entries, rlu_init_quiescence, rlu_wait_for_quiescence, wait_threads, wait_for_all,
  rlu_synchronize,
}
use rcx_hashtables.Rlu.Others.{Later, Later-trans, uniq_id-Later, Respects-Later}
use rcx_hashtables.Rlu.Quiescence.{Passed, Onward, Drains, Waits, wait_threads-Waits}
use rcx_hashtables.Rlu.Quiescence.Init.{
  entry_of, Inits, init_entries-Inits, Inits-Ready, Inits-Later, counters, IsIdle,
}

-- From `s` to `s'` the thread has kept its data, and every other thread that was in a section when
-- the wait began has left it or is in one that began at the thread's `writer_version` or later.
pub record Synchronized (E : Env) (s s' : State) : Type 0 where
  pub later : Later s s'
  pub passed :
      (th : ℕ) (u : Thread)
      → th < (E.others s).cur_threads
      → (th == s.self.uniq_id) ≡ false
      → (E.others s).threads th ≡ some u
      → is_odd u.run_counter ≡ true
      → Passed u.run_counter s.self.writer_version (s'.threads th)

-- From `s` to `s'` the thread has kept its data, `P` holds for every other thread that was in a section, and
-- no thread is waited for any more.
pub record Waited (E : Env) (P : ℕ → Option Thread → Type 0) (s s' : State) : Type 0 where
  pub later : Later s s'
  pub passed :
      (th : ℕ) (u : Thread)
      → th < (E.others s).cur_threads
      → (th == s.self.uniq_id) ≡ false
      → (E.others s).threads th ≡ some u
      → is_odd u.run_counter ≡ true
      → P th (s'.threads th)
  pub rested : (th : ℕ) → (s'.self.q_threads th).is_wait ≡ false

abbrev with_stats : State → ℕ → State
with_stats s q_iters = record s {
  self = record (s.self) {
    stats = record (s.self.stats) {
      n_writeback_q_iters = s.self.stats.n_writeback_q_iters + q_iters;
    };
  };
}

with_stats-Later : (s : State) (n : ℕ) → Later s (with_stats s n)
with_stats-Later s n = record {
  self = record {
    q_threads = s.self.q_threads;
    is_sync = s.self.is_sync;
    stats = (with_stats s n).self.stats;
    same = refl;
  };
  locks = λ a w at o e f. e;
}

module _ (E : Env) (s : State) (fuel : ℕ) (running : s.self.is_no_quiescence ≡ false)
    (idle : IsIdle (E.others s)) {P : ℕ → Option Thread → Type 0} (o : Onward E P)
    (reach : (th : ℕ) (t : Option Thread)
      → Passed (counters E s th) s.self.writer_version t
      → P th t) where
  Waited-Waits :
      (n : ℕ) (s2 s3 : State)
      → Inits (E.others s) (E.others s).cur_threads 0 s2
      → Waits P s2 s3
      → ((j : ℕ) → 0 ≤ j → j < 0 + (E.others s).cur_threads → (s3.self.q_threads j).is_wait ≡ false)
      → Waited E P s (with_stats s3 n)
  unfolding entry_of
  Waited-Waits n s2 s3 i w over = record {
    later =
        Later-trans (Respects-Later o.respects s) (
          Later-trans (Inits-Later (E.others s) s2 i)
            (Later-trans w.later (with_stats-Later s3 n)));
    passed = λ th u lt other e odd.
        let other' : (th == (E.others s).self.uniq_id) ≡ false =
          rw (uniq_id-Later (Respects-Later o.respects s)) other in
        let new : i.q th ≡ record { is_wait = true; run_counter = u.run_counter } =
          rw (i.new th (omega arith) (omega (arith, lt)), other', e, odd) refl in
        let waits : (s2.self.q_threads th).is_wait ≡ true = rw (i.state, new) refl in
        elim (w.stays th waits) [
          | inl still ↦ absurd (ground (arith, still, over th (omega arith) (omega (arith, lt))))
          | inr p ↦ p
        ];
    rested = λ th. elim (Bool-cases (ltb th (E.others s).cur_threads)) [
      | inl lt ↦ over th (omega arith) (ground (arith, lt))
      | inr ge ↦ w.over th (
          ap (λ x. (x.self.q_threads th).is_wait) i.state
          ∙ ap (λ e. e.is_wait) (i.old th (inr (ground (arith, ge))))
          ∙ idle th (ground (arith, ge)))
    ];
  }

  waits-Ends :
      {late : Type 0}
      → late ⊎ Drains E (counters E s) s.self.writer_version fuel
      → (s2 : State) → Inits (E.others s) (E.others s).cur_threads 0 s2
      → (limit count : ℕ) → limit ≡ s.self.writer_version
      → count ≡ (E.others s).cur_threads
      → Ends late (λ n s'. Waited E P s (with_stats s' n)) (wait_threads E fuel count 0 limit 0 s2)
  waits-Ends drains s2 i limit count version n =
      rw (version, n)
        (Ends.mono
          (wait_threads-Waits o reach drains (E.others s).cur_threads 0 0 s2
            (Inits-Ready (counters E s) (E.others s) s2 (λ th. refl) idle i))
          λ m s3 (w, over). Waited-Waits m s2 s3 i w over)

  wait_for_all-Ends :
      {late : Type 0}
      → late ⊎ Drains E (counters E s) s.self.writer_version fuel
      → Ends late (λ _ s'. Waited E P s s') (wait_for_all E fuel s)
  unfolding wait_for_all rlu_init_quiescence rlu_wait_for_quiescence tick
  wait_for_all-Ends drains =
      let s1 : State = E.others s in
      let s2 : State = init_entries s1.cur_threads 0 s1 in
      let i : Inits s1 s1.cur_threads 0 s2 = init_entries-Inits s1.cur_threads 0 s1 in
      let version : s2.self.writer_version ≡ s.self.writer_version =
        ap (λ x. x.self.writer_version) i.state ∙ ap (λ x. x.writer_version) (o.respects.self s) in
      Ends.bind
        (waits-Ends drains s2 i s2.self.writer_version s2.cur_threads version
          (ap (λ x. x.cur_threads) i.state))
        λ n s3 done. returns done

  pub synchronize-Ends :
      {late : Type 0}
      → late ⊎ Drains E (counters E s) s.self.writer_version fuel
      → Ends late (λ _ s'. Waited E P s s') (rlu_synchronize E fuel s)
  unfolding rlu_synchronize
  synchronize-Ends drains =
      let runs : rlu_synchronize E fuel s ≡ wait_for_all E fuel s = rw running refl in
      rw runs (wait_for_all-Ends drains)

-- What the wait guarantees of a thread.
abbrev pub Leaves : Env → State → ℕ → Option Thread → Type 0
Leaves E s th t = Passed (counters E s th) s.self.writer_version t

Synchronized-Waited : (E : Env) (s s' : State) → Waited E (Leaves E s) s s' → Synchronized E s s'
Synchronized-Waited E s s' w = record {
  later = w.later;
  passed = λ th u lt other e odd.
      let p : Leaves E s th (s'.threads th) = w.passed th u lt other e odd in
      let same : counters E s th ≡ u.run_counter = rw e refl in rw same at p;
}

module _ (E : Env) (s : State) (fuel : ℕ) (running : s.self.is_no_quiescence ≡ false)
    (idle : IsIdle (E.others s)) (o : Onward E (Leaves E s)) where
  -- If `rlu_synchronize` returns, then every other thread that was in a section when the wait began
  -- has left it, or is in one that began at the writer version of this thread or later; the thread has kept its
  -- data and the objects that it has locked. No assertion fails. The others only write `is_sync` of
  -- this thread and no object that it has locked, and a thread that has passed stays so.
  pub rlu_synchronize-safe : Allows (λ _ s'. Synchronized E s s') (rlu_synchronize E fuel s)
  rlu_synchronize-safe =
      Ends.mono (synchronize-Ends E s fuel running idle o (λ th t p. p) (inl tt))
        λ x s' w. Synchronized-Waited E s s' w

  -- `rlu_synchronize` returns, and has waited as it should, if every thread that was in a section
  -- passes after fewer steps of the others than there is fuel.
  pub rlu_synchronize-Returns :
      Drains E (counters E s) s.self.writer_version fuel
      → Returns (λ _ s'. Synchronized E s s') (rlu_synchronize E fuel s)
  rlu_synchronize-Returns drains =
      Ends.mono (synchronize-Ends E s fuel running idle o (λ th t p. p) (inr drains))
        λ x s' w. Synchronized-Waited E s s' w
