-- ===== src/Rlu/Quiescence.antt =====
-- rlu.c: the wait for the sections that other threads are in.
pub mod Init
pub mod Synchronize
pub mod Objects
use rcx_hashtables.Base.{
  ℕ, zero, suc, ◌+◌, ◌≤◌, ◌<◌, ◌≡◌, refl, Bool, true, false, arith, Option, some, Bool-cases, inl,
  inr, ◌⊎◌, ◌==◌, leb, not, if◌then◌else◌, ==-refl, eq_of_==, ltb,
}
use rcx_hashtables.Rlu.{
  Thread, State, Env, ok, Cmd, modify_self, tick, load_thread, thread_of, is_odd, out_of_fuel,
}
use rcx_hashtables.Rlu.Ends
use rcx_hashtables.Rlu.Ends.{Ends, returns, late_end}
use rcx_hashtables.Rlu.Sync.{wait_over, wait_thread, wait_threads, set_wait, q_iters_limit}
use rcx_hashtables.Rlu.Others.{
  Later, Later-refl, Later-trans, Kept-trans, uniq_id-Later, Respects, Respects-Later,
  q_threads-Respects,
}

-- The thread has left the section that it was in when its counter was `counter`, or it is in one that began at
-- `limit` or later. Without a limit only the first counts.
pub record Passed (counter limit : ℕ) (t : Option Thread) : Type 0 where
  pub u : Thread
  pub there : t ≡ some u
  pub past :
      ((counter == u.run_counter) ≡ false)
      ⊎ (((limit == 0) ≡ false) × (leb limit u.local_version ≡ true))

-- No thread goes away, and a thread for which `P` holds keeps it.
pub record Onward (E : Env) (P : ℕ → Option Thread → Type 0) : Type 0 where
  pub respects : Respects E
  pub present :
      (s : State) (th : ℕ) (u : Thread)
      → s.threads th ≡ some u
      → (v : Thread) × ((E.others s).threads th ≡ some v)
  pub passed : (s : State) (th : ℕ) → P th (s.threads th) → P th ((E.others s).threads th)

-- A thread that was in a section passes, while it is waited for, after fewer than `fuel` steps of the others.
pub record Drains (E : Env) (c : ℕ → ℕ) (limit fuel : ℕ) : Type 0 where
  pub rank : ℕ → State → ℕ
  pub passes :
      (s : State) (th : ℕ) (u : Thread)
      → s.threads th ≡ some u
      → is_odd (c th) ≡ true
      → (s.self.q_threads th).is_wait ≡ true
      → Passed (c th) limit ((E.others s).threads th) ⊎ (rank th (E.others s) < rank th s)
  pub enough : (s : State) (th : ℕ) → rank th s < fuel

-- What a part of the wait leaves.
pub record Waits (P : ℕ → Option Thread → Type 0) (s s' : State) : Type 0 where
  pub later : Later s s'
  pub present :
      (th : ℕ) (u : Thread) → s.threads th ≡ some u → (v : Thread) × (s'.threads th ≡ some v)
  pub passed : (th : ℕ) → P th (s.threads th) → P th (s'.threads th)
  pub counters : (th : ℕ) → (s'.self.q_threads th).run_counter ≡ (s.self.q_threads th).run_counter
  pub stays :
      (th : ℕ)
      → (s.self.q_threads th).is_wait ≡ true
      → ((s'.self.q_threads th).is_wait ≡ true) ⊎ P th (s'.threads th)
  pub over :
      (th : ℕ) → (s.self.q_threads th).is_wait ≡ false → (s'.self.q_threads th).is_wait ≡ false

-- The entries that are waited for are of other threads that exist, and hold the counters `c`.
pub record Ready (c : ℕ → ℕ) (s : State) : Type 0 where
  pub counter :
      (th : ℕ) → (s.self.q_threads th).is_wait ≡ true → (s.self.q_threads th).run_counter ≡ c th
  pub odd : (th : ℕ) → (s.self.q_threads th).is_wait ≡ true → is_odd (c th) ≡ true
  pub other : (th : ℕ) → (s.self.q_threads th).is_wait ≡ true → (th == s.self.uniq_id) ≡ false
  pub present :
      (th : ℕ) → (s.self.q_threads th).is_wait ≡ true → (u : Thread) × (s.threads th ≡ some u)

module _ {P : ℕ → Option Thread → Type 0} where
  Waits-refl : (s : State) → Waits P s s
  Waits-refl s = record {
    later = Later-refl s;
    present = λ th u e. (u, e);
    passed = λ th p. p;
    counters = λ th. refl;
    stays = λ th w. inl w;
    over = λ th w. w;
  }

  Waits-trans : {s s' s'' : State} → Waits P s s' → Waits P s' s'' → Waits P s s''
  Waits-trans k l = record {
    later = Later-trans k.later l.later;
    present = λ th u e. let (v, f) = k.present th u e in l.present th v f;
    passed = λ th p. l.passed th (k.passed th p);
    counters = λ th. rw (l.counters th) (k.counters th);
    stays = λ th w. elim (k.stays th w) [ inl w' ↦ l.stays th w' | inr p ↦ inr (l.passed th p) ];
    over = λ th w. l.over th (k.over th w);
  }

  still :
      {s s' : State}
      → Waits P s s'
      → (th : ℕ) → (s'.self.q_threads th).is_wait ≡ true
      → (s.self.q_threads th).is_wait ≡ true
  still {s} {s'} w th e = elim (Bool-cases (s.self.q_threads th).is_wait) [
    | inl f ↦ f
    | inr f ↦ absurd (ground (arith, w.over th f, e))
  ]

  Ready-Waits : {c : ℕ → ℕ} {s s' : State} → Waits P s s' → Ready c s → Ready c s'
  Ready-Waits w r = record {
    counter = λ th e. rw (w.counters th) (r.counter th (still w th e));
    odd = λ th e. r.odd th (still w th e);
    other = λ th e. rw (uniq_id-Later w.later) (r.other th (still w th e));
    present = λ th e. let (u, f) = r.present th (still w th e) in w.present th u f;
  }

tick-Waits :
    {E : Env} {P : ℕ → Option Thread → Type 0} → Onward E P → (s : State) → Waits P s (E.others s)
tick-Waits o s = record {
  later = Respects-Later o.respects s;
  present = o.present s;
  passed = o.passed s;
  counters = λ th. rw (q_threads-Respects o.respects s) refl;
  stays = λ th w. inl (rw (q_threads-Respects o.respects s) w);
  over = λ th w. rw (q_threads-Respects o.respects s) w;
}

-- The end of the wait for a thread that has passed.
set_wait-Waits :
    {P : ℕ → Option Thread → Type 0} (s : State) (th : ℕ)
    → P th (s.threads th)
    → Waits P s (record s { self = set_wait th false s.self })
set_wait-Waits s th p = record {
  later = record {
    self = record {
      q_threads = (set_wait th false s.self).q_threads;
      is_sync = s.self.is_sync;
      stats = s.self.stats;
      same = refl;
    };
    locks = λ a w at o e f. e;
  };
  present = λ j u e. (u, e);
  passed = λ j q. q;
  counters = λ j. elim (Bool-cases (j == th)) [
    | inl same ↦ rw (same, eq_of_== j th same) refl
    | inr other ↦ rw other refl
  ];
  stays = λ j w. elim (Bool-cases (j == th)) [
    | inl same ↦ inr (rw (eq_of_== j th same) p)
    | inr other ↦ inl (rw other w)
  ];
  over = λ j w. elim (Bool-cases (j == th)) [ inl same ↦ rw same refl | inr other ↦ rw other w ];
}

-- What the wait finds for a thread.
has_passed : (counter limit : ℕ) → Thread → Bool
has_passed counter limit u =
    if not (counter == u.run_counter)
    then true
    else if limit == 0
    then false
    else leb limit u.local_version

has_passed-Passed :
    (counter limit : ℕ) (t : Option Thread) (u : Thread)
    → t ≡ some u
    → has_passed counter limit u ≡ true
    → Passed counter limit t
unfolding has_passed
has_passed-Passed counter limit t u e f = record { u = u; there = e; past = ground (arith, f) }

Passed-has_passed :
    (counter limit : ℕ) (t : Option Thread) (u : Thread)
    → t ≡ some u
    → Passed counter limit t
    → has_passed counter limit u ≡ true
unfolding has_passed
Passed-has_passed counter limit t u e p =
    let same : p.u ≡ u = ground (arith, e, p.there) in
    elim (p.past) [ inl f ↦ ground (arith, f, same) | inr (f, g) ↦ ground (arith, f, g, same) ]

module _ {E : Env} {c : ℕ → ℕ} {limit : ℕ} {P : ℕ → Option Thread → Type 0} (o : Onward E P)
    (reach : (th : ℕ) (t : Option Thread) → Passed (c th) limit t → P th t) where
  wait_over-at :
      (s : State) (th : ℕ) (u : Thread)
      → Ready c s
      → (s.self.q_threads th).is_wait ≡ true
      → (E.others s).threads th ≡ some u
      → wait_over E th limit s ≡ ok (has_passed (c th) limit u) (E.others s)
  unfolding wait_over tick load_thread has_passed
  wait_over-at s th u r w e =
      rw
        (
          q_threads-Respects o.respects s,
          uniq_id-Later (Respects-Later o.respects s),
          r.other th w,
          e,
          r.counter th w,
        )
        (elim (Bool-cases (c th == u.run_counter)) [
          | inl f ↦ rw f (elim (Bool-cases (limit == 0)) [ inl g ↦ rw g refl | inr g ↦ rw g refl ])
          | inr f ↦ rw f refl
        ])

  module _ {late : Type 0} {bound : ℕ} (drains : late ⊎ Drains E c limit bound) where
    -- The fuel that is left, as long as it need not run out.
    abbrev Lasts : (fuel th : ℕ) → State → Type 0
    Lasts fuel th s = (d : Drains E c limit bound) → d.rank th s < fuel

    Lasts-next :
        (fuel th : ℕ) (s : State) (u : Thread)
        → s.threads th ≡ some u
        → is_odd (c th) ≡ true
        → (s.self.q_threads th).is_wait ≡ true
        → (Passed (c th) limit ((E.others s).threads th) → ⊥)
        → Lasts (suc fuel) th s
        → Lasts fuel th (E.others s)
    Lasts-next fuel th s u e odd w not_passed lasts d = elim (d.passes s th u e odd w) [
      | inl p ↦ absurd (not_passed p)
      | inr less ↦ omega (arith, less, lasts d)
    ]

    wait_thread-Waits :
        (fuel th iters : ℕ) (s : State)
        → Ready c s
        → Lasts fuel th s
        → Ends late
            (λ _ s'. Waits P s s' × ((s'.self.q_threads th).is_wait ≡ false))
            (wait_thread E fuel th limit iters s)
    unfolding wait_thread
    wait_thread-Waits zero th iters s r lasts = elim drains [
      | inl l ↦ late_end l
      | inr d ↦ absurd (omega (arith, lasts d))
    ]
    wait_thread-Waits (suc fuel) th iters s r lasts =
        elim (Bool-cases (s.self.q_threads th).is_wait) [
          | inr idle ↦ rw idle (returns (Waits-refl s, idle))
          | inl w ↦
              let (u0, e0) = r.present th w in
              let (u, e) = o.present s th u0 e0 in
              let next =
                wait_thread-Waits fuel th (if ltb q_iters_limit (suc iters) then 0 else suc iters)
                  (E.others s) (Ready-Waits (tick-Waits o s) r) in
              rw (w, wait_over-at s th u r w e)
                (elim (Bool-cases (has_passed (c th) limit u)) [
                  | inl over ↦ rw over (
                      returns (
                        Waits-trans (tick-Waits o s) (
                            set_wait-Waits (E.others s) th (
                              reach th ((E.others s).threads th) (
                                has_passed-Passed (c th) limit ((E.others s).threads th) u e
                                  over))),
                        rw (==-refl th) refl,
                      ))
                  | inr more ↦ rw more (
                      Ends.mono
                        (next (
                          Lasts-next fuel th s u0 e0 (r.odd th w) w
                            (λ p. ground (
                              arith,
                              more,
                              Passed-has_passed (c th) limit ((E.others s).threads th) u e p,
                            ))
                            lasts))
                        λ n s' (k, d). (Waits-trans (tick-Waits o s) k, d))
                ])
        ]

    -- The fuel is enough for every thread, or need not be.
    Enough : late ⊎ Drains E c limit bound → (th : ℕ) (s : State) → Lasts bound th s
    Enough _ th s d = d.enough s th

    wait_threads-Waits :
        (count th iters : ℕ) (s : State)
        → Ready c s
        → Ends late
            (λ _ s'.
              Waits P s s'
              × ((j : ℕ) → th ≤ j → j < th + count → (s'.self.q_threads j).is_wait ≡ false))
            (wait_threads E bound count th limit iters s)
    unfolding wait_threads
    wait_threads-Waits zero th iters s r =
        returns (Waits-refl s, λ j le lt. absurd (omega (arith, le, lt)))
    wait_threads-Waits (suc count) th iters s r =
        Ends.bind (wait_thread-Waits bound th iters s r (Enough drains th s)) λ n s1 (k, d).
          Ends.mono (wait_threads-Waits count (suc th) n s1 (Ready-Waits k r)) λ m s2 (l, rest). (
            Waits-trans k l,
            λ j le lt. elim (Bool-cases (j == th)) [
              | inl same ↦ rw (eq_of_== j th same) (l.over th d)
              | inr other ↦ rest j (ground (arith, le, other)) (omega (arith, lt))
            ],
          )
