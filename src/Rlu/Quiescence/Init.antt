-- ===== src/Rlu/Quiescence/Init.antt =====
-- rlu.c: the entries that a wait begins with.
use rcx_hashtables.Base.{
  ℕ, zero, suc, ◌+◌, ◌≤◌, ◌<◌, ◌≡◌, refl, Bool, true, false, arith, Option, none, some, Bool-cases,
  inl, inr, ◌⊎◌, ◌==◌, eq_of_==, ltb,
}
use rcx_hashtables.Rlu.{WaitEntry, Thread, State, Env, write, is_odd}
use rcx_hashtables.Rlu.Sync.{init_other, init_entry, init_entries}
use rcx_hashtables.Rlu.Others.{Later}
use rcx_hashtables.Rlu.Quiescence.{Ready}

-- What the loop of `rlu_init_quiescence` puts into the entry of a thread.
unfoldable pub entry_of : (mine : Bool) → Option Thread → WaitEntry → WaitEntry
entry_of true t e = record e { is_wait = false }
entry_of false none e = record e { is_wait = false }
entry_of false (some u) e = record { is_wait = is_odd u.run_counter; run_counter = u.run_counter }

abbrev pub entry : State → ℕ → WaitEntry
entry s j = entry_of (j == s.self.uniq_id) (s.threads j) (s.self.q_threads j)

abbrev with_entries : State → (ℕ → WaitEntry) → State
with_entries s q = record s { self = record (s.self) { q_threads = q } }

init_other-entry :
    (th : ℕ) (s : State) (t : Option Thread)
    → record s { self = init_other th t s.self }
      ≡ with_entries s (write s.self.q_threads th (entry_of false t (s.self.q_threads th)))
unfolding init_other entry_of
init_other-entry th s none = refl
init_other-entry th s (some u) = refl

init_entry-entry :
    (th : ℕ) (s : State) → init_entry th s ≡ with_entries s (write s.self.q_threads th (entry s th))
unfolding init_entry entry_of
init_entry-entry th s = elim (Bool-cases (th == s.self.uniq_id)) [
  | inl mine ↦ rw mine refl
  | inr other ↦ rw other (init_other-entry th s (s.threads th))
]

-- The entries of `count` threads from `th` on are new.
pub record Inits (s : State) (count th : ℕ) (s' : State) : Type 0 where
  pub q : ℕ → WaitEntry
  pub state : s' ≡ with_entries s q
  pub new : (j : ℕ) → th ≤ j → j < th + count → q j ≡ entry s j
  pub old : (j : ℕ) → (j < th) ⊎ (th + count ≤ j) → q j ≡ s.self.q_threads j

pub init_entries-Inits : (count th : ℕ) (s : State) → Inits s count th (init_entries count th s)
unfolding init_entries
init_entries-Inits zero th s = record {
  q = s.self.q_threads;
  state = refl;
  new = λ j le lt. absurd (omega (arith, le, lt));
  old = λ j out. refl;
}
init_entries-Inits (suc count) th s =
    let s1 : State = with_entries s (write s.self.q_threads th (entry s th)) in
    let rest : Inits s1 count (suc th) (init_entries count (suc th) s1) =
      init_entries-Inits count (suc th) s1 in
    rw (init_entry-entry th s) (record {
      q = rest.q;
      state = rest.state;
      new = λ j le lt. elim (Bool-cases (j == th)) [
        | inl same ↦
            rw (rest.old j (inl (omega (arith, eq_of_== j th same))), same, eq_of_== j th same) refl
        | inr other ↦ rw (rest.new j (ground (arith, le, other)) (omega (arith, lt)), other) refl
      ];
      old = λ j out.
          let ne : (j == th) ≡ false = ground (arith, out) in
          let out' : (j < suc th) ⊎ (suc th + count ≤ j) = elim out [
            | inl lt ↦ inl (omega (arith, lt))
            | inr le ↦ inr (omega (arith, le))
          ] in
          rw (rest.old j out', ne) refl;
    })

-- The counter of a thread, or 0.
abbrev pub counter_of : Option Thread → ℕ
counter_of none = 0
counter_of (some t) = t.run_counter

-- The counters that a wait that begins in `s` compares with, and the version that is its limit.
abbrev pub counters : Env → State → ℕ → ℕ
counters E s th = counter_of ((E.others s).threads th)

-- Only threads that exist are waited for.
abbrev pub IsIdle : State → Type 0
IsIdle s = (th : ℕ) → s.cur_threads ≤ th → (s.self.q_threads th).is_wait ≡ false

pub entry_of-Ready :
    (mine : Bool) (t : Option Thread) (e : WaitEntry)
    → (entry_of mine t e).is_wait ≡ true
    → (mine ≡ false)
      × (u : Thread) × (t ≡ some u)
      × (is_odd u.run_counter ≡ true)
      × ((entry_of mine t e).run_counter ≡ u.run_counter)
unfolding entry_of
entry_of-Ready true t e w = absurd (ground (arith, w))
entry_of-Ready false none e w = absurd (ground (arith, w))
entry_of-Ready false (some u) e w = (refl, u, refl, w, refl)

pub Inits-Ready :
    (c : ℕ → ℕ) (s s' : State)
    → ((th : ℕ) → c th ≡ counter_of (s.threads th))
    → IsIdle s
    → Inits s s.cur_threads 0 s'
    → Ready c s'
Inits-Ready c s s' same idle i =
    let waits : (th : ℕ) → (i.q th).is_wait ≡ true → i.q th ≡ entry s th = λ th w.
      elim (Bool-cases (ltb th s.cur_threads)) [
        | inl lt ↦ i.new th (omega arith) (ground (arith, lt))
        | inr ge ↦
            absurd
              (ground (arith, w, idle th (ground (arith, ge)), i.old th (inr (ground (arith, ge)))))
      ] in
    let facts : (th : ℕ)
        → (i.q th).is_wait ≡ true
        → ((th == s.self.uniq_id) ≡ false)
          × (u : Thread) × (s.threads th ≡ some u)
          × (is_odd u.run_counter ≡ true)
          × ((i.q th).run_counter ≡ u.run_counter) =
      λ th w.
        let now : (entry s th).is_wait ≡ true = rw (waits th w) at w in
        let (other, u, e, odd, n) =
          entry_of-Ready (th == s.self.uniq_id) (s.threads th) (s.self.q_threads th) now in
        (other, u, e, odd, rw (waits th w) n) in
    rw (i.state) (record {
      counter = λ th w. let (other, u, e, odd, n) = facts th w in rw (same th, e) n;
      odd = λ th w. let (other, u, e, odd, n) = facts th w in rw (same th, e) odd;
      other = λ th w. let (other, u, e, odd, n) = facts th w in other;
      present = λ th w. let (other, u, e, odd, n) = facts th w in (u, e);
    })

pub Inits-Later : (s s' : State) → Inits s s.cur_threads 0 s' → Later s s'
Inits-Later s s' i = rw (i.state) (record {
  self = record { q_threads = i.q; is_sync = s.self.is_sync; stats = s.self.stats; same = refl };
  locks = λ a w at o e f. e;
})
