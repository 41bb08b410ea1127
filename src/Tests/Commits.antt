-- ===== src/Tests/Commits.antt =====
-- A thread of RLU that commits a write set while the other threads leave their sections.
use mathlib.Core.Option
use rcx_hashtables.Base.{
  ℕ, ◌<◌, ◌≡◌, refl, Bool, true, false, arith, Bool-cases, inl, inr, ◌==◌, Option, some,
}
use rcx_hashtables.Rlu.{Thread, State, Env, is_odd, ws_index}
use rcx_hashtables.Rlu.Ends.{Returns}
use rcx_hashtables.Rlu.Sync.{rlu_commit_write_set}
use rcx_hashtables.Rlu.WriteSet.{rlu_writeback_write_sets_and_unlock}
use rcx_hashtables.Rlu.WriteSet.AllSets.{AllLaid}
use rcx_hashtables.Rlu.WriteSet.Flush.{Flushes, rlu_writeback_write_sets_and_unlock_lem}
use rcx_hashtables.Rlu.Quiescence.{Passed}
use rcx_hashtables.Rlu.Quiescence.Init.{counters}
use rcx_hashtables.Rlu.Settle.{Company, Leaving}
use rcx_hashtables.Rlu.Commit.{Counters, rlu_commit_write_set_lem}
use rcx_hashtables.Tests.WriteSets.{writer, locked_one, locked_one-IsLaid}
use rcx_hashtables.Tests.Waiting.{leave}

abbrev pub leave_if : Bool → Option Thread → Option Thread
leave_if true t = Option.map leave t
leave_if false t = t

-- Every thread leaves its section as soon as it is waited for.
abbrev pub polite : Env
polite = record {
  others = λ s. record s { threads = λ j. leave_if (s.self.q_threads j).is_wait (s.threads j) };
  malloc = λ _. 0;
  malloc_struct = λ _. true;
}

pub leave_if-present :
    (b : Bool) (t : Option Thread) (u : Thread)
    → t ≡ some u
    → (v : Thread) × (leave_if b t ≡ some v)
leave_if-present true t u e = (leave u, rw e refl)
leave_if-present false t u e = (u, e)

polite-Company : Company polite
polite-Company = record {
  respects = record {
    is_sync = λ s. s.self.is_sync;
    self = λ s. refl;
    locks = λ s a w at o e f. e;
  };
  present = λ s th u e. leave_if-present (s.self.q_threads th).is_wait (s.threads th) u e;
  cur_threads = λ s. omega arith;
}

leave-differs : (c : ℕ) (u : Thread) → is_odd c ≡ true → (c == (leave u).run_counter) ≡ false
leave-differs c u odd = elim (Bool-cases (is_odd u.run_counter)) [
  | inl running ↦ rw running (ground (arith, odd, running))
  | inr idle ↦ rw idle (ground (arith, odd, idle))
]

pub polite-passes :
    (c limit th : ℕ) (s : State) (u : Thread)
    → s.threads th ≡ some u
    → is_odd c ≡ true
    → (s.self.q_threads th).is_wait ≡ true
    → Passed c limit ((polite.others s).threads th)
polite-passes c limit th s u e odd w = record {
  u = leave u;
  there = rw (w, e) refl;
  past = inl (leave-differs c u odd);
}

polite-Leaving : Leaving polite 1
polite-Leaving s = record {
  rank = λ th t. 0;
  passes = λ t th u e odd w.
      inl (polite-passes (counters polite s th) s.self.writer_version th t u e odd w);
  enough = λ t th. omega arith;
}

-- The section has ended, and its write set is not committed yet, or is.
abbrev ending : (tail : ℕ) → State
ending tail = record locked_one {
  self = record writer {
    run_counter = 2;
    is_write_detected = false;
    ws_tail_counter = tail;
    ws_cur_id = ws_index tail;
  };
}

zero-only : (i : ℕ) → i < 1 → i ≡ 0
zero-only i lt = omega (arith, lt)

ending-AllLaid : (tail : ℕ) → AllLaid 0 1 (ending tail)
ending-AllLaid tail i le lt = rw (zero-only i (omega (arith, lt))) locked_one-IsLaid

rlu_commit_write_set_example :
    Returns (λ _ s'. Counters s'.self) (rlu_commit_write_set polite 1 (ending 0))
rlu_commit_write_set_example =
    rlu_commit_write_set_lem polite-Company 1 polite-Leaving (ending 0) refl
      (record {
        head = omega arith;
        wb = omega arith;
        flushed = omega arith;
        unfilled = omega arith;
        max = omega arith;
        cur_id = refl;
      })
      (ending-AllLaid 0) (λ th le. refl) refl

rlu_writeback_write_sets_and_unlock_example :
    Returns
      (λ n s'. (n ≡ 1) × Flushes (ending 1) s')
      (rlu_writeback_write_sets_and_unlock (ending 1))
rlu_writeback_write_sets_and_unlock_example =
    rlu_writeback_write_sets_and_unlock_lem (ending 1)
      (record { head = omega arith; wb = omega arith; few = omega arith }) (ending-AllLaid 1)
