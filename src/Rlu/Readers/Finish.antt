-- ===== src/Rlu/Readers/Finish.antt =====
-- The end of a section with writes, of a thread that writes back each write set at once.
use rcx_hashtables.Base.{
  ℕ, ◌+◌, Option, ◌-◌, ◌≤◌, ◌<◌, ◌≡◌, refl, true, false, arith, Bool-cases, inl, inr, ◌==◌,
  eq_of_==, ap, ◌∙◌, [], leb, not,
}
use rcx_hashtables.Rlu.{Thread, State, Env, ok, Cmd, ◌>>=◌, and_then, gets, ws_index, is_odd}
use rcx_hashtables.Rlu.Ends
use rcx_hashtables.Rlu.Ends.{returns, Returns}
use rcx_hashtables.Rlu.WriterLocks.{rlu_release_writer_locks, release_ids}
use rcx_hashtables.Rlu.Sync.{
  rlu_sync_checkpoint, rlu_commit_write_set, sync_if_full, rlu_sync_and_writeback,
}
use rcx_hashtables.Rlu.Section.{next_counter, rlu_unregister_thread, rlu_reader_unlock}
use rcx_hashtables.Rlu.WriteSet.AllSets.{ws_index-differs}
use rcx_hashtables.Rlu.WriteSet.Writeback.{IsLaid}
use rcx_hashtables.Rlu.Quiescence.Init.{IsIdle}
use rcx_hashtables.Rlu.Settle.{Leaving}
use rcx_hashtables.Rlu.Commit.{next_set, in_order, in_room}
use rcx_hashtables.Rlu.WriteSet.Layout.{Heap}
use rcx_hashtables.Rlu.Readers.Free.{free_list, IsFree}
use rcx_hashtables.Rlu.Readers.{OnlyRead}
use rcx_hashtables.Rlu.Readers.Synced.{Synced, AllWritten}
use rcx_hashtables.Rlu.Readers.Commit.{sync-Synced}

-- The write sets of a thread that gathers no more than one: all are written back, and the last one may
-- not be reset yet.
pub record AtOnce (t : Thread) : Type 0 where
  pub one : t.max_write_sets ≡ 1
  pub wb : t.ws_wb_counter ≡ t.ws_tail_counter
  pub head : t.ws_head_counter ≤ t.ws_wb_counter
  pub flushed : t.ws_wb_counter ≤ t.ws_head_counter + 1
  pub cur_id : t.ws_cur_id ≡ ws_index t.ws_tail_counter

module _ {E : Env} (r : OnlyRead E) (fuel : ℕ) (leaves : Leaving E fuel) (freed : Option ℕ)
    (s : State) (even : is_odd s.self.run_counter ≡ false) (sets : AtOnce s.self)
    (laid : IsLaid (ws_index s.self.ws_tail_counter) s) (idle : IsIdle s)
    (to_free : s.self.free_nodes ≡ free_list freed)
    (frees : (g : Heap) → AllWritten (next_set s) g → IsFree g freed) where
  only_tail :
      (i : ℕ)
      → s.self.ws_wb_counter ≤ i
      → i < s.self.ws_wb_counter + (s.self.ws_tail_counter + 1 - s.self.ws_wb_counter)
      → i ≡ s.self.ws_tail_counter
  only_tail i le lt = omega (arith, le, lt, sets.wb)

  sync_next :
      Returns (λ _ s'. Synced freed (next_set s) s') (rlu_sync_and_writeback E fuel (next_set s))
  sync_next =
      sync-Synced r fuel leaves freed (next_set s) even (ground (arith, sets.wb, sets.head))
        (record {
          head = sets.head;
          wb = omega (arith, sets.wb);
          few = omega (arith, sets.flushed, sets.wb);
        })
        (λ i le lt. rw (only_tail i le lt) laid) idle to_free frees

  sync_if_full-Synced :
      Returns (λ _ s'. Synced freed (next_set s) s') (sync_if_full E fuel (next_set s))
  unfolding sync_if_full
  sync_if_full-Synced =
      let many : leb s.self.max_write_sets (s.self.ws_tail_counter + 1 - s.self.ws_wb_counter)
          ≡ true =
        ground (arith, sets.one, sets.wb) in
      elim (Bool-cases (ws_index (s.self.ws_tail_counter + 1) == ws_index s.self.ws_head_counter)) [
        | inl full ↦ rw full sync_next
        | inr room ↦ rw (room, many) sync_next
      ]

  Synced-in_room : (s' : State) → Synced freed (next_set s) s' → in_room s'.self ≡ true
  Synced-in_room s' y =
      elim (Bool-cases (ws_index s'.self.ws_tail_counter == ws_index s'.self.ws_head_counter)) [
        | inl same ↦ absurd (
            ws_index-differs s'.self.ws_tail_counter s'.self.ws_head_counter
              (omega (arith, y.head, y.tail, sets.wb)) (omega (arith, y.head, y.tail, sets.wb))
              (eq_of_== (ws_index s'.self.ws_tail_counter) (ws_index s'.self.ws_head_counter) same))
        | inr differs ↦ ap not differs
      ]

  pub commit-Synced : Returns (λ _ s'. Synced freed (next_set s) s') (rlu_commit_write_set E fuel s)
  unfolding rlu_commit_write_set
  commit-Synced = Ends.bind sync_if_full-Synced λ x s' y.
      let order : in_order s'.self ≡ true = ground (arith, y.head, y.tail, sets.wb) in
      rw (order, Synced-in_room s' y) (returns y)

-- The state at the end of the section, before the commit.
abbrev pub ended_section : State → State
ended_section s = record s {
  self = record (s.self) {
    stats = record (s.self.stats) { n_finish = s.self.stats.n_finish + 1 };
    run_counter = next_counter s.self.run_counter;
    is_write_detected = false;
  };
}

-- What follows the commit: the locks of the committed write set.
abbrev release_last : Cmd (Unit {0})
release_last = gets (λ s. ws_index (s.self.ws_tail_counter - 1)) >>= rlu_release_writer_locks

release_last-none :
    (s : State)
    → (s.self.obj_write_set (ws_index (s.self.ws_tail_counter - 1))).writer_locks ≡ []
    → release_last s ≡ ok tt s
unfolding rlu_release_writer_locks release_ids
release_last-none s none = rw none refl

pub checkpoint-unasked :
    (E : Env) (fuel : ℕ) (s : State)
    → (s.self.is_sync == 0) ≡ true
    → rlu_sync_checkpoint E fuel s ≡ ok tt s
unfolding rlu_sync_checkpoint
checkpoint-unasked E fuel s unasked = rw unasked refl

module _ {E : Env} (r : OnlyRead E) (fuel : ℕ) (leaves : Leaving E fuel) (freed : Option ℕ)
    (s : State) (odd : is_odd s.self.run_counter ≡ true) (wrote : s.self.is_write_detected ≡ true)
    (sets : AtOnce s.self) (laid : IsLaid (ws_index s.self.ws_tail_counter) s)
    (none : (s.self.obj_write_set (ws_index s.self.ws_tail_counter)).writer_locks ≡ [])
    (idle : IsIdle s) (to_free : s.self.free_nodes ≡ free_list freed)
    (frees : (g : Heap) → AllWritten (next_set (ended_section s)) g → IsFree g freed) where
  unlock-commits :
      rlu_reader_unlock E fuel s
      ≡ and_then
          (and_then (rlu_commit_write_set E fuel (ended_section s)) (λ _. release_last))
          (λ _. rlu_sync_checkpoint E fuel)
  unfolding rlu_reader_unlock rlu_unregister_thread
  unlock-commits = rw (odd, wrote) refl

  even_next : is_odd (next_counter s.self.run_counter) ≡ false
  even_next = ground (arith, odd)

  locks-none :
      (s' : State)
      → Synced freed (next_set (ended_section s)) s'
      → (s'.self.obj_write_set (ws_index (s'.self.ws_tail_counter - 1))).writer_locks ≡ []
  locks-none s' y =
      let last : s'.self.ws_tail_counter - 1 ≡ s.self.ws_tail_counter = omega (arith, y.tail) in
      ap (λ i. (s'.self.obj_write_set (ws_index i)).writer_locks) last
      ∙ ap (λ w. w.writer_locks)
          (y.kept s.self.ws_tail_counter (omega (arith, sets.wb)) (omega arith))
      ∙ none

  pub reader_unlock-Synced :
      Returns (λ _ s'. Synced freed (next_set (ended_section s)) s') (rlu_reader_unlock E fuel s)
  reader_unlock-Synced =
      let sets' : AtOnce (ended_section s).self = record {
        one = sets.one;
        wb = sets.wb;
        head = sets.head;
        flushed = sets.flushed;
        cur_id = sets.cur_id;
      } in
      rw unlock-commits (
        Ends.bind {P = λ x s'. Synced freed (next_set (ended_section s)) s'}
          (Ends.bind
            (commit-Synced r fuel leaves freed (ended_section s) even_next sets' laid idle to_free
              frees)
            λ x s' y. rw (release_last-none s' (locks-none s' y)) (returns y))
          λ x s' y. rw (checkpoint-unasked E fuel s' (ap (λ n. n == 0) y.is_sync)) (returns y))
