-- ===== src/Rlu/Readers/Commit.antt =====
-- A synchronization with write-back among readers.
use mathlib.Core.Path.{subst}
use rcx_hashtables.Base.{ℕ, ◌+◌, Option, ◌-◌, ◌≡◌, false, arith, ◌==◌, ap, sym, ◌∙◌}
use rcx_hashtables.Rlu.{State, Env, tick, ws_index, is_odd}
use rcx_hashtables.Rlu.Ends
use rcx_hashtables.Rlu.Ends.{returns, Returns}
use rcx_hashtables.Rlu.Sync.{do_sync_and_writeback, rlu_sync_and_writeback, count_sync}
use rcx_hashtables.Rlu.WriteSet.Layout.{Heap}
use rcx_hashtables.Rlu.WriteSet.AllSets.{AllLaid}
use rcx_hashtables.Rlu.WriteSet.Flush.{Counted, rlu_writeback_write_sets_and_unlock_lem}
use rcx_hashtables.Rlu.Others.{Later, IsLaid-Later}
use rcx_hashtables.Rlu.Quiescence.Init.{IsIdle}
use rcx_hashtables.Rlu.Quiescence.Objects.{shared, synchronize-KeepsShared}
use rcx_hashtables.Rlu.Settle.{Leaving, synchronize-Later, IsIdle-others}
use rcx_hashtables.Rlu.Readers.Synced.{
  end_sync-heap, AllWritten, Synced, Flushes-AllWritten, synced,
}
use rcx_hashtables.Rlu.Readers.Free.{free_list, IsFree}
use rcx_hashtables.Rlu.Readers.{drift, OnlyRead, OnlyRead-Company}

others-shared : {E : Env} → OnlyRead E → (s : State) → shared (E.others s) ≡ shared s
others-shared r s = ap shared (r.others s)

module _ {E : Env} (r : OnlyRead E) (fuel : ℕ) (leaves : Leaving E fuel) (freed : Option ℕ) where
  do_sync-Synced :
      (s : State)
      → Counted s.self
      → AllLaid s.self.ws_wb_counter (s.self.ws_tail_counter - s.self.ws_wb_counter) s
      → IsIdle s
      → s.self.free_nodes ≡ free_list freed
      → ((g : Heap) → AllWritten s g → IsFree g freed)
      → Returns (λ _ s'. Synced freed s s') (do_sync_and_writeback E fuel s)
  unfolding do_sync_and_writeback tick
  do_sync-Synced s counted laid idle to_free frees =
      let s2 : State = record s {
        self = record (count_sync s.self) { writer_version = s.writer_version + 1 };
      } in
      let s3 : State = drift (r.threads s2) (r.cur_threads s2) s2 in
      let s4 : State = record s3 { writer_version = s3.writer_version + 1 } in
      let idle' : IsIdle s3 = rw (r.others s2) at (IsIdle-others (OnlyRead-Company r) s2 idle) in
      rw (r.others s2) (
        Ends.bind
          (synchronize-KeepsShared E (others-shared r) fuel s4
            (synchronize-Later (OnlyRead-Company r) fuel leaves s4 idle'))
          λ x s5 ((l45, rests), h).
            let l : Later s2 s5 = record { self = l45.self; locks = l45.locks } in
            let head : s5.self.ws_head_counter ≡ s.self.ws_head_counter =
              ap (λ t. t.ws_head_counter) l.self.same in
            let wb : s5.self.ws_wb_counter ≡ s.self.ws_wb_counter =
              ap (λ t. t.ws_wb_counter) l.self.same in
            let tail : s5.self.ws_tail_counter ≡ s.self.ws_tail_counter =
              ap (λ t. t.ws_tail_counter) l.self.same in
            Ends.bind
              (rlu_writeback_write_sets_and_unlock_lem s5
                (record {
                  head = omega (arith, head, wb, counted.head);
                  wb = omega (arith, wb, tail, counted.wb);
                  few = omega (arith, head, tail, counted.few);
                })
                (λ i le lt.
                  IsLaid-Later (ws_index i) l
                    (laid i (omega (arith, le, wb)) (omega (arith, lt, wb, tail)))))
              λ n s6 (count, f).
                let to_free6 : s6.self.free_nodes ≡ free_list freed =
                  ap (λ t. t.self.free_nodes) f.state
                  ∙ ap (λ t. t.free_nodes) l.self.same
                  ∙ to_free in
                let free6 : IsFree s6.heap freed =
                  subst (λ h. IsFree h freed) (sym (ap (λ t. t.heap) f.state))
                    (frees f.g (Flushes-AllWritten s2 s5 s6 l f)) in
                Ends.mono
                  (end_sync-heap r freed (s.self.ws_tail_counter - s.self.ws_wb_counter) n s6
                    (ground (arith, count, wb, tail)) to_free6 free6)
                  λ x' s7 (e, g, version, commits).
                    let y : Synced freed s2 s7 =
                      synced freed s2 s5 s6 s7 l (ap (λ x. x.0) h) rests (ap (λ x. x.1.0) h)
                        (ap (λ x. x.1.1) h) f e g version commits in
                    record {
                      g = y.g;
                      heap = y.heap;
                      changes = y.changes;
                      kept = y.kept;
                      only = y.only;
                      head = y.head;
                      wb = y.wb;
                      tail = y.tail;
                      cur_id = y.cur_id;
                      run_counter = y.run_counter;
                      is_sync = y.is_sync;
                      max_write_sets = y.max_write_sets;
                      no_free = y.no_free;
                      quiet = y.quiet;
                      writer_version = y.writer_version;
                      commit_version = y.commit_version;
                      empty = y.empty;
                      other = y.other;
                    })

  pub sync-Synced :
      (s : State)
      → is_odd s.self.run_counter ≡ false
      → (s.self.ws_tail_counter == s.self.ws_head_counter) ≡ false
      → Counted s.self
      → AllLaid s.self.ws_wb_counter (s.self.ws_tail_counter - s.self.ws_wb_counter) s
      → IsIdle s
      → s.self.free_nodes ≡ free_list freed
      → ((g : Heap) → AllWritten s g → IsFree g freed)
      → Returns (λ _ s'. Synced freed s s') (rlu_sync_and_writeback E fuel s)
  unfolding rlu_sync_and_writeback
  sync-Synced s even some_left counted laid idle to_free frees =
      rw (even, some_left) (do_sync-Synced s counted laid idle to_free frees)
