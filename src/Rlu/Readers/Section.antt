-- ===== src/Rlu/Readers/Section.antt =====
-- The begin and the end of a section among readers.
use rcx_hashtables.Base.{ℕ, ◌+◌, ◌≡◌, true, false, ◌==◌, not, []}
use rcx_hashtables.Rlu.{State, Env, tick, is_odd}
use rcx_hashtables.Rlu.Ends.{returns, Returns}
use rcx_hashtables.Rlu.WriterLocks.{
  current_locks, rlu_reset_writer_locks, rlu_release_writer_locks, release_ids,
}
use rcx_hashtables.Rlu.Sync.{rlu_sync_checkpoint}
use rcx_hashtables.Rlu.Section.{
  next_counter, rlu_reset, rlu_register_thread, rlu_reader_lock, rlu_unregister_thread,
  release_current, rlu_reader_unlock,
}
use rcx_hashtables.Rlu.Readers.{drift, OnlyRead, Gives, gives}

-- The thread after the begin of a section in which it has no locks to check.
abbrev pub opened : State → State
opened s = record s {
  self = record (s.self) {
    stats = record (s.self.stats) {
      n_starts = s.self.stats.n_starts + 1;
      n_pure_readers = s.self.stats.n_pure_readers + 1;
    };
    is_write_detected = false;
    is_steal = not (s.writer_version == s.commit_version);
    is_check_locks = false;
    run_counter = next_counter s.self.run_counter;
    local_version = s.writer_version;
    local_commit_version = s.commit_version;
  };
}

-- A thread between two sections, when all commits have ended.
pub record Outside (s : State) : Type 0 where
  pub even : is_odd s.self.run_counter ≡ false
  pub unasked : (s.self.is_sync == 0) ≡ true
  pub versions : (s.writer_version == s.commit_version) ≡ true
  pub written : (s.self.ws_tail_counter == s.self.ws_wb_counter) ≡ true
  pub unlocked : current_locks s ≡ []

-- The thread after the end of a section without a write.
abbrev pub closed : State → State
closed s = record s {
  self = rlu_reset_writer_locks s.self.ws_cur_id (record (s.self) {
    stats = record (s.self.stats) { n_finish = s.self.stats.n_finish + 1 };
    run_counter = next_counter s.self.run_counter;
  });
}

module _ {E : Env} (o : OnlyRead E) (fuel : ℕ) where
  pub reader_lock-opened :
      (s : State) → Outside s → Returns (Gives tt (opened s)) (rlu_reader_lock E fuel s)
  unfolding rlu_reader_lock rlu_sync_checkpoint rlu_reset rlu_register_thread tick
  reader_lock-opened s out =
      let s1 : State = record s {
        self = record (s.self) {
          stats = record (s.self.stats) { n_starts = s.self.stats.n_starts + 1 };
          is_write_detected = false;
          is_steal = true;
          is_check_locks = true;
          run_counter = next_counter s.self.run_counter;
        };
      } in
      let t1 = o.threads s1 in
      let n1 = o.cur_threads s1 in
      let s2 : State =
        drift t1 n1 (record s1 { self = record (s1.self) { local_version = s.writer_version } }) in
      rw (out.unasked, out.even, o.others s1, o.others s2, out.versions, out.written)
        (returns (gives (o.threads s2) (o.cur_threads s2)))

  pub reader_unlock-closed :
      (s : State)
      → is_odd s.self.run_counter ≡ true
      → s.self.is_write_detected ≡ false
      → current_locks s ≡ []
      → (s.self.is_sync == 0) ≡ true
      → Returns (Gives tt (closed s)) (rlu_reader_unlock E fuel s)
  unfolding rlu_reader_unlock rlu_unregister_thread release_current rlu_release_writer_locks
      release_ids rlu_sync_checkpoint rlu_reset_writer_locks
  reader_unlock-closed s odd pure_reader none unasked =
      rw (odd, pure_reader, none, unasked) (returns (gives s.threads s.cur_threads))
