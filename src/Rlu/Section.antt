-- ===== src/Rlu/Section.antt =====
-- rlu.c: the functions that a thread calls, from its start to its end.
pub mod Begin
use rcx_hashtables.Base.{
  ℕ, suc, ◌+◌, ◌-◌, ◌*◌, ◌%◌, ◌^◌, Bool, true, false, ◌&&◌, ltb, leb, ◌==◌, not, if◌then◌else◌,
  none, some, List, [], ◌∷◌, ◌++◌,
}
use rcx_hashtables.Rlu.{
  Ref, null, obj, unlocked, Stats, Thread, Env, assert_failed, ok, Cmd, pure, ◌>>=◌, ◌>>◌,
  rlu_assert, gets, modify_self, modify, tick, rlu_type_fine_grained, rlu_type_coarse_grained,
  rlu_max_write_sets, max_version, ws_index, is_odd, force_actual, write,
}
use rcx_hashtables.Rlu.WriterLocks.{
  rlu_reset_writer_locks, rlu_add_writer_lock, rlu_try_acquire_writer_lock,
  rlu_release_writer_locks,
}
use rcx_hashtables.Rlu.WriteSet.{no_item, rlu_reset_write_set, reset_sets, rlu_unlock_objs}
use rcx_hashtables.Rlu.Sync.{
  free_object, rlu_sync_and_writeback, rlu_commit_write_set, rlu_sync_checkpoint,
}

abbrev pub rlu_max_free_nodes : ℕ
rlu_max_free_nodes = 100000

-- `long` counters that only the running thread counts.
abbrev pub count_with : (Stats → Stats) → Cmd (Unit {0})
count_with f = modify_self (λ t. record t { stats = f t.stats })

unfoldable pub rlu_reset : Thread → Thread
rlu_reset t = record t { is_write_detected = false; is_steal = true; is_check_locks = true }

-- `run_counter` is an unsigned long.
abbrev pub next_counter : ℕ → ℕ
next_counter n = (n + 1) % 2 ^ 64

module _ (E : Env) where
  unfoldable pub rlu_register_thread : Cmd (Unit {0})
  unfolding tick
  rlu_register_thread = do
    odd ← gets (λ s. is_odd s.self.run_counter)
    rlu_assert (not odd)
    modify_self (λ t. record t { run_counter = next_counter t.run_counter })
    tick E
    modify (λ s. record s { self = record (s.self) { local_version = s.writer_version } })
    tick E
    modify (λ s. record s { self = record (s.self) { local_commit_version = s.commit_version } })

unfoldable pub rlu_unregister_thread : Cmd (Unit {0})
rlu_unregister_thread = do
  odd ← gets (λ s. is_odd s.self.run_counter)
  rlu_assert odd
  modify_self (λ t. record t { run_counter = next_counter t.run_counter })

-- The other type, or a bound that does not hold, ends the program.
unfoldable pub rlu_init : (type max_write_sets : ℕ) → Cmd (Unit {0})
rlu_init type max_write_sets = do
  modify (λ s. record s { writer_version = 0; commit_version = 0 })
  if type == rlu_type_coarse_grained
      then modify (λ s. record s { type = rlu_type_coarse_grained; max_write_sets = 1 })
      else (if type == rlu_type_fine_grained
          then modify
              (λ s. record s { type = rlu_type_fine_grained; max_write_sets = max_write_sets })
          else (λ _. assert_failed))
  rlu_assert (leb 2 rlu_max_write_sets)
  rlu_assert (leb 1 max_write_sets)
  rlu_assert (leb (max_write_sets * 2) rlu_max_write_sets)

abbrev pub no_stats : Stats
no_stats = record {
  n_starts = 0;
  n_finish = 0;
  n_writers = 0;
  n_writer_writeback = 0;
  n_pure_readers = 0;
  n_aborts = 0;
  n_steals = 0;
  n_writeback_q_iters = 0;
  n_sync_requests = 0;
  n_sync_and_writeback = 0;
}

-- `memset(self, 0, ...)`
abbrev pub no_thread : Thread
no_thread = record {
  uniq_id = 0;
  is_check_locks = false;
  is_write_detected = false;
  is_steal = false;
  type = 0;
  max_write_sets = 0;
  run_counter = 0;
  local_version = 0;
  local_commit_version = 0;
  is_no_quiescence = false;
  is_sync = 0;
  writer_version = 0;
  q_threads = λ _. record { is_wait = false; run_counter = 0 };
  ws_head_counter = 0;
  ws_wb_counter = 0;
  ws_tail_counter = 0;
  ws_cur_id = 0;
  obj_write_set = λ _. record { writer_locks = []; num_of_objs = 0; p_cur = 0; buffer = λ _. none };
  free_nodes = [];
  stats = no_stats;
}

-- The new thread is the running one. Its place in `g_rlu_threads` is `self`.
unfoldable pub rlu_thread_init : Cmd (Unit {0})
unfolding reset_sets
rlu_thread_init = modify (λ s. record s {
  self = reset_sets rlu_max_write_sets 0 (record no_thread {
    type = s.type;
    max_write_sets = s.max_write_sets;
    uniq_id = s.cur_threads;
    local_version = 0;
    writer_version = max_version;
  });
  cur_threads = s.cur_threads + 1;
})

abbrev pub add_stats : Stats → Stats → Stats
add_stats a b = record {
  n_starts = a.n_starts + b.n_starts;
  n_finish = a.n_finish + b.n_finish;
  n_writers = a.n_writers + b.n_writers;
  n_writer_writeback = a.n_writer_writeback + b.n_writer_writeback;
  n_pure_readers = a.n_pure_readers + b.n_pure_readers;
  n_aborts = a.n_aborts + b.n_aborts;
  n_steals = a.n_steals + b.n_steals;
  n_writeback_q_iters = a.n_writeback_q_iters + b.n_writeback_q_iters;
  n_sync_requests = a.n_sync_requests + b.n_sync_requests;
  n_sync_and_writeback = a.n_sync_and_writeback + b.n_sync_and_writeback;
}

module _ (E : Env) where
  unfoldable pub rlu_thread_finish : ℕ → Cmd (Unit {0})
  rlu_thread_finish fuel = do
    rlu_sync_and_writeback E fuel
    rlu_sync_and_writeback E fuel
    modify (λ s. record s { stats = add_stats s.stats s.self.stats })

  -- The memory of a new object, or NULL. The content is arbitrary.
  unfoldable pub rlu_alloc : Cmd Ref
  rlu_alloc s =
      if E.malloc s == 0
      then ok null s
      else ok (obj (E.malloc s)) (record s {
        heap = write s.heap (E.malloc s) (some (record { p_obj_copy = unlocked; item = no_item }));
      })

abbrev pub ref_count : List Ref → ℕ
ref_count [] = 0
ref_count (x ∷ xs) = suc (ref_count xs)

-- `rlu_free(self, p_obj)` with a thread.
unfoldable pub free_later : Ref → Cmd (Unit {0})
free_later null = pure tt
free_later p = do
  odd ← gets (λ s. is_odd s.self.run_counter)
  rlu_assert odd
  p' ← force_actual p
  modify_self (λ t. record t { free_nodes = t.free_nodes ++ p' ∷ [] })
  fits ← gets (λ s. ltb (ref_count s.self.free_nodes) rlu_max_free_nodes)
  rlu_assert fits

-- `rlu_free(NULL, p_obj)`
unfoldable pub free_now : Ref → Cmd (Unit {0})
free_now null = pure tt
free_now p = free_object p

module _ (E : Env) where
  unfoldable pub rlu_reader_lock : ℕ → Cmd (Unit {0})
  unfolding rlu_reset
  rlu_reader_lock fuel = do
    count_with (λ n. record n { n_starts = n.n_starts + 1 })
    rlu_sync_checkpoint E fuel
    modify_self rlu_reset
    rlu_register_thread E
    modify_self (λ t. record t { is_steal = not (t.local_version == t.local_commit_version) })
    modify_self (λ t. record t { is_check_locks = true })
    settled ← gets (λ s.
        (s.self.local_version == s.self.local_commit_version)
        && (s.self.ws_tail_counter == s.self.ws_wb_counter))
    if settled
        then (do
          modify_self (λ t. record t { is_check_locks = false })
          count_with (λ n. record n { n_pure_readers = n.n_pure_readers + 1 }))
        else pure tt

  unfoldable pub rlu_try_writer_lock : ℕ → Cmd Bool
  rlu_try_writer_lock id = do
    coarse ← gets (λ s. s.self.type == rlu_type_coarse_grained)
    rlu_assert coarse
    got ← rlu_try_acquire_writer_lock E id
    if got then (do rlu_add_writer_lock id; pure true) else pure false

  -- Without a write the locks of the current write set are given back and forgotten.
  unfoldable pub release_current : Cmd (Unit {0})
  release_current = do
    w ← gets (λ s. s.self.ws_cur_id)
    rlu_release_writer_locks w
    modify_self (rlu_reset_writer_locks w)

  unfoldable pub rlu_reader_unlock : ℕ → Cmd (Unit {0})
  unfolding release_current
  rlu_reader_unlock fuel = do
    count_with (λ n. record n { n_finish = n.n_finish + 1 })
    rlu_unregister_thread
    wrote ← gets (λ s. s.self.is_write_detected)
    if wrote
        then (do
          modify_self (λ t. record t { is_write_detected = false })
          rlu_commit_write_set E fuel
          w ← gets (λ s. ws_index (s.self.ws_tail_counter - 1))
          rlu_release_writer_locks w)
        else release_current
    rlu_sync_checkpoint E fuel

  unfoldable pub rlu_abort : ℕ → Cmd (Unit {0})
  unfolding release_current
  rlu_abort fuel = do
    count_with (λ n. record n { n_aborts = n.n_aborts + 1 })
    rlu_unregister_thread
    wrote ← gets (λ s. s.self.is_write_detected)
    if wrote
        then (do
          modify_self (λ t. record t { is_write_detected = false })
          tail ← gets (λ s. s.self.ws_tail_counter)
          rlu_unlock_objs tail
          w ← gets (λ s. s.self.ws_cur_id)
          rlu_release_writer_locks w
          modify_self (rlu_reset_write_set tail))
        else release_current
    rlu_sync_checkpoint E fuel
