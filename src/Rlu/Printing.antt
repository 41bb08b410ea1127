-- ===== src/Rlu/Printing.antt =====
-- rlu.c: the numbers that `rlu_print_stats` prints.
use rcx_hashtables.Base.{ℕ, ◌/◌, ltb, if◌then◌else◌}
use rcx_hashtables.Rlu.{State}

-- The lines of the report, in their order.
pub record PrintedStats : Type 0 where
  pub t_starts : ℕ
  pub t_finish : ℕ
  pub t_writers : ℕ
  pub t_writer_writebacks : ℕ
  pub t_writeback_q_iters : ℕ
  pub a_writeback_q_iters : ℕ
  pub t_pure_readers : ℕ
  pub t_steals : ℕ
  pub t_aborts : ℕ
  pub t_sync_requests : ℕ
  pub t_sync_and_writeback : ℕ

unfoldable pub rlu_print_stats : State → PrintedStats
rlu_print_stats s = record {
  t_starts = s.stats.n_starts;
  t_finish = s.stats.n_finish;
  t_writers = s.stats.n_writers;
  t_writer_writebacks = s.stats.n_writer_writeback;
  t_writeback_q_iters = s.stats.n_writeback_q_iters;
  a_writeback_q_iters =
      if ltb 0 s.stats.n_writer_writeback
      then s.stats.n_writeback_q_iters / s.stats.n_writer_writeback
      else 0;
  t_pure_readers = s.stats.n_pure_readers;
  t_steals = s.stats.n_steals;
  t_aborts = s.stats.n_aborts;
  t_sync_requests = s.stats.n_sync_requests;
  t_sync_and_writeback = s.stats.n_sync_and_writeback;
}
