-- ===== src/Rlu/Sync.antt =====
-- rlu.c: the wait for other threads, and the write-back of the write sets after it. A failed wait
-- takes another round: each round uses fuel.
use rcx_hashtables.Base.{
  ℕ, zero, suc, ◌+◌, ◌-◌, Bool, true, false, ltb, leb, ◌==◌, not, if◌then◌else◌, Option, none, some,
  List, [], ◌∷◌,
}
use mathlib.Core.Option
use rcx_hashtables.Rlu.{
  Ref, obj, Header, unlocked, Thread, State, Env, ok, fault, out_of_fuel, Cmd, pure, ◌>>=◌, ◌>>◌,
  rlu_assert, gets, modify_self, modify, load_thread, tick, max_version, ws_index, is_odd, get_copy,
  write, read,
}
use rcx_hashtables.Rlu.WriteSet.{rlu_writeback_write_sets_and_unlock}

abbrev pub q_iters_limit : ℕ
q_iters_limit = 100000000

abbrev pub set_wait : ℕ → Bool → Thread → Thread
set_wait th b t = record t {
  q_threads = write t.q_threads th (record (t.q_threads th) { is_wait = b });
}

-- The entry of `q_threads` for another thread, from that thread's counter.
abbrev pub observe : ℕ → ℕ → Thread → Thread
observe th counter t = record t {
  q_threads = write t.q_threads th (record { is_wait = is_odd counter; run_counter = counter });
}

unfoldable pub init_other : ℕ → Option Thread → Thread → Thread
init_other th none t = set_wait th false t
init_other th (some u) t = observe th u.run_counter t

-- One round of the loop of `rlu_init_quiescence`.
unfoldable pub init_entry : ℕ → State → State
unfolding init_other
init_entry th s = record s {
  self =
      if th == s.self.uniq_id
      then set_wait th false s.self
      else init_other th (s.threads th) s.self;
}

-- The rounds below `count`, from `th` on. The others do not act between them, as they may in the code.
unfoldable pub init_entries : (count th : ℕ) → State → State
init_entries zero th s = s
init_entries (suc count) th s = init_entries count (suc th) (init_entry th s)

module _ (E : Env) where
  unfoldable pub rlu_init_quiescence : Cmd (Unit {0})
  rlu_init_quiescence = do tick E; modify (λ s. init_entries s.cur_threads 0 s)

  -- What a round of the wait for a thread finds: true if the wait is over.
  unfoldable pub wait_over : (th version_limit : ℕ) → Cmd Bool
  wait_over th version_limit = do
    tick E
    e ← gets (λ s. s.self.q_threads th)
    u ← load_thread th
    if not (e.run_counter == u.run_counter)
        then pure true
        else (if version_limit == 0 then pure false else pure (leb version_limit u.local_version))

  -- The loop for one thread: the number of rounds so far.
  unfoldable pub wait_thread : (fuel th version_limit iters : ℕ) → Cmd ℕ
  wait_thread zero th version_limit iters = λ _. out_of_fuel
  wait_thread (suc fuel) th version_limit iters = do
    waits ← gets (λ s. (s.self.q_threads th).is_wait)
    if not waits then pure iters else (do
      over ← wait_over th version_limit
      if over
          then (do modify_self (set_wait th false); pure (suc iters))
          else wait_thread fuel th version_limit
              (if ltb q_iters_limit (suc iters) then 0 else suc iters))

  -- The loops for `count` threads, from `th` on.
  unfoldable pub wait_threads : (fuel count th version_limit iters : ℕ) → Cmd ℕ
  wait_threads fuel zero th version_limit iters = pure iters
  wait_threads fuel (suc count) th version_limit iters = do
    n ← wait_thread fuel th version_limit iters
    wait_threads fuel count (suc th) version_limit n

  unfoldable pub rlu_wait_for_quiescence : (fuel version_limit : ℕ) → Cmd ℕ
  rlu_wait_for_quiescence fuel version_limit = do
    cur_threads ← gets (λ s. s.cur_threads)
    wait_threads fuel cur_threads 0 version_limit 0

  -- The part behind the early return.
  unfoldable pub wait_for_all : ℕ → Cmd (Unit {0})
  wait_for_all fuel = do
    rlu_init_quiescence
    limit ← gets (λ s. s.self.writer_version)
    q_iters ← rlu_wait_for_quiescence fuel limit
    modify_self (λ t. record t {
      stats = record (t.stats) { n_writeback_q_iters = t.stats.n_writeback_q_iters + q_iters };
    })

  unfoldable pub rlu_synchronize : ℕ → Cmd (Unit {0})
  unfolding wait_for_all
  rlu_synchronize fuel = do
    skip ← gets (λ s. s.self.is_no_quiescence)
    if skip then pure tt else wait_for_all fuel

-- `free(OBJ_TO_H(p_obj))`, of an object that has not been freed.
unfoldable pub free_object : Ref → Cmd (Unit {0})
free_object (obj a) s = elim (s.heap a) [
  | none ↦ fault
  | some _ ↦ ok tt (record s { heap = write s.heap a none })
]
free_object _ s = fault

abbrev pub is_unlocked : Header → Bool
is_unlocked unlocked = true
is_unlocked _ = false

unfoldable pub free_all : List Ref → Cmd (Unit {0})
free_all [] = pure tt
free_all (p ∷ ps) = do h ← get_copy p; rlu_assert (is_unlocked h); free_object p; free_all ps

unfoldable pub rlu_process_free : Cmd (Unit {0})
unfolding free_all
rlu_process_free = do
  ps ← gets (λ s. s.self.free_nodes)
  free_all ps
  modify_self (λ t. record t { free_nodes = [] })

abbrev pub count_sync : Thread → Thread
count_sync t = record t {
  stats = record (t.stats) { n_sync_and_writeback = t.stats.n_sync_and_writeback + 1 };
}

module _ (E : Env) where
  -- The part behind the write-back.
  unfoldable pub end_sync : (ws_num ws_wb_num : ℕ) → Cmd (Unit {0})
  end_sync ws_num ws_wb_num = do
    rlu_assert (ws_num == ws_wb_num)
    modify_self (λ t. record t { writer_version = max_version })
    tick E
    modify (λ s. record s { commit_version = s.commit_version + 1 })
    modify_self (λ t. record t { is_sync = 0 })
    rlu_process_free

  -- The part behind the early return.
  unfoldable pub do_sync_and_writeback : ℕ → Cmd (Unit {0})
  unfolding end_sync
  do_sync_and_writeback fuel = do
    modify_self count_sync
    ws_num ← gets (λ s. s.self.ws_tail_counter - s.self.ws_wb_counter)
    version ← gets (λ s. s.writer_version + 1)
    modify_self (λ t. record t { writer_version = version })
    tick E
    modify (λ s. record s { writer_version = s.writer_version + 1 })
    rlu_synchronize E fuel
    ws_wb_num ← rlu_writeback_write_sets_and_unlock
    end_sync ws_num ws_wb_num

  unfoldable pub rlu_sync_and_writeback : ℕ → Cmd (Unit {0})
  unfolding do_sync_and_writeback
  rlu_sync_and_writeback fuel = do
    odd ← gets (λ s. is_odd s.self.run_counter)
    rlu_assert (not odd)
    none_left ← gets (λ s. s.self.ws_tail_counter == s.self.ws_head_counter)
    if none_left then pure tt else do_sync_and_writeback fuel

  -- All write sets are full, or as many as the thread gathers.
  unfoldable pub sync_if_full : ℕ → Cmd (Unit {0})
  sync_if_full fuel = do
    t ← gets (λ s. s.self)
    if ws_index t.ws_tail_counter == ws_index t.ws_head_counter
        then rlu_sync_and_writeback fuel
        else (if leb t.max_write_sets (t.ws_tail_counter - t.ws_wb_counter)
            then rlu_sync_and_writeback fuel
            else pure tt)

  unfoldable pub rlu_commit_write_set : ℕ → Cmd (Unit {0})
  unfolding sync_if_full
  rlu_commit_write_set fuel = do
    modify_self (λ t. record t {
      stats = record (t.stats) {
        n_writers = t.stats.n_writers + 1;
        n_writer_writeback = t.stats.n_writer_writeback + 1;
      };
    })
    modify_self (λ t. record t {
      ws_tail_counter = t.ws_tail_counter + 1;
      ws_cur_id = ws_index (t.ws_tail_counter + 1);
    })
    sync_if_full fuel
    u ← gets (λ s. s.self)
    rlu_assert (ltb u.ws_head_counter u.ws_tail_counter)
    rlu_assert (not (ws_index u.ws_tail_counter == ws_index u.ws_head_counter))

  unfoldable pub rlu_sync_checkpoint : ℕ → Cmd (Unit {0})
  rlu_sync_checkpoint fuel = do
    asked ← gets (λ s. not (s.self.is_sync == 0))
    if not asked then pure tt else (do
      modify_self (λ t. record t {
        stats = record (t.stats) { n_sync_requests = t.stats.n_sync_requests + 1 };
      })
      rlu_sync_and_writeback fuel)

abbrev pub ask : Thread → Thread
ask t = record t { is_sync = t.is_sync + 1 }

-- `g_rlu_threads[other_th_id]->is_sync++`
unfoldable pub rlu_send_sync_request : ℕ → Cmd (Unit {0})
rlu_send_sync_request th s =
    if th == s.self.uniq_id
    then ok tt (record s { self = ask s.self })
    else read (s.threads th) (λ _. tt)
        (record s { threads = λ j. if j == th then Option.map ask (s.threads j) else s.threads j })
