-- ===== src/Rlu/Settle.antt =====
-- rlu.c: a synchronization with write-back, and what it leaves of a thread's data.
use rcx_hashtables.Base.{
  ℕ, ◌+◌, ◌-◌, ◌≤◌, ◌≡◌, refl, true, false, arith, some, Bool-cases, inl, inr, ◌⊎◌, ◌==◌, ap, ◌∙◌,
  [],
}
use rcx_hashtables.Rlu.{Thread, State, Env, ok, tick, ws_index, max_version, is_odd}
use rcx_hashtables.Rlu.Ends
use rcx_hashtables.Rlu.Ends.{returns, Returns}
use rcx_hashtables.Rlu.Sync.{
  rlu_synchronize, end_sync, do_sync_and_writeback, rlu_sync_and_writeback, rlu_process_free,
  free_all, count_sync,
}
use rcx_hashtables.Rlu.WriteSet.AllSets.{AllLaid}
use rcx_hashtables.Rlu.WriteSet.Flush.{Counted, rlu_writeback_write_sets_and_unlock_lem}
use rcx_hashtables.Rlu.Others.{
  Later, Later-refl, Later-trans, Respects, Respects-Later, q_threads-Respects, IsLaid-Later,
}
use rcx_hashtables.Rlu.Quiescence.{Drains}
use rcx_hashtables.Rlu.Quiescence.Init.{IsIdle, counters}
use rcx_hashtables.Rlu.Quiescence.Synchronize.{synchronize-Ends}

-- The others keep what a thread relies on; threads come and do not go.
pub record Company (E : Env) : Type 0 where
  pub respects : Respects E
  pub present :
      (s : State) (th : ℕ) (u : Thread)
      → s.threads th ≡ some u
      → (v : Thread) × ((E.others s).threads th ≡ some v)
  pub cur_threads : (s : State) → s.cur_threads ≤ (E.others s).cur_threads

pub IsIdle-others : {E : Env} → Company E → (s : State) → IsIdle s → IsIdle (E.others s)
IsIdle-others c s idle th le =
    rw (q_threads-Respects c.respects s) (idle th (omega (arith, le, c.cur_threads s)))

-- A wait that begins in any state ends.
abbrev pub Leaving : Env → (fuel : ℕ) → Type 0
Leaving E fuel = (s : State) → Drains E (counters E s) s.self.writer_version fuel

-- No thread is waited for.
abbrev pub Rested : State → Type 0
Rested s = (th : ℕ) → (s.self.q_threads th).is_wait ≡ false

-- A wait ends with no thread waited for, if it is not skipped.
pub synchronize-Later :
    {E : Env}
    → Company E
    → (fuel : ℕ) → Leaving E fuel
    → (s : State) → IsIdle s
    → Returns
        (λ _ s'. Later s s' × (Rested s' ⊎ (s'.self.q_threads ≡ s.self.q_threads)))
        (rlu_synchronize E fuel s)
unfolding rlu_synchronize
synchronize-Later {E} c fuel leaves s idle = elim (Bool-cases s.self.is_no_quiescence) [
  | inl skip ↦
      let runs : rlu_synchronize E fuel s ≡ ok tt s = rw skip refl in
      rw runs (returns (Later-refl s, inr refl))
  | inr running ↦
      Ends.mono
        (synchronize-Ends E s fuel running (IsIdle-others c s idle) {P = λ th t. Unit {0}}
          (record { respects = c.respects; present = c.present; passed = λ t th p. tt })
          (λ th t p. tt) (inr (leaves s)))
        λ x s' w. (w.later, inl w.rested)
]

-- What a synchronization with write-back leaves of the thread's data.
pub record Settled (s s' : State) : Type 0 where
  pub head : s'.self.ws_head_counter ≡ s.self.ws_wb_counter
  pub wb : s'.self.ws_wb_counter ≡ s.self.ws_tail_counter
  pub tail : s'.self.ws_tail_counter ≡ s.self.ws_tail_counter
  pub cur_id : s'.self.ws_cur_id ≡ s.self.ws_cur_id
  pub max_write_sets : s'.self.max_write_sets ≡ s.self.max_write_sets
  pub is_sync : s'.self.is_sync ≡ 0
  pub writer_version : s'.self.writer_version ≡ max_version

pub process_free-none :
    (s : State)
    → s.self.free_nodes ≡ []
    → rlu_process_free s ≡ ok tt (record s { self = record (s.self) { free_nodes = [] } })
unfolding rlu_process_free free_all
process_free-none s e = rw e refl

-- The thread's data after the end of a synchronization.
abbrev pub ended : Thread → Thread
ended t = record t { writer_version = max_version; is_sync = 0; free_nodes = [] }

end_sync-ended :
    {E : Env}
    → Respects E
    → (m n : ℕ) (s : State) → (m == n) ≡ true
    → s.self.free_nodes ≡ []
    → Returns (λ _ s'. s'.self ≡ ended s.self) (end_sync E m n s)
unfolding end_sync tick
end_sync-ended {E} r m n s same no_free =
    let s1 : State = record s { self = record (s.self) { writer_version = max_version } } in
    let s2 : State = E.others s1 in
    let s3 : State = record s2 {
      commit_version = s2.commit_version + 1;
      self = record (s2.self) { is_sync = 0 };
    } in
    let none_left : s3.self.free_nodes ≡ [] = ap (λ t. t.free_nodes) (r.self s1) ∙ no_free in
    rw (same, process_free-none s3 none_left)
      (returns
        (ap {A = Thread} {B = Thread} (λ t. record t { is_sync = 0; free_nodes = [] }) (r.self s1)))

module _ {E : Env} (c : Company E) (fuel : ℕ) (leaves : Leaving E fuel) where
  -- From the end of the wait on.
  do_sync-Settled :
      (s : State)
      → Counted s.self
      → AllLaid s.self.ws_wb_counter (s.self.ws_tail_counter - s.self.ws_wb_counter) s
      → IsIdle s
      → s.self.free_nodes ≡ []
      → Returns (λ _ s'. Settled s s') (do_sync_and_writeback E fuel s)
  unfolding do_sync_and_writeback tick
  do_sync-Settled s counted laid idle no_free =
      let s2 : State = record s {
        self = record (count_sync s.self) { writer_version = s.writer_version + 1 };
      } in
      let s3 : State = E.others s2 in
      let s4 : State = record s3 { writer_version = s3.writer_version + 1 } in
      let l3 : Later s2 s3 = Respects-Later c.respects s2 in
      let l4 : Later s2 s4 = record { self = l3.self; locks = l3.locks } in
      Ends.bind (synchronize-Later c fuel leaves s4 (IsIdle-others c s2 idle)) λ x s5 (l45, _).
        let l : Later s2 s5 = Later-trans l4 l45 in
        let head : s5.self.ws_head_counter ≡ s.self.ws_head_counter =
          ap (λ t. t.ws_head_counter) l.self.same in
        let wb : s5.self.ws_wb_counter ≡ s.self.ws_wb_counter =
          ap (λ t. t.ws_wb_counter) l.self.same in
        let tail : s5.self.ws_tail_counter ≡ s.self.ws_tail_counter =
          ap (λ t. t.ws_tail_counter) l.self.same in
        Ends.bind
          (rlu_writeback_write_sets_and_unlock_lem s5
            (record {
              head = omega (arith, head, wb, counted.head);
              wb = omega (arith, wb, tail, counted.wb);
              few = omega (arith, head, tail, counted.few);
            })
            (λ i le lt.
              IsLaid-Later (ws_index i) l
                (laid i (omega (arith, le, wb)) (omega (arith, lt, wb, tail)))))
          λ n s6 (count, f).
            let self : s6.self ≡ record (s5.self) {
              obj_write_set = f.ws;
              ws_head_counter = s5.self.ws_wb_counter;
              ws_wb_counter = s5.self.ws_tail_counter;
            } =
              ap (λ t. t.self) f.state in
            let no_free6 : s6.self.free_nodes ≡ [] =
              ap (λ t. t.free_nodes) self ∙ ap (λ t. t.free_nodes) l.self.same ∙ no_free in
            Ends.mono
              (end_sync-ended c.respects (s.self.ws_tail_counter - s.self.ws_wb_counter) n s6
                (ground (arith, count, wb, tail)) no_free6)
              λ y s7 e. record {
                head = ap (λ t. t.ws_head_counter) e ∙ ap (λ t. t.ws_head_counter) self ∙ wb;
                wb = ap (λ t. t.ws_wb_counter) e ∙ ap (λ t. t.ws_wb_counter) self ∙ tail;
                tail = ap (λ t. t.ws_tail_counter) e ∙ ap (λ t. t.ws_tail_counter) self ∙ tail;
                cur_id =
                    ap (λ t. t.ws_cur_id) e
                    ∙ ap (λ t. t.ws_cur_id) self
                    ∙ ap (λ t. t.ws_cur_id) l.self.same;
                max_write_sets =
                    ap (λ t. t.max_write_sets) e
                    ∙ ap (λ t. t.max_write_sets) self
                    ∙ ap (λ t. t.max_write_sets) l.self.same;
                is_sync = ap (λ t. t.is_sync) e;
                writer_version = ap (λ t. t.writer_version) e;
              }

  pub sync-Settled :
      (s : State)
      → is_odd s.self.run_counter ≡ false
      → (s.self.ws_tail_counter == s.self.ws_head_counter) ≡ false
      → Counted s.self
      → AllLaid s.self.ws_wb_counter (s.self.ws_tail_counter - s.self.ws_wb_counter) s
      → IsIdle s
      → s.self.free_nodes ≡ []
      → Returns (λ _ s'. Settled s s') (rlu_sync_and_writeback E fuel s)
  unfolding rlu_sync_and_writeback
  sync-Settled s even some_left counted laid idle no_free =
      rw (even, some_left) (do_sync-Settled s counted laid idle no_free)
