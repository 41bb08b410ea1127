-- ===== src/Rlu/Commit.antt =====
-- rlu.c: the commit of a write set, and the counters of the write sets.
use rcx_hashtables.Base.{
  ℕ, ◌+◌, ◌-◌, ◌*◌, ◌≤◌, ◌<◌, ◌≡◌, refl, Bool, true, false, arith, Bool-cases, inl, inr, ◌==◌,
  eq_of_==, ap, [], ltb, leb, not,
}
use rcx_hashtables.Rlu.{Thread, State, Env, ws_index, is_odd}
use rcx_hashtables.Rlu.Ends
use rcx_hashtables.Rlu.Ends.{returns, Returns}
use rcx_hashtables.Rlu.Sync.{rlu_sync_and_writeback, sync_if_full, rlu_commit_write_set}
use rcx_hashtables.Rlu.WriteSet.AllSets.{AllLaid, ws_index-differs}
use rcx_hashtables.Rlu.Quiescence.Init.{IsIdle}
use rcx_hashtables.Rlu.Settle.{Company, Leaving, Settled, sync-Settled}

-- The counters between two commits.
pub record Counters (t : Thread) : Type 0 where
  pub head : t.ws_head_counter ≤ t.ws_wb_counter
  pub wb : t.ws_wb_counter ≤ t.ws_tail_counter
  pub flushed : t.ws_wb_counter ≤ t.ws_head_counter + t.max_write_sets
  pub unfilled : t.ws_tail_counter < t.ws_wb_counter + t.max_write_sets
  pub max : t.max_write_sets * 2 ≤ 200
  pub cur_id : t.ws_cur_id ≡ ws_index t.ws_tail_counter

-- The state with the next write set.
abbrev pub next_set : State → State
next_set s = record s {
  self = record (s.self) {
    stats = record (s.self.stats) {
      n_writers = s.self.stats.n_writers + 1;
      n_writer_writeback = s.self.stats.n_writer_writeback + 1;
    };
    ws_tail_counter = s.self.ws_tail_counter + 1;
    ws_cur_id = ws_index (s.self.ws_tail_counter + 1);
  };
}

abbrev pub in_order : Thread → Bool
in_order t = ltb t.ws_head_counter t.ws_tail_counter

abbrev pub in_room : Thread → Bool
in_room t = not (ws_index t.ws_tail_counter == ws_index t.ws_head_counter)

module _ {E : Env} (c : Company E) (fuel : ℕ) (leaves : Leaving E fuel) (s : State)
    (even : is_odd s.self.run_counter ≡ false) (counted : Counters s.self)
    (laid : AllLaid s.self.ws_wb_counter (s.self.ws_tail_counter + 1 - s.self.ws_wb_counter) s)
    (idle : IsIdle s) (no_free : s.self.free_nodes ≡ []) where
  -- A commit that leaves the write sets for a later one.
  abbrev Good : State → Type 0
  Good s' = Counters s'.self × (in_order s'.self ≡ true) × (in_room s'.self ≡ true)

  Good-next :
      (ws_index (s.self.ws_tail_counter + 1) == ws_index s.self.ws_head_counter) ≡ false
      → leb s.self.max_write_sets (s.self.ws_tail_counter + 1 - s.self.ws_wb_counter) ≡ false
      → Good (next_set s)
  Good-next room few = (
    record {
      head = counted.head;
      wb = omega (arith, counted.wb);
      flushed = counted.flushed;
      unfilled = ground (arith, few, counted.wb);
      max = counted.max;
      cur_id = refl;
    },
    ground (arith, counted.head, counted.wb),
    ap not room,
  )

  Good-Settled : (s' : State) → Settled (next_set s) s' → Good s'
  Good-Settled s' e = (
    record {
      head = omega (arith, e.head, e.wb, counted.wb);
      wb = omega (arith, e.wb, e.tail);
      flushed = omega (arith, e.wb, e.head, e.max_write_sets, counted.unfilled);
      unfilled = omega (arith, e.tail, e.wb, e.max_write_sets, counted.unfilled, counted.wb);
      max = omega (arith, e.max_write_sets, counted.max);
      cur_id = ground (arith, e.cur_id, e.tail);
    },
    ground (arith, e.head, e.tail, counted.wb),
    elim (Bool-cases (ws_index s'.self.ws_tail_counter == ws_index s'.self.ws_head_counter)) [
      | inl same ↦ absurd (
          ws_index-differs s'.self.ws_tail_counter s'.self.ws_head_counter
            (omega (arith, e.head, e.tail, counted.wb))
            (omega (arith, e.head, e.tail, counted.unfilled, counted.max))
            (eq_of_== (ws_index s'.self.ws_tail_counter) (ws_index s'.self.ws_head_counter) same))
      | inr differs ↦ ap not differs
    ],
  )

  next-Good : Returns (λ _ s'. Good s') (rlu_sync_and_writeback E fuel (next_set s))
  next-Good =
      Ends.mono
        (sync-Settled c fuel leaves (next_set s) even (ground (arith, counted.head, counted.wb))
          (record {
            head = counted.head;
            wb = omega (arith, counted.wb);
            few = omega (arith, counted.flushed, counted.unfilled, counted.max);
          })
          laid idle no_free)
        λ x s' e. Good-Settled s' e

  sync_if_full-Good : Returns (λ _ s'. Good s') (sync_if_full E fuel (next_set s))
  unfolding sync_if_full
  sync_if_full-Good =
      elim (Bool-cases (ws_index (s.self.ws_tail_counter + 1) == ws_index s.self.ws_head_counter)) [
        | inl full ↦ rw full next-Good
        | inr room ↦
            rw room
              (elim (Bool-cases
                (leb s.self.max_write_sets (s.self.ws_tail_counter + 1 - s.self.ws_wb_counter))) [
                  | inl many ↦ rw many next-Good
                  | inr few ↦ rw few (returns (Good-next room few))
                ])
      ]

  -- A commit of a write set returns, if every wait for other threads ends. It keeps the order of the
  -- counters of the write sets and their bounds, and no assertion of it or of the synchronization
  -- that it may start fails: there always is a free write set for the next section. The thread is outside a section, the write sets that are not written back are laid out
  -- and locked, no object waits to be freed, and the others write of this thread's data only
  -- `is_sync`, and no object that it has locked.
  pub rlu_commit_write_set_lem : Returns (λ _ s'. Counters s'.self) (rlu_commit_write_set E fuel s)
  unfolding rlu_commit_write_set
  rlu_commit_write_set_lem =
      Ends.bind sync_if_full-Good λ x s' (good, order, room). rw (order, room) (returns good)
