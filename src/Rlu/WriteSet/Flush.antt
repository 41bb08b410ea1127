-- ===== src/Rlu/WriteSet/Flush.antt =====
-- `rlu_writeback_write_sets_and_unlock`: the older write sets are reset, the newer ones written back.
use rcx_hashtables.Base.{
  ℕ, zero, suc, ◌+◌, ◌-◌, ◌≤◌, ◌<◌, ◌≡◌, refl, false, arith, some, Bool-cases, inl, inr, ◌==◌,
  eq_of_==, ==-refl, ap, ◌∙◌, [],
}
use rcx_hashtables.Rlu.{locked, Object, ObjList, Thread, State, ws_index, write}
use rcx_hashtables.Rlu.Ends
use rcx_hashtables.Rlu.Ends.{returns, Returns}
use rcx_hashtables.Rlu.WriterLocks.{rlu_reset_writer_locks}
use rcx_hashtables.Rlu.WriteSet.{
  rlu_reset_write_set, reset_sets, rlu_writeback_write_sets_and_unlock,
}
use rcx_hashtables.Rlu.WriteSet.Layout.{Heap, Row}
use rcx_hashtables.Rlu.WriteSet.Writeback.{write-write}
use rcx_hashtables.Rlu.WriteSet.AllSets.{AllLaid, Written, ws_index-differs, writeback_sets-Wrote}

abbrev cleared : ObjList → ObjList
cleared w = record w { num_of_objs = 0; p_cur = 0; writer_locks = [] }

abbrev with_sets : Thread → (ℕ → ObjList) → Thread
with_sets t ws = record t { obj_write_set = ws }

reset_write_set-cleared :
    (c : ℕ) (t : Thread)
    → rlu_reset_write_set c t
      ≡ with_sets t (write t.obj_write_set (ws_index c) (cleared (t.obj_write_set (ws_index c))))
unfolding rlu_reset_write_set rlu_reset_writer_locks
reset_write_set-cleared c t =
    let w : ObjList = record (t.obj_write_set (ws_index c)) { num_of_objs = 0; p_cur = 0 } in
    rw (==-refl (ws_index c)) (
      ap (with_sets t)
        (write-write t.obj_write_set (ws_index c) w (cleared (t.obj_write_set (ws_index c)))))

-- The write set is empty and holds no writer lock.
pub record IsEmpty (w : ObjList) : Type 0 where
  pub num_of_objs : w.num_of_objs ≡ 0
  pub p_cur : w.p_cur ≡ 0
  pub writer_locks : w.writer_locks ≡ []

-- The sets of `count` counters from `c` on are empty, the others as before.
record Resets (c count : ℕ) (t t' : Thread) : Type 0 where
  ws : ℕ → ObjList
  same : t' ≡ with_sets t ws
  empty : (i : ℕ) → c ≤ i → i < c + count → IsEmpty (ws (ws_index i))
  other :
      (w : ℕ) → ((i : ℕ) → c ≤ i → i < c + count → w ≡ ws_index i → ⊥) → ws w ≡ t.obj_write_set w

reset_sets-Resets :
    (count c : ℕ) (t : Thread) → count ≤ 200 → Resets c count t (reset_sets count c t)
unfolding reset_sets
reset_sets-Resets zero c t few = record {
  ws = t.obj_write_set;
  same = refl;
  empty = λ i le lt. absurd (omega (arith, le, lt));
  other = λ w f. refl;
}
reset_sets-Resets (suc count) c t few =
    let t1 : Thread =
      with_sets t (write t.obj_write_set (ws_index c) (cleared (t.obj_write_set (ws_index c)))) in
    let rest : Resets (suc c) count t1 (reset_sets count (suc c) t1) =
      reset_sets-Resets count (suc c) t1 (omega (arith, few)) in
    let kept : rest.ws (ws_index c) ≡ t1.obj_write_set (ws_index c) =
      rest.other (ws_index c) (λ j le lt e.
        ws_index-differs j c (omega (arith, le)) (omega (arith, lt, few)) (ground (arith, e))) in
    rw (reset_write_set-cleared c t) (record {
      ws = rest.ws;
      same = rest.same;
      empty = λ i le lt. elim (Bool-cases (i == c)) [
        | inl same ↦
            rw (eq_of_== i c same, kept, ==-refl (ws_index c))
              (record { num_of_objs = refl; p_cur = refl; writer_locks = refl })
        | inr differs ↦ rest.empty i (ground (arith, le, differs)) (omega (arith, lt))
      ];
      other = λ w f.
          let ne : (w == ws_index c) ≡ false = elim (Bool-cases (w == ws_index c)) [
            | inl same ↦ absurd (f c (omega arith) (omega arith) (eq_of_== w (ws_index c) same))
            | inr differs ↦ differs
          ] in
          rest.other w (λ i le lt e. f i (omega (arith, le)) (omega (arith, lt)) e) ∙ rw ne refl;
    })

-- The counters of the write sets: those from head on are in use, those from wb on are not written back.
pub record Counted (t : Thread) : Type 0 where
  pub head : t.ws_head_counter ≤ t.ws_wb_counter
  pub wb : t.ws_wb_counter ≤ t.ws_tail_counter
  pub few : t.ws_tail_counter - t.ws_head_counter ≤ 200

pub record Flushes (s s' : State) : Type 0 where
  pub g : Heap
  pub ws : ℕ → ObjList
  pub state : s' ≡ record s {
    heap = g;
    self = record (s.self) {
      obj_write_set = ws;
      ws_head_counter = s.self.ws_wb_counter;
      ws_wb_counter = s.self.ws_tail_counter;
    };
  }
  pub changes :
      (i : ℕ)
      → s.self.ws_wb_counter ≤ i
      → i < s.self.ws_tail_counter
      → Row
          (s.self.obj_write_set (ws_index i)).buffer
          (Written g)
          (s.self.obj_write_set (ws_index i)).num_of_objs
          0
          (s.self.obj_write_set (ws_index i)).p_cur
  pub kept :
      (i : ℕ)
      → s.self.ws_wb_counter ≤ i
      → i < s.self.ws_tail_counter
      → ws (ws_index i) ≡ s.self.obj_write_set (ws_index i)
  pub empty :
      (i : ℕ) → s.self.ws_head_counter ≤ i → i < s.self.ws_wb_counter → IsEmpty (ws (ws_index i))
  pub other :
      (w : ℕ)
      → ((i : ℕ) → s.self.ws_head_counter ≤ i → i < s.self.ws_wb_counter → w ≡ ws_index i → ⊥)
      → ws w ≡ s.self.obj_write_set w
  pub only :
      (a : ℕ)
      → ((o : Object) (w at : ℕ)
          → s.heap a ≡ some o
          → o.p_obj_copy ≡ locked s.self.uniq_id w at
          → ⊥)
      → g a ≡ s.heap a

-- The state when the sets from `head` to `wb` have been reset.
abbrev reset_to : State → (ℕ → ObjList) → State
reset_to s ws = record s {
  self = record (s.self) { obj_write_set = ws; ws_head_counter = s.self.ws_wb_counter };
}

module _ (s : State) (counted : Counted s.self)
    (laid : AllLaid s.self.ws_wb_counter (s.self.ws_tail_counter - s.self.ws_wb_counter) s) where
  kept-Resets :
      {t' : Thread} (i : ℕ)
      → (r : Resets s.self.ws_head_counter
          (s.self.ws_wb_counter - s.self.ws_head_counter)
          s.self
          t')
      → s.self.ws_wb_counter ≤ i
      → i < s.self.ws_tail_counter
      → r.ws (ws_index i) ≡ s.self.obj_write_set (ws_index i)
  kept-Resets i r le lt = r.other (ws_index i) λ j le' lt' e.
      ws_index-differs i j (omega (arith, le, lt', counted.head))
        (omega (arith, lt, le', counted.few, counted.head, counted.wb)) e

  -- The write-back of all committed write sets returns how many they are, and no assertion of it
  -- fails, if they are laid out and locked and the sets in use are at most 200. Every object of these
  -- sets has the content of its copy and is unlocked, no object that the thread has not locked has
  -- changed, the sets that were written back before are empty, and the counters have moved on.
  pub rlu_writeback_write_sets_and_unlock_lem :
      Returns
        (λ n s'. (n ≡ s.self.ws_tail_counter - s.self.ws_wb_counter) × Flushes s s')
        (rlu_writeback_write_sets_and_unlock s)
  unfolding rlu_writeback_write_sets_and_unlock
  rlu_writeback_write_sets_and_unlock_lem =
      let r : Resets s.self.ws_head_counter (s.self.ws_wb_counter - s.self.ws_head_counter) s.self (
          reset_sets (s.self.ws_wb_counter - s.self.ws_head_counter) s.self.ws_head_counter
            s.self) =
        reset_sets-Resets (s.self.ws_wb_counter - s.self.ws_head_counter) s.self.ws_head_counter
          s.self (omega (arith, counted.few, counted.wb)) in
      rw (r.same) (
        Ends.bind
          (writeback_sets-Wrote (s.self.ws_tail_counter - s.self.ws_wb_counter) s.self.ws_wb_counter
            (reset_to s r.ws) (omega (arith, counted.few, counted.head))
            (λ i le lt. rw (kept-Resets i r le (omega (arith, lt, counted.wb))) (laid i le lt)))
          λ x s2 w. rw (w.state) (
            returns (
              refl,
              record {
                g = w.g;
                ws = r.ws;
                state = refl;
                changes = λ i le lt.
                    let row = w.changes i le (omega (arith, lt, counted.wb)) in
                    rw (kept-Resets i r le lt) at row;
                kept = λ i le lt. kept-Resets i r le lt;
                empty = λ i le lt. r.empty i le (omega (arith, lt, counted.head));
                other = λ w f. r.other w (λ i le lt e. f i le (omega (arith, lt, counted.head)) e);
                only = w.only;
              },
            )))
