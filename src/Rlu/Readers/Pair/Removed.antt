-- ===== src/Rlu/Readers/Pair/Removed.antt =====
-- The write set of a removal: the copies of two neighbours, the first of which leads past the second.
use rcx_hashtables.Base.{ℕ, ◌≡◌, refl, true, false, arith, some, none, ◌==◌, ◌∙◌, [], ◌∷◌}
use rcx_hashtables.Rlu.{obj, copy, unlocked, locked, Object, State, ok, is_odd, write}
use rcx_hashtables.Rlu.Section.{free_later}
use rcx_hashtables.Rlu.WriteSet.Layout.{Heap, Row}
use rcx_hashtables.Rlu.WriteSet.Writeback.{IsLaid}
use rcx_hashtables.Rlu.WriteSet.AllSets.{Written}
use rcx_hashtables.Rlu.WriteSet.Flush.{IsEmpty}
use rcx_hashtables.Rlu.Objects.{rlu_assign_pointer, actual_or_null}
use rcx_hashtables.Rlu.Readers.Insert.{force_actual-copy, store_item-copy, force_actual-unlocked}
use rcx_hashtables.Rlu.Readers.Lock.{next_at, locking}
use rcx_hashtables.Rlu.Readers.Pair.{
  both, k, k', relinked, pair_set, second-there, there-first, pair-IsLaid, pair-Row, lock-first,
  lock-second,
}
use rcx_hashtables.Rlu.Lists.{node_size}
use rcx_hashtables.Rlu.Readers.Free.{IsFree}
use rcx_hashtables.Rlu.Readers.Cells.Remove.{Removes}

module _ (s : State) (a b q : ℕ) (o o' o'' : Object) (apart : (a == b) ≡ false)
    (empty : IsEmpty (s.self.obj_write_set s.self.ws_cur_id)) (there : s.heap a ≡ some o)
    (there' : s.heap b ≡ some o') (behind : s.heap q ≡ some o'') (free : o.p_obj_copy ≡ unlocked)
    (free' : o'.p_obj_copy ≡ unlocked) (free'' : o''.p_obj_copy ≡ unlocked)
    (apart' : (q == a) ≡ false) (apart'' : (q == b) ≡ false)
    (odd : is_odd s.self.run_counter ≡ true) (no_free : s.self.free_nodes ≡ []) where
  abbrev pub pair : State
  pair = both s a b o o' apart empty

  -- The copy of the first object leads to `q`.
  abbrev pub passed_by : State
  passed_by = record pair { self = relinked s a b o o' apart empty (obj q) }

  pub assign-passed_by :
      rlu_assign_pointer (copy s.self.uniq_id s.self.ws_cur_id (next_at s)) (obj q) pair
      ≡ ok tt passed_by
  unfolding rlu_assign_pointer actual_or_null
  assign-passed_by =
      let kept : pair.heap q ≡ some o'' = rw (apart'', apart') behind in
      rw
        (
          force_actual-unlocked pair q o'' kept free'',
          store_item-copy pair s.self.ws_cur_id (next_at s) (k s a b o o' apart empty)
              (there-first s a b o o' apart empty) (λ i. record i { p_next = obj q }),
        )
        refl

  -- The second object is to be freed.
  abbrev pub removed : State
  removed = record passed_by { self = record (passed_by.self) { free_nodes = obj b ∷ [] } }

  pub free-removed :
      free_later
        (copy s.self.uniq_id s.self.ws_cur_id (next_at (locking s a node_size o)))
        passed_by
      ≡ ok tt removed
  unfolding free_later
  free-removed =
      rw
        (
          odd,
          force_actual-copy passed_by s.self.ws_cur_id (next_at (locking s a node_size o))
              (k' s a b o o' apart empty) (second-there s a b o o' apart empty (obj q)) refl,
          no_free,
        )
        refl

  pub removed-IsLaid : IsLaid s.self.ws_cur_id removed
  removed-IsLaid =
      pair-IsLaid s a b o o' apart empty (obj q) pair.heap (lock-first s a b o o' apart empty)
        (lock-second s a b o o' apart empty)

  module _ (g : Heap) {end : ℕ}
      (row : Row
        (pair_set s a b o o' apart empty (obj q)).buffer
        (Written g)
        (pair_set s a b o o' apart empty (obj q)).num_of_objs
        0
        end) where
    -- The second object is unlocked after the write-back.
    pub second-IsFree : IsFree g (some b)
    second-IsFree =
        let (x, y, (to, e), (to', e')) = pair-Row s a b o o' apart empty (obj q) row in
        (record { p_obj_copy = unlocked; item = o'.item }, ground (arith, to', e'), refl)

    pub removed-Removes :
        (next : o'.item.p_next ≡ obj q)
        → ((x : ℕ)
            → ((y : Object) (w at : ℕ)
                → pair.heap x ≡ some y
                → y.p_obj_copy ≡ locked s.self.uniq_id w at
                → ⊥)
            → g x ≡ pair.heap x)
        → Removes s.heap (write g b none) a b
    removed-Removes next only =
        let (x, y, (to, e), (to', e')) = pair-Row s a b o o' apart empty (obj q) row in
        record {
          before =
              λ z z' f u f'. rw apart (ground (arith, e, to, f, there, free, u, f', there', next));
          others = λ z z' f u ne ne'.
              let kept : pair.heap z ≡ some z' = rw (ne', ne) f in
              let still : g z ≡ some z' =
                only z (λ y w at e f. ground (arith, e, f, kept, u)) ∙ kept in
              rw ne' still;
        }
