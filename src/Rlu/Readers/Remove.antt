-- ===== src/Rlu/Readers/Remove.antt =====
-- rlu_list_remove and rlu_list_try_remove among readers.
use rcx_hashtables.Base.{
  ℕ, suc, ◌≤◌, ◌<◌, ◌≡◌, refl, true, false, arith, some, none, Bool-cases, inl, inr, ◌==◌, eq_of_==,
  ◌∙◌, [], ◌∷◌, List, contains, erase, erase-absent, Bool, ap, sym, Option,
}
use mathlib.Core.Path.{subst}
use rcx_hashtables.Machine.{list_val_max}
use rcx_hashtables.Rlu.{
  Thread, obj, unlocked, Object, State, Env, Cmd, pure, ◌>>=◌, is_odd, ws_index,
}
use rcx_hashtables.Rlu.Ends
use rcx_hashtables.Rlu.Ends.{returns, Returns}
use rcx_hashtables.Rlu.WriterLocks.{length}
use rcx_hashtables.Rlu.WriteSet.Writeback.{IsLaid}
use rcx_hashtables.Rlu.WriteSet.Layout.{Heap, Row}
use rcx_hashtables.Rlu.WriteSet.AllSets.{Written}
use rcx_hashtables.Rlu.WriteSet.Flush.{IsEmpty}
use rcx_hashtables.Rlu.Settle.{Leaving}
use rcx_hashtables.Rlu.Lists.{
  lock_both, remove_locked, remove_round, rlu_list_remove, rlu_list_try_remove,
}
use rcx_hashtables.Rlu.Readers.{drift, OnlyRead, bind}
use rcx_hashtables.Rlu.Readers.Cells.{Cells, HasSpot, Cells-HasSpot, Spot-tells}
use rcx_hashtables.Rlu.Readers.Cells.Insert.{differs-at, flip, Spot-Before, Spot-apart}
use rcx_hashtables.Rlu.Readers.Walk.{find-Gives}
use rcx_hashtables.Rlu.Readers.Section.{opened, reader_lock-opened}
use rcx_hashtables.Rlu.Readers.Pair.{both, relinked, pair_set, locks-pair, other-pair}
use rcx_hashtables.Rlu.Readers.Ready.{
  Ready, Ready-Outside, Calm, Calm-IsEmpty, Calm-opened, Synced-Ready, odd_next, copies,
  lock_both-Gives, unlock-Ready,
}
use rcx_hashtables.Rlu.Readers.Pair.Removed.{
  removed, assign-passed_by, free-removed, removed-IsLaid, second-IsFree, removed-Removes,
}
use rcx_hashtables.Rlu.Readers.Finish.{ended_section, AtOnce, reader_unlock-Synced}
use rcx_hashtables.Rlu.Objects.Lock.{write_self}
use rcx_hashtables.Rlu.Readers.Walk.{deref_next-Gives}
use rcx_hashtables.Rlu.Lists.{deref_next}
use rcx_hashtables.Rlu.Commit.{next_set}
use rcx_hashtables.Rlu.Readers.Synced.{AllWritten}
use rcx_hashtables.Rlu.Readers.Cells.Remove.{Removes, Spot-Next, Spot-remove}

module _ {E : Env} (r : OnlyRead E) (fuel : ℕ) (leaves : Leaving E fuel) (s : State) (a b q : ℕ)
    (o o' o'' : Object) (apart : (a == b) ≡ false)
    (empty : IsEmpty (s.self.obj_write_set s.self.ws_cur_id)) (there : s.heap a ≡ some o)
    (there' : s.heap b ≡ some o') (behind : s.heap q ≡ some o'') (free : o.p_obj_copy ≡ unlocked)
    (free' : o'.p_obj_copy ≡ unlocked) (free'' : o''.p_obj_copy ≡ unlocked)
    (apart' : (q == a) ≡ false) (apart'' : (q == b) ≡ false)
    (odd : is_odd s.self.run_counter ≡ true) (next : o'.item.p_next ≡ obj q) (calm : Calm s) where
  -- The row of the current set, which has the index of the last counter.
  removed-Row :
      (g : Heap)
      → AllWritten
          (next_set (
            ended_section (
              removed s a b q o o' o'' apart empty there there' behind free free' free'' apart'
                apart'' odd calm.no_free)))
          g
      → Row
          (pair_set s a b o o' apart empty (obj q)).buffer
          (Written g)
          (pair_set s a b o o' apart empty (obj q)).num_of_objs
          0
          (pair_set s a b o o' apart empty (obj q)).p_cur
  removed-Row g w =
      subst
        (λ i.
          Row ((relinked s a b o o' apart empty (obj q)).obj_write_set i).buffer (Written g)
            ((relinked s a b o o' apart empty (obj q)).obj_write_set i).num_of_objs 0
            ((relinked s a b o o' apart empty (obj q)).obj_write_set i).p_cur)
        (sym calm.sets.cur_id)
        (w s.self.ws_tail_counter (omega (arith, calm.sets.wb)) (omega arith))

  remove-Removes :
      (failed : Cmd ℕ)
      → Returns
          (λ (x : ℕ) s'. (x ≡ 0) × Removes s.heap s'.heap a b × (s'.heap b ≡ none) × Ready s')
          (remove_locked E fuel (obj q) failed (some (copies s a o)) (both s a b o o' apart empty))
  unfolding remove_locked
  remove-Removes failed =
      let s3 : State =
        removed s a b q o o' o'' apart empty there there' behind free free' free'' apart' apart''
          odd calm.no_free in
      let cur : s.self.ws_cur_id ≡ ws_index s.self.ws_tail_counter = calm.sets.cur_id in
      let sets3 : AtOnce s3.self = record {
        one = calm.sets.one;
        wb = calm.sets.wb;
        head = calm.sets.head;
        flushed = calm.sets.flushed;
        cur_id = cur;
      } in
      rw
        (
          assign-passed_by s a b q o o' o'' apart empty there there' behind free free' free'' apart'
              apart'' odd calm.no_free,
          free-removed s a b q o o' o'' apart empty there there' behind free free' free'' apart'
              apart'' odd calm.no_free,
        )
        (Ends.bind
          (reader_unlock-Synced r fuel leaves (some b) s3 odd refl sets3
            (subst (λ w. IsLaid w s3) cur
              (removed-IsLaid s a b q o o' o'' apart empty there there' behind free free' free''
                apart' apart'' odd calm.no_free))
            (subst (λ w. (s3.self.obj_write_set w).writer_locks ≡ []) cur
              (locks-pair s a b o o' apart empty (obj q)))
            (λ th le. calm.rested th) refl
            (λ g w.
              second-IsFree s a b q o o' o'' apart empty there there' behind free free' free''
                apart' apart'' odd calm.no_free g (removed-Row g w)))
          λ x s' y. returns (
            refl,
            subst (λ h. Removes s.heap h a b) (sym y.heap)
                (removed-Removes s a b q o o' o'' apart empty there there' behind free free' free''
                  apart' apart'' odd calm.no_free y.g (removed-Row y.g y.changes) next y.only),
            ap (λ h. h b) y.heap ∙ write_self y.g b none,
            Synced-Ready s3 s' odd sets3 calm.versions calm.rested
                (λ w ne out.
                  subst IsEmpty (sym (other-pair s a b o o' apart empty (obj q) w ne))
                    (calm.unused w out))
                y,
          ))

-- The object with the value is freed.
pub record IsFreed (s : State) (val : ℕ) (s' : State) : Type 0 where
  pub b : ℕ
  pub o : Object
  pub there : s.heap b ≡ some o
  pub held : o.item.val ≡ val
  pub gone : s'.heap b ≡ none

-- What happens to the objects if the value is in the list, or not.
abbrev pub Taken : Bool → State → ℕ → State → Type 0
Taken true s val s' = IsFreed s val s'
Taken false s val s' = s'.heap ≡ s.heap

abbrev pub LacksValue : (s : State) (p_head val : ℕ) → List ℕ → ℕ → State → Type 0
LacksValue s p_head val vs x s' =
    (x ≡ 0) × Cells s'.heap p_head (erase val vs) × Taken (contains vs val) s val s' × Ready s'

module _ {E : Env} (r : OnlyRead E) (fuel : ℕ) (leaves : Leaving E fuel) (s : State)
    (ready : Ready s) (p_head val v : ℕ) (vs : List ℕ) (cells : Cells s.heap p_head (v ∷ vs))
    (above : v < val) (below : val < list_val_max) (enough : length vs ≤ fuel) where
  remove-LacksValue :
      (failed : Cmd ℕ) (t : ℕ → Option Thread) (n : ℕ) (h : HasSpot s.heap val p_head (v ∷ vs))
      → (h.bv == val) ≡ true
      → Returns (LacksValue s p_head val (v ∷ vs)) (
          (deref_next E (obj h.b) >>= λ n.
          lock_both E fuel (obj h.a) (obj h.b) >>= remove_locked E fuel n failed)
            (drift t n (opened s)))
  remove-LacksValue failed t n h same =
      let s1 : State = drift t n (opened s) in
      let f = Spot-Before h.spot in
      let l = Spot-Next h.spot (ground (arith, same, below)) in
      let apart = Spot-apart h.spot in
      let behind-first : (l.q == h.a) ≡ false = flip l.q h.a (
        differs-at s.heap h.a l.q f.cell.o l.behind.o f.cell.there l.behind.there
          (omega (arith, f.cell.val, l.behind.val, f.below, l.up, eq_of_== h.bv val same))) in
      let behind-second : (l.q == h.b) ≡ false = flip l.q h.b (
        differs-at s.heap h.b l.q l.cell.o l.behind.o l.cell.there l.behind.there
          (omega (arith, l.cell.val, l.behind.val, l.up))) in
      bind _ (deref_next-Gives r s1 l.cell refl) λ t' n'.
        bind _
          (lock_both-Gives r fuel (drift t' n' s1) h.a h.b f.cell.o l.cell.o apart
            (Calm-IsEmpty s ready.calm) f.cell.there l.cell.there f.cell.free l.cell.free refl)
          λ t2 n2.
            Ends.mono
              (remove-Removes r fuel leaves (drift t2 n2 s1) h.a h.b l.q f.cell.o l.cell.o
                l.behind.o apart (Calm-IsEmpty s ready.calm) f.cell.there l.cell.there
                l.behind.there f.cell.free l.cell.free l.behind.free behind-first behind-second
                (odd_next s.self.run_counter ready.even) l.cell.next
                (Calm-opened s t2 n2 ready.calm) failed)
              λ x s' (e, i, gone, left).
                let present : contains (v ∷ vs) val ≡ true = sym (Spot-tells h.spot) ∙ same in
                (
                  e,
                  Spot-remove i below h.spot same,
                  subst (λ c. Taken c s val s') (sym present)
                      (record {
                        b = h.b;
                        o = l.cell.o;
                        there = l.cell.there;
                        held = l.cell.val ∙ eq_of_== h.bv val same;
                        gone = gone;
                      }),
                  left,
                )

  remove_round-LacksValue :
      (failed : Cmd ℕ)
      → Returns (LacksValue s p_head val (v ∷ vs)) (remove_round E fuel (obj p_head) val failed s)
  unfolding remove_round
  remove_round-LacksValue failed =
      let h = Cells-HasSpot val cells above below in
      bind _ (reader_lock-opened r fuel s (Ready-Outside s ready)) λ t n.
        bind _ (find-Gives r fuel (drift t n (opened s)) h.spot (omega (arith, enough)) refl)
          λ t' n'. elim (Bool-cases (h.bv == val)) [
            | inl same ↦ rw same (remove-LacksValue failed t' n' h same)
            | inr ne ↦
                let absent : contains (v ∷ vs) val ≡ false = sym (Spot-tells h.spot) ∙ ne in
                rw ne (
                  Ends.mono (unlock-Ready r fuel s ready t' n') λ x s' (e, kept, left). (
                    e,
                    subst (λ ws. Cells s'.heap p_head ws) (sym (erase-absent val (v ∷ vs) absent))
                        (subst (λ g. Cells g p_head (v ∷ vs)) (sym kept) cells),
                    subst (λ c. Taken c s val s') (sym absent) kept,
                    left,
                  ))
          ]

  -- Among threads that only read, `rlu_list_remove` and `rlu_list_try_remove` return 0, and then the list
  -- is the sorted list without the value, no object of it is locked, and the thread is ready again. If the
  -- value was in the list, the object that held it has been freed; otherwise no object has changed.
  -- Before, the list is sorted with values up to INT_MAX, and no object of it is locked. The value is
  -- above the first one, INT_MIN in the lists of the code, and below INT_MAX. The thread is ready: it is
  -- outside a section, no commit is under way, the write sets that are not in use are empty, nothing is
  -- left to write back or to free, no thread is waited for, no synchronization is asked for, and it
  -- gathers one write set, as in the coarse-grained type. Each wait for the readers ends, and the fuel is at
  -- least the number of the values.
  pub rlu_list_remove_lem :
      Returns (LacksValue s p_head val (v ∷ vs)) (rlu_list_remove E (suc fuel) (obj p_head) val s)
      × Returns (LacksValue s p_head val (v ∷ vs)) (rlu_list_try_remove E fuel (obj p_head) val s)
  unfolding rlu_list_remove rlu_list_try_remove
  rlu_list_remove_lem = (
    remove_round-LacksValue (rlu_list_remove E fuel (obj p_head) val),
    remove_round-LacksValue (pure 2),
  )
