-- ===== src/Rlu/Readers/Add.antt =====
-- rlu_list_add and rlu_list_try_add among readers.
use rcx_hashtables.Base.{
  ℕ, suc, ◌≤◌, ◌<◌, ◌≡◌, refl, true, false, arith, some, none, Bool-cases, inl, inr, ◌==◌, ◌∙◌, [],
  ◌∷◌, List, contains, if◌then◌else◌, sym, Option,
}
use mathlib.Core.Path.{subst}
use rcx_hashtables.Machine.{list_val_max}
use rcx_hashtables.Rlu.{
  Thread, obj, unlocked, Object, State, Env, Cmd, pure, ◌>>=◌, is_odd, ws_index,
}
use rcx_hashtables.Rlu.Ends
use rcx_hashtables.Rlu.Ends.{returns, Returns}
use rcx_hashtables.Rlu.WriterLocks.{length}
use rcx_hashtables.Rlu.WriteSet.Writeback.{IsLaid}
use rcx_hashtables.Rlu.WriteSet.Layout.{Row}
use rcx_hashtables.Rlu.WriteSet.AllSets.{Written}
use rcx_hashtables.Rlu.WriteSet.Flush.{IsEmpty}
use rcx_hashtables.Rlu.Settle.{Leaving}
use rcx_hashtables.Rlu.Lists.{
  node_size, lock_both, add_locked, add_round, rlu_list_add, rlu_list_try_add,
}
use rcx_hashtables.Rlu.Readers.{drift, OnlyRead, bind}
use rcx_hashtables.Rlu.Readers.Cells.{Cells, HasSpot, Cells-HasSpot, Spot-tells}
use rcx_hashtables.Rlu.Readers.Cells.Insert.{
  insert, Inserts, Spot-Before, Spot-Behind, Spot-apart, Spot-insert,
}
use rcx_hashtables.Rlu.Readers.Walk.{find-Gives}
use rcx_hashtables.Rlu.Readers.Section.{opened, reader_lock-opened}
use rcx_hashtables.Rlu.Readers.Lock.{next_at, locking}
use rcx_hashtables.Rlu.Readers.Insert.{
  Fresh, HasRoom, Allocates, HasRoom-write, insert_node-inserted,
}
use rcx_hashtables.Rlu.Readers.Pair.{
  both, full, there-first, there-second, k, k', full-IsLaid, locks-pair, other-pair,
}
use rcx_hashtables.Rlu.Readers.Ready.{
  Ready, Ready-Outside, Calm, Calm-IsEmpty, Calm-opened, Synced-Ready, odd_next, copies,
  lock_both-Gives, unlock-Ready,
}
use rcx_hashtables.Rlu.Readers.Pair.Written.{Written-Inserts}
use rcx_hashtables.Rlu.Readers.Finish.{AtOnce, reader_unlock-Synced}

room_both :
    (s : State) (a b : ℕ) (o o' : Object) (apart : (a == b) ≡ false)
    (empty : IsEmpty (s.self.obj_write_set s.self.ws_cur_id))
    → s.heap a ≡ some o
    → s.heap b ≡ some o'
    → (n : ℕ) → HasRoom n s.heap
    → HasRoom n (both s a b o o' apart empty).heap
room_both s a b o o' apart empty e e' n space =
    let differs : (b == a) ≡ false = ground (arith, apart) in
    HasRoom-write n (locking s a node_size o).heap b o' _ (rw differs e')
      (HasRoom-write n s.heap a o _ e space)

-- After a run that has put a new node between `a` and `b`.
pub record Added (s : State) (val a b : ℕ) (s' : State) : Type 0 where
  pub c : ℕ
  pub inserts : Inserts s.heap s'.heap val a b c
  pub left : Ready s'

module _ {E : Env} (r : OnlyRead E) (fuel : ℕ) (leaves : Leaving E fuel) (s : State) (a b val : ℕ)
    (o o' : Object) (apart : (a == b) ≡ false)
    (empty : IsEmpty (s.self.obj_write_set s.self.ws_cur_id)) (there : s.heap a ≡ some o)
    (there' : s.heap b ≡ some o') (free : o.p_obj_copy ≡ unlocked)
    (free' : o'.p_obj_copy ≡ unlocked) (odd : is_odd s.self.run_counter ≡ true)
    (calm : Calm s) where
  abbrev locked_pair : State
  locked_pair = both s a b o o' apart empty

  insert-Added :
      (failed : Cmd ℕ) (t : ℕ → Option Thread) (n : ℕ)
      → Fresh E (drift t n locked_pair)
      → Returns
          (λ x s'. (x ≡ 0) × Added s val a b s')
          (add_locked E fuel val failed (some (copies s a o)) (drift t n locked_pair))
  unfolding add_locked
  insert-Added failed t n (some_memory, new) =
      let s2 : State = drift t n locked_pair in
      let c : ℕ = E.malloc s2 in
      let s3 : State = drift t n (full s a b o o' apart empty c val new) in
      let cur : s.self.ws_cur_id ≡ ws_index s.self.ws_tail_counter = calm.sets.cur_id in
      let sets3 : AtOnce s3.self = record {
        one = calm.sets.one;
        wb = calm.sets.wb;
        head = calm.sets.head;
        flushed = calm.sets.flushed;
        cur_id = cur;
      } in
      rw
        (insert_node-inserted E s2 s.self.ws_cur_id (next_at s) (next_at (locking s a node_size o))
          b val (k s a b o o' apart empty) (k' s a b o o' apart empty) (some_memory, new)
          (there-first s a b o o' apart empty) (there-second s a b o o' apart empty) refl refl)
        (Ends.bind
          (reader_unlock-Synced r fuel leaves none s3 odd refl sets3
            (subst (λ w. IsLaid w s3) cur (full-IsLaid s a b o o' apart empty c val new))
            (subst (λ w. (s3.self.obj_write_set w).writer_locks ≡ []) cur
              (locks-pair s a b o o' apart empty (obj c)))
            (λ th le. calm.rested th) calm.no_free (λ g w. tt))
          λ x s' y. returns (
            refl,
            record {
              c = c;
              inserts =
                  subst (λ h. Inserts s.heap h val a b c) (sym y.heap)
                    (Written-Inserts s a b o o' apart empty c val new there there' free free' y.g
                      (subst
                        (λ w.
                          Row (s3.self.obj_write_set w).buffer (Written y.g)
                            (s3.self.obj_write_set w).num_of_objs 0 (s3.self.obj_write_set w).p_cur)
                        (sym cur)
                        (y.changes s.self.ws_tail_counter (omega (arith, calm.sets.wb))
                          (omega arith)))
                      y.only);
              left =
                  Synced-Ready s3 s' odd sets3 calm.versions calm.rested
                    (λ w ne out.
                      subst IsEmpty (sym (other-pair s a b o o' apart empty (obj c) w ne))
                        (calm.unused w out))
                    y;
            },
          ))

-- The sorted list with the value.
abbrev pub with_value : ℕ → List ℕ → List ℕ
with_value val vs = if contains vs val then vs else insert val vs

abbrev pub HasValue : (p_head val : ℕ) → List ℕ → ℕ → State → Type 0
HasValue p_head val vs x s' = (x ≡ 0) × Cells s'.heap p_head (with_value val vs) × Ready s'

module _ {E : Env} (r : OnlyRead E) (fuel : ℕ) (leaves : Leaving E fuel) (bound : ℕ)
    (memory : Allocates bound E) (s : State) (ready : Ready s) (space : HasRoom bound s.heap)
    (p_head val v : ℕ) (vs : List ℕ) (cells : Cells s.heap p_head (v ∷ vs)) (above : v < val)
    (below : val < list_val_max) (enough : length vs ≤ fuel) where
  insert-HasValue :
      (failed : Cmd ℕ) (t : ℕ → Option Thread) (n : ℕ) (h : HasSpot s.heap val p_head (v ∷ vs))
      → (h.bv == val) ≡ false
      → Returns (HasValue p_head val (v ∷ vs)) (
          (lock_both E fuel (obj h.a) (obj h.b) >>= add_locked E fuel val failed)
            (drift t n (opened s)))
  insert-HasValue failed t n h ne =
      let s1 : State = drift t n (opened s) in
      let f = Spot-Before h.spot in
      let l = Spot-Behind h.spot in
      let apart = Spot-apart h.spot in
      bind _
        (lock_both-Gives r fuel s1 h.a h.b f.cell.o l.cell.o apart (Calm-IsEmpty s ready.calm)
          f.cell.there l.cell.there f.cell.free l.cell.free refl)
        λ t' n'.
          Ends.mono
            (insert-Added r fuel leaves s1 h.a h.b val f.cell.o l.cell.o apart
              (Calm-IsEmpty s ready.calm) f.cell.there l.cell.there f.cell.free l.cell.free
              (odd_next s.self.run_counter ready.even) (Calm-opened s t n ready.calm) failed t' n'
              (memory _ (
                room_both s1 h.a h.b f.cell.o l.cell.o apart (Calm-IsEmpty s ready.calm)
                  f.cell.there l.cell.there bound space)))
            λ x s' (e, d).
              let absent : contains (v ∷ vs) val ≡ false = sym (Spot-tells h.spot) ∙ ne in
              (
                e,
                subst (λ b. Cells s'.heap p_head (if b then v ∷ vs else insert val (v ∷ vs)))
                    (sym absent) (Spot-insert d.inserts h.spot ne),
                d.left,
              )

  add_round-HasValue :
      (failed : Cmd ℕ)
      → Returns (HasValue p_head val (v ∷ vs)) (add_round E fuel (obj p_head) val failed s)
  unfolding add_round
  add_round-HasValue failed =
      let h = Cells-HasSpot val cells above below in
      bind _ (reader_lock-opened r fuel s (Ready-Outside s ready)) λ t n.
        bind _ (find-Gives r fuel (drift t n (opened s)) h.spot (omega (arith, enough)) refl)
          λ t' n'. elim (Bool-cases (h.bv == val)) [
            | inl same ↦
                let present : contains (v ∷ vs) val ≡ true = sym (Spot-tells h.spot) ∙ same in
                rw same (
                  Ends.mono (unlock-Ready r fuel s ready t' n') λ x s' (e, kept, left). (
                    e,
                    subst (λ b. Cells s'.heap p_head (if b then v ∷ vs else insert val (v ∷ vs)))
                        (sym present) (subst (λ g. Cells g p_head (v ∷ vs)) (sym kept) cells),
                    left,
                  ))
            | inr ne ↦ rw ne (insert-HasValue failed t' n' h ne)
          ]

  -- Among threads that only read, `rlu_list_add` and `rlu_list_try_add` return 0, and then the list is
  -- the sorted list with the value, which is inserted if it was absent; no object of it is locked, and
  -- the thread is ready again. Before, the list is sorted with values up to INT_MAX, and no object of it
  -- is locked. The value is above the first one, INT_MIN in the lists of the code, and below INT_MAX. The
  -- thread is ready: it is outside a section, no commit is under way, the write sets that are not in
  -- use are empty, nothing is left to write back or to free, no thread is waited for, no synchronization is
  -- asked for, and it gathers one write set, as in the coarse-grained type. The allocator gives an unused
  -- address as long as all objects are below some bound, each wait for the readers ends, and the fuel is
  -- at least the number of the values.
  pub rlu_list_add_lem :
      Returns (HasValue p_head val (v ∷ vs)) (rlu_list_add E (suc fuel) (obj p_head) val s)
      × Returns (HasValue p_head val (v ∷ vs)) (rlu_list_try_add E fuel (obj p_head) val s)
  unfolding rlu_list_add rlu_list_try_add
  rlu_list_add_lem =
      (add_round-HasValue (rlu_list_add E fuel (obj p_head) val), add_round-HasValue (pure 2))
