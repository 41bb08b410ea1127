-- ===== src/Rlu/Readers/Synced.antt =====
-- What a synchronization with write-back does among readers: to the objects, the write sets and the versions.
use mathlib.Core.Path.{subst}
use rcx_hashtables.Base.{
  ◌⊎◌, inl, inr, [], ℕ, ◌+◌, Option, ◌≤◌, ◌<◌, ◌≡◌, refl, true, arith, some, ◌==◌, ap, sym, ◌∙◌,
}
use rcx_hashtables.Rlu.{locked, Object, State, Env, tick, ws_index, max_version}
use rcx_hashtables.Rlu.Ends.{returns, Returns}
use rcx_hashtables.Rlu.Sync.{end_sync}
use rcx_hashtables.Rlu.WriteSet.Layout.{Heap, Row}
use rcx_hashtables.Rlu.WriteSet.AllSets.{Written}
use rcx_hashtables.Rlu.WriteSet.Flush.{IsEmpty, Flushes}
use rcx_hashtables.Rlu.Others.{Later, uniq_id-Later, obj_write_set-Later}
use rcx_hashtables.Rlu.Settle.{Rested, ended}
use rcx_hashtables.Rlu.Readers.Free.{free_list, after_free, IsFree, process_free-after_free}
use rcx_hashtables.Rlu.Readers.{drift, OnlyRead}

pub end_sync-heap :
    {E : Env} (r : OnlyRead E) (freed : Option ℕ) (m n : ℕ) (s : State)
    → (m == n) ≡ true
    → s.self.free_nodes ≡ free_list freed
    → IsFree s.heap freed
    → Returns
        (λ _ s'.
          (s'.self ≡ ended s.self)
          × (s'.heap ≡ after_free freed s.heap)
          × (s'.writer_version ≡ s.writer_version)
          × (s'.commit_version ≡ s.commit_version + 1))
        (end_sync E m n s)
unfolding end_sync tick
end_sync-heap r freed m n s same to_free free =
    let s1 : State = record s { self = record (s.self) { writer_version = max_version } } in
    let s2 : State = drift (r.threads s1) (r.cur_threads s1) s1 in
    let s3 : State = record s2 {
      commit_version = s2.commit_version + 1;
      self = record (s2.self) { is_sync = 0 };
    } in
    rw (same, r.others s1, process_free-after_free freed s3 to_free free)
      (returns (refl, refl, refl, refl))

-- The objects of the sets to be written back have the content of their copies, and are unlocked.
abbrev pub AllWritten : State → Heap → Type 0
AllWritten s g =
    (i : ℕ)
    → s.self.ws_wb_counter ≤ i
    → i < s.self.ws_tail_counter
    → Row (s.self.obj_write_set (ws_index i)).buffer (Written g)
        (s.self.obj_write_set (ws_index i)).num_of_objs 0 (s.self.obj_write_set (ws_index i)).p_cur

-- After the write-back the heap was `g`; other objects were as before then. After that one object may have been freed.
pub record Synced (freed : Option ℕ) (s s' : State) : Type 0 where
  pub g : Heap
  pub heap : s'.heap ≡ after_free freed g
  pub changes : AllWritten s g
  pub kept :
      (i : ℕ)
      → s.self.ws_wb_counter ≤ i
      → i < s.self.ws_tail_counter
      → s'.self.obj_write_set (ws_index i) ≡ s.self.obj_write_set (ws_index i)
  pub only :
      (a : ℕ)
      → ((o : Object) (w at : ℕ)
          → s.heap a ≡ some o
          → o.p_obj_copy ≡ locked s.self.uniq_id w at
          → ⊥)
      → g a ≡ s.heap a
  pub head : s'.self.ws_head_counter ≡ s.self.ws_wb_counter
  pub wb : s'.self.ws_wb_counter ≡ s.self.ws_tail_counter
  pub tail : s'.self.ws_tail_counter ≡ s.self.ws_tail_counter
  pub cur_id : s'.self.ws_cur_id ≡ s.self.ws_cur_id
  pub run_counter : s'.self.run_counter ≡ s.self.run_counter
  pub is_sync : s'.self.is_sync ≡ 0
  pub max_write_sets : s'.self.max_write_sets ≡ s.self.max_write_sets
  pub no_free : s'.self.free_nodes ≡ []
  pub quiet : Rested s' ⊎ (s'.self.q_threads ≡ s.self.q_threads)
  pub writer_version : s'.writer_version ≡ s.writer_version + 1
  pub commit_version : s'.commit_version ≡ s.commit_version + 1
  pub empty :
      (i : ℕ)
      → s.self.ws_head_counter ≤ i
      → i < s.self.ws_wb_counter
      → IsEmpty (s'.self.obj_write_set (ws_index i))
  pub other :
      (w : ℕ)
      → ((i : ℕ) → s.self.ws_head_counter ≤ i → i < s.self.ws_wb_counter → w ≡ ws_index i → ⊥)
      → s'.self.obj_write_set w ≡ s.self.obj_write_set w

pub Flushes-AllWritten : (s2 s5 s6 : State) → Later s2 s5 → (f : Flushes s5 s6) → AllWritten s2 f.g
Flushes-AllWritten s2 s5 s6 l f i le lt =
    let wb : s5.self.ws_wb_counter ≡ s2.self.ws_wb_counter =
      ap (λ t. t.ws_wb_counter) l.self.same in
    let tail : s5.self.ws_tail_counter ≡ s2.self.ws_tail_counter =
      ap (λ t. t.ws_tail_counter) l.self.same in
    rw (obj_write_set-Later l) at (f.changes i (omega (arith, le, wb)) (omega (arith, lt, tail)))

-- From the wait on: `s2` is the state before it.
pub synced :
    (freed : Option ℕ) (s2 s5 s6 s7 : State)
    → Later s2 s5
    → s5.heap ≡ s2.heap
    → Rested s5 ⊎ (s5.self.q_threads ≡ s2.self.q_threads)
    → s5.writer_version ≡ s2.writer_version + 1
    → s5.commit_version ≡ s2.commit_version
    → Flushes s5 s6
    → s7.self ≡ ended s6.self
    → s7.heap ≡ after_free freed s6.heap
    → s7.writer_version ≡ s6.writer_version
    → s7.commit_version ≡ s6.commit_version + 1
    → Synced freed s2 s7
synced freed s2 s5 s6 s7 l h rests version commits f e g version' commits' =
    let self : s6.self ≡ record (s5.self) {
      obj_write_set = f.ws;
      ws_head_counter = s5.self.ws_wb_counter;
      ws_wb_counter = s5.self.ws_tail_counter;
    } =
      ap (λ t. t.self) f.state in
    let wb : s5.self.ws_wb_counter ≡ s2.self.ws_wb_counter =
      ap (λ t. t.ws_wb_counter) l.self.same in
    let head : s5.self.ws_head_counter ≡ s2.self.ws_head_counter =
      ap (λ t. t.ws_head_counter) l.self.same in
    let tail : s5.self.ws_tail_counter ≡ s2.self.ws_tail_counter =
      ap (λ t. t.ws_tail_counter) l.self.same in
    record {
      g = f.g;
      heap = g ∙ ap (λ t. after_free freed t.heap) f.state;
      changes = Flushes-AllWritten s2 s5 s6 l f;
      kept = λ i le lt.
          ap (λ t. t.obj_write_set (ws_index i)) e
          ∙ ap (λ t. t.obj_write_set (ws_index i)) self
          ∙ f.kept i (omega (arith, le, wb)) (omega (arith, lt, tail))
          ∙ ap (λ m. m (ws_index i)) (obj_write_set-Later l);
      only = λ a free.
          f.only a (λ o w at e' f'.
            free o w at (ap (λ m. m a) (sym h) ∙ e')
              (f' ∙ ap (λ m. locked m w at) (uniq_id-Later l)))
          ∙ ap (λ m. m a) h;
      head = ap (λ t. t.ws_head_counter) e ∙ ap (λ t. t.ws_head_counter) self ∙ wb;
      wb = ap (λ t. t.ws_wb_counter) e ∙ ap (λ t. t.ws_wb_counter) self ∙ tail;
      tail = ap (λ t. t.ws_tail_counter) e ∙ ap (λ t. t.ws_tail_counter) self ∙ tail;
      cur_id =
          ap (λ t. t.ws_cur_id) e ∙ ap (λ t. t.ws_cur_id) self ∙ ap (λ t. t.ws_cur_id) l.self.same;
      run_counter =
          ap (λ t. t.run_counter) e
          ∙ ap (λ t. t.run_counter) self
          ∙ ap (λ t. t.run_counter) l.self.same;
      is_sync = ap (λ t. t.is_sync) e;
      max_write_sets =
          ap (λ t. t.max_write_sets) e
          ∙ ap (λ t. t.max_write_sets) self
          ∙ ap (λ t. t.max_write_sets) l.self.same;
      no_free = ap (λ t. t.free_nodes) e;
      quiet =
          let same : s7.self.q_threads ≡ s5.self.q_threads =
            ap (λ t. t.q_threads) e ∙ ap (λ t. t.q_threads) self in
          elim rests [
            | inl rested ↦ inl (λ th. ap (λ q. (q th).is_wait) same ∙ rested th)
            | inr old ↦ inr (same ∙ old)
          ];
      writer_version = version' ∙ ap (λ t. t.writer_version) f.state ∙ version;
      commit_version = omega (arith, commits', ap (λ t. t.commit_version) f.state, commits);
      empty = λ i le lt.
          let here : s7.self.obj_write_set (ws_index i) ≡ f.ws (ws_index i) =
            ap (λ t. t.obj_write_set (ws_index i)) e
            ∙ ap (λ t. t.obj_write_set (ws_index i)) self in
          subst IsEmpty (sym here) (f.empty i (omega (arith, le, head)) (omega (arith, lt, wb)));
      other = λ w out.
          ap (λ t. t.obj_write_set w) e
          ∙ ap (λ t. t.obj_write_set w) self
          ∙ f.other w (λ i le lt. out i (omega (arith, le, head)) (omega (arith, lt, wb)))
          ∙ ap (λ m. m w) (obj_write_set-Later l);
    }
