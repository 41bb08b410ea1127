-- ===== src/Rlu/Readers/Ready.antt =====
-- A thread that is ready for an operation among readers, and the steps that an insertion and a removal share.
use mathlib.Core.Path.{subst}
use rcx_hashtables.Base.{
  ◌≤◌, ◌<◌, sym, ap, ◌∙◌, Bool-cases, inl, inr, ltb, ℕ, ◌≡◌, refl, true, false, arith, some, ◌==◌,
  eq_of_==, [], Option,
}
use rcx_hashtables.Rlu.{
  Thread, obj, copy, unlocked, Object, State, Env, ws_index, pure, ◌>>◌, is_odd,
}
use rcx_hashtables.Rlu.Ends.{returns, Returns}
use rcx_hashtables.Rlu.WriterLocks.{rlu_reset_writer_locks}
use rcx_hashtables.Rlu.Section.{next_counter, rlu_reader_unlock}
use rcx_hashtables.Rlu.WriteSet.Flush.{IsEmpty}
use rcx_hashtables.Rlu.Lists.{Locked, node_size, lock_both, have_prev, have_both}
use rcx_hashtables.Rlu.Readers.{drift, OnlyRead, Gives, gives, bind}
use rcx_hashtables.Rlu.Readers.Section.{Outside, opened, reader_unlock-closed}
use rcx_hashtables.Rlu.Readers.Lock.{next_at, locking, try_lock-Gives}
use rcx_hashtables.Rlu.Readers.Pair.{both, at-first, at-second}
use rcx_hashtables.Rlu.Readers.Finish.{AtOnce, ended_section}
use rcx_hashtables.Rlu.Readers.Synced.{Synced}
use rcx_hashtables.Rlu.Commit.{next_set}
use rcx_hashtables.Rlu.Settle.{Rested}
use rcx_hashtables.Rlu.WriteSet.AllSets.{ws_index-differs}

-- The write set `w` is not in use.
abbrev pub IsUnused : Thread → ℕ → Type 0
IsUnused t w = (i : ℕ) → t.ws_head_counter ≤ i → i < t.ws_tail_counter → w ≡ ws_index i → ⊥

-- A thread that has nothing to write back or to free, while nobody else writes.
pub record Calm (s : State) : Type 0 where
  pub versions : (s.writer_version == s.commit_version) ≡ true
  pub sets : AtOnce s.self
  pub unused : (w : ℕ) → IsUnused s.self w → IsEmpty (s.self.obj_write_set w)
  pub rested : Rested s
  pub no_free : s.self.free_nodes ≡ []

-- Such a thread between two sections.
pub record Ready (s : State) : Type 0 where
  pub even : is_odd s.self.run_counter ≡ false
  pub unasked : (s.self.is_sync == 0) ≡ true
  pub calm : Calm s

pub Calm-IsEmpty : (s : State) → Calm s → IsEmpty (s.self.obj_write_set s.self.ws_cur_id)
Calm-IsEmpty s calm = calm.unused s.self.ws_cur_id λ i le lt e.
    ws_index-differs s.self.ws_tail_counter i lt
      (omega (arith, le, calm.sets.wb, calm.sets.flushed)) (sym calm.sets.cur_id ∙ e)

pub Ready-Outside : (s : State) → Ready s → Outside s
Ready-Outside s ready = record {
  even = ready.even;
  unasked = ready.unasked;
  versions = ready.calm.versions;
  written = ground (arith, ready.calm.sets.wb);
  unlocked = (Calm-IsEmpty s ready.calm).writer_locks;
}

pub Calm-opened : (s : State) (t : ℕ → Option Thread) (n : ℕ) → Calm s → Calm (drift t n (opened s))
Calm-opened s t n calm = record {
  versions = calm.versions;
  sets = record {
    one = calm.sets.one;
    wb = calm.sets.wb;
    head = calm.sets.head;
    flushed = calm.sets.flushed;
    cur_id = calm.sets.cur_id;
  };
  unused = calm.unused;
  rested = calm.rested;
  no_free = calm.no_free;
}

-- The pointers to the two copies.
abbrev pub copies : State → (a : ℕ) → Object → Locked
copies s a o = record {
  prev = copy s.self.uniq_id s.self.ws_cur_id (next_at s);
  next = copy s.self.uniq_id s.self.ws_cur_id (next_at (locking s a node_size o));
}

module _ {E : Env} (r : OnlyRead E) (fuel : ℕ) (s : State) (a b : ℕ) (o o' : Object)
    (apart : (a == b) ≡ false) (empty : IsEmpty (s.self.obj_write_set s.self.ws_cur_id))
    (there : s.heap a ≡ some o) (there' : s.heap b ≡ some o') (free : o.p_obj_copy ≡ unlocked)
    (free' : o'.p_obj_copy ≡ unlocked) (fresh_write : s.self.is_write_detected ≡ false) where
  pub lock_both-Gives :
      Returns
        (Gives (some (copies s a o)) (both s a b o o' apart empty))
        (lock_both E fuel (obj a) (obj b) s)
  unfolding lock_both have_prev have_both
  lock_both-Gives =
      let at = at-first s a b o o' apart empty in
      let at' = at-second s a b o o' apart empty in
      let differs : (b == a) ≡ false = ground (arith, apart) in
      bind _ (try_lock-Gives r s a node_size o there free (omega (arith, at)) (rw fresh_write refl))
        λ t n.
          bind _
            (try_lock-Gives r (drift t n (locking s a node_size o)) b node_size o'
              (rw differs there') free' (omega (arith, at')) refl)
            λ t' n'. returns (gives t' n')

pub odd_next : (n : ℕ) → is_odd n ≡ false → is_odd (next_counter n) ≡ true
odd_next n even = ground (arith, even)

pub next_even : (n m : ℕ) → is_odd n ≡ true → m ≡ next_counter n → is_odd m ≡ false
next_even n m odd e = ground (arith, odd, e)

module _ (s s' : State) (odd : is_odd s.self.run_counter ≡ true) (sets : AtOnce s.self)
    (versions : (s.writer_version == s.commit_version) ≡ true) (rested : Rested s)
    (unused : (w : ℕ)
      → (w == s.self.ws_cur_id) ≡ false
      → IsUnused s.self w
      → IsEmpty (s.self.obj_write_set w))
    {freed : Option ℕ} (y : Synced freed (next_set (ended_section s)) s') where
  -- A set that is not in use after the commit is not the one that was committed, and is empty.
  unused-Synced : (w : ℕ) → IsUnused s'.self w → IsEmpty (s'.self.obj_write_set w)
  unused-Synced w out =
      let other : (w == s.self.ws_cur_id) ≡ false = elim (Bool-cases (w == s.self.ws_cur_id)) [
        | inl same ↦ absurd (
            out s.self.ws_tail_counter (omega (arith, y.head, sets.wb)) (omega (arith, y.tail))
              (eq_of_== w s.self.ws_cur_id same ∙ sets.cur_id))
        | inr differs ↦ differs
      ] in
      let before = λ (f : IsUnused s.self w).
        subst IsEmpty (sym (y.other w (λ i le lt e. f i le (omega (arith, lt, sets.wb)) e)))
          (unused w other f) in
      elim (Bool-cases (ltb s.self.ws_head_counter s.self.ws_wb_counter)) [
        | inr none ↦ before (λ i le lt e. ground (arith, none, le, lt, sets.wb))
        | inl some_left ↦ elim (Bool-cases (w == ws_index s.self.ws_head_counter)) [
          | inl same ↦
              subst (λ i. IsEmpty (s'.self.obj_write_set i))
                (sym (eq_of_== w (ws_index s.self.ws_head_counter) same))
                (y.empty s.self.ws_head_counter (omega arith) (ground (arith, some_left)))
          | inr differs ↦ before (λ i le lt e.
              let first : i ≡ s.self.ws_head_counter =
                omega (arith, le, lt, sets.wb, sets.flushed) in
              ground (arith, differs, e, first))
        ]
      ]

  pub Synced-Ready : Ready s'
  Synced-Ready = record {
    even = next_even s.self.run_counter s'.self.run_counter odd y.run_counter;
    unasked = ap (λ n. n == 0) y.is_sync;
    calm = record {
      versions = ground (arith, y.writer_version, y.commit_version, versions);
      sets = record {
        one = y.max_write_sets ∙ sets.one;
        wb = y.wb ∙ sym y.tail;
        head = omega (arith, y.head, y.wb, sets.wb);
        flushed = omega (arith, y.head, y.wb, sets.wb);
        cur_id = y.cur_id ∙ ap (λ n. ws_index n) (sym y.tail);
      };
      unused = unused-Synced;
      rested = elim y.quiet [
        | inl r ↦ r
        | inr same ↦ λ th. ap (λ q. (q th).is_wait) same ∙ rested th
      ];
      no_free = y.no_free;
    };
  }

-- The current set is still empty when its writer locks are forgotten.
unused-reset :
    (s : State)
    → Calm s
    → (w : ℕ) → IsUnused s.self w
    → IsEmpty ((rlu_reset_writer_locks s.self.ws_cur_id s.self).obj_write_set w)
unfolding rlu_reset_writer_locks
unused-reset s calm w out = elim (Bool-cases (w == s.self.ws_cur_id)) [
  | inl same ↦
      let e = Calm-IsEmpty s calm in
      rw same (record { num_of_objs = e.num_of_objs; p_cur = e.p_cur; writer_locks = refl })
  | inr differs ↦ rw differs (calm.unused w out)
]

module _ {E : Env} (r : OnlyRead E) (fuel : ℕ) (s : State) (ready : Ready s) where
  -- The end of a section without a write.
  pub unlock-Ready :
      (t : ℕ → Option Thread) (n : ℕ)
      → Returns
          (λ (x : ℕ) s'. (x ≡ 0) × (s'.heap ≡ s.heap) × Ready s')
          ((rlu_reader_unlock E fuel >> pure 0) (drift t n (opened s)))
  unfolding rlu_reset_writer_locks
  unlock-Ready t n =
      let odd : is_odd (next_counter s.self.run_counter) ≡ true =
        odd_next s.self.run_counter ready.even in
      let calm : Calm (drift t n (opened s)) = Calm-opened s t n ready.calm in
      bind _
        (reader_unlock-closed r fuel (drift t n (opened s)) odd refl
          (Calm-IsEmpty s ready.calm).writer_locks ready.unasked)
        λ t' n'. returns (
          refl,
          refl,
          record {
            even = next_even (next_counter s.self.run_counter) _ odd refl;
            unasked = ready.unasked;
            calm = record {
              versions = calm.versions;
              sets = record {
                one = calm.sets.one;
                wb = calm.sets.wb;
                head = calm.sets.head;
                flushed = calm.sets.flushed;
                cur_id = calm.sets.cur_id;
              };
              unused = unused-reset s ready.calm;
              rested = calm.rested;
              no_free = calm.no_free;
            };
          },
        )
