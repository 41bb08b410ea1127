-- ===== src/Rlu/WriterLocks/Release.antt =====
-- A writer lock from its acquisition to its release.
use rcx_hashtables.Base.{
  ℕ, ◌⊎◌, ◌<◌, ◌≡◌, refl, Bool, true, false, arith, Bool-cases, inl, inr, ◌==◌, eq_of_==, ==-refl,
  ltb, if◌then◌else◌, [], ◌∷◌, ap, ◌∙◌, sym, ◌+◌,
}
use rcx_hashtables.Rlu.{State, Env, Cmd, tick, write, rlu_type_coarse_grained, ◌>>=◌, ◌>>◌, pure}
use rcx_hashtables.Rlu.Ends
use rcx_hashtables.Rlu.Ends.{returns, Returns}
use rcx_hashtables.Rlu.WriterLocks.{
  current_locks, rlu_max_writer_locks, rlu_try_acquire_writer_lock, lock_id, rlu_add_writer_lock,
  rlu_release_writer_lock, release_ids, rlu_release_writer_locks, rlu_reset_writer_locks,
}
use rcx_hashtables.Rlu.Section.{rlu_try_writer_lock, release_current}
use rcx_hashtables.Rlu.Others.{Respects}

-- How an attempt to take the lock ends.
pub data Takes (E : Env) (id : ℕ) (s : State) : Bool → State → Type 0 where
  taken :
      ((E.others s).writer_locks id == 0) ≡ true
      → Takes E id s true (record (E.others s) {
        writer_locks = write (E.others s).writer_locks id (lock_id (E.others s).self.uniq_id);
      })
  lost : ((E.others s).writer_locks id == 0) ≡ false → Takes E id s false (E.others s)
  held : (s.writer_locks id == 0) ≡ false → Takes E id s false s

module _ (E : Env) (id : ℕ) (small : id < rlu_max_writer_locks) where
  acquire-Takes : (s : State) → Returns (Takes E id s) (rlu_try_acquire_writer_lock E id s)
  unfolding rlu_try_acquire_writer_lock tick
  acquire-Takes s =
      let below : ltb id rlu_max_writer_locks ≡ true = ground (arith, small) in
      rw below (elim (Bool-cases (s.writer_locks id == 0)) [
        | inr busy ↦ rw busy (returns (held busy))
        | inl idle ↦ rw idle (elim (Bool-cases ((E.others s).writer_locks id == 0)) [
          | inr busy ↦ rw busy (returns (lost busy))
          | inl free ↦ rw free (returns (taken free))
        ])
      ])

-- The lock has been taken, and given back when the others had acted again, or it was not free, when the
-- thread looked at it or when it tried to swap its number in.
pub data Released (E : Env) (id : ℕ) (s s' : State) : Type 0 where
  gave_back :
      (mid : State)
      → (E.others s).writer_locks id ≡ 0
      → mid.writer_locks id ≡ s.self.uniq_id + 1
      → current_locks mid ≡ id ∷ []
      → ((j : ℕ) → (j == id) ≡ false → mid.writer_locks j ≡ (E.others s).writer_locks j)
      → current_locks s' ≡ []
      → s'.writer_locks id ≡ 0
      → ((j : ℕ) → (j == id) ≡ false → s'.writer_locks j ≡ (E.others mid).writer_locks j)
      → Released E id s s'
  refused :
      (mid : State)
      → (mid ≡ s) ⊎ (mid ≡ E.others s)
      → (mid.writer_locks id == 0) ≡ false
      → current_locks s' ≡ []
      → s' ≡ E.others mid
      → Released E id s s'

-- The others act while the thread has the lock.
abbrev pub take_and_release : Env → ℕ → Cmd (Unit {0})
take_and_release E id = do
  got ← rlu_try_writer_lock E id
  tick E
  if got then release_current E else pure tt

-- The others do not write the lock while this thread holds it.
abbrev pub KeepsLock : Env → ℕ → Type 0
KeepsLock E id =
    (s : State)
    → s.writer_locks id ≡ s.self.uniq_id + 1
    → (E.others s).writer_locks id ≡ s.writer_locks id

-- A state in which the thread holds just the lock `id`.
pub record Holds (id : ℕ) (s : State) : Type 0 where
  pub ids : current_locks s ≡ id ∷ []
  pub mine : s.writer_locks id ≡ lock_id s.self.uniq_id

release-Holds :
    (E : Env) (id : ℕ) (s : State)
    → Holds id s
    → Returns
        (λ _ s'.
          (current_locks s' ≡ [])
          × ((j : ℕ) → (j == id) ≡ false → s'.writer_locks j ≡ s.writer_locks j)
          × (s'.writer_locks id ≡ 0))
        (release_current E s)
unfolding release_current rlu_release_writer_locks release_ids rlu_release_writer_lock
    rlu_reset_writer_locks
release-Holds E id s h =
    rw (h.ids, h.mine, ==-refl (lock_id s.self.uniq_id))
      (returns (
        rw (current_locks, ==-refl s.self.ws_cur_id) refl,
        (λ j ne. rw ne refl),
        rw (==-refl id) refl,
      ))

-- The state after the lock `id` has been taken and noted.
add_writer_lock-Holds :
    (id : ℕ) (s : State)
    → current_locks s ≡ []
    → s.writer_locks id ≡ lock_id s.self.uniq_id
    → Returns (λ _ s'. Holds id s' × (s'.writer_locks ≡ s.writer_locks)) (rlu_add_writer_lock id s)
unfolding rlu_add_writer_lock
add_writer_lock-Holds id s empty mine = rw empty (
    returns (record { ids = rw (current_locks, ==-refl s.self.ws_cur_id) refl; mine = mine }, refl))

module _ (E : Env) (r : Respects E) (id : ℕ) (small : id < rlu_max_writer_locks)
    (keeps : KeepsLock E id) where
  locks-others : (s : State) → current_locks (E.others s) ≡ current_locks s
  locks-others s = ap (λ x. (x.obj_write_set x.ws_cur_id).writer_locks) (r.self s)

  uniq_id-others : (s : State) → (E.others s).self.uniq_id ≡ s.self.uniq_id
  uniq_id-others s = ap (λ t. t.uniq_id) (r.self s)

  Holds-others : (s : State) → Holds id s → Holds id (E.others s)
  Holds-others s h = record {
    ids = locks-others s ∙ h.ids;
    mine = keeps s h.mine ∙ (h.mine ∙ ap lock_id (sym (uniq_id-others s)));
  }

  -- After the lock has been taken and noted, what is left of the run gives it back.
  noted-Released :
      (s : State)
      → ((E.others s).writer_locks id == 0) ≡ true
      → (s1 : State) → Holds id s1
      → s1.writer_locks ≡ write (E.others s).writer_locks id (lock_id (E.others s).self.uniq_id)
      → Returns (λ _ s'. Released E id s s') (release_current E (E.others s1))
  noted-Released s free s1 h same =
      Ends.mono (release-Holds E id (E.others s1) (Holds-others s1 h)) λ x s2 (empty, others, zero).
        gave_back s1 (eq_of_== ((E.others s).writer_locks id) 0 free)
          (ap (λ f. f id) same ∙ rw (==-refl id) (ap lock_id (uniq_id-others s))) h.ids
          (λ j ne. ap (λ f. f j) same ∙ rw ne refl) empty zero others

  Takes-Released :
      (s : State) (b : Bool) (s1 : State)
      → current_locks s ≡ []
      → Takes E id s b s1
      → Returns
          (λ got s2.
            Returns
              (λ _ s'. Released E id s s')
              ((do tick E; if got then release_current E else pure tt) s2))
          ((if b then (do rlu_add_writer_lock id; pure true) else pure false) s1)
  unfolding tick
  Takes-Released s b s1 empty (taken free) =
      Ends.bind (add_writer_lock-Holds id s1 (locks-others s ∙ empty) (rw (==-refl id) refl))
        λ x s2 (h, same). returns (noted-Released s free s2 h same)
  Takes-Released s b s1 empty (lost busy) = returns (
      returns (
        refused (E.others s) (inr refl) busy (locks-others (E.others s) ∙ (locks-others s ∙ empty))
          refl))
  Takes-Released s b s1 empty (held busy) =
      returns (returns (refused s (inl refl) busy (locks-others s ∙ empty) refl))

  -- In RLU of the coarse-grained type, a thread that holds no writer lock tries to take the lock `id`, below
  -- the number of locks, the others act, and it gives the lock back if it got it. No assertion fails,
  -- and it holds no lock afterwards. It got the lock if the lock was free both when it looked
  -- and when it swapped its number in; then the lock had its number plus 1 meanwhile, is free again,
  -- and the other locks are as the others left them. Otherwise it has written no lock. The others
  -- write only `is_sync` of this thread's data, and not the lock while this thread holds it.
  pub take_and_release_lem :
      (s : State)
      → (s.self.type == rlu_type_coarse_grained) ≡ true
      → current_locks s ≡ []
      → Returns (λ _ s'. Released E id s s') (take_and_release E id s)
  unfolding rlu_try_writer_lock
  take_and_release_lem s coarse empty = rw coarse (
      Ends.bind (Ends.bind (acquire-Takes E id small s) λ b s1 t. Takes-Released s b s1 empty t)
        λ got s2 rest. rest)
