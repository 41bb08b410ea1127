-- ===== src/Rlu/WriterLocks.antt =====
-- rlu.c: the writer locks, and the list of those that the current write set holds.
pub mod Release
use rcx_hashtables.Base.{
  ℕ, suc, ◌+◌, Bool, true, false, ltb, ◌==◌, not, if◌then◌else◌, List, [], ◌∷◌, ◌++◌, contains,
}
use rcx_hashtables.Rlu.{
  Thread, State, Env, ok, fault, Cmd, pure, ◌>>=◌, ◌>>◌, rlu_assert, gets, modify_self, tick,
  with_ws, write,
}

abbrev pub rlu_max_nested_writer_locks : ℕ
rlu_max_nested_writer_locks = 20

abbrev pub rlu_max_writer_locks : ℕ
rlu_max_writer_locks = 20000

abbrev pub lock_id : ℕ → ℕ
lock_id th_id = th_id + 1

abbrev pub length : List ℕ → ℕ
length [] = 0
length (x ∷ xs) = suc (length xs)

unfoldable pub rlu_reset_writer_locks : ℕ → Thread → Thread
rlu_reset_writer_locks ws_id t = with_ws ws_id (λ w. record w { writer_locks = [] }) t

abbrev pub current_locks : State → List ℕ
current_locks s = (s.self.obj_write_set s.self.ws_cur_id).writer_locks

-- The ids are in a list, in the order in which the code puts them into its array.
unfoldable pub rlu_add_writer_lock : ℕ → Cmd (Unit {0})
rlu_add_writer_lock id = do
  ids ← gets current_locks
  rlu_assert (not (contains ids id))
  modify_self (λ t. with_ws t.ws_cur_id (λ w. record w { writer_locks = ids ++ id ∷ [] }) t)
  rlu_assert (ltb (length ids + 1) rlu_max_nested_writer_locks)

abbrev pub set_lock : ℕ → ℕ → Cmd (Unit {0})
set_lock id v s = ok tt (record s { writer_locks = write s.writer_locks id v })

module _ (E : Env) where
  -- The read of the lock, and the compare-and-swap after it.
  unfoldable pub rlu_try_acquire_writer_lock : ℕ → Cmd Bool
  unfolding tick
  rlu_try_acquire_writer_lock id = if not (ltb id rlu_max_writer_locks) then (λ _. fault) else (do
    cur_lock ← gets (λ s. s.writer_locks id)
    if not (cur_lock == 0) then pure false else (do
      tick E
      old ← gets (λ s. s.writer_locks id)
      if not (old == 0)
          then pure false
          else (do me ← gets (λ s. s.self.uniq_id); set_lock id (lock_id me); pure true)))

unfoldable pub rlu_release_writer_lock : ℕ → Cmd (Unit {0})
rlu_release_writer_lock id = do
  mine ← gets (λ s. s.writer_locks id == lock_id s.self.uniq_id)
  rlu_assert mine
  set_lock id 0

unfoldable pub release_ids : List ℕ → Cmd (Unit {0})
unfolding rlu_release_writer_lock
release_ids [] = pure tt
release_ids (id ∷ ids) = do rlu_release_writer_lock id; release_ids ids

unfoldable pub rlu_release_writer_locks : ℕ → Cmd (Unit {0})
unfolding release_ids
rlu_release_writer_locks ws_id = do
  ids ← gets (λ s. (s.self.obj_write_set ws_id).writer_locks)
  release_ids ids
