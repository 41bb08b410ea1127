-- ===== src/Rlu/Objects.antt =====
-- rlu.c: what a thread does to objects inside a section.
pub mod Lock
pub mod TryLock
pub mod Pointers
use rcx_hashtables.Base.{
  ℕ, ◌+◌, Bool, true, false, leb, ◌==◌, not, if◌then◌else◌, Option, none, some,
}
use rcx_hashtables.Rlu.{
  Ref, null, obj, copy, Header, unlocked, id_obj_copy, locked, Thread, State, Env, ok, Cmd, pure,
  ◌>>=◌, ◌>>◌, rlu_assert, gets, modify_self, load_thread, tick, same_ref, rlu_type_coarse_grained,
  get_copy, get_slot, get_actual, is_copy, force_actual, store_object, store_item,
}
use rcx_hashtables.Rlu.WriteSet.{
  rlu_add_ws_obj_header_to_write_set, rlu_add_obj_copy_to_write_set, same_header,
}
use rcx_hashtables.Rlu.Sync.{is_unlocked, ask, rlu_send_sync_request}
use rcx_hashtables.Rlu.Section.{count_with}

-- The copy that the header of a locked object points to.
abbrev pub copy_of : Header → Ref
copy_of (locked t w o) = copy t w o
copy_of _ = null

-- The object is locked by another thread.
unfoldable pub try_steal : (th_id : ℕ) → Ref → Header → Cmd Ref
try_steal th_id p_obj h = do
  u ← load_thread th_id
  version ← gets (λ s. s.self.local_version)
  if leb u.writer_version version
      then (do count_with (λ n. record n { n_steals = n.n_steals + 1 }); pure (copy_of h))
      else pure p_obj

-- The object is locked by `k`'s thread, and the running thread looks at it.
unfoldable pub deref_locked : Ref → Header → Cmd Ref
unfolding try_steal
deref_locked p_obj h = do
  k ← get_slot h
  me ← gets (λ s. s.self)
  if k.thread_id == me.uniq_id
      then pure (copy_of h)
      else (if not me.is_steal then pure p_obj else try_steal k.thread_id p_obj h)

unfoldable pub rlu_deref_slow_path : Ref → Cmd Ref
unfolding deref_locked
rlu_deref_slow_path null = pure null
rlu_deref_slow_path p_obj = do
  h ← get_copy p_obj
  if is_unlocked h then pure p_obj else (if is_copy h then pure p_obj else deref_locked p_obj h)

-- RLU_DEREF
unfoldable pub checked_deref : Ref → Cmd Ref
unfolding rlu_deref_slow_path
checked_deref null = rlu_deref_slow_path null
checked_deref p_obj = do
  h ← get_copy p_obj
  if is_unlocked h then pure p_obj else rlu_deref_slow_path p_obj

module _ (E : Env) where
  unfoldable pub rlu_deref : Ref → Cmd Ref
  unfolding checked_deref
  rlu_deref p_obj = do
    tick E
    check ← gets (λ s. s.self.is_check_locks)
    if not check then pure p_obj else checked_deref p_obj

-- The object is locked: success if this run of the thread has locked it.
unfoldable pub lock_again : Header → Cmd (Option Ref)
lock_again h = do
  k ← get_slot h
  me ← gets (λ s. s.self)
  if k.thread_id == me.uniq_id
      then (if me.run_counter == k.run_counter
          then pure (some (copy_of h))
          else (do modify_self ask; pure none))
      else (do rlu_send_sync_request k.thread_id; modify_self ask; pure none)

abbrev pub detect_write : Thread → Thread
detect_write t =
    if t.is_write_detected then t else record t { is_write_detected = true; is_check_locks = true }

-- The copy stands at `at` of the current write set, and the object's header leads to it.
unfoldable pub copy_locked : Ref → (obj_size : ℕ) → (me : Thread) → (at : ℕ) → Cmd (Option Ref)
copy_locked p_obj obj_size me at = do
  store_object p_obj (λ o. record o { p_obj_copy = locked me.uniq_id me.ws_cur_id at })
  rlu_add_obj_copy_to_write_set p_obj obj_size
  h ← get_copy p_obj
  rlu_assert (same_header h (locked me.uniq_id me.ws_cur_id at))
  pure (some (copy me.uniq_id me.ws_cur_id at))

module _ (E : Env) where
  -- The compare-and-swap may fail: then the header that was added stays in the buffer.
  unfoldable pub lock_header : Ref → ℕ → Cmd (Option Ref)
  unfolding copy_locked
  lock_header p_obj obj_size = do
    at ← rlu_add_ws_obj_header_to_write_set p_obj obj_size
    tick E
    h ← get_copy p_obj
    me ← gets (λ s. s.self)
    if is_unlocked h then copy_locked p_obj obj_size me at else pure none

  unfoldable pub lock_free : Ref → ℕ → Cmd (Option Ref)
  unfolding lock_header
  lock_free p_obj obj_size = do modify_self detect_write; lock_header p_obj obj_size

  -- The pointer that `*p_p_obj` is set to, or `none` for the result 0.
  unfoldable pub try_lock_actual : Ref → Header → ℕ → Cmd (Option Ref)
  unfolding lock_again lock_free
  try_lock_actual p_obj h obj_size =
      if is_unlocked h then lock_free p_obj obj_size else lock_again h

  unfoldable pub rlu_try_lock : Ref → ℕ → Cmd (Option Ref)
  unfolding try_lock_actual
  rlu_try_lock p_obj obj_size = do
    rlu_assert (not (same_ref p_obj null))
    tick E
    h ← get_copy p_obj
    if is_copy h
        then (do p' ← get_actual p_obj; h' ← get_copy p'; try_lock_actual p' h' obj_size)
        else try_lock_actual p_obj h obj_size

  unfoldable pub rlu_lock : Ref → ℕ → Cmd (Option Ref)
  unfolding rlu_try_lock
  rlu_lock p_obj obj_size = do
    coarse ← gets (λ s. s.self.type == rlu_type_coarse_grained)
    rlu_assert coarse
    r ← rlu_try_lock p_obj obj_size
    rlu_assert (elim r [ none ↦ false | some _ ↦ true ])
    pure r

unfoldable pub actual_or_null : Ref → Cmd Ref
actual_or_null null = pure null
actual_or_null p = force_actual p

unfoldable pub rlu_cmp_ptrs : Ref → Ref → Cmd Bool
unfolding actual_or_null
rlu_cmp_ptrs p q = do p' ← actual_or_null p; q' ← actual_or_null q; pure (same_ref p' q')

-- `*p_ptr` is the field `p_next` of `node`.
unfoldable pub rlu_assign_pointer : (node p_obj : Ref) → Cmd (Unit {0})
unfolding actual_or_null
rlu_assign_pointer node p_obj = do
  p' ← actual_or_null p_obj
  store_item node (λ i. record i { p_next = p' })
