-- ===== src/Tests/Objects.antt =====
-- Locks and pointers of RLU, at a thread that has locked one object.
use rcx_hashtables.Base.{◌+◌, ◌≡◌, refl, arith, true}
use rcx_hashtables.Rlu.{obj, copy, State, Env, rlu_type_coarse_grained}
use rcx_hashtables.Rlu.Ends.{Returns}
use rcx_hashtables.Rlu.Others.{Respects}
use rcx_hashtables.Rlu.WriterLocks.Release.{Released, take_and_release, take_and_release_lem}
use rcx_hashtables.Rlu.Objects.{rlu_try_lock, rlu_cmp_ptrs, rlu_deref}
use rcx_hashtables.Rlu.Objects.TryLock.{KeepsObjects, Tried, rlu_try_lock_lem}
use rcx_hashtables.Rlu.Objects.Pointers.{
  itself, its_copy, Tells, Sees, rlu_cmp_ptrs_lem, rlu_deref_lem,
}
use rcx_hashtables.Tests.WriteSets.{writer, locked_one, copy_of_one, locked_one-IsLaid}

-- The others only ask the thread to synchronize.
abbrev pub asking : Env
asking = record {
  others = λ s. record s { self = record (s.self) { is_sync = s.self.is_sync + 1 } };
  malloc = λ _. 0;
  malloc_struct = λ _. true;
}

pub asking-Respects : Respects asking
asking-Respects = record {
  is_sync = λ s. s.self.is_sync + 1;
  self = λ s. refl;
  locks = λ s a w at o e f. e;
}

asking-KeepsObjects : KeepsObjects asking
asking-KeepsObjects s a o e = (o, e)

rlu_try_lock_example :
    Returns
      (Tried 2 0 0 (locked_one.self.obj_write_set 0))
      (rlu_try_lock asking (obj 2) 1024 locked_one)
rlu_try_lock_example =
    rlu_try_lock_lem asking asking-Respects asking-KeepsObjects 2 1024 locked_one _
      locked_one-IsLaid refl refl (omega arith)

abbrev coarse : State
coarse = record locked_one { self = record writer { type = rlu_type_coarse_grained } }

take_and_release_example :
    Returns (λ _ s'. Released asking 7 coarse s') (take_and_release asking 7 coarse)
take_and_release_example =
    take_and_release_lem asking asking-Respects 7 (omega arith) (λ s mine. refl) coarse refl refl

rlu_cmp_ptrs_example :
    Returns
      (λ b s'. (s' ≡ locked_one) × Tells b (obj 1) (obj 1))
      (rlu_cmp_ptrs (copy 0 0 40) (obj 1) locked_one)
rlu_cmp_ptrs_example =
    rlu_cmp_ptrs_lem locked_one (copy 0 0 40) (obj 1) (obj 1) (obj 1)
      (its_copy 0 0 40 1 copy_of_one refl refl refl) (itself 1 _ refl refl)

rlu_deref_example :
    Returns
      (λ p s'.
        Sees 0 0 writer.writer_version 0 writer.is_steal (obj 1) (copy 0 0 40) p
        × (s'.heap ≡ locked_one.heap))
      (rlu_deref asking (obj 1) locked_one)
rlu_deref_example =
    rlu_deref_lem (asking.others locked_one) 1 0 0 40 _ copy_of_one (asking.others locked_one).self
      refl refl refl refl refl asking locked_one refl refl
