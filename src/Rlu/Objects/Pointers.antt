-- ===== src/Rlu/Objects/Pointers.antt =====
-- Comparison, assignment and dereference of pointers, by the objects that they stand for.
use rcx_hashtables.Base.{
  ℕ, ◌≤◌, ◌<◌, ◌≡◌, ◌≢◌, refl, Bool, true, false, some, arith, Bool-cases, inl, inr, ◌⊎◌, ◌==◌,
  eq_of_==, leb, not, if◌then◌else◌, ap,
}
use rcx_hashtables.Rlu.{
  Ref, null, obj, copy, id_obj_copy, locked, Object, Slot, Thread, State, Env, ok, pure, same_ref,
  tick, is_copy, slot_of, thread_of, get_copy, get_actual, get_slot, force_actual, load_thread,
}
use rcx_hashtables.Rlu.Ends.{returns, Returns}
use rcx_hashtables.Rlu.Objects.{
  try_steal, deref_locked, rlu_deref_slow_path, checked_deref, rlu_deref, actual_or_null,
  rlu_cmp_ptrs,
}

-- The pointer leads to the object, or to a copy of it.
pub data StandsFor (s : State) : Ref → Ref → Type 0 where
  nothing : StandsFor s null null
  itself :
      (a : ℕ) (o : Object)
      → s.heap a ≡ some o
      → is_copy o.p_obj_copy ≡ false
      → StandsFor s (obj a) (obj a)
  its_copy :
      (t w at a : ℕ) (k : Slot)
      → slot_of (thread_of s t) w at ≡ some k
      → k.p_obj_copy ≡ id_obj_copy
      → k.p_obj_actual ≡ obj a
      → StandsFor s (copy t w at) (obj a)

actual-StandsFor : (s : State) (p x : Ref) → StandsFor s p x → actual_or_null p s ≡ ok x s
unfolding actual_or_null force_actual get_copy get_actual
actual-StandsFor s null null nothing = refl
actual-StandsFor s _ _ (itself a o e no_copy) = rw (e, no_copy) refl
actual-StandsFor s _ _ (its_copy t w at a k e header actual) = rw (e, header, e, actual) refl

-- The answer tells whether the two are the same.
abbrev pub Tells : Bool → Ref → Ref → Type 0
Tells b x y = ((b ≡ true) × (x ≡ y)) ⊎ ((b ≡ false) × (x ≢ y))

no_copy_behind : (s : State) (p x : Ref) → StandsFor s p x → (x ≡ null) ⊎ ((a : ℕ) × (x ≡ obj a))
no_copy_behind s _ _ nothing = inl refl
no_copy_behind s _ _ (itself a o e no_copy) = inr (a, refl)
no_copy_behind s _ _ (its_copy t w at a k e header actual) = inr (a, refl)

obj-Tells : (a b : ℕ) → Tells (same_ref (obj a) (obj b)) (obj a) (obj b)
obj-Tells a b = elim (Bool-cases (a == b)) [
  | inl same ↦ inl (same, ap obj (eq_of_== a b same))
  | inr other ↦ inr (other, λ e. ground (arith, e, other))
]

StandsFor-Tells :
    (s : State) (p q x y : Ref) → StandsFor s p x → StandsFor s q y → Tells (same_ref x y) x y
StandsFor-Tells s p q x y d e = elim (no_copy_behind s p x d) [
  | inl n ↦ elim (no_copy_behind s q y e) [
    | inl m ↦ rw (n, m) (inl (refl, refl))
    | inr (b, m) ↦ rw (n, m) (inr (refl, λ f. ground (arith, f)))
  ]
  | inr (a, n) ↦ elim (no_copy_behind s q y e) [
    | inl m ↦ rw (n, m) (inr (refl, λ f. ground (arith, f)))
    | inr (b, m) ↦ rw (n, m) (obj-Tells a b)
  ]
]

-- Two pointers that stand for objects, or are NULL, are the same to `rlu_cmp_ptrs` if and only if
-- they stand for the same object: it makes no difference which of them leads to a copy.
pub rlu_cmp_ptrs_lem :
    (s : State) (p q x y : Ref)
    → StandsFor s p x
    → StandsFor s q y
    → Returns (λ b s'. (s' ≡ s) × Tells b x y) (rlu_cmp_ptrs p q s)
unfolding rlu_cmp_ptrs
rlu_cmp_ptrs_lem s p q x y d e =
    rw (actual-StandsFor s p x d, actual-StandsFor s q y e)
      (returns (refl, StandsFor-Tells s p q x y d e))

-- Which of an object and its copy a dereference gives: the copy if this thread has made it, or if
-- this thread may steal and the other one's writer version is not after this thread's version.
pub data Sees (me th steal_from version : ℕ) (is_steal : Bool) (p_obj p_copy : Ref)
    : Ref → Type 0 where
  own : (th == me) ≡ true → Sees me th steal_from version is_steal p_obj p_copy p_copy
  stolen :
      (th == me) ≡ false
      → is_steal ≡ true
      → steal_from ≤ version
      → Sees me th steal_from version is_steal p_obj p_copy p_copy
  not_yet :
      (th == me) ≡ false
      → (is_steal ≡ false) ⊎ (version < steal_from)
      → Sees me th steal_from version is_steal p_obj p_copy p_obj

module _ (s : State) (a th w at : ℕ) (o : Object) (k : Slot) (u : Thread)
    (there : s.heap a ≡ some o) (lock : o.p_obj_copy ≡ locked th w at)
    (slot : slot_of (thread_of s th) w at ≡ some k) (owner : k.thread_id ≡ th)
    (thread : thread_of s th ≡ some u) where
  -- What a dereference leaves: its result, and the heap as it was.
  abbrev Looks : Ref → State → Type 0
  Looks p s' =
      Sees s.self.uniq_id th u.writer_version s.self.local_version s.self.is_steal (obj a)
        (copy th w at) p
      × (s'.heap ≡ s.heap)

  try_steal-Sees :
      (th == s.self.uniq_id) ≡ false
      → s.self.is_steal ≡ true
      → Returns Looks (try_steal th (obj a) (locked th w at) s)
  unfolding try_steal load_thread
  try_steal-Sees other steal =
      rw thread (elim (Bool-cases (leb u.writer_version s.self.local_version)) [
        | inl le ↦ rw le (returns (stolen other steal (ground (arith, le)), refl))
        | inr gt ↦ rw gt (returns (not_yet other (inr (ground (arith, gt))), refl))
      ])

  deref_locked-Sees : Returns Looks (deref_locked (obj a) (locked th w at) s)
  unfolding deref_locked get_slot
  deref_locked-Sees =
      rw (slot, owner)
        (elim (Bool-cases (th == s.self.uniq_id)) [
          | inl mine ↦ rw mine (returns (own mine, refl))
          | inr other ↦ elim (Bool-cases s.self.is_steal) [
            | inr honest ↦ rw (other, honest) (returns (not_yet other (inl refl), refl))
            | inl steal ↦
                let runs : (if not s.self.is_steal
                        then pure (obj a)
                        else try_steal th (obj a) (locked th w at))
                      s
                    ≡ try_steal th (obj a) (locked th w at) s =
                  rw steal refl in
                rw (other, runs) (try_steal-Sees other steal)
          ]
        ])

  checked_deref-Sees : Returns Looks (checked_deref (obj a) s)
  unfolding checked_deref rlu_deref_slow_path get_copy
  checked_deref-Sees = rw (there, lock, there, lock) deref_locked-Sees

  -- A dereference of an object that thread `th` has locked, with `s` the state that the thread meets
  -- and locks to be checked there. It returns the copy if the thread is `th` itself, or if it may
  -- steal and the writer version of `th` is not after the thread's own version; and otherwise the object
  -- as it was. The heap does not change.
  pub rlu_deref_lem :
      (E : Env) (s0 : State)
      → E.others s0 ≡ s
      → s.self.is_check_locks ≡ true
      → Returns Looks (rlu_deref E (obj a) s0)
  unfolding rlu_deref tick
  rlu_deref_lem E s0 met check =
      let runs : (if not s.self.is_check_locks then pure (obj a) else checked_deref (obj a)) s
          ≡ checked_deref (obj a) s =
        rw check refl in
      rw (met, runs) checked_deref-Sees
