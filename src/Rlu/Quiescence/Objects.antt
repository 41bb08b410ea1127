-- ===== src/Rlu/Quiescence/Objects.antt =====
-- While the others write no object and no global version, neither does a wait for them.
use rcx_hashtables.Base.{
  ℕ, zero, suc, ◌≡◌, refl, Bool, true, false, ◌==◌, ltb, not, ◌∙◌, if◌then◌else◌, Option, some,
  none,
}
use rcx_hashtables.Rlu.{
  Object, State, Env, Run, ok, assert_failed, fault, out_of_fuel, Cmd, and_then, tick, load_thread,
  thread_of, read,
}
use rcx_hashtables.Rlu.Ends.{returns, late_end, Returns}
use rcx_hashtables.Rlu.Sync.{
  init_entry, init_entries, rlu_init_quiescence, wait_over, wait_thread, wait_threads,
  rlu_wait_for_quiescence, wait_for_all, rlu_synchronize, q_iters_limit,
}

-- The objects and the two global versions.
abbrev pub shared : State → (ℕ → Option Object) × (ℕ × ℕ)
shared s = (s.heap, (s.writer_version, s.commit_version))

-- If the run returns, its state has the objects and the versions of `s`.
data KeepsShared {B : Type 0} (s : State) : Run B → Type 0 where
  returned : {b : B} {s' : State} → shared s' ≡ shared s → KeepsShared s (ok b s')
  failed : KeepsShared s assert_failed
  at_fault : KeepsShared s fault
  ran_out : KeepsShared s out_of_fuel

KeepsShared-from :
    {B : Type 0} {s s' : State} {r : Run B}
    → shared s' ≡ shared s
    → KeepsShared s' r
    → KeepsShared s r
KeepsShared-from e (returned f) = returned (f ∙ e)
KeepsShared-from e failed = failed
KeepsShared-from e at_fault = at_fault
KeepsShared-from e ran_out = ran_out

module _ {B : Type 0} {s : State} where
  KeepsShared-bind :
      {C : Type 0} {r : Run B} (k : B → Cmd C)
      → KeepsShared s r
      → ((b : B) (s' : State) → KeepsShared s' (k b s'))
      → KeepsShared s (and_then r k)
  KeepsShared-bind k (returned {b} {s'} e) next = KeepsShared-from {s' = s'} e (next b s')
  KeepsShared-bind k failed next = failed
  KeepsShared-bind k at_fault next = at_fault
  KeepsShared-bind k ran_out next = ran_out

  KeepsShared-if :
      (b : Bool) (m m' : Cmd B)
      → KeepsShared s (m s)
      → KeepsShared s (m' s)
      → KeepsShared s ((if b then m else m') s)
  KeepsShared-if true m m' e f = e
  KeepsShared-if false m m' e f = f

  KeepsShared-read : {A : Type 0} (t : Option A) (f : A → B) → KeepsShared s (read t f s)
  KeepsShared-read none f = at_fault
  KeepsShared-read (some x) f = returned refl

both :
    {P : State → Type 0} {s : State} {r : Run (Unit {0})}
    → Returns (λ _ s'. P s') r
    → KeepsShared s r
    → Returns (λ _ s'. P s' × (shared s' ≡ shared s)) r
both (returns p) (returned e) = returns (p, e)
both (late_end l) e = absurd l

init_entries-shared : (count th : ℕ) (s : State) → shared (init_entries count th s) ≡ shared s
unfolding init_entries init_entry
init_entries-shared zero th s = refl
init_entries-shared (suc count) th s = init_entries-shared count (suc th) (init_entry th s)

module _ (E : Env) (frozen : (s : State) → shared (E.others s) ≡ shared s) where
  wait_over-shared : (th limit : ℕ) (s : State) → KeepsShared s (wait_over E th limit s)
  unfolding wait_over tick load_thread
  wait_over-shared th limit s =
      let s1 : State = E.others s in
      KeepsShared-from {s' = s1} (frozen s) (
        KeepsShared-bind _ (KeepsShared-read (thread_of s1 th) (λ t. t)) λ u s2.
          KeepsShared-if (not ((s1.self.q_threads th).run_counter == u.run_counter)) _ _
            (returned refl) (KeepsShared-if (limit == 0) _ _ (returned refl) (returned refl)))

  wait_thread-shared :
      (fuel th limit iters : ℕ) (s : State) → KeepsShared s (wait_thread E fuel th limit iters s)
  unfolding wait_thread
  wait_thread-shared zero th limit iters s = ran_out
  wait_thread-shared (suc fuel) th limit iters s =
      KeepsShared-if (not (s.self.q_threads th).is_wait) _ _ (returned refl) (
        KeepsShared-bind _ (wait_over-shared th limit s) λ over s1.
          KeepsShared-if over _ _ (returned refl) (
            wait_thread-shared fuel th limit
              (if ltb q_iters_limit (suc iters) then 0 else suc iters) s1))

  wait_threads-shared :
      (fuel count th limit iters : ℕ) (s : State)
      → KeepsShared s (wait_threads E fuel count th limit iters s)
  unfolding wait_threads
  wait_threads-shared fuel zero th limit iters s = returned refl
  wait_threads-shared fuel (suc count) th limit iters s =
      KeepsShared-bind _ (wait_thread-shared fuel th limit iters s)
        λ n s1. wait_threads-shared fuel count (suc th) limit n s1

  synchronize-shared : (fuel : ℕ) (s : State) → KeepsShared s (rlu_synchronize E fuel s)
  unfolding rlu_synchronize wait_for_all rlu_init_quiescence rlu_wait_for_quiescence tick
  synchronize-shared fuel s =
      let s1 : State = E.others s in
      let s2 : State = init_entries s1.cur_threads 0 s1 in
      KeepsShared-if s.self.is_no_quiescence _ _ (returned refl) (
        KeepsShared-from {s' = s2} (init_entries-shared s1.cur_threads 0 s1 ∙ frozen s) (
          KeepsShared-bind _ (wait_threads-shared fuel s2.cur_threads 0 s2.self.writer_version 0 s2)
            λ n s3. returned refl))

  -- A wait that returns has changed no object and no version.
  pub synchronize-KeepsShared :
      {P : State → Type 0} (fuel : ℕ) (s : State)
      → Returns (λ _ s'. P s') (rlu_synchronize E fuel s)
      → Returns (λ _ s'. P s' × (shared s' ≡ shared s)) (rlu_synchronize E fuel s)
  synchronize-KeepsShared fuel s e = both e (synchronize-shared fuel s)
