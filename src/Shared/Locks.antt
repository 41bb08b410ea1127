-- ===== src/Shared/Locks.antt =====
-- The lock of a list, taken before an operation and given back after it.
use rcx_hashtables.Base.{
  ℕ, ◌≡◌, refl, Bool, true, false, List, ◌∷◌, arith, ◌∙◌, ==-refl, ap, contains, Bool-cases, ◌⊎◌,
  inl, inr,
}
use rcx_hashtables.Machine.{
  Ptr, Lock, rcuspin, holds, release, State, Machine, tick, spin_lock, spin_trylock,
}
use rcx_hashtables.Machine.Ends
use rcx_hashtables.Machine.Ends.{Ends, returns, Returns}
use rcx_hashtables.Chain.{elements}
use rcx_hashtables.Shared.{View, Shared, Later, Later-trans}
use rcx_hashtables.Shared.Tick.{Private, Fair, Since-tick}
use rcx_hashtables.Shared.Outcome.{Balanced, Rests, Added, Removed}

-- The thread has waited for the lock of the list, and has it.
pub record Acquired (mark : Bool) (head : Ptr) (s : State) (w : View) (s' : State) (w' : View)
    : Type 0 where
  pub shared : Shared mark head s'.heap w'
  pub private : Private head s' w'
  pub later : Later head s.heap w s'.heap w'
  pub held : s'.held ≡ rcuspin head ∷ s.held
  pub owned : s'.owned ≡ s.owned
  pub read_locks : s'.read_locks ≡ s.read_locks
  pub read_unlocks : s'.read_unlocks ≡ s.read_unlocks
  pub deferred : s'.deferred ≡ s.deferred

abbrev pub unlocked : Ptr → State → State
unlocked head s = record s { held = release (rcuspin head) s.held }

-- What an insertion of `val` under the lock does: the value is new, or it is there.
abbrev pub AddsOrHas :
    (mark : Bool) (head : Ptr) (val : ℕ) (s : State) (w : View) (s' : State) → Type 0
AddsOrHas mark head val s w s' =
    Added mark head val s w s'
    ⊎ ((r : Rests mark head s w s') × (contains (elements r.view.items) val ≡ true))

-- What a removal does: the value was there, or it is not.
abbrev pub RemovesOrLacks :
    (mark : Bool) (head : Ptr) (val : ℕ) (s : State) (w : View) (s' : State) → Type 0
RemovesOrLacks mark head val s w s' =
    Removed mark head val s w s'
    ⊎ ((r : Rests mark head s w s') × (contains (elements r.view.items) val ≡ false))

-- What `spin_trylock` leaves: the lock, or things as they were.
abbrev pub Tried : Bool → Ptr → Machine → State → View → Bool → State → Type 0
Tried mark head M s w got s' =
    ((got ≡ true) × (M.spin_trylock s ≡ true) × ((w' : View) × Acquired mark head s w s' w'))
    ⊎ ((got ≡ false) × (M.spin_trylock s ≡ false) × Rests mark head s w s')

module _ {mark : Bool} {head : Ptr} where
  pub spin_lock-Acquired :
      {M : Machine} (F : Fair mark head M) (s : State) (w : View)
      → Shared mark head s.heap w
      → Private head s w
      → Returns (λ _ s'. (w' : View) × Acquired mark head s w s' w') (spin_lock M (rcuspin head) s)
  unfolding spin_lock
  spin_lock-Acquired {M} F s w S P =
      let step = Since-tick F S P in
      returns (
        F.view s w,
        record {
          shared = step.shared;
          private = record {
            unseen = step.private.unseen;
            backed = step.private.backed;
            vacant = step.private.vacant;
          };
          later = step.later;
          held = ap (λ (l : List Lock). rcuspin head ∷ l) step.locals.held;
          owned = step.locals.owned;
          read_locks = step.locals.read_locks;
          read_unlocks = step.locals.read_unlocks;
          deferred = step.locals.deferred;
        },
      )

  -- A thread that only lets the others run.
  pub Rests-tick :
      {M : Machine} (F : Fair mark head M) (s : State) (w : View)
      → Shared mark head s.heap w
      → Private head s w
      → Rests mark head s w (tick M s)
  Rests-tick F s w S P =
      let step = Since-tick F S P in
      record {
        view = F.view s w;
        shared = step.shared;
        private = step.private;
        later = step.later;
        balanced = ground (arith, step.locals);
        deferred = step.locals.deferred;
      }

  pub spin_trylock-Tried :
      {M : Machine} (F : Fair mark head M) (s : State) (w : View)
      → Shared mark head s.heap w
      → Private head s w
      → Returns (λ got s'. Tried mark head M s w got s') (spin_trylock M (rcuspin head) s)
  unfolding spin_trylock
  spin_trylock-Tried {M} F s w S P = elim (Bool-cases (M.spin_trylock s)) [
    | inl free ↦
        rw free (Ends.bind (spin_lock-Acquired F s w S P) λ _ s1 a. returns (inl (refl, refl, a)))
    | inr taken ↦ rw taken (returns (inr (refl, refl, Rests-tick F s w S P)))
  ]

  pub holds-Acquired :
      {s s1 : State} {w w1 : View}
      → Acquired mark head s w s1 w1
      → holds s1.held (rcuspin head) ≡ true
  unfolding holds
  holds-Acquired a = rw (a.held, ==-refl head)

  module _ {s s1 s' : State} {w w1 : View} (a : Acquired mark head s w s1 w1) where
    pub Balanced-unlocked : Balanced s1 s' → Balanced s (unlocked head s')
    unfolding release
    Balanced-unlocked b = record {
      owned = b.owned ∙ a.owned;
      held = rw (b.held, a.held, ==-refl head);
      nesting = omega (arith, b.nesting, a.read_locks, a.read_unlocks);
    }

    pub Added-unlocked :
        {val : ℕ} → Added mark head val s1 w1 s' → Added mark head val s w (unlocked head s')
    Added-unlocked r = record {
      node = r.node;
      heap = r.heap;
      view = r.view;
      view' = r.view';
      before = Later-trans a.later r.before;
      change = r.change;
      private = record {
        unseen = r.private.unseen;
        backed = r.private.backed;
        vacant = r.private.vacant;
      };
      balanced = Balanced-unlocked r.balanced;
      deferred = r.deferred ∙ a.deferred;
    }

    pub Removed-unlocked :
        {val : ℕ} → Removed mark head val s1 w1 s' → Removed mark head val s w (unlocked head s')
    Removed-unlocked r = record {
      node = r.node;
      heap = r.heap;
      view = r.view;
      view' = r.view';
      before = Later-trans a.later r.before;
      change = r.change;
      private = record {
        unseen = r.private.unseen;
        backed = r.private.backed;
        vacant = r.private.vacant;
      };
      balanced = Balanced-unlocked r.balanced;
      deferred = rw a.deferred at r.deferred;
    }

    unfoldable pub Rests-unlocked :
        Rests mark head s1 w1 s' → Rests mark head s w (unlocked head s')
    Rests-unlocked r = record {
      view = r.view;
      shared = r.shared;
      private = record {
        unseen = r.private.unseen;
        backed = r.private.backed;
        vacant = r.private.vacant;
      };
      later = Later-trans a.later r.later;
      balanced = Balanced-unlocked r.balanced;
      deferred = r.deferred ∙ a.deferred;
    }

    pub AddsOrHas-unlocked :
        {val : ℕ}
        → AddsOrHas mark head val s1 w1 s'
        → AddsOrHas mark head val s w (unlocked head s')
    unfolding Rests-unlocked
    AddsOrHas-unlocked (inl r) = inl (Added-unlocked r)
    AddsOrHas-unlocked (inr (r, e)) = inr (Rests-unlocked r, e)

    pub RemovesOrLacks-unlocked :
        {val : ℕ}
        → RemovesOrLacks mark head val s1 w1 s'
        → RemovesOrLacks mark head val s w (unlocked head s')
    unfolding Rests-unlocked
    RemovesOrLacks-unlocked (inl r) = inl (Removed-unlocked r)
    RemovesOrLacks-unlocked (inr (r, e)) = inr (Rests-unlocked r, e)
