-- ===== src/Shared/Tick.antt =====
-- What the other threads may do, what the kernel promises, and what a thread can count on while it
-- runs.
use rcx_hashtables.Base.{ℕ, ◌≤◌, ◌≡◌, ◌≢◌, Bool, true, false, none, some, arith, contains, ◌∙◌}
use rcx_hashtables.Machine.{
  Ptr, null, Node, Heap, rcuspin, holds, State, Machine, ok, tick, load, store, write,
}
use rcx_hashtables.Shared.{View, known, Shared, Later, Later-trans}

-- No other thread has seen the nodes that the thread owns, and the memory has an end.
pub record Private (head : Ptr) (s : State) (w : View) : Type 0 where
  pub unseen : (a : Ptr) → contains s.owned a ≡ true → known head w a ≡ false
  pub backed : (a : Ptr) → contains s.owned a ≡ true → (n : Node) × (s.heap a ≡ some n)
  pub vacant : (a : Ptr) → s.top ≤ a → s.heap a ≡ none

-- The others keep the invariant and do not touch what the thread owns. While it holds the lock of
-- the list they leave the list alone.
pub record Interferes (mark : Bool) (head : Ptr) (s : State) (w : View) (g : Heap) (top : ℕ)
    (w' : View) : Type 0 where
  pub shared : Shared mark head g w'
  pub later : Later head s.heap w g w'
  pub vacant : (a : Ptr) → top ≤ a → g a ≡ none
  pub spares : (a : Ptr) → contains s.owned a ≡ true → (g a ≡ s.heap a) × (known head w' a ≡ false)
  pub frozen :
      holds s.held (rcuspin head) ≡ true
      → (w' ≡ w) × ((a : Ptr) → known head w a ≡ true → g a ≡ s.heap a)

-- A machine on which every thread uses the lists as this one does, memory does not run out, and nodes that
-- have been unlinked stay readable while the operation runs, also outside a read-side critical section.
pub record Fair (mark : Bool) (head : Ptr) (M : Machine) : Type 0 where
  pub view : State → View → View
  pub others :
      (s : State) (w : View)
      → Shared mark head s.heap w
      → Private head s w
      → Interferes mark head s w (M.others s) (M.others_top s) (view s w)
  pub memory : (s : State) → M.kmalloc s ≢ null
  pub unused : (s : State) → ((a : Ptr) → s.top ≤ a → s.heap a ≡ none) → s.heap (M.kmalloc s) ≡ none

-- What the thread keeps for itself is as before.
pub record SameLocals (s s' : State) : Type 0 where
  pub owned : s'.owned ≡ s.owned
  pub held : s'.held ≡ s.held
  pub read_locks : s'.read_locks ≡ s.read_locks
  pub read_unlocks : s'.read_unlocks ≡ s.read_unlocks
  pub deferred : s'.deferred ≡ s.deferred
  pub aborts : s'.aborts ≡ s.aborts

-- The thread has only looked on.
pub record Since (mark : Bool) (head : Ptr) (s : State) (w : View) (s' : State) (w' : View)
    : Type 0 where
  pub shared : Shared mark head s'.heap w'
  pub private : Private head s' w'
  pub later : Later head s.heap w s'.heap w'
  pub locals : SameLocals s s'
  pub own : (a : Ptr) → contains s.owned a ≡ true → s'.heap a ≡ s.heap a
  pub frozen :
      holds s.held (rcuspin head) ≡ true
      → (w' ≡ w) × ((a : Ptr) → known head w a ≡ true → s'.heap a ≡ s.heap a)

-- The thread has changed at most its own nodes.
pub record Keeps (mark : Bool) (head : Ptr) (s : State) (w : View) (s' : State) (w' : View)
    : Type 0 where
  pub shared : Shared mark head s'.heap w'
  pub private : Private head s' w'
  pub later : Later head s.heap w s'.heap w'
  pub held : s'.held ≡ s.held
  pub read_locks : s'.read_locks ≡ s.read_locks
  pub read_unlocks : s'.read_unlocks ≡ s.read_unlocks
  pub deferred : s'.deferred ≡ s.deferred
  pub aborts : s'.aborts ≡ s.aborts
  pub frozen :
      holds s.held (rcuspin head) ≡ true
      → (w' ≡ w) × ((a : Ptr) → known head w a ≡ true → s'.heap a ≡ s.heap a)

module _ {mark : Bool} {head : Ptr} where
  pub Since-Keeps :
      {s s' : State} {w w' : View} → Since mark head s w s' w' → Keeps mark head s w s' w'
  Since-Keeps p = record {
    shared = p.shared;
    private = p.private;
    later = p.later;
    held = p.locals.held;
    read_locks = p.locals.read_locks;
    read_unlocks = p.locals.read_unlocks;
    deferred = p.locals.deferred;
    aborts = p.locals.aborts;
    frozen = p.frozen;
  }

  pub Keeps-trans :
      {s s' s'' : State} {w w' w'' : View}
      → Keeps mark head s w s' w'
      → Keeps mark head s' w' s'' w''
      → Keeps mark head s w s'' w''
  Keeps-trans p q = record {
    shared = q.shared;
    private = q.private;
    later = Later-trans p.later q.later;
    held = q.held ∙ p.held;
    read_locks = q.read_locks ∙ p.read_locks;
    read_unlocks = q.read_unlocks ∙ p.read_unlocks;
    deferred = q.deferred ∙ p.deferred;
    aborts = q.aborts ∙ p.aborts;
    frozen = λ l.
        let (same, keep) = p.frozen l in
        let (same', keep') = q.frozen (rw p.held l) in
        (same' ∙ same, λ a k. keep' a (rw same k) ∙ keep a k);
  }

module _ {mark : Bool} {head : Ptr} where
  pub Since-trans :
      {s s' s'' : State} {w w' w'' : View}
      → Since mark head s w s' w'
      → Since mark head s' w' s'' w''
      → Since mark head s w s'' w''
  Since-trans {s} {s'} {s''} {w} {w'} {w''} p q = record {
    shared = q.shared;
    private = q.private;
    later = Later-trans p.later q.later;
    locals = ground (arith, p.locals, q.locals);
    own = λ a k. q.own a (rw p.locals.owned k) ∙ p.own a k;
    frozen = λ l.
        let (same, keep) = p.frozen l in
        let (same', keep') = q.frozen (rw p.locals.held l) in
        (same' ∙ same, λ a k. keep' a (rw same k) ∙ keep a k);
  }

  module _ {M : Machine} (F : Fair mark head M) where
    pub Since-tick :
        {s : State} {w : View}
        → Shared mark head s.heap w
        → Private head s w
        → Since mark head s w (tick M s) (F.view s w)
    unfolding tick
    Since-tick {s} {w} S P =
        let step = F.others s w S P in
        record {
          shared = step.shared;
          private = record {
            unseen = λ a k. (step.spares a k).1;
            backed = λ a k. let (n, e) = P.backed a k in (n, (step.spares a k).0 ∙ e);
            vacant = step.vacant;
          };
          later = step.later;
          locals = ground arith;
          own = λ a k. (step.spares a k).0;
          frozen = step.frozen;
        }

-- A read of a node, and a write to one.
pub load-ok :
    (M : Machine) {A : Type 0} (s : State) (p : Ptr) (f : Node → A) (n : Node)
    → (tick M s).heap p ≡ some n
    → load M p f s ≡ ok (f n) (tick M s)
unfolding load
load-ok M s p f n e = rw e

pub store-ok :
    (M : Machine) (s : State) (p : Ptr) (f : Node → Node) (n : Node)
    → (tick M s).heap p ≡ some n
    → store M p f s ≡ ok tt (record (tick M s) { heap = write (tick M s).heap p (some (f n)) })
unfolding store
store-ok M s p f n e = rw e
