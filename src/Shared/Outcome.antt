-- ===== src/Shared/Outcome.antt =====
-- What an operation may have done to a list by the time it returns.
use rcx_hashtables.Base.{ℕ, ◌+◌, ◌≡◌, Bool, List, ◌∷◌, arith}
use rcx_hashtables.Machine.{Ptr, Heap, State}
use rcx_hashtables.Shared.{View, Shared, Later}
use rcx_hashtables.Shared.Tick.{Private, Since}
use rcx_hashtables.Shared.Link.{Inserts}
use rcx_hashtables.Shared.Unlink.{Deletes}

-- The thread holds the locks and the nodes that it held, and each `rcu_read_lock` has its unlock.
pub record Balanced (s s' : State) : Type 0 where
  pub owned : s'.owned ≡ s.owned
  pub held : s'.held ≡ s.held
  pub nesting : s'.read_locks + s.read_unlocks ≡ s.read_locks + s'.read_unlocks

-- Only other threads have changed the list.
pub record Rests (mark : Bool) (head : Ptr) (s : State) (w : View) (s' : State) : Type 0 where
  pub view : View
  pub shared : Shared mark head s'.heap view
  pub private : Private head s' view
  pub later : Later head s.heap w s'.heap view
  pub balanced : Balanced s s'
  pub deferred : s'.deferred ≡ s.deferred

-- The thread has added `val`, and the others may have changed the list before.
pub record Added (mark : Bool) (head : Ptr) (val : ℕ) (s : State) (w : View) (s' : State)
    : Type 0 where
  pub node : Ptr
  pub heap : Heap
  pub view : View
  pub view' : View
  pub before : Later head s.heap w heap view
  pub change : Inserts mark head node val heap view s'.heap view'
  pub private : Private head s' view'
  pub balanced : Balanced s s'
  pub deferred : s'.deferred ≡ s.deferred

-- The thread has removed `val`, and left its node to `kfree_rcu`.
pub record Removed (mark : Bool) (head : Ptr) (val : ℕ) (s : State) (w : View) (s' : State)
    : Type 0 where
  pub node : Ptr
  pub heap : Heap
  pub view : View
  pub view' : View
  pub before : Later head s.heap w heap view
  pub change : Deletes mark head node val heap view s'.heap view'
  pub private : Private head s' view'
  pub balanced : Balanced s s'
  pub deferred : s'.deferred ≡ node ∷ s.deferred

pub Since-Balanced :
    {mark : Bool} {head : Ptr} {s s' : State} {w w' : View}
    → Since mark head s w s' w'
    → Balanced s s'
Since-Balanced since = ground (arith, since.locals)

-- A thread that has only looked on.
unfoldable pub Since-Rests :
    {mark : Bool} {head : Ptr} {s s' : State} {w w' : View}
    → Since mark head s w s' w'
    → Rests mark head s w s'
Since-Rests {w'} since = record {
  view = w';
  shared = since.shared;
  private = since.private;
  later = since.later;
  balanced = Since-Balanced since;
  deferred = since.locals.deferred;
}

pub Rests-aborts :
    {mark : Bool} {head : Ptr} {s s' : State} {w : View} (aborts : List ℕ)
    → Rests mark head s w s'
    → Rests mark head s w (record s' { aborts = aborts })
Rests-aborts aborts r = record {
  view = r.view;
  shared = r.shared;
  private = record {
    unseen = r.private.unseen;
    backed = r.private.backed;
    vacant = r.private.vacant;
  };
  later = r.later;
  balanced = record {
    owned = r.balanced.owned;
    held = r.balanced.held;
    nesting = r.balanced.nesting;
  };
  deferred = r.deferred;
}
