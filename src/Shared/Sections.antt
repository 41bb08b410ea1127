-- ===== src/Shared/Sections.antt =====
-- An operation inside a read-side critical section of RCU.
use rcx_hashtables.Base.{ℕ, ◌+◌, Bool, arith}
use rcx_hashtables.Machine.{Ptr, State}
use rcx_hashtables.Shared.{View}
use rcx_hashtables.Shared.Tick.{Private}
use rcx_hashtables.Shared.Outcome.{Balanced, Rests, Added, Removed}

-- After `rcu_read_lock`, and after `rcu_read_unlock`.
abbrev pub entered : State → State
entered s = record s { read_locks = s.read_locks + 1 }

abbrev pub left : State → State
left s = record s { read_unlocks = s.read_unlocks + 1 }

pub Private-entered :
    {head : Ptr} {s : State} {w : View} → Private head s w → Private head (entered s) w
Private-entered p = record { unseen = p.unseen; backed = p.backed; vacant = p.vacant }

pub Private-left : {head : Ptr} {s : State} {w : View} → Private head s w → Private head (left s) w
Private-left p = record { unseen = p.unseen; backed = p.backed; vacant = p.vacant }

pub Balanced-left : {s s' : State} → Balanced (entered s) s' → Balanced s (left s')
Balanced-left b = record { owned = b.owned; held = b.held; nesting = omega (arith, b.nesting) }

module _ {mark : Bool} {head : Ptr} {s s' : State} {w : View} where
  unfoldable pub Rests-left : Rests mark head (entered s) w s' → Rests mark head s w (left s')
  Rests-left r = record {
    view = r.view;
    shared = r.shared;
    private = Private-left r.private;
    later = r.later;
    balanced = Balanced-left r.balanced;
    deferred = r.deferred;
  }

  pub Added-left :
      {val : ℕ} → Added mark head val (entered s) w s' → Added mark head val s w (left s')
  Added-left r = record {
    node = r.node;
    heap = r.heap;
    view = r.view;
    view' = r.view';
    before = r.before;
    change = r.change;
    private = Private-left r.private;
    balanced = Balanced-left r.balanced;
    deferred = r.deferred;
  }

  pub Removed-left :
      {val : ℕ} → Removed mark head val (entered s) w s' → Removed mark head val s w (left s')
  Removed-left r = record {
    node = r.node;
    heap = r.heap;
    view = r.view;
    view' = r.view';
    before = r.before;
    change = r.change;
    private = Private-left r.private;
    balanced = Balanced-left r.balanced;
    deferred = r.deferred;
  }
