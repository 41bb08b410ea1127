-- ===== src/Rcu/Delete.antt =====
-- The state in which a thread has taken a node off a list.
use rcx_hashtables.Base.{ℕ, ◌≤◌, ◌<◌, ◌≡◌, ◌≢◌, Bool, true, some, ◌∷◌, arith, ◌∙◌, sym, contains}
use rcx_hashtables.Machine.{Ptr, list_val_max, Node, State}
use rcx_hashtables.Chain.{has}
use rcx_hashtables.Shared.{View, cells}
use rcx_hashtables.Shared.Link.{with_next}
use rcx_hashtables.Shared.Unlink.{Deletes, unlink_view, Shared-unlink}
use rcx_hashtables.Shared.Tick.{Private, Since}
use rcx_hashtables.Shared.Outcome.{Balanced, Removed}
use rcx_hashtables.Rcu.Search.{Spot}
use rcx_hashtables.Rcu.Insert.{room}

-- `s` is the state before the change, and `s'` any state of the thread after it.
module _ {mark : Bool} {head : Ptr} {val : ℕ} (small : val < list_val_max) {s0 s : State}
    (s' : State) {w0 w : View} {p q : Ptr} (before : Since mark head s0 w0 s w)
    (spot : Spot head val s w p q) (is : spot.to.node.val ≡ val) (on : has (cells head w) p ≡ true)
    (next : spot.node.p_next ≡ q) {m : Node}
    (at_p : s'.heap p ≡ some (with_next spot.node spot.to.node.p_next)) (at_q : s'.heap q ≡ some m)
    (same_val : m.val ≡ spot.to.node.val) (same_next : m.p_next ≡ spot.to.node.p_next)
    (marks : mark ≡ true → m.removed ≡ true)
    (same : (a : Ptr) → a ≢ p → a ≢ q → s'.heap a ≡ s.heap a) (top : s'.top ≡ s.top) where
  unlink-Deletes : Deletes mark head q val s.heap w s'.heap (unlink_view q w)
  unlink-Deletes = rw is at (
      Shared-unlink before.shared on spot.holds_p next spot.to.holds (omega (arith, is, small)) at_p
        at_q same_val same_next marks same spot.to.bound)

  unlink-Private : s'.owned ≡ s0.owned → Private head s' (unlink_view q w)
  unlink-Private owned =
      let mine = λ (a : Ptr) (k : contains s'.owned a ≡ true).
        let still : contains s.owned a ≡ true = rw (owned ∙ sym before.locals.owned) at k in
        still in
      record {
        unseen = λ a k. (unlink-Deletes.spares a (before.private.unseen a (mine a k))).0;
        backed = λ a k.
            let (n, e) = before.private.backed a (mine a k) in
            (n, (unlink-Deletes.spares a (before.private.unseen a (mine a k))).1 ∙ e);
        vacant = λ a k.
            let far : s.top ≤ a = rw top at k in
            let p_in = room before.private spot.holds_p in
            let q_in = room before.private spot.to.holds in
            same a (λ e. omega arith) (λ e. omega arith) ∙ before.private.vacant a far;
      }

  pub unlink-Removed :
      Balanced s0 s' → s'.deferred ≡ q ∷ s0.deferred → Removed mark head val s0 w0 s'
  unlink-Removed balanced deferred = record {
    node = q;
    heap = s.heap;
    view = w;
    view' = unlink_view q w;
    before = before.later;
    change = unlink-Deletes;
    private = unlink-Private balanced.owned;
    balanced = balanced;
    deferred = deferred;
  }
