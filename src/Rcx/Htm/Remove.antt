-- ===== src/Rcx/Htm/Remove.antt =====
-- `rcx_list_remove` under interference.
use rcx_hashtables.Base.{ℕ, ◌<◌, ◌≡◌, ◌⊎◌, true, false, some, [], ◌∷◌}
use rcx_hashtables.Machine
use rcx_hashtables.Machine.{
  Ptr, null, list_val_min, list_val_max, Node, State, Machine, write, Tx, xend, xabort, exception,
  xabort_status, committed, aborted, load,
}
use rcx_hashtables.Machine.Ends
use rcx_hashtables.Machine.Ends.{Ends}
use rcx_hashtables.Shared.{View, Shared, Later}
use rcx_hashtables.Shared.Link.{with_next}
use rcx_hashtables.Shared.Tick.{Fair}
use rcx_hashtables.Shared.Outcome.{Rests, Removed}
use rcx_hashtables.Shared.Sections.{entered}
use rcx_hashtables.Rcu.Search.{Joined, Spot}
use rcx_hashtables.Rcx.{tx_remove}
use rcx_hashtables.Rcx.Htm.Aborts.{Refuses, Aborts}

abbrev with_mark : Node → Node
with_mark n = record n { removed = true }

-- What the transaction of a removal finds.
abbrev TxRemoves : (p q n : Ptr) (s : State) (a b : Node) → Type 0
TxRemoves p q n s a b =
    ((a.p_next ≡ q)
      × (b.p_next ≡ n)
      × (a.removed ≡ false)
      × (tx_remove p q n s
          ≡ xend tt (write (write s.heap p (some (with_next a b.p_next))) q (some (with_mark b)))))
    ⊎ ((code : ℕ) × Refuses (p ∷ q ∷ n ∷ []) s code × (tx_remove p q n s ≡ xabort code))

module _ {head : Ptr} {M : Machine} (F : Fair true head M) {val : ℕ} (small : val < list_val_max)
    (pos : 0 < val) where
  -- What `rcx_list_remove` does: the removal; nothing since the search has met two nodes on either side
  -- of the value, of which the first pointed to the second at a moment of the search; or nothing since
  -- the transaction aborted, with the status that is recorded. In the second case it keeps the read
  -- lock.
  pub data Outcome (s : State) (w : View) : ℕ → State → Type 0 where
    removed : {s' : State} → Removed true head val s w s' → Outcome s w 1 s'
    missed :
        {s' : State} (r : Rests true head (entered s) w s') (p q : Ptr)
        → Joined head s.heap w p q s'.heap r.view
        → (spot : Spot head val s' r.view p q) → val < spot.to.node.val
        → Outcome s w 0 s'
    gave_up :
        {s' t : State} {w1 : View} {p q n : Ptr} {stat : ℕ}
        → Rests true head s w s'
        → Later head s.heap w t.heap w1
        → (spot : Spot head val t w1 p q) → spot.to.node.val ≡ val
        → Aborts M (p ∷ q ∷ n ∷ []) t stat
        → s'.aborts ≡ stat ∷ s.aborts
        → Outcome s w 2 s'
