-- ===== src/Rcx/Htm/Add.antt =====
-- `rcx_list_add` under interference.
use rcx_hashtables.Base.{ℕ, ◌<◌, ◌≡◌, ◌⊎◌, true, false, some, [], ◌∷◌}
use rcx_hashtables.Machine.{
  Ptr, null, list_val_min, list_val_max, Node, State, Machine, write, Tx, xend, xabort, exception,
  xabort_status, committed, aborted,
}
use rcx_hashtables.Machine
use rcx_hashtables.Machine.Ends
use rcx_hashtables.Machine.Ends.{Ends}
use rcx_hashtables.Shared.{View, known, Shared, Later}
use rcx_hashtables.Shared.Link.{with_next}
use rcx_hashtables.Shared.Tick.{Fair}
use rcx_hashtables.Shared.Outcome.{Rests, Added}
use rcx_hashtables.Rcu.Search.{Spot}
use rcx_hashtables.Rcx.{tx_add}
use rcx_hashtables.Rcx.Htm.Aborts.{Refuses, Aborts}

-- What the transaction of an insertion finds.
abbrev TxAdds : (p q c : Ptr) (s : State) (n : Node) → Type 0
TxAdds p q c s n =
    ((n.p_next ≡ q)
      × (n.removed ≡ false)
      × (tx_add p q c s ≡ xend tt (write s.heap p (some (with_next n c)))))
    ⊎ ((code : ℕ) × Refuses (p ∷ q ∷ []) s code × (tx_add p q c s ≡ xabort code))

module _ {head : Ptr} {M : Machine} (F : Fair true head M) {val : ℕ} (small : val < list_val_max)
    (pos : 0 < val) where
  -- What `rcx_list_add` does: the insertion, nothing since a node with the value was met, or nothing
  -- since the transaction on the place of the value aborted, with the status that is recorded.
  pub data Outcome (s : State) (w : View) : ℕ → State → Type 0 where
    inserted : {s' : State} → Added true head val s w s' → Outcome s w 1 s'
    met :
        {s' : State} (r : Rests true head s w s') (a : Ptr) (n : Node)
        → s'.heap a ≡ some n
        → n.val ≡ val
        → known head r.view a ≡ true
        → Outcome s w 0 s'
    gave_up :
        {s' t : State} {w1 : View} {p q : Ptr} {stat : ℕ}
        → Rests true head s w s'
        → Later head s.heap w t.heap w1
        → Spot head val t w1 p q
        → Aborts M (p ∷ q ∷ []) t stat
        → s'.aborts ≡ stat ∷ s.aborts
        → Outcome s w 2 s'
