-- ===== src/Rcu/Spin/Sentinel.antt =====
-- `rcu_list_remove` of INT_MAX removes the last sentinel of a list.
use rcx_hashtables.Base.{◌≡◌, refl, true, false, some, contains, arith, ◌==◌, ==-refl, ◌∙◌, ap}
use rcx_hashtables.Machine.{
  Ptr, list_val_max, Node, Heap, write, State, Machine, spin_lock, spin_unlock, kfree_rcu,
}
use rcx_hashtables.Machine.Ends
use rcx_hashtables.Machine.Ends.{Ends, returns, Returns}
use rcx_hashtables.Rcu.{rcu_free_node}
use rcx_hashtables.Rcu.Alone.{load-alone, assign-alone, find-first}
use rcx_hashtables.Rcu.Spin.{locked_remove, rcu_list_remove}

module _ (M : Machine) (alone : (s : State) → M.others s ≡ s.heap) where
  -- When no other thread runs, `rcu_list_remove` of INT_MAX from a list of the two sentinels alone, with the
  -- head not pointing to itself, returns 0, like any removal. Then the head points to what was behind
  -- the last sentinel, so that the list has no end any more, and the sentinel has been given to
  -- `kfree_rcu`.
  pub rcu_list_remove_max_lem :
      (s : State) (head a : Ptr) (h0 na : Node)
      → s.heap head ≡ some h0
      → h0.p_next ≡ a
      → s.heap a ≡ some na
      → na.val ≡ list_val_max
      → (a == head) ≡ false
      → Returns
          (λ r s'.
            (r ≡ 0)
            × (s'.heap head ≡ some (record h0 { p_next = na.p_next }))
            × (contains s'.deferred a ≡ true))
          (rcu_list_remove M head list_val_max s)
  unfolding rcu_list_remove locked_remove spin_lock spin_unlock rcu_free_node kfree_rcu write
  rcu_list_remove_max_lem s head a h0 na at_head next at_a is ne =
      Ends.bind
        (find-first M alone _ head a list_val_max h0 na
          (ap (λ (h : Heap). h head) (alone s) ∙ at_head) next
          (ap (λ (h : Heap). h a) (alone s) ∙ at_a) is)
        λ at s1 (at_is, same1).
          let there : (list_val_max == list_val_max) ≡ true = refl in
          let heap1 : s1.heap ≡ s.heap = same1 ∙ alone s in
          rw (at_is, there)
            (Ends.bind
              (load-alone M alone s1 a (λ m. m.p_next) na (ap (λ (h : Heap). h a) heap1 ∙ at_a))
              λ n s2 (n_is, same2). rw n_is (
                Ends.bind
                  (assign-alone M alone s2 head na.p_next h0
                    (ap (λ (h : Heap). h head) (same2 ∙ heap1) ∙ at_head))
                  λ _ s3 same3.
                    returns (refl, ground (arith, same3, ==-refl head), ground (arith, ==-refl a))))
