-- ===== src/Rcx/Fallback/Remove.antt =====
-- rcx-hash-list.c: the removals under the lock of the list, which `rcx_list_lf_remove` and
-- `rcx_list_fb1_remove` fall back on.
use rcx_hashtables.Base.{ℕ, ◌≡◌, refl, true, false, some, arith, ◌==◌, ==-refl, ◌∙◌, ap}
use rcx_hashtables.Machine.{
  Ptr, Node, Heap, write, State, Machine, kfree_rcu, spin_unlock, rcu_read_unlock,
}
use rcx_hashtables.Machine.Ends
use rcx_hashtables.Machine.Ends.{Ends, returns, Returns}
use rcx_hashtables.Rcu.Alone.{load-alone, store-alone, assign-alone, find-first}
use rcx_hashtables.Rcx.{rcx_free_node}
use rcx_hashtables.Rcx.Fallback.{fallback_remove}

module _ (M : Machine) (alone : (s : State) → M.others s ≡ s.heap) where
  -- When no other thread runs, the removal under the lock of the list takes out the node `a` behind
  -- the head, and marks the node `b` that follows it, which stays in the list; `a` is not marked.
  pub fallback_remove_lem :
      (s : State) (head a b : Ptr) (val : ℕ) (h0 na nb : Node)
      → s.heap head ≡ some h0
      → h0.p_next ≡ a
      → s.heap a ≡ some na
      → na.val ≡ val
      → na.p_next ≡ b
      → s.heap b ≡ some nb
      → (a == head) ≡ false
      → (b == head) ≡ false
      → (b == a) ≡ false
      → Returns
          (λ r s'.
            (r ≡ 1)
            × (s'.heap head ≡ some (record h0 { p_next = b }))
            × (s'.heap a ≡ some na)
            × (s'.heap b ≡ some (record nb { removed = true })))
          (fallback_remove M head val s)
  unfolding fallback_remove spin_unlock rcu_read_unlock rcx_free_node kfree_rcu write
  fallback_remove_lem s head a b val h0 na nb at_head next at_a is next_a at_b ne_a ne_b ne_ab =
      Ends.bind (find-first M alone s head a val h0 na at_head next at_a is) λ at s1 (at_is, same1).
        let there : (val == val) ≡ true = ==-refl val in
        rw (at_is, there)
          (Ends.bind
            (load-alone M alone s1 a (λ m. m.p_next) na (ap (λ (h : Heap). h a) same1 ∙ at_a))
            λ n s2 (n_is, same2). rw (n_is ∙ next_a) (
              Ends.bind
                (assign-alone M alone s2 head b h0
                  (ap (λ (h : Heap). h head) (same2 ∙ same1) ∙ at_head))
                λ _ s3 same3.
                  Ends.bind
                    (store-alone M alone s3 b (λ m. record m { removed = true }) nb
                      (ground (arith, same3, same2, same1, at_b, ne_b)))
                    λ _ s4 same4. returns (
                      refl,
                      ground (arith, same4, same3),
                      ground (arith, same4, same3, same2, same1),
                      ground (arith, same4, ==-refl b),
                    )))
