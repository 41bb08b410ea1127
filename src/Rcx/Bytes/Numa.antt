-- ===== src/Rcx/Bytes/Numa.antt =====
-- rcx-hash-list.c: `rcx_list_numa_add` and `rcx_list_numa_remove`, which take the bytes of the NUMA
-- node and then the spinlocks of the nodes.
use rcx_hashtables.Base.{ℕ, zero, suc, ◌==◌, if◌then◌else◌, Option, none, some, [], ◌∷◌}
use rcx_hashtables.Machine.{
  Ptr, global_lock, Machine, out_of_fuel, Cmd, pure, ◌>>=◌, ◌>>◌, TxStat, committed, aborted,
  rcu_read_lock, rcu_read_unlock, record_abort, spin_lock, spin_unlock, load, assign_next, kfree,
  transaction,
}
use rcx_hashtables.Rcu.{find, prepare}
use rcx_hashtables.Rcx.{rcx_new_node}
use rcx_hashtables.Rcx.Bytes.{
  pnode, tx_lock, wait_bytes, clear_bytes, refuse_add, refuse_remove, unlink_node,
}

module _ (M : Machine) where
  unfoldable pub numa_add_locked : (p_prev p_next p_new_node : Ptr) → Cmd ℕ → Option ℕ → Cmd ℕ
  numa_add_locked p_prev p_next p_new_node retry none = do
    assign_next M p_prev p_new_node
    spin_unlock (global_lock p_next)
    spin_unlock (global_lock p_prev)
    clear_bytes M pnode (p_prev ∷ p_next ∷ [])
    rcu_read_unlock
    pure 1
  numa_add_locked p_prev p_next p_new_node retry (some code) = do
    rcu_read_unlock
    record_abort code
    spin_unlock (global_lock p_next)
    spin_unlock (global_lock p_prev)
    clear_bytes M pnode (p_next ∷ p_prev ∷ [])
    rcu_read_unlock
    kfree M p_new_node
    retry

  unfoldable pub numa_add_end : (p_prev p_next p_new_node : Ptr) → Cmd ℕ → TxStat (Unit {0}) → Cmd ℕ
  unfolding numa_add_locked
  numa_add_end p_prev p_next p_new_node retry (committed _) = do
    spin_lock M (global_lock p_prev)
    spin_lock M (global_lock p_next)
    refused ← refuse_add M p_prev p_next
    numa_add_locked p_prev p_next p_new_node retry refused
  numa_add_end p_prev p_next p_new_node retry (aborted tx_stat) = do
    rcu_read_unlock
    record_abort tx_stat
    kfree M p_new_node
    retry

  -- If the value is there, the function returns inside the read-side critical section.
  unfoldable pub rcx_list_numa_add : ℕ → Ptr → ℕ → Cmd ℕ
  unfolding numa_add_end
  rcx_list_numa_add zero p_head val = λ _. out_of_fuel
  rcx_list_numa_add (suc fuel) p_head val = do
    rcu_read_lock
    at ← find M p_head val
    if at.val == val then pure 0 else (do
      p_new_node ← rcx_new_node M
      prepare M p_new_node val at.next
      wait_bytes M fuel pnode (at.prev ∷ at.next ∷ [])
      tx_stat ← transaction M (tx_lock M pnode (at.prev ∷ at.next ∷ []))
      numa_add_end at.prev at.next p_new_node (rcx_list_numa_add fuel p_head val) tx_stat)

  unfoldable pub numa_remove_locked : (p_prev p_next n : Ptr) → Cmd ℕ → Option ℕ → Cmd ℕ
  numa_remove_locked p_prev p_next n retry none = do
    unlink_node M p_prev p_next n
    spin_unlock (global_lock n)
    spin_unlock (global_lock p_next)
    spin_unlock (global_lock p_prev)
    clear_bytes M pnode (n ∷ p_next ∷ p_prev ∷ [])
    rcu_read_unlock
    pure 1
  numa_remove_locked p_prev p_next n retry (some code) = do
    rcu_read_unlock
    record_abort code
    spin_unlock (global_lock n)
    spin_unlock (global_lock p_next)
    spin_unlock (global_lock p_prev)
    clear_bytes M pnode (n ∷ p_next ∷ p_prev ∷ [])
    rcu_read_unlock
    retry

  unfoldable pub numa_remove_end : (p_prev p_next n : Ptr) → Cmd ℕ → TxStat (Unit {0}) → Cmd ℕ
  unfolding numa_remove_locked
  numa_remove_end p_prev p_next n retry (committed _) = do
    spin_lock M (global_lock p_prev)
    spin_lock M (global_lock p_next)
    spin_lock M (global_lock n)
    refused ← refuse_remove M p_prev p_next n
    numa_remove_locked p_prev p_next n retry refused
  numa_remove_end p_prev p_next n retry (aborted tx_stat) = do
    rcu_read_unlock
    record_abort tx_stat
    retry

  unfoldable pub rcx_list_numa_remove : ℕ → Ptr → ℕ → Cmd ℕ
  unfolding numa_remove_end
  rcx_list_numa_remove zero p_head val = λ _. out_of_fuel
  rcx_list_numa_remove (suc fuel) p_head val = do
    rcu_read_lock
    at ← find M p_head val
    if at.val == val
        then (do
          n ← load M at.next (λ m. m.p_next)
          wait_bytes M fuel pnode (at.prev ∷ at.next ∷ n ∷ [])
          tx_stat ← transaction M (tx_lock M pnode (at.prev ∷ at.next ∷ n ∷ []))
          numa_remove_end at.prev at.next n (rcx_list_numa_remove fuel p_head val) tx_stat)
        else (do rcu_read_unlock; pure 0)
