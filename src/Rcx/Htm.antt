-- ===== src/Rcx/Htm.antt =====
-- rcx-hash-list.c: `rcx_list_add` and `rcx_list_remove`, which give up when a transaction aborts.
pub mod Aborts
pub mod Add
pub mod Remove
use rcx_hashtables.Base.{ℕ, Bool, true, false, ◌==◌, if◌then◌else◌}
use rcx_hashtables.Machine.{
  Ptr, Machine, Cmd, pure, ◌>>=◌, ◌>>◌, TxStat, committed, aborted, rcu_read_lock, rcu_read_unlock,
  record_abort, load, kfree, transaction,
}
use rcx_hashtables.Rcu.{find, prepare}
use rcx_hashtables.Rcx.{rcx_new_node, rcx_free_node, tx_add, tx_remove, published}

module _ (M : Machine) where
  -- Behind `_xbegin`: the end of the transaction, or what follows an abort.
  unfoldable pub add_end : Ptr → TxStat (Unit {0}) → Cmd ℕ
  add_end p_new_node (committed _) = do published p_new_node; rcu_read_unlock; pure 1
  add_end p_new_node (aborted tx_stat) = do
    rcu_read_unlock
    record_abort tx_stat
    kfree M p_new_node
    pure 2

  unfoldable pub rcx_list_add : Ptr → ℕ → Cmd ℕ
  unfolding add_end
  rcx_list_add p_head val = do
    rcu_read_lock
    at ← find M p_head val
    if at.val == val then (do rcu_read_unlock; pure 0) else (do
      p_new_node ← rcx_new_node M
      prepare M p_new_node val at.next
      tx_stat ← transaction M (tx_add at.prev at.next p_new_node)
      add_end p_new_node tx_stat)

  unfoldable pub remove_end : Ptr → TxStat (Unit {0}) → Cmd ℕ
  remove_end p_next (committed _) = do rcu_read_unlock; rcx_free_node M p_next; pure 1
  remove_end p_next (aborted tx_stat) = do rcu_read_unlock; record_abort tx_stat; pure 2

  -- If the value is not there, the function returns inside the read-side critical section.
  unfoldable pub rcx_list_remove : Ptr → ℕ → Cmd ℕ
  unfolding remove_end
  rcx_list_remove p_head val = do
    rcu_read_lock
    at ← find M p_head val
    if at.val == val
        then (do
          n ← load M at.next (λ m. m.p_next)
          tx_stat ← transaction M (tx_remove at.prev at.next n)
          remove_end at.next tx_stat)
        else pure 0
