-- ===== src/Rcx/Bytes/Htmlock.antt =====
-- rcx-hash-list.c: `rcx_list_htmlock_add` and `rcx_list_htmlock_remove`, whose locks are the bytes
-- `global_htmlock`. Where the tests fail, the code leaves the read-side critical section twice.
use rcx_hashtables.Base.{ℕ, zero, suc, ◌==◌, if◌then◌else◌, Option, none, some, [], ◌∷◌}
use rcx_hashtables.Machine.{
  Ptr, Machine, out_of_fuel, Cmd, pure, ◌>>=◌, ◌>>◌, TxStat, committed, aborted, rcu_read_lock,
  rcu_read_unlock, record_abort, load, assign_next, kfree, transaction,
}
use rcx_hashtables.Rcu.{find, prepare}
use rcx_hashtables.Rcx.{rcx_new_node}
use rcx_hashtables.Rcx.Bytes.{
  htm, tx_lock, wait_bytes, clear_bytes, refuse_add, refuse_remove, unlink_node,
}

module _ (M : Machine) where
  unfoldable pub htmlock_add_locked : (p_prev p_next p_new_node : Ptr) → Cmd ℕ → Option ℕ → Cmd ℕ
  htmlock_add_locked p_prev p_next p_new_node retry none = do
    assign_next M p_prev p_new_node
    clear_bytes M htm (p_next ∷ p_prev ∷ [])
    rcu_read_unlock
    pure 1
  htmlock_add_locked p_prev p_next p_new_node retry (some code) = do
    rcu_read_unlock
    record_abort code
    clear_bytes M htm (p_next ∷ p_prev ∷ [])
    rcu_read_unlock
    kfree M p_new_node
    retry

  unfoldable pub htmlock_add_end :
      (p_prev p_next p_new_node : Ptr) → Cmd ℕ → TxStat (Unit {0}) → Cmd ℕ
  unfolding htmlock_add_locked
  htmlock_add_end p_prev p_next p_new_node retry (committed _) = do
    refused ← refuse_add M p_prev p_next
    htmlock_add_locked p_prev p_next p_new_node retry refused
  htmlock_add_end p_prev p_next p_new_node retry (aborted tx_stat) = do
    rcu_read_unlock
    record_abort tx_stat
    kfree M p_new_node
    retry

  unfoldable pub rcx_list_htmlock_add : ℕ → Ptr → ℕ → Cmd ℕ
  unfolding htmlock_add_end
  rcx_list_htmlock_add zero p_head val = λ _. out_of_fuel
  rcx_list_htmlock_add (suc fuel) p_head val = do
    rcu_read_lock
    at ← find M p_head val
    if at.val == val then (do rcu_read_unlock; pure 0) else (do
      p_new_node ← rcx_new_node M
      prepare M p_new_node val at.next
      wait_bytes M fuel htm (at.prev ∷ at.next ∷ [])
      tx_stat ← transaction M (tx_lock M htm (at.prev ∷ at.next ∷ []))
      htmlock_add_end at.prev at.next p_new_node (rcx_list_htmlock_add fuel p_head val) tx_stat)

  unfoldable pub htmlock_remove_locked : (p_prev p_next n : Ptr) → Cmd ℕ → Option ℕ → Cmd ℕ
  htmlock_remove_locked p_prev p_next n retry none = do
    unlink_node M p_prev p_next n
    clear_bytes M htm (n ∷ p_next ∷ p_prev ∷ [])
    rcu_read_unlock
    pure 1
  htmlock_remove_locked p_prev p_next n retry (some code) = do
    record_abort code
    rcu_read_unlock
    clear_bytes M htm (n ∷ p_next ∷ p_prev ∷ [])
    rcu_read_unlock
    retry

  unfoldable pub htmlock_remove_end : (p_prev p_next n : Ptr) → Cmd ℕ → TxStat (Unit {0}) → Cmd ℕ
  unfolding htmlock_remove_locked
  htmlock_remove_end p_prev p_next n retry (committed _) = do
    refused ← refuse_remove M p_prev p_next n
    htmlock_remove_locked p_prev p_next n retry refused
  htmlock_remove_end p_prev p_next n retry (aborted tx_stat) = do
    rcu_read_unlock
    record_abort tx_stat
    retry

  unfoldable pub rcx_list_htmlock_remove : ℕ → Ptr → ℕ → Cmd ℕ
  unfolding htmlock_remove_end
  rcx_list_htmlock_remove zero p_head val = λ _. out_of_fuel
  rcx_list_htmlock_remove (suc fuel) p_head val = do
    rcu_read_lock
    at ← find M p_head val
    if at.val == val
        then (do
          n ← load M at.next (λ m. m.p_next)
          wait_bytes M fuel htm (at.prev ∷ at.next ∷ n ∷ [])
          tx_stat ← transaction M (tx_lock M htm (at.prev ∷ at.next ∷ n ∷ []))
          htmlock_remove_end at.prev at.next n (rcx_list_htmlock_remove fuel p_head val) tx_stat)
        else (do rcu_read_unlock; pure 0)
