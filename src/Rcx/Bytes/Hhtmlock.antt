-- ===== src/Rcx/Bytes/Hhtmlock.antt =====
-- rcx-hash-list.c: `rcx_list_hhtmlock_add` and `rcx_list_hhtmlock_remove`, which take the bytes of
-- the NUMA node first and the bytes `global_htmlock` then.
use rcx_hashtables.Base.{ℕ, zero, suc, ◌==◌, if◌then◌else◌, Option, none, some, List, [], ◌∷◌}
use rcx_hashtables.Machine.{
  Ptr, Machine, out_of_fuel, Cmd, pure, ◌>>=◌, ◌>>◌, TxStat, committed, aborted, rcu_read_lock,
  rcu_read_unlock, record_abort, load, assign_next, kfree, transaction,
}
use rcx_hashtables.Rcu.{find, prepare}
use rcx_hashtables.Rcx.{rcx_new_node}
use rcx_hashtables.Rcx.Bytes.{
  htm, pnode, tx_lock, wait_bytes, clear_bytes, refuse_add, refuse_remove, unlink_node,
}

module _ (M : Machine) where
  global_end : Cmd (Unit {0}) → TxStat (Unit {0}) → Cmd (Unit {0})
  global_end retry_global_lock (committed _) = pure tt
  global_end retry_global_lock (aborted tx_stat) = do
    rcu_read_unlock
    record_abort tx_stat
    retry_global_lock

  -- From `retry_global_lock` on. Each abort leaves the read-side critical section once more.
  unfoldable pub take_global : ℕ → List Ptr → Cmd (Unit {0})
  unfolding global_end
  take_global zero ps = λ _. out_of_fuel
  take_global (suc fuel) ps = do
    wait_bytes M fuel htm ps
    tx_stat ← transaction M (tx_lock M htm ps)
    global_end (take_global fuel ps) tx_stat

  unfoldable pub hhtmlock_add_locked : (p_prev p_next p_new_node : Ptr) → Cmd ℕ → Option ℕ → Cmd ℕ
  hhtmlock_add_locked p_prev p_next p_new_node retry none = do
    assign_next M p_prev p_new_node
    clear_bytes M htm (p_prev ∷ p_next ∷ [])
    clear_bytes M pnode (p_prev ∷ p_next ∷ [])
    rcu_read_unlock
    pure 1
  hhtmlock_add_locked p_prev p_next p_new_node retry (some code) = do
    rcu_read_unlock
    record_abort code
    clear_bytes M htm (p_prev ∷ p_next ∷ [])
    clear_bytes M pnode (p_next ∷ p_prev ∷ [])
    kfree M p_new_node
    rcu_read_unlock
    retry

  unfoldable pub hhtmlock_add_end :
      (fuel : ℕ) (p_prev p_next p_new_node : Ptr) → Cmd ℕ → TxStat (Unit {0}) → Cmd ℕ
  unfolding hhtmlock_add_locked
  hhtmlock_add_end fuel p_prev p_next p_new_node retry (committed _) = do
    take_global fuel (p_prev ∷ p_next ∷ [])
    refused ← refuse_add M p_prev p_next
    hhtmlock_add_locked p_prev p_next p_new_node retry refused
  hhtmlock_add_end fuel p_prev p_next p_new_node retry (aborted tx_stat) = do
    rcu_read_unlock
    record_abort tx_stat
    kfree M p_new_node
    retry

  unfoldable pub rcx_list_hhtmlock_add : ℕ → Ptr → ℕ → Cmd ℕ
  unfolding hhtmlock_add_end
  rcx_list_hhtmlock_add zero p_head val = λ _. out_of_fuel
  rcx_list_hhtmlock_add (suc fuel) p_head val = do
    rcu_read_lock
    at ← find M p_head val
    if at.val == val then (do rcu_read_unlock; pure 0) else (do
      p_new_node ← rcx_new_node M
      prepare M p_new_node val at.next
      wait_bytes M fuel pnode (at.prev ∷ at.next ∷ [])
      tx_stat ← transaction M (tx_lock M pnode (at.prev ∷ at.next ∷ []))
      hhtmlock_add_end fuel at.prev at.next p_new_node (rcx_list_hhtmlock_add fuel p_head val)
          tx_stat)

  unfoldable pub hhtmlock_remove_locked : (p_prev p_next n : Ptr) → Cmd ℕ → Option ℕ → Cmd ℕ
  hhtmlock_remove_locked p_prev p_next n retry none = do
    unlink_node M p_prev p_next n
    clear_bytes M htm (n ∷ p_next ∷ p_prev ∷ [])
    clear_bytes M pnode (n ∷ p_next ∷ p_prev ∷ [])
    rcu_read_unlock
    pure 1
  hhtmlock_remove_locked p_prev p_next n retry (some code) = do
    rcu_read_unlock
    record_abort code
    clear_bytes M htm (n ∷ p_next ∷ p_prev ∷ [])
    clear_bytes M pnode (n ∷ p_next ∷ p_prev ∷ [])
    rcu_read_unlock
    retry

  unfoldable pub hhtmlock_remove_end :
      (fuel : ℕ) (p_prev p_next n : Ptr) → Cmd ℕ → TxStat (Unit {0}) → Cmd ℕ
  unfolding hhtmlock_remove_locked
  hhtmlock_remove_end fuel p_prev p_next n retry (committed _) = do
    take_global fuel (p_prev ∷ p_next ∷ n ∷ [])
    refused ← refuse_remove M p_prev p_next n
    hhtmlock_remove_locked p_prev p_next n retry refused
  hhtmlock_remove_end fuel p_prev p_next n retry (aborted tx_stat) = do
    rcu_read_unlock
    record_abort tx_stat
    retry

  unfoldable pub rcx_list_hhtmlock_remove : ℕ → Ptr → ℕ → Cmd ℕ
  unfolding hhtmlock_remove_end
  rcx_list_hhtmlock_remove zero p_head val = λ _. out_of_fuel
  rcx_list_hhtmlock_remove (suc fuel) p_head val = do
    rcu_read_lock
    at ← find M p_head val
    if at.val == val
        then (do
          n ← load M at.next (λ m. m.p_next)
          wait_bytes M fuel pnode (at.prev ∷ at.next ∷ n ∷ [])
          tx_stat ← transaction M (tx_lock M pnode (at.prev ∷ at.next ∷ n ∷ []))
          hhtmlock_remove_end fuel at.prev at.next n (rcx_list_hhtmlock_remove fuel p_head val)
              tx_stat)
        else (do rcu_read_unlock; pure 0)
