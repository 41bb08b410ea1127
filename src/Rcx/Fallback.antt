-- ===== src/Rcx/Fallback.antt =====
-- rcx-hash-list.c: the operations that fall back on the lock of the list, after some aborts (`lf`)
-- or after an abort that a retry would not mend (`fb1`).
pub mod Add
pub mod Remove
use rcx_hashtables.Base.{ℕ, zero, suc, ◌/◌, ◌%◌, Bool, true, ltb, leb, ◌==◌, if◌then◌else◌}
use rcx_hashtables.Machine.{
  xabort_retry, Ptr, rcuspin, State, Machine, out_of_fuel, Cmd, pure, ◌>>=◌, ◌>>◌, Tx, xabort,
  TxStat, committed, aborted, rcu_read_lock, rcu_read_unlock, record_abort, spin_unlock, load,
  store, assign_next, kfree, spin_lock, wait_unlocked, transaction,
}
use rcx_hashtables.Rcu.{find, prepare}
use rcx_hashtables.Rcx.{
  abort_lf_conflict, rcx_new_node, rcx_free_node, tx_add, tx_remove, published,
}

abbrev pub lf_retry_limit : ℕ
lf_retry_limit = 10

-- `tx_stat & _XABORT_RETRY`
abbrev pub may_retry : ℕ → Bool
may_retry tx_stat = tx_stat / xabort_retry % 2 == 1

module _ (M : Machine) where
  -- A transaction that aborts while another thread has the lock of the list.
  unfoldable pub unless_locked : (State → Tx (Unit {0})) → State → Tx (Unit {0})
  unless_locked body s = if M.spin_is_locked s then xabort abort_lf_conflict else body s

  -- The insertion under the lock of the list.
  unfoldable pub fallback_add : Ptr → ℕ → Cmd ℕ
  fallback_add p_head val = do
    at ← find M p_head val
    if at.val == val then pure 0 else (do
      p_new_node ← rcx_new_node M
      prepare M p_new_node val at.next
      assign_next M at.prev p_new_node
      pure 1)

  unfoldable pub lf_add_locked : Ptr → ℕ → Cmd ℕ
  unfolding fallback_add
  lf_add_locked p_head val = do
    spin_lock M (rcuspin p_head)
    result ← fallback_add p_head val
    spin_unlock (rcuspin p_head)
    rcu_read_unlock
    pure result

  lf_add_end : Ptr → Cmd ℕ → TxStat (Unit {0}) → Cmd ℕ
  lf_add_end p_new_node retry (committed _) = do published p_new_node; rcu_read_unlock; pure 1
  lf_add_end p_new_node retry (aborted tx_stat) = do
    record_abort tx_stat
    kfree M p_new_node
    rcu_read_unlock
    retry

  lf_add_loop : ℕ → (retries : ℕ) → Ptr → ℕ → Cmd ℕ
  unfolding lf_add_end lf_add_locked unless_locked
  lf_add_loop zero retries p_head val = λ _. out_of_fuel
  lf_add_loop (suc fuel) retries p_head val = do
    rcu_read_lock
    if ltb lf_retry_limit retries then lf_add_locked p_head val else (do
      at ← find M p_head val
      if at.val == val then (do rcu_read_unlock; pure 0) else (do
        p_new_node ← rcx_new_node M
        prepare M p_new_node val at.next
        wait_unlocked M fuel
        tx_stat ← transaction M (unless_locked (tx_add at.prev at.next p_new_node))
        lf_add_end p_new_node (lf_add_loop fuel (suc retries) p_head val) tx_stat))

  unfoldable pub rcx_list_lf_add : ℕ → Ptr → ℕ → Cmd ℕ
  unfolding lf_add_loop
  rcx_list_lf_add fuel p_head val = lf_add_loop fuel 0 p_head val

  unfoldable pub fb1_add_locked : Ptr → ℕ → Cmd ℕ
  unfolding lf_add_locked
  fb1_add_locked p_head val = do rcu_read_lock; lf_add_locked p_head val

  fb1_add_end : Ptr → (retry locking_path : Cmd ℕ) → TxStat (Unit {0}) → Cmd ℕ
  fb1_add_end p_new_node retry locking_path (committed _) = do
    published p_new_node
    rcu_read_unlock
    pure 1
  fb1_add_end p_new_node retry locking_path (aborted tx_stat) = do
    rcu_read_unlock
    record_abort tx_stat
    kfree M p_new_node
    if may_retry tx_stat then retry else locking_path

  unfoldable pub rcx_list_fb1_add : ℕ → Ptr → ℕ → Cmd ℕ
  unfolding fb1_add_end fb1_add_locked unless_locked
  rcx_list_fb1_add zero p_head val = λ _. out_of_fuel
  rcx_list_fb1_add (suc fuel) p_head val = do
    rcu_read_lock
    at ← find M p_head val
    if at.val == val then (do rcu_read_unlock; pure 0) else (do
      p_new_node ← rcx_new_node M
      prepare M p_new_node val at.next
      wait_unlocked M fuel
      tx_stat ← transaction M (unless_locked (tx_add at.prev at.next p_new_node))
      fb1_add_end p_new_node (rcx_list_fb1_add fuel p_head val) (fb1_add_locked p_head val) tx_stat)

  -- The removal under the lock of the list. The code marks `n`, the node behind the removed one.
  unfoldable pub fallback_remove : Ptr → ℕ → Cmd ℕ
  fallback_remove p_head val = do
    at ← find M p_head val
    if at.val == val
        then (do
          n ← load M at.next (λ m. m.p_next)
          assign_next M at.prev n
          store M n (λ m. record m { removed = true })
          spin_unlock (rcuspin p_head)
          rcu_read_unlock
          rcx_free_node M at.next
          pure 1)
        else (do spin_unlock (rcuspin p_head); rcu_read_unlock; pure 0)

  unfoldable pub lf_remove_locked : Ptr → ℕ → Cmd ℕ
  unfolding fallback_remove
  lf_remove_locked p_head val = do spin_lock M (rcuspin p_head); fallback_remove p_head val

  lf_remove_end : Ptr → Cmd ℕ → TxStat (Unit {0}) → Cmd ℕ
  lf_remove_end p_next retry (committed _) = do rcu_read_unlock; rcx_free_node M p_next; pure 1
  lf_remove_end p_next retry (aborted tx_stat) = do rcu_read_unlock; record_abort tx_stat; retry

  lf_remove_loop : ℕ → (retries : ℕ) → Ptr → ℕ → Cmd ℕ
  unfolding lf_remove_end lf_remove_locked unless_locked
  lf_remove_loop zero retries p_head val = λ _. out_of_fuel
  lf_remove_loop (suc fuel) retries p_head val = do
    rcu_read_lock
    if leb lf_retry_limit retries then lf_remove_locked p_head val else (do
      at ← find M p_head val
      if at.val == val
          then (do
            wait_unlocked M fuel
            n ← load M at.next (λ m. m.p_next)
            tx_stat ← transaction M (unless_locked (tx_remove at.prev at.next n))
            lf_remove_end at.next (lf_remove_loop fuel (suc retries) p_head val) tx_stat)
          else (do rcu_read_unlock; pure 0))

  unfoldable pub rcx_list_lf_remove : ℕ → Ptr → ℕ → Cmd ℕ
  unfolding lf_remove_loop
  rcx_list_lf_remove fuel p_head val = lf_remove_loop fuel 0 p_head val

  -- A success frees the node before it leaves the read-side critical section.
  fb1_remove_end : Ptr → (retry locking_path : Cmd ℕ) → TxStat (Unit {0}) → Cmd ℕ
  fb1_remove_end p_next retry locking_path (committed _) = do
    rcx_free_node M p_next
    rcu_read_unlock
    pure 1
  fb1_remove_end p_next retry locking_path (aborted tx_stat) = do
    rcu_read_unlock
    record_abort tx_stat
    if may_retry tx_stat then retry else locking_path

  -- `locking_path` begins without `rcu_read_lock`, but ends with `rcu_read_unlock`.
  unfoldable pub rcx_list_fb1_remove : ℕ → Ptr → ℕ → Cmd ℕ
  unfolding fb1_remove_end lf_remove_locked unless_locked
  rcx_list_fb1_remove zero p_head val = λ _. out_of_fuel
  rcx_list_fb1_remove (suc fuel) p_head val = do
    rcu_read_lock
    at ← find M p_head val
    if at.val == val
        then (do
          wait_unlocked M fuel
          n ← load M at.next (λ m. m.p_next)
          tx_stat ← transaction M (unless_locked (tx_remove at.prev at.next n))
          fb1_remove_end at.next (rcx_list_fb1_remove fuel p_head val) (lf_remove_locked p_head val)
              tx_stat)
        else (do rcu_read_unlock; pure 0)
