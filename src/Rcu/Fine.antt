-- ===== src/Rcu/Fine.antt =====
-- rcu-hash-list.c: the operations under the locks of the nodes. `zero` fuel stands for a run that
-- has gone back to `retry` too often.
use rcx_hashtables.Base.{ℕ, zero, suc, true, ◌==◌, if◌then◌else◌}
use rcx_hashtables.Machine.{
  Ptr, global_lock, pnd_slock, Machine, out_of_fuel, Cmd, pure, ◌>>=◌, ◌>>◌, spin_unlock, load,
  store, assign_next, kfree, spin_lock, numa_node_id,
}
use rcx_hashtables.Rcu.{rcu_new_node, rcu_free_node, find, prepare, check_add, check_remove}

module _ (M : Machine) where
  unfoldable pub rcu_list_fg_add : ℕ → Ptr → ℕ → Cmd ℕ
  rcu_list_fg_add zero p_head val = λ _. out_of_fuel
  rcu_list_fg_add (suc fuel) p_head val = do
    at ← find M p_head val
    if at.val == val then pure 0 else (do
      p_new_node ← rcu_new_node M
      prepare M p_new_node val at.next
      spin_lock M (global_lock at.prev)
      spin_lock M (global_lock at.next)
      fine ← check_add M at.prev at.next
      if fine
          then (do
            assign_next M at.prev p_new_node
            spin_unlock (global_lock at.next)
            spin_unlock (global_lock at.prev)
            pure 1)
          else (do
            spin_unlock (global_lock at.next)
            spin_unlock (global_lock at.prev)
            kfree M p_new_node
            rcu_list_fg_add fuel p_head val))

  -- `spin_lock(&pndslock(p))`, `spin_unlock(&pndslock(p))`: each asks for the NUMA node again.
  unfoldable pub lock_pnd : Ptr → Cmd (Unit {0})
  lock_pnd p = do i ← numa_node_id M; spin_lock M (pnd_slock i p)

  unfoldable pub unlock_pnd : Ptr → Cmd (Unit {0})
  unlock_pnd p = do i ← numa_node_id M; spin_unlock (pnd_slock i p)

  unfoldable pub rcu_list_numa_add : ℕ → Ptr → ℕ → Cmd ℕ
  unfolding lock_pnd unlock_pnd
  rcu_list_numa_add zero p_head val = λ _. out_of_fuel
  rcu_list_numa_add (suc fuel) p_head val = do
    at ← find M p_head val
    if at.val == val then pure 0 else (do
      p_new_node ← rcu_new_node M
      prepare M p_new_node val at.next
      lock_pnd at.prev
      lock_pnd at.next
      spin_lock M (global_lock at.prev)
      spin_lock M (global_lock at.next)
      fine ← check_add M at.prev at.next
      if fine
          then (do
            assign_next M at.prev p_new_node
            spin_unlock (global_lock at.next)
            spin_unlock (global_lock at.prev)
            unlock_pnd at.next
            unlock_pnd at.prev
            pure 1)
          else (do
            spin_unlock (global_lock at.next)
            spin_unlock (global_lock at.prev)
            unlock_pnd at.next
            unlock_pnd at.prev
            kfree M p_new_node
            rcu_list_numa_add fuel p_head val))

  unfoldable pub rcu_list_fg_remove : ℕ → Ptr → ℕ → Cmd ℕ
  rcu_list_fg_remove zero p_head val = λ _. out_of_fuel
  rcu_list_fg_remove (suc fuel) p_head val = do
    at ← find M p_head val
    if at.val == val
        then (do
          n ← load M at.next (λ m. m.p_next)
          spin_lock M (global_lock at.prev)
          spin_lock M (global_lock at.next)
          spin_lock M (global_lock n)
          fine ← check_remove M at.prev at.next n
          if fine
              then (do
                assign_next M at.prev n
                store M at.next (λ m. record m { removed = true })
                rcu_free_node M at.next
                spin_unlock (global_lock n)
                spin_unlock (global_lock at.next)
                spin_unlock (global_lock at.prev)
                pure 1)
              else (do
                spin_unlock (global_lock n)
                spin_unlock (global_lock at.next)
                spin_unlock (global_lock at.prev)
                rcu_list_fg_remove fuel p_head val))
        else pure 0

  unfoldable pub rcu_list_numa_remove : ℕ → Ptr → ℕ → Cmd ℕ
  unfolding lock_pnd unlock_pnd
  rcu_list_numa_remove zero p_head val = λ _. out_of_fuel
  rcu_list_numa_remove (suc fuel) p_head val = do
    at ← find M p_head val
    if at.val == val
        then (do
          n ← load M at.next (λ m. m.p_next)
          lock_pnd at.prev
          lock_pnd at.next
          lock_pnd n
          spin_lock M (global_lock at.prev)
          spin_lock M (global_lock at.next)
          spin_lock M (global_lock n)
          fine ← check_remove M at.prev at.next n
          if fine
              then (do
                assign_next M at.prev n
                store M at.next (λ m. record m { removed = true })
                rcu_free_node M at.next
                spin_unlock (global_lock n)
                spin_unlock (global_lock at.next)
                spin_unlock (global_lock at.prev)
                unlock_pnd n
                unlock_pnd at.next
                unlock_pnd at.prev
                pure 1)
              else (do
                spin_unlock (global_lock n)
                spin_unlock (global_lock at.next)
                spin_unlock (global_lock at.prev)
                unlock_pnd n
                unlock_pnd at.next
                unlock_pnd at.prev
                rcu_list_numa_remove fuel p_head val))
        else pure 0
