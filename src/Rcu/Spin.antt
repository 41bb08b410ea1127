-- ===== src/Rcu/Spin.antt =====
-- rcu-hash-list.c: the operations under the spinlock of the list, and the end of a list.
pub mod Add
pub mod Remove
pub mod Destroy
pub mod Sentinel
use rcx_hashtables.Base.{ℕ, zero, suc, Bool, true, false, ◌==◌, if◌then◌else◌}
use rcx_hashtables.Machine.{
  Ptr, null, rcuspin, Machine, out_of_fuel, Cmd, pure, ◌>>=◌, ◌>>◌, spin_unlock, load, assign_next,
  kfree, spin_lock, spin_trylock,
}
use rcx_hashtables.Rcu.{rcu_new_node, rcu_free_node, find, prepare}

module _ (M : Machine) where
  -- What the locked insertions do between taking the lock and giving it back: `result`.
  unfoldable pub locked_add : Ptr → ℕ → Cmd Bool
  locked_add p_head val = do
    at ← find M p_head val
    if at.val == val then pure false else (do
      p_new_node ← rcu_new_node M
      prepare M p_new_node val at.next
      assign_next M at.prev p_new_node
      pure true)

  unfoldable pub rcu_list_add : Ptr → ℕ → Cmd ℕ
  unfolding locked_add
  rcu_list_add p_head val = do
    spin_lock M (rcuspin p_head)
    result ← locked_add p_head val
    spin_unlock (rcuspin p_head)
    pure 0

  unfoldable pub rcu_list_try_add : Ptr → ℕ → Cmd ℕ
  unfolding locked_add
  rcu_list_try_add p_head val = do
    got ← spin_trylock M (rcuspin p_head)
    if got
        then (do result ← locked_add p_head val; spin_unlock (rcuspin p_head); pure 0)
        else pure 2

  -- What the removals do once they have the lock: they give it back before they free the node.
  unfoldable pub locked_remove : Ptr → ℕ → Cmd ℕ
  locked_remove p_head val = do
    at ← find M p_head val
    if at.val == val
        then (do
          n ← load M at.next (λ m. m.p_next)
          assign_next M at.prev n
          spin_unlock (rcuspin p_head)
          rcu_free_node M at.next
          pure 0)
        else (do spin_unlock (rcuspin p_head); pure 0)

  unfoldable pub rcu_list_remove : Ptr → ℕ → Cmd ℕ
  unfolding locked_remove
  rcu_list_remove p_head val = do spin_lock M (rcuspin p_head); locked_remove p_head val

  unfoldable pub rcu_list_try_remove : Ptr → ℕ → Cmd ℕ
  unfolding locked_remove
  rcu_list_try_remove p_head val = do
    got ← spin_trylock M (rcuspin p_head)
    if got then locked_remove p_head val else pure 2

  -- `iter = iter->p_next` reads the node that the round has freed.
  destroy_loop : ℕ → (iter p_head : Ptr) → Cmd Ptr
  destroy_loop zero iter p_head = λ _. out_of_fuel
  destroy_loop (suc fuel) iter p_head = if iter == null then pure p_head else (do
    q ← load M iter (λ n. n.p_next)
    kfree M iter
    next ← load M iter (λ n. n.p_next)
    destroy_loop fuel next q)

  -- The result is the new value of `p_head`.
  unfoldable pub rcu_list_destroy : ℕ → Ptr → Cmd Ptr
  unfolding destroy_loop
  rcu_list_destroy fuel p_head = destroy_loop fuel p_head p_head
