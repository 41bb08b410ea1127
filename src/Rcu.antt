-- ===== src/Rcu.antt =====
-- rcu-hash-list.c: nodes, lists, the search and the tests that the operations of its two
-- children share. Every command takes the
-- machine first. A loop of the code is a recursion on fuel, and so is the `goto retry` of a function.
pub mod Spin
pub mod Fine
pub mod Search
pub mod Insert
pub mod Delete
pub mod Contains
pub mod Create
pub mod Hash
pub mod Alone
use rcx_hashtables.Base.{ℕ, zero, suc, Bool, true, false, leb, ◌==◌, not, if◌then◌else◌}
use rcx_hashtables.Machine.{
  Ptr, null, list_val_min, list_val_max, Node, Machine, out_of_fuel, Cmd, pure, ◌>>=◌, ◌>>◌,
  rcu_read_lock, rcu_read_unlock, kfree_rcu, load, store, kmalloc, kmalloc_struct,
}

-- Where a search stops: the last node below `val`, the first one that is not, and its value.
pub record Place : Type 0 where
  pub prev : Ptr
  pub next : Ptr
  pub val : ℕ

module _ (M : Machine) where
  -- The value, the pointer and the bytes that the code does not set are what the memory had.
  unfoldable pub rcu_new_node : Cmd Ptr
  rcu_new_node = kmalloc M (λ n. record n { removed = false })

  unfoldable pub rcu_free_node : Ptr → Cmd (Unit {0})
  rcu_free_node p = kfree_rcu p

  -- The value of `p_head`, or NULL for a `list_t` that is NULL.
  unfoldable pub rcu_new_list : Cmd Ptr
  rcu_new_list = do
    found ← kmalloc_struct M
    if not found then pure null else (do
      p_max_node ← rcu_new_node
      store M p_max_node (λ n. record n { val = list_val_max })
      store M p_max_node (λ n. record n { p_next = null })
      p_min_node ← rcu_new_node
      store M p_min_node (λ n. record n { val = list_val_min })
      store M p_min_node (λ n. record n { p_next = p_max_node })
      pure p_min_node)

  -- The loop that every operation begins with.
  unfoldable pub search : ℕ → (val : ℕ) → (p_prev p_next : Ptr) → Cmd Place
  search zero val p_prev p_next = λ _. out_of_fuel
  search (suc fuel) val p_prev p_next = do
    v ← load M p_next (λ n. n.val)
    if leb val v
        then pure (record { prev = p_prev; next = p_next; val = v })
        else (do q ← load M p_next (λ n. n.p_next); search fuel val p_next q)

  -- The values of the nodes grow, so that `val + 1` rounds are enough.
  unfoldable pub find : Ptr → ℕ → Cmd Place
  unfolding search
  find p_head val = do p_next ← load M p_head (λ n. n.p_next); search (suc val) val p_head p_next

  list_size_loop : ℕ → Ptr → ℕ → Cmd ℕ
  list_size_loop zero p size = λ _. out_of_fuel
  list_size_loop (suc fuel) p size = do
    q ← load M p (λ n. n.p_next)
    if q == null then pure size else list_size_loop fuel q (suc size)

  unfoldable pub list_size : ℕ → Ptr → Cmd ℕ
  unfolding list_size_loop
  list_size fuel p_head = do p ← load M p_head (λ n. n.p_next); list_size_loop fuel p 0

  unfoldable pub rcu_list_contains : Ptr → ℕ → Cmd Bool
  rcu_list_contains p_head val = do
    rcu_read_lock
    at ← find p_head val
    rcu_read_unlock
    pure (at.val == val)

  -- `p_new_node->val = val; p_new_node->p_next = p_next;`
  unfoldable pub prepare : Ptr → ℕ → Ptr → Cmd (Unit {0})
  prepare p val q = do
    store M p (λ n. record n { val = val })
    store M p (λ n. record n { p_next = q })

  -- The tests of `rcu_list_fg_add` under its locks, and those of `rcu_list_fg_remove`. A test that
  -- fails leaves the later ones out.
  unfoldable pub check_add : (p_prev p_next : Ptr) → Cmd Bool
  check_add p_prev p_next = do
    q ← load M p_prev (λ n. n.p_next)
    if not (q == p_next) then pure false else (do
      r ← load M p_prev (λ n. n.removed)
      if r then pure false else (do r' ← load M p_next (λ n. n.removed); pure (not r')))

  unfoldable pub check_removed : (p_prev p_next n : Ptr) → Cmd Bool
  check_removed p_prev p_next n = do
    r ← load M p_prev (λ m. m.removed)
    if r then pure true else (do
      r' ← load M p_next (λ m. m.removed)
      if r' then pure true else load M n (λ m. m.removed))

  unfoldable pub check_links : (p_prev p_next n : Ptr) → Cmd Bool
  check_links p_prev p_next n = do
    q ← load M p_prev (λ m. m.p_next)
    if not (q == p_next)
        then pure false
        else (do q' ← load M p_next (λ m. m.p_next); pure (q' == n))

  unfoldable pub check_remove : (p_prev p_next n : Ptr) → Cmd Bool
  unfolding check_removed check_links
  check_remove p_prev p_next n = do
    r ← check_removed p_prev p_next n
    if r then pure false else check_links p_prev p_next n
