-- ===== src/Rcx.antt =====
-- rcx-hash-list.c: nodes and lists, and the transactions that its operations share.
pub mod Htm
pub mod Fallback
pub mod Bytes
pub mod Hash
use rcx_hashtables.Base.{
  ℕ, zero, suc, Bool, true, false, ◌==◌, not, if◌then◌else◌, none, some, erase,
}
use rcx_hashtables.Machine.{
  Ptr, null, list_val_min, list_val_max, Node, write, State, Machine, ok, out_of_fuel, Cmd, pure,
  ◌>>=◌, ◌>>◌, Tx, xend, xabort, exception, rcu_read_lock, rcu_read_unlock, kfree_rcu, load, store,
  kmalloc, kmalloc_struct, kfree,
}
use rcx_hashtables.Rcu.{Place, find}

-- rtm_debug.h
abbrev pub abort_double_free : ℕ
abort_double_free = 6

abbrev pub abort_conflict : ℕ
abort_conflict = 7

abbrev pub abort_lf_conflict : ℕ
abort_lf_conflict = 8

-- The tests of an insertion inside its transaction, and the insertion.
unfoldable pub tx_add : (p_prev p_next p_new_node : Ptr) → State → Tx (Unit {0})
unfolding write
tx_add p_prev p_next p_new_node s = elim (s.heap p_prev) [
  | none ↦ exception
  | some n ↦
      if not (n.p_next == p_next)
      then xabort abort_conflict
      else (if n.removed then xabort abort_double_free else elim (s.heap p_next) [
        | none ↦ exception
        | some m ↦
            if m.removed
            then xabort abort_double_free
            else xend tt (write s.heap p_prev (some (record n { p_next = p_new_node })))
      ])
]

-- The last tests of a removal, and the removal with its mark.
unfoldable pub tx_unlink : (p_prev p_next n : Ptr) (a b c : Node) → State → Tx (Unit {0})
unfolding write
tx_unlink p_prev p_next n a b c s =
    if c.removed
    then xabort abort_double_free
    else (if not (a.p_next == p_next)
        then xabort abort_conflict
        else (if not (b.p_next == n)
            then xabort abort_conflict
            else xend tt (
                write (write s.heap p_prev (some (record a { p_next = n }))) p_next
                  (some (record b { removed = true })))))

-- The removal inside its transaction. `p_prev` and `p_next` are different nodes, since the second
-- has the greater value.
unfoldable pub tx_remove : (p_prev p_next n : Ptr) → State → Tx (Unit {0})
unfolding tx_unlink
tx_remove p_prev p_next n s = elim (s.heap p_prev) [
  | none ↦ exception
  | some a ↦ if a.removed then xabort abort_double_free else elim (s.heap p_next) [
    | none ↦ exception
    | some b ↦
        if b.removed
        then xabort abort_double_free
        else elim (s.heap n) [ none ↦ exception | some c ↦ tx_unlink p_prev p_next n a b c s ]
  ]
]

-- The transaction has made the new node visible to the others.
unfoldable pub published : Ptr → Cmd (Unit {0})
published p s = ok tt (record s { owned = erase p s.owned })

module _ (M : Machine) where
  unfoldable pub rcx_new_node : Cmd Ptr
  rcx_new_node =
      kmalloc M (λ n. record n { removed = false; global_htmlock = 0; pnode_locks = λ _. 0 })

  unfoldable pub rcx_free_node : Ptr → Cmd (Unit {0})
  rcx_free_node p = kfree_rcu p

  unfoldable pub rcx_new_list : Cmd Ptr
  unfolding rcx_new_node
  rcx_new_list = do
    found ← kmalloc_struct M
    if not found then pure null else (do
      p_max_node ← rcx_new_node
      store M p_max_node (λ n. record n { val = list_val_max })
      store M p_max_node (λ n. record n { p_next = null })
      p_min_node ← rcx_new_node
      store M p_min_node (λ n. record n { val = list_val_min })
      store M p_min_node (λ n. record n { p_next = p_max_node })
      pure p_min_node)

  -- `iter = iter->p_next` reads the node that the round has freed.
  rcx_destroy_loop : ℕ → (iter p_head : Ptr) → Cmd Ptr
  rcx_destroy_loop zero iter p_head = λ _. out_of_fuel
  rcx_destroy_loop (suc fuel) iter p_head = if iter == null then pure p_head else (do
    q ← load M iter (λ n. n.p_next)
    kfree M iter
    next ← load M iter (λ n. n.p_next)
    rcx_destroy_loop fuel next q)

  unfoldable pub rcx_list_destroy : ℕ → Ptr → Cmd Ptr
  unfolding rcx_destroy_loop
  rcx_list_destroy fuel p_head = rcx_destroy_loop fuel p_head p_head

  size_loop : ℕ → Ptr → ℕ → Cmd ℕ
  size_loop zero p size = λ _. out_of_fuel
  size_loop (suc fuel) p size = do
    q ← load M p (λ n. n.p_next)
    if q == null then pure size else size_loop fuel q (suc size)

  unfoldable pub list_size : ℕ → Ptr → Cmd ℕ
  unfolding size_loop
  list_size fuel p_head = do p ← load M p_head (λ n. n.p_next); size_loop fuel p 0

  unfoldable pub rcx_list_contains : Ptr → ℕ → Cmd Bool
  rcx_list_contains p_head val = do
    rcu_read_lock
    at ← find M p_head val
    rcu_read_unlock
    pure (at.val == val)
