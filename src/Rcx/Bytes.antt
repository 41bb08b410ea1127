-- ===== src/Rcx/Bytes.antt =====
-- rcx-hash-list.c: the lock bytes of the nodes, which transactions set, and the tests under them.
-- Where the code asks for the NUMA node at each access, so does `load_byte`; `htm` does not use it.
pub mod Htmlock
pub mod Hhtmlock
pub mod Numa
pub mod Exclusion
use rcx_hashtables.Base.{
  ℕ, zero, suc, Bool, true, false, ◌==◌, not, if◌then◌else◌, Option, none, some, List, [], ◌∷◌,
}
use rcx_hashtables.Machine.{
  Ptr, Node, Heap, write, State, Machine, out_of_fuel, Cmd, pure, ◌>>=◌, ◌>>◌, Tx, xend, xabort,
  exception, load, store, assign_next, numa_node_id, rcu_read_lock, rcu_read_unlock,
}
use rcx_hashtables.Rcu.{check_removed, check_links}
use rcx_hashtables.Rcx.{abort_double_free, abort_conflict, rcx_free_node}

-- `htmlock(node)` and `pnodelock(node)`
pub data Byte : Type 0 where
  htm : Byte
  pnode : Byte

unfoldable pub byte_of : Byte → (node_id : ℕ) → Node → ℕ
byte_of htm i n = n.global_htmlock
byte_of pnode i n = n.pnode_locks i

unfoldable pub with_byte : Byte → (node_id v : ℕ) → Node → Node
with_byte htm i v n = record n { global_htmlock = v }
with_byte pnode i v n = record n { pnode_locks = λ j. if j == i then v else n.pnode_locks j }

-- `lock(p) = 1` for each node in turn.
unfoldable pub tx_set : Byte → (node_id : ℕ) → List Ptr → Heap → Tx (Unit {0})
unfolding write with_byte
tx_set b i [] h = xend tt h
tx_set b i (p ∷ ps) h = elim (h p) [
  | none ↦ exception
  | some n ↦ tx_set b i ps (write h p (some (with_byte b i 1 n)))
]

-- The tests of the bytes of `ps`, before those of `all` are set.
unfoldable pub tx_test : Byte → (node_id : ℕ) → (ps all : List Ptr) → Heap → Tx (Unit {0})
unfolding tx_set byte_of
tx_test b i [] all h = tx_set b i all h
tx_test b i (p ∷ ps) all h = elim (h p) [
  | none ↦ exception
  | some n ↦ if byte_of b i n == 1 then xabort abort_conflict else tx_test b i ps all h
]

module _ (M : Machine) where
  -- The transaction that takes the locks of some nodes.
  unfoldable pub tx_lock : Byte → List Ptr → State → Tx (Unit {0})
  unfolding tx_test
  tx_lock b ps s = tx_test b (M.numa_node_id s) ps ps s.heap

  unfoldable pub load_byte : Byte → Ptr → Cmd ℕ
  unfolding byte_of
  load_byte b p = do i ← numa_node_id M; load M p (byte_of b i)

  unfoldable pub any_set : Byte → List Ptr → Cmd Bool
  unfolding load_byte
  any_set b [] = pure false
  any_set b (p ∷ ps) = do v ← load_byte b p; if v == 1 then pure true else any_set b ps

  -- `while (lock(p_prev) == 1 || ...) ;`
  unfoldable pub wait_bytes : ℕ → Byte → List Ptr → Cmd (Unit {0})
  unfolding any_set
  wait_bytes zero b ps = λ _. out_of_fuel
  wait_bytes (suc fuel) b ps = do
    busy ← any_set b ps
    if busy then wait_bytes fuel b ps else pure tt

  -- `lock(p) = 0` for each node in turn.
  unfoldable pub clear_bytes : Byte → List Ptr → Cmd (Unit {0})
  unfolding with_byte
  clear_bytes b [] = pure tt
  clear_bytes b (p ∷ ps) = do i ← numa_node_id M; store M p (with_byte b i 0); clear_bytes b ps

  -- The tests under the locks: the code for `record_abort`, if one fails.
  unfoldable pub refuse_add : (p_prev p_next : Ptr) → Cmd (Option ℕ)
  refuse_add p_prev p_next = do
    q ← load M p_prev (λ n. n.p_next)
    if not (q == p_next) then pure (some abort_conflict) else (do
      r ← load M p_prev (λ n. n.removed)
      if r then pure (some abort_double_free) else (do
        r' ← load M p_next (λ n. n.removed)
        pure (if r' then some abort_double_free else none)))

  unfoldable pub refuse_remove : (p_prev p_next n : Ptr) → Cmd (Option ℕ)
  refuse_remove p_prev p_next n = do
    r ← check_removed M p_prev p_next n
    if r then pure (some abort_double_free) else (do
      linked ← check_links M p_prev p_next n
      pure (if linked then none else some abort_conflict))

  -- The removal under the locks.
  unfoldable pub unlink_node : (p_prev p_next n : Ptr) → Cmd (Unit {0})
  unlink_node p_prev p_next n = do
    assign_next M p_prev n
    store M p_next (λ m. record m { removed = true })
    rcx_free_node M p_next
