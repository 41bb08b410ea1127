-- ===== src/Rlu/Lists.antt =====
-- rlu-hash-list.c: lists whose nodes are RLU objects. A search that goes on, and a `goto restart`,
-- use fuel.
pub mod Hash
pub mod Destroy
pub mod Search
use rcx_hashtables.Base.{
  ℕ, zero, suc, Bool, true, false, leb, ◌==◌, not, if◌then◌else◌, Option, none, some,
}
use rcx_hashtables.Machine.{list_val_min, list_val_max}
use rcx_hashtables.Rlu.{
  Ref, null, State, Env, fault, out_of_fuel, Cmd, pure, ◌>>=◌, ◌>>◌, gets, load_item, store_item,
  same_ref,
}
use rcx_hashtables.Rlu.Section.{
  rlu_alloc, free_later, free_now, rlu_reader_lock, rlu_reader_unlock, rlu_abort,
}
use rcx_hashtables.Rlu.Objects.{rlu_deref, rlu_try_lock, rlu_assign_pointer}

-- `sizeof(node_t)`: the padding is 128 pointers.
abbrev pub node_size : ℕ
node_size = 1024

-- Where a search stops: the last node below `val`, the first one that is not, and its value.
pub record Place : Type 0 where
  pub prev : Ref
  pub next : Ref
  pub val : ℕ

-- The two pointers after both nodes are locked.
pub record Locked : Type 0 where
  pub prev : Ref
  pub next : Ref

module _ (E : Env) where
  unfoldable pub rlu_new_node : Cmd Ref
  rlu_new_node = rlu_alloc E

  -- The value of `p_head`. The code only reports that there is no memory, and goes on.
  unfoldable pub rlu_new_list : Cmd Ref
  unfolding rlu_new_node
  rlu_new_list = do
    found ← gets E.malloc_struct
    p_max_node ← rlu_new_node
    store_item p_max_node (λ i. record i { val = list_val_max })
    store_item p_max_node (λ i. record i { p_next = null })
    p_min_node ← rlu_new_node
    store_item p_min_node (λ i. record i { val = list_val_min })
    store_item p_min_node (λ i. record i { p_next = p_max_node })
    if not found then (λ _. fault) else pure p_min_node

  unfoldable pub size_loop : ℕ → Ref → ℕ → Cmd ℕ
  size_loop zero p size = λ _. out_of_fuel
  size_loop (suc fuel) p size = do
    i ← load_item p
    if same_ref i.p_next null then pure size else size_loop fuel i.p_next (suc size)

  unfoldable pub list_size : ℕ → Ref → Cmd ℕ
  unfolding size_loop
  list_size fuel p_head = do i ← load_item p_head; size_loop fuel i.p_next 0

  -- RLU_DEREF(self, (p->p_next))
  unfoldable pub deref_next : Ref → Cmd Ref
  deref_next p = do i ← load_item p; rlu_deref E i.p_next

  unfoldable pub search : ℕ → (val : ℕ) → (p_prev p_next : Ref) → Cmd Place
  unfolding deref_next
  search zero val p_prev p_next = λ _. out_of_fuel
  search (suc fuel) val p_prev p_next = do
    i ← load_item p_next
    if leb val i.val
        then pure (record { prev = p_prev; next = p_next; val = i.val })
        else (do q ← deref_next p_next; search fuel val p_next q)

  unfoldable pub find : ℕ → Ref → ℕ → Cmd Place
  unfolding search
  find fuel p_head val = do
    p_prev ← rlu_deref E p_head
    p_next ← deref_next p_prev
    search fuel val p_prev p_next

  unfoldable pub rlu_list_contains : ℕ → Ref → ℕ → Cmd Bool
  rlu_list_contains fuel p_head val = do
    rlu_reader_lock E fuel
    at ← find fuel p_head val
    rlu_reader_unlock E fuel
    pure (at.val == val)

  unfoldable pub have_both : ℕ → Ref → Option Ref → Cmd (Option Locked)
  have_both fuel p_prev none = do rlu_abort E fuel; pure none
  have_both fuel p_prev (some p_next) = pure (some (record { prev = p_prev; next = p_next }))

  unfoldable pub have_prev : ℕ → Ref → Option Ref → Cmd (Option Locked)
  have_prev fuel p_next none = do rlu_abort E fuel; pure none
  have_prev fuel p_next (some p_prev) = do
    r ← rlu_try_lock E p_next node_size
    have_both fuel p_prev r

  -- The locks of both nodes, or an abort.
  unfoldable pub lock_both : ℕ → (p_prev p_next : Ref) → Cmd (Option Locked)
  unfolding have_prev have_both
  lock_both fuel p_prev p_next = do r ← rlu_try_lock E p_prev node_size; have_prev fuel p_next r

  unfoldable pub insert_node : Locked → ℕ → Cmd (Unit {0})
  unfolding rlu_new_node
  insert_node l val = do
    p_new_node ← rlu_new_node
    store_item p_new_node (λ i. record i { val = val })
    rlu_assign_pointer p_new_node l.next
    rlu_assign_pointer l.prev p_new_node

  unfoldable pub add_locked : ℕ → ℕ → Cmd ℕ → Option Locked → Cmd ℕ
  add_locked fuel val failed none = failed
  add_locked fuel val failed (some l) = do insert_node l val; rlu_reader_unlock E fuel; pure 0

  -- One round; `failed` follows an abort.
  unfoldable pub add_round : ℕ → Ref → ℕ → Cmd ℕ → Cmd ℕ
  unfolding add_locked
  add_round fuel p_head val failed = do
    rlu_reader_lock E fuel
    at ← find fuel p_head val
    if at.val == val
        then (do rlu_reader_unlock E fuel; pure 0)
        else (do l ← lock_both fuel at.prev at.next; add_locked fuel val failed l)

  unfoldable pub rlu_list_add : ℕ → Ref → ℕ → Cmd ℕ
  unfolding add_round
  rlu_list_add zero p_head val = λ _. out_of_fuel
  rlu_list_add (suc fuel) p_head val = add_round fuel p_head val (rlu_list_add fuel p_head val)

  unfoldable pub rlu_list_try_add : ℕ → Ref → ℕ → Cmd ℕ
  unfolding add_round
  rlu_list_try_add fuel p_head val = add_round fuel p_head val (pure 2)

  unfoldable pub remove_locked : ℕ → Ref → Cmd ℕ → Option Locked → Cmd ℕ
  remove_locked fuel n failed none = failed
  remove_locked fuel n failed (some l) = do
    rlu_assign_pointer l.prev n
    free_later l.next
    rlu_reader_unlock E fuel
    pure 0

  unfoldable pub remove_round : ℕ → Ref → ℕ → Cmd ℕ → Cmd ℕ
  unfolding remove_locked
  remove_round fuel p_head val failed = do
    rlu_reader_lock E fuel
    at ← find fuel p_head val
    if at.val == val
        then (do
          n ← deref_next at.next
          l ← lock_both fuel at.prev at.next
          remove_locked fuel n failed l)
        else (do rlu_reader_unlock E fuel; pure 0)

  unfoldable pub rlu_list_remove : ℕ → Ref → ℕ → Cmd ℕ
  unfolding remove_round
  rlu_list_remove zero p_head val = λ _. out_of_fuel
  rlu_list_remove (suc fuel) p_head val =
      remove_round fuel p_head val (rlu_list_remove fuel p_head val)

  unfoldable pub rlu_list_try_remove : ℕ → Ref → ℕ → Cmd ℕ
  unfolding remove_round
  rlu_list_try_remove fuel p_head val = remove_round fuel p_head val (pure 2)

-- `iter = iter->p_next` reads the node that the round has freed.
unfoldable pub destroy_nodes : ℕ → Ref → Cmd (Unit {0})
destroy_nodes zero iter = λ _. out_of_fuel
destroy_nodes (suc fuel) iter =
    if same_ref iter null
    then pure tt
    else (do free_now iter; i ← load_item iter; destroy_nodes fuel i.p_next)
