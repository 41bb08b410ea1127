-- ===== src/Machine.antt =====
-- The memory of hash-list.h and the kernel primitives that the lists are built from. A command is a
-- function of the state of the thread that runs it. Before each of its accesses to shared memory
-- the other threads may take any number of steps: the machine says which.
pub mod Ends
use rcx_hashtables.Base.{
  ℕ, zero, suc, ◌+◌, ◌-◌, ◌*◌, ◌^◌, Bool, true, false, ◌||◌, Option, none, some, List, [], ◌∷◌,
  ◌==◌, if◌then◌else◌, contains, erase,
}

abbrev pub Ptr : Type 0
Ptr = ℕ

abbrev pub null : Ptr
null = 0

-- A `val_t` is an `int`. It is kept as its distance from INT_MIN, which preserves the order.
abbrev pub int_min : ℕ
int_min = 0

abbrev pub int_zero : ℕ
int_zero = 2 ^ 31

abbrev pub int_max : ℕ
int_max = 2 ^ 32 - 1

abbrev pub list_val_min : ℕ
list_val_min = int_min

abbrev pub list_val_max : ℕ
list_val_max = int_max

-- `node_t`. The spinlocks of a node are in the list of locks that a thread holds. The lock bytes
-- that the list code writes itself are here, `pnode_locks` with one for each NUMA node.
pub record Node : Type 0 where
  pub val : ℕ
  pub p_next : Ptr
  pub removed : Bool
  pub global_htmlock : ℕ
  pub pnode_locks : ℕ → ℕ

abbrev pub Heap : Type 0
Heap = Ptr → Option Node

unfoldable pub write : Heap → Ptr → Option Node → Heap
write h p c a = if a == p then c else h a

-- The spinlocks: that of a list, and those of a node.
pub data Lock : Type 0 where
  rcuspin : Ptr → Lock
  global_lock : Ptr → Lock
  pnd_slock : ℕ → Ptr → Lock

unfoldable pub same_lock : Lock → Lock → Bool
same_lock (rcuspin p) (rcuspin q) = p == q
same_lock (global_lock p) (global_lock q) = p == q
same_lock (pnd_slock i p) (pnd_slock j q) = if i == j then p == q else false
same_lock _ _ = false

unfoldable pub holds : List Lock → Lock → Bool
unfolding same_lock
holds [] l = false
holds (k ∷ ks) l = same_lock k l || holds ks l

unfoldable pub release : Lock → List Lock → List Lock
unfolding same_lock
release l [] = []
release l (k ∷ ks) = if same_lock k l then ks else k ∷ release l ks

-- The state of the running thread, with the heap that it shares.
-- `clock` counts its steps, no address from `top` on is in use, `owned` are its nodes that no other thread has seen, `held` its locks;
-- `read_locks` and `read_unlocks` count the calls of `rcu_read_lock` and `rcu_read_unlock`;
-- `deferred` are the nodes given to `kfree_rcu`, `aborts` the codes given to `record_abort`.
pub record State : Type 0 where
  pub heap : Heap
  pub clock : ℕ
  pub top : ℕ
  pub owned : List Ptr
  pub held : List Lock
  pub read_locks : ℕ
  pub read_unlocks : ℕ
  pub deferred : List Ptr
  pub aborts : List ℕ

-- What the kernel, the processor and the other threads do.
pub record Machine : Type 0 where
  pub others : State → Heap
  pub others_top : State → ℕ
  pub kmalloc : State → Ptr
  pub garbage : State → Node
  pub kmalloc_struct : State → Bool
  pub xbegin : State → ℕ
  pub spin_trylock : State → Bool
  pub spin_is_locked : State → Bool
  pub numa_node_id : State → ℕ
  pub benchmark_endtime : State → ℕ

pub data Run (A : Type 0) : Type 0 where
  ok : A → State → Run A
  fault : Run A
  out_of_fuel : Run A

abbrev pub Cmd : Type 0 → Type 0
Cmd A = State → Run A

abbrev pub pure : {A : Type 0} → A → Cmd A
pure = ok

module _ {A B : Type 0} where
  abbrev pub and_then : Run A → (A → Cmd B) → Run B
  and_then (ok a s) k = k a s
  and_then fault k = fault
  and_then out_of_fuel k = out_of_fuel

  infixl 5 ◌>>=◌ ◌>>◌
  abbrev pub ◌>>=◌ : Cmd A → (A → Cmd B) → Cmd B
  m >>= k = λ s. and_then (m s) k

  abbrev pub ◌>>◌ : Cmd A → Cmd B → Cmd B
  m >> n = m >>= λ _. n

-- Commands that touch only what the thread keeps for itself.
unfoldable pub rcu_read_lock : Cmd (Unit {0})
rcu_read_lock s = ok tt (record s { read_locks = s.read_locks + 1 })

unfoldable pub rcu_read_unlock : Cmd (Unit {0})
rcu_read_unlock s = ok tt (record s { read_unlocks = s.read_unlocks + 1 })

unfoldable pub kfree_rcu : Ptr → Cmd (Unit {0})
kfree_rcu p s = ok tt (record s { deferred = p ∷ s.deferred })

unfoldable pub record_abort : ℕ → Cmd (Unit {0})
record_abort stat s = ok tt (record s { aborts = stat ∷ s.aborts })

unfoldable pub spin_unlock : Lock → Cmd (Unit {0})
unfolding release
spin_unlock l s = ok tt (record s { held = release l s.held })

-- The end of a transaction: what it did, the code of `_xabort`, or a bad access, which aborts with
-- no bit set.
pub data Tx (A : Type 0) : Type 0 where
  xend : A → Heap → Tx A
  xabort : ℕ → Tx A
  exception : Tx A

pub data TxStat (A : Type 0) : Type 0 where
  committed : A → TxStat A
  aborted : ℕ → TxStat A

-- rtm.h
abbrev pub xbegin_started : ℕ
xbegin_started = 2 ^ 32 - 1

abbrev pub xabort_explicit : ℕ
xabort_explicit = 1

abbrev pub xabort_retry : ℕ
xabort_retry = 2

abbrev pub xabort_status : ℕ → ℕ
xabort_status code = code * 2 ^ 24 + xabort_explicit

module _ (M : Machine) where
  -- The other threads take their steps.
  unfoldable pub tick : State → State
  tick s = record s { heap = M.others s; clock = s.clock + 1; top = M.others_top s }

  read : {A : Type 0} → Ptr → (Node → A) → State → Run A
  read p f s = elim (s.heap p) [ none ↦ fault | some n ↦ ok (f n) s ]

  -- `p->field`
  unfoldable pub load : {A : Type 0} → Ptr → (Node → A) → Cmd A
  unfolding tick read
  load p f s = read p f (tick s)

  modify : Ptr → (Node → Node) → State → Run (Unit {0})
  modify p f s = elim (s.heap p) [
    | none ↦ fault
    | some n ↦ ok tt (record s { heap = write s.heap p (some (f n)) })
  ]

  -- `p->field = ...`
  unfoldable pub store : Ptr → (Node → Node) → Cmd (Unit {0})
  unfolding tick modify write
  store p f s = modify p f (tick s)

  -- `rcu_assign_pointer(p->p_next, q)`: from here on the others can see `q`.
  unfoldable pub assign_next : Ptr → Ptr → Cmd (Unit {0})
  unfolding store
  assign_next p q = do
    store p (λ n. record n { p_next = q })
    λ s. ok tt (record s { owned = erase q s.owned })

  -- The memory of a new node, or NULL. It holds what it held before, and `init` are the writes to it
  -- that follow at once.
  unfoldable pub kmalloc : (init : Node → Node) → Cmd Ptr
  unfolding write
  kmalloc init s =
      if M.kmalloc s == null
      then ok null s
      else ok (M.kmalloc s) (record s {
        heap = write s.heap (M.kmalloc s) (some (init (M.garbage s)));
        clock = s.clock + 1;
        top = suc (s.top + M.kmalloc s);
        owned = M.kmalloc s ∷ s.owned;
      })

  -- Whether there is memory for a `list_t` or a `hash_list_t`, which are not in the heap.
  unfoldable pub kmalloc_struct : Cmd Bool
  kmalloc_struct s = ok (M.kmalloc_struct s) s

  unfoldable pub kfree : Ptr → Cmd (Unit {0})
  unfolding write
  kfree p s =
      ok tt (record s { heap = write s.heap p none; clock = s.clock + 1; owned = erase p s.owned })

  -- The call returns when the thread has the lock.
  unfoldable pub spin_lock : Lock → Cmd (Unit {0})
  unfolding tick
  spin_lock l s = let s' = tick s in ok tt (record s' { held = l ∷ s'.held })

  unfoldable pub spin_trylock : Lock → Cmd Bool
  unfolding spin_lock
  spin_trylock l s = if M.spin_trylock s then (spin_lock l >> pure true) s else ok false (tick s)

  unfoldable pub spin_is_locked : Cmd Bool
  unfolding tick
  spin_is_locked s = ok (M.spin_is_locked s) (tick s)

  -- `while (spin_is_locked(...)) ;`
  unfoldable pub wait_unlocked : ℕ → Cmd (Unit {0})
  wait_unlocked zero = λ _. out_of_fuel
  wait_unlocked (suc fuel) = do
    locked ← spin_is_locked
    if locked then wait_unlocked fuel else pure tt

  unfoldable pub numa_node_id : Cmd ℕ
  numa_node_id s = ok (M.numa_node_id s) s

  unfoldable pub benchmark_endtime : Cmd ℕ
  unfolding tick
  benchmark_endtime s = ok (M.benchmark_endtime s) (tick s)

  commit : {A : Type 0} → Tx A → Cmd (TxStat A)
  commit (xend a h) s = ok (committed a) (record s { heap = h })
  commit (xabort code) s = ok (aborted (xabort_status code)) s
  commit exception s = ok (aborted 0) s

  -- From `_xbegin` to `_xend`. The others take no step inside, and an abort undoes its writes.
  unfoldable pub transaction : {A : Type 0} → (State → Tx A) → Cmd (TxStat A)
  unfolding tick commit
  transaction body s =
      let s' = tick s in
      if M.xbegin s' == xbegin_started then commit (body s') s' else ok (aborted (M.xbegin s')) s'
