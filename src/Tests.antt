-- ===== src/Tests.antt =====
-- A machine without other threads, a small list, and the theorems at them.
pub mod Tables
pub mod WriteSets
pub mod Report
pub mod Readers
pub mod Crossing
pub mod Searches
pub mod Commits
pub mod Objects
pub mod Waiting
use rcx_hashtables.Base.{ℕ, ◌+◌, ◌≡◌, refl, ◌⊎◌, Bool, true, false, none, some, [], ◌∷◌, arith}
use rcx_hashtables.Machine.{
  Ptr, null, int_zero, list_val_max, Node, Heap, write, State, Machine, xbegin_started,
}
use rcx_hashtables.Machine.Ends.{Returns}
use rcx_hashtables.Chain.{nil, cons}
use rcx_hashtables.Shared.{View, Shared, Later-refl}
use rcx_hashtables.Shared.Tick.{Private, Fair, Interferes}
use rcx_hashtables.Shared.Outcome.{Rests}
use rcx_hashtables.Shared.Locks.{AddsOrHas}
use rcx_hashtables.Rcu.Spin.{rcu_list_add, rcu_list_try_add}
use rcx_hashtables.Rcu.Spin.Add.{rcu_list_add_lem, rcu_list_try_add_lem}
use rcx_hashtables.Rcx.Htm.Add
use rcx_hashtables.Rcx.Htm.Remove

abbrev pub quiet : Machine
quiet = record {
  others = λ s. s.heap;
  others_top = λ s. s.top;
  kmalloc = λ s. s.top + 1;
  garbage =
      λ _. record { val = 9; p_next = 9; removed = true; global_htmlock = 1; pnode_locks = λ _. 1 };
  kmalloc_struct = λ _. true;
  xbegin = λ _. xbegin_started;
  spin_trylock = λ _. true;
  spin_is_locked = λ _. false;
  numa_node_id = λ _. 0;
  benchmark_endtime = λ _. 0;
}

quiet-Interferes :
    (mark : Bool) (head : Ptr) (s : State) (w : View)
    → Shared mark head s.heap w
    → Private head s w
    → Interferes mark head s w s.heap s.top w
quiet-Interferes mark head s w S P = record {
  shared = S;
  later = Later-refl;
  vacant = P.vacant;
  spares = λ a k. (refl, P.unseen a k);
  frozen = λ l. (refl, λ a k. refl);
}

pub quiet-Fair : (mark : Bool) (head : Ptr) → Fair mark head quiet
quiet-Fair mark head = record {
  view = λ s w. w;
  others = quiet-Interferes mark head;
  memory = λ s. λ e. absurd (omega arith);
  unused = λ s vacant. vacant (s.top + 1) (omega arith);
}

-- The int 5.
abbrev pub five : ℕ
five = int_zero + 5

-- A node with all lock bytes clear.
abbrev pub node_of : ℕ → Ptr → Node
node_of v q = record {
  val = v;
  p_next = q;
  removed = false;
  global_htmlock = 0;
  pnode_locks = λ _. 0;
}

-- 1 → 2 → 3, with that value between the sentinels.
abbrev pub heap : Heap
heap =
    write (write (write (λ _. none) 3 (some (node_of list_val_max null))) 2 (some (node_of five 3)))
      1 (some (node_of 0 2))

abbrev pub view : View
view = record { items = (2, five) ∷ (3, list_val_max) ∷ []; gone = [] }

abbrev pub start : State
start = record {
  heap = heap;
  clock = 0;
  top = 4;
  owned = [];
  held = [];
  read_locks = 0;
  read_unlocks = 0;
  deferred = [];
  aborts = [];
}

pub start-Shared : (mark : Bool) → Shared mark 1 heap view
unfolding write
start-Shared mark = record {
  null_free = refl;
  chain =
      cons (record { node = node_of 0 2; holds = refl; val_eq = refl; next_eq = refl; live = refl })
        (omega arith)
        (cons
          (record {
            node = node_of five 3;
            holds = refl;
            val_eq = refl;
            next_eq = refl;
            live = refl;
          })
          (omega arith)
          (cons
            (record {
              node = node_of list_val_max null;
              holds = refl;
              val_eq = refl;
              next_eq = refl;
              live = refl;
            })
            (omega arith) nil));
  last = refl;
  gone_node = λ a off. absurd (cc);
}

pub start-Private : Private 1 start view
unfolding write
start-Private = record {
  unseen = λ a k. absurd (cc);
  backed = λ a k. absurd (cc);
  vacant = λ a k. ground arith;
}

rcu_list_add_example :
    Returns (λ r s'. (r ≡ 0) × AddsOrHas false 1 7 start view s') (rcu_list_add quiet 1 7 start)
rcu_list_add_example =
    rcu_list_add_lem (quiet-Fair false 1) (omega arith) (omega arith) start view
      (start-Shared false) start-Private

rcu_list_try_add_example :
    Returns
      (λ r s'.
        ((r ≡ 0) × AddsOrHas false 1 7 start view s' × (true ≡ true))
        ⊎ ((r ≡ 2) × Rests false 1 start view s' × (true ≡ false)))
      (rcu_list_try_add quiet 1 7 start)
rcu_list_try_add_example =
    rcu_list_try_add_lem (quiet-Fair false 1) (omega arith) (omega arith) start view
      (start-Shared false) start-Private
