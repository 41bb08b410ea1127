-- ===== src/Rcx/Htm/Aborts.antt =====
-- Why a transaction of `rcx_list_add` or `rcx_list_remove` aborts.
use rcx_hashtables.Base.{ℕ, ◌≡◌, true, false, some, List, ◌∷◌, ◌==◌, contains}
use rcx_hashtables.Machine.{Ptr, Node, State, Machine, xbegin_started, xabort_status}
use rcx_hashtables.Rcx.{abort_double_free, abort_conflict}

-- `b` follows `a` in a list of nodes.
pub data Follows (a b : Ptr) : List Ptr → Type 0 where
  first_two : {path : List Ptr} → Follows a b (a ∷ b ∷ path)
  later_on : {c : Ptr} {path : List Ptr} → Follows a b path → Follows a b (c ∷ path)

-- The code that the transaction on the nodes `path` gives to `_xabort` at `t`: one of them is marked, or
-- one does not point to the following one any more.
pub data Refuses (path : List Ptr) (t : State) : ℕ → Type 0 where
  marked :
      (a : Ptr) (n : Node)
      → contains path a ≡ true
      → t.heap a ≡ some n
      → n.removed ≡ true
      → Refuses path t abort_double_free
  moved :
      (a b : Ptr) (n : Node)
      → Follows a b path
      → t.heap a ≡ some n
      → (n.p_next == b) ≡ false
      → Refuses path t abort_conflict

-- The status of a transaction that aborts when it starts at `t`: the processor's, or that of the code.
pub data Aborts (M : Machine) (path : List Ptr) (t : State) : ℕ → Type 0 where
  processor : (M.xbegin t == xbegin_started) ≡ false → Aborts M path t (M.xbegin t)
  refused :
      {code : ℕ}
      → (M.xbegin t == xbegin_started) ≡ true
      → Refuses path t code
      → Aborts M path t (xabort_status code)
