-- ===== src/Rcx/Fallback/Add.antt =====
-- rcx-hash-list.c: the insertions under the lock of the list, which `rcx_list_lf_add` and
-- `rcx_list_fb1_add` fall back on.
use rcx_hashtables.Base.{ℕ, ◌≡◌, ◌⊎◌, Bool, true, contains}
use rcx_hashtables.Machine.{Ptr, State, Machine}
use rcx_hashtables.Machine.Ends
use rcx_hashtables.Machine.Ends.{Ends}
use rcx_hashtables.Shared.{View, Shared}
use rcx_hashtables.Shared.Outcome.{Rests, Added}
use rcx_hashtables.Chain.{elements}

-- The result 1 says that the value is new, and 0 that it was there.
abbrev pub Reports :
    (mark : Bool) (head : Ptr) (val : ℕ) (s : State) (w : View) → ℕ → State → Type 0
Reports mark head val s w r s' =
    ((r ≡ 1) × Added mark head val s w s')
    ⊎ ((r ≡ 0)
        × (rests : Rests mark head s w s') × (contains (elements rests.view.items) val ≡ true))
