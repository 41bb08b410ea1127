-- ===== src/Tests/Tables.antt =====
-- Lookups, the ends of lists, hash lists and the abort statistics, at the list of the parent.
use rcx_hashtables.Base.{
  none, some, contains, [], ◌∷◌, ◌+◌, ◌-◌, ◌≡◌, refl, inl, inr, true, false, arith,
}
use rcx_hashtables.Machine.{null, list_val_max, Ptr, int_zero, write, fault, xabort_status}
use rcx_hashtables.Machine.Ends.{Returns}
use rcx_hashtables.Hash.{HashList, bucket_lem, Access}
use rcx_hashtables.Rcu.{rcu_list_contains, rcu_new_list}
use rcx_hashtables.Rcu.Create.{Alone, Fits, rcu_new_list_lem}
use rcx_hashtables.Shared.{Shared}
use rcx_hashtables.Shared.Locks.{AddsOrHas}
use rcx_hashtables.Rcu.Hash.{rcu_hash_list_add}
use rcx_hashtables.Rcu.Hash.Update.{rcu_hash_list_add_lem}
use rcx_hashtables.Rcu.Contains.{Answers, rcu_list_contains_lem}
use rcx_hashtables.Rcu.Spin.{rcu_list_destroy, rcu_list_remove}
use rcx_hashtables.Rcu.Spin.Sentinel.{rcu_list_remove_max_lem}
use rcx_hashtables.Rcu.Spin.Destroy.{rcu_list_destroy_lem, rcx_list_destroy_lem}
use rcx_hashtables.Rcx.{rcx_list_destroy}
use rcx_hashtables.Rcx.Htm.Add
use rcx_hashtables.Rcx.Htm.Remove
use rcx_hashtables.Rcx.Bytes.{htm, tx_lock}
use rcx_hashtables.Rcx.Bytes.Exclusion.{
  TxEnds, IsFree, IsLocked, Locks, Dangling, tx_lock-all_or_none,
}
use rcx_hashtables.Rcx.Fallback.{fallback_remove}
use rcx_hashtables.Rcx.Fallback.Remove.{fallback_remove_lem}
use rcx_hashtables.Rcx.Hash.Update
use rcx_hashtables.RtmDebug.{RtmAbortCnt, record_abort, record_abort-xabort, record_abort-raw}
use rcx_hashtables.Tests.{
  quiet, quiet-Fair, five, node_of, view, start, start-Shared, start-Private,
}

rcu_list_contains_example :
    Returns (Answers false quiet 1 five start view) (rcu_list_contains quiet 1 five start)
rcu_list_contains_example =
    rcu_list_contains_lem (quiet-Fair false 1) (omega arith) (omega arith) start view
      (start-Shared false) start-Private

rcu_list_destroy_example : rcu_list_destroy quiet 9 1 start ≡ fault
unfolding write
rcu_list_destroy_example =
    rcu_list_destroy_lem quiet (λ s. refl) start 1 (node_of 0 2) (omega arith) refl 8

rcx_list_destroy_example : rcx_list_destroy quiet 9 1 start ≡ fault
unfolding write
rcx_list_destroy_example =
    rcx_list_destroy_lem quiet (λ s. refl) start 1 (node_of 0 2) (omega arith) refl 8

-- Three buckets, and a hash list whose only bucket is the list.
abbrev three : HashList
three = record { n_buckets = 3; buckets = λ i. i + 10 }

abbrev single : HashList
single = record { n_buckets = 1; buckets = λ _. 1 }

bucket_lem_example : Access three (int_zero - 7) (omega arith) (omega arith) start
bucket_lem_example = bucket_lem three (int_zero - 7) (omega arith) (omega arith) start

abbrev no_aborts : RtmAbortCnt
no_aborts = record { counts = λ _. 0; nr_aborts = 0 }

record_abort-xabort_example :
    ((record_abort (xabort_status 7) no_aborts).nr_aborts ≡ 1)
    × ((record_abort (xabort_status 7) no_aborts).counts 7 ≡ 1)
record_abort-xabort_example = record_abort-xabort 7 (inr (inl refl)) no_aborts 7

record_abort-raw_example : (record_abort 7 no_aborts).counts 7 ≡ 0
record_abort-raw_example = record_abort-raw 7 (omega arith) 7 (inr (inl refl)) no_aborts

tx_lock-all_or_none_example :
    TxEnds
      (λ g.
        ((a : Ptr) → contains (1 ∷ 2 ∷ []) a ≡ true → IsFree htm 0 start.heap a)
        × Locks htm 0 (1 ∷ 2 ∷ []) start.heap g)
      (λ code.
        (code ≡ 7) × (a : Ptr) × (contains (1 ∷ 2 ∷ []) a ≡ true) × IsLocked htm 0 start.heap a)
      (Dangling (1 ∷ 2 ∷ []) start.heap)
      (tx_lock quiet htm (1 ∷ 2 ∷ []) start)
tx_lock-all_or_none_example = tx_lock-all_or_none quiet htm (1 ∷ 2 ∷ []) start

fallback_remove_example :
    Returns
      (λ r s'.
        (r ≡ 1)
        × (s'.heap 1 ≡ some (node_of 0 3))
        × (s'.heap 2 ≡ some (node_of five 3))
        × (s'.heap 3 ≡ some (record (node_of list_val_max null) { removed = true })))
      (fallback_remove quiet 1 five start)
unfolding write
fallback_remove_example =
    fallback_remove_lem quiet (λ s. refl) start 1 2 3 five (node_of 0 2) (node_of five 3)
      (node_of list_val_max null) refl refl refl refl refl refl refl refl refl

quiet-Alone : Alone quiet
quiet-Alone = record {
  others = λ s. refl;
  others_top = λ s. refl;
  memory = λ s. λ e. absurd (omega arith);
  unused = λ s fits. fits.vacant (s.top + 1) (omega arith);
  room = λ s. refl;
}

start-Fits : Fits start
unfolding write
start-Fits = record { vacant = λ a off. ground arith; null_free = refl }

rcu_new_list_example :
    Returns
      (λ q s'.
        ((p : Ptr) × Shared true q s'.heap (record { items = (p, list_val_max) ∷ []; gone = [] }))
        × Fits s')
      (rcu_new_list quiet start)
rcu_new_list_example = rcu_new_list_lem quiet-Alone true start start-Fits

rcu_hash_list_add_example :
    Returns
      (λ r s'. (r ≡ 0) × AddsOrHas false 1 (five + 2) start view s')
      (rcu_hash_list_add quiet single (five + 2) start)
rcu_hash_list_add_example =
    rcu_hash_list_add_lem single (omega arith) (omega arith) (omega arith) (omega arith)
      (omega arith) (quiet-Fair false 1) start view (start-Shared false) start-Private

rcu_list_remove_max_example :
    Returns
      (λ r s'. (r ≡ 0) × (s'.heap 1 ≡ some (node_of 0 null)) × (contains s'.deferred 2 ≡ true))
      (rcu_list_remove quiet 1 list_val_max (record start {
        heap =
            write (write (λ _. none) 2 (some (node_of list_val_max null))) 1 (some (node_of 0 2));
      }))
unfolding write
rcu_list_remove_max_example =
    rcu_list_remove_max_lem quiet (λ s. refl)
      (record start {
        heap =
            write (write (λ _. none) 2 (some (node_of list_val_max null))) 1 (some (node_of 0 2));
      })
      1 2 (node_of 0 2) (node_of list_val_max null) refl refl refl refl refl
