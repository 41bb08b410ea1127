-- ===== src/Rcu/Hash/Update.antt =====
-- rcu-hash-list.c: `rcu_hash_list_add` and `rcu_hash_list_remove` work on the bucket of the value.
use rcx_hashtables.Base.{ℕ, ◌-◌, ◌%◌, ◌<◌, ◌≤◌, ◌≡◌, false}
use rcx_hashtables.Machine.{int_zero, list_val_max, State, Machine}
use rcx_hashtables.Machine.Ends.{Returns}
use rcx_hashtables.Shared.{View, Shared}
use rcx_hashtables.Shared.Tick.{Private, Fair}
use rcx_hashtables.Shared.Locks.{AddsOrHas}
use rcx_hashtables.Hash.{HashList, max_buckets, bucket-pos, bucket-Ends}
use rcx_hashtables.Rcu.Spin.{rcu_list_add}
use rcx_hashtables.Rcu.Spin.Add.{rcu_list_add_lem}
use rcx_hashtables.Rcu.Hash.{rcu_hash_list_add}

module _ (g : HashList) {val : ℕ} (some_ : 0 < g.n_buckets) (most : g.n_buckets ≤ max_buckets)
    (positive : int_zero ≤ val) (pos : 0 < val) (small : val < list_val_max) {M : Machine}
    (F : Fair false (g.buckets ((val - int_zero) % g.n_buckets)) M) where
  -- `rcu_hash_list_add` of a value from 0 to below INT_MAX, in a hash list of 1 to MAX_BUCKETS buckets,
  -- returns 0, whatever the others do, if kmalloc finds memory. The value is then in the list of the bucket with the index `val % n_buckets`: the call has inserted it, or
  -- it was there.
  pub rcu_hash_list_add_lem :
      (s : State) (w : View)
      → Shared false (g.buckets ((val - int_zero) % g.n_buckets)) s.heap w
      → Private (g.buckets ((val - int_zero) % g.n_buckets)) s w
      → Returns
          (λ r s'.
            (r ≡ 0) × AddsOrHas false (g.buckets ((val - int_zero) % g.n_buckets)) val s w s')
          (rcu_hash_list_add M g val s)
  unfolding rcu_hash_list_add
  rcu_hash_list_add_lem s w S P =
      bucket-Ends g val (g.buckets ((val - int_zero) % g.n_buckets)) s (λ p. rcu_list_add M p val)
        (bucket-pos g val some_ most positive s) (rcu_list_add_lem F small pos s w S P)
